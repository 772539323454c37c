-- ===== src/Stream/Frames.antt =====
-- The format that src/base/stream_msg_with_size_reader.h documents, read off the bytes alone: what
-- the first message of a stream is, and which messages a stream holds.
use dory.Common.{
  ℕ, zero, suc, ◌+◌, ◌-◌, ◌≤◌, ◌<◌, ◌≡◌, inl, inr, refl, ap, ◌∙◌, [], ◌∷◌, ◌++◌, arith, length,
  take, drop, ltb, if◌then◌else◌, Bool, Bool-cases, true, false, Option, none, some, length-append,
  length-drop,
}
use dory.Common.Bytes.{Bytes, byte_at, read_u16, read_u32, read_u64}
use dory.Common.Word.{of_u16, of_u32, of_u64}
use dory.Common.Slices.{take-append_le, drop-append_le}
use dory.Stream.WithSize.{
  SizeFieldType, uint8, uint16, uint32, uint64, int8, int16, int32, int64, size_of, read_size_field,
  SizeReader, nonnegative, of_u8,
}
pub mod Append

-- A stream's format, and how many bytes are read at a time.
pub record Format : Type 0 where
  pub size_field_type : SizeFieldType
  pub size_includes_size_field : Bool
  pub include_size_field_in_msg : Bool
  pub max_msg_body_size : ℕ
  pub preferred_read_size : ℕ

abbrev pub format : SizeReader → Format
format s = record {
  size_field_type = s.size_field_type;
  size_includes_size_field = s.size_includes_size_field;
  include_size_field_in_msg = s.include_size_field_in_msg;
  max_msg_body_size = s.max_msg_body_size;
  preferred_read_size = s.preferred_read_size;
}

abbrev pub field_size : Format → ℕ
field_size f = size_of f.size_field_type

abbrev pub limit_size : Format → ℕ → Option ℕ
limit_size f n = if ltb f.max_msg_body_size n then none else some n

-- The size of the body that a size field announces, where it announces one.
unfoldable pub announced : Format → ℕ → Option ℕ
announced f size =
    if f.size_includes_size_field
    then (if ltb size (field_size f) then none else limit_size f (size - field_size f))
    else limit_size f size

abbrev pub announced_by : Format → Option ℕ → Option ℕ
announced_by f none = none
announced_by f (some size) = announced f size

unfoldable pub size_announced : Format → Bytes → Option ℕ
size_announced f bytes = announced_by f (read_size_field f.size_field_type bytes)

-- The start of a stream: a whole message with the bytes behind it, too few bytes to tell, or a size field
-- that no message has.
pub data Frame : Type 0 where
  complete : Bytes → Bytes → Frame
  partial malformed : Frame

unfoldable pub message : Format → ℕ → Bytes → Bytes
message f body bytes =
    if f.include_size_field_in_msg
    then take (field_size f + body) bytes
    else take body (drop (field_size f) bytes)

unfoldable pub frame_of : Format → Bytes → Option ℕ → Frame
frame_of f bytes none = malformed
frame_of f bytes (some body) =
    if ltb (length bytes) (field_size f + body)
    then partial
    else complete (message f body bytes) (drop (field_size f + body) bytes)

unfoldable pub frame : Format → Bytes → Frame
frame f bytes =
    if ltb (length bytes) (field_size f) then partial else frame_of f bytes (size_announced f bytes)
