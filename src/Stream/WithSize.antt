-- ===== src/Stream/WithSize.antt =====
-- src/base/stream_msg_with_size_reader.*: the subclass for messages that follow a size field. The
-- template parameter is the type of the size field.
use dory.Common.{
  ℕ, ◌+◌, ◌-◌, ◌%◌, ◌^◌, Bool, not, ◌&&◌, ◌||◌, Option, none, some, length, ltb, if◌then◌else◌,
}
use dory.Common.Int.{ℤ, pos, negsuc}
use dory.Common.Word.{of_u16, of_u32, of_u64}
use dory.Common.Bytes.{Bytes, byte_at, read_u16, read_u32, read_u64}
use dory.Stream.Reader.{GetMsgResult, ready, no_msg_ready, invalid, Subclass}

pub data SizeFieldType : Type 0 where
  uint8 uint16 uint32 uint64 int8 int16 int32 int64 : SizeFieldType

unfoldable pub size_of : SizeFieldType → ℕ
size_of uint8 = 1
size_of uint16 = 2
size_of uint32 = 4
size_of uint64 = 8
size_of int8 = 1
size_of int16 = 2
size_of int32 = 4
size_of int64 = 8

-- A negative size is none.
abbrev pub nonnegative : ℤ → Option ℕ
nonnegative (pos n) = some n
nonnegative (negsuc n) = none

abbrev pub of_u8 : ℕ → ℤ
of_u8 u = if ltb u (2 ^ 7) then pos u else negsuc (2 ^ 8 - 1 - u)

-- The function that ChooseSizeFieldReadFn picks, applied to the start of the data.
unfoldable pub read_size_field : SizeFieldType → Bytes → Option ℕ
read_size_field uint8 bytes = some (byte_at 0 bytes)
read_size_field uint16 bytes = some (read_u16 bytes)
read_size_field uint32 bytes = some (read_u32 bytes)
read_size_field uint64 bytes = some (read_u64 bytes)
read_size_field int8 bytes = nonnegative (of_u8 (byte_at 0 bytes))
read_size_field int16 bytes = nonnegative (of_u16 (read_u16 bytes))
read_size_field int32 bytes = nonnegative (of_u32 (read_u32 bytes))
read_size_field int64 bytes = nonnegative (of_u64 (read_u64 bytes))

pub data DataInvalidReason : Type 0 where
  invalid_size_field msg_body_too_large : DataInvalidReason

pub record SizeReader : Type 0 where
  pub size_field_type : SizeFieldType
  pub size_includes_size_field : Bool
  pub include_size_field_in_msg : Bool
  pub max_msg_body_size : ℕ
  pub preferred_read_size : ℕ
  pub opt_msg_body_size : Option ℕ
  pub opt_data_invalid_reason : Option DataInvalidReason

-- The second half of GetNextMsg, with the size of the body known; size_t wraps around.
unfoldable pub report_msg : SizeReader → ℕ → ℕ → SizeReader × GetMsgResult
report_msg s data_size body_size =
    let field_size = size_of s.size_field_type in
    if ltb data_size ((field_size + body_size) % 2 ^ 64)
    then (s, no_msg_ready)
    else if s.include_size_field_in_msg
    then (s, ready 0 ((body_size + field_size) % 2 ^ 64) 0)
    else (s, ready field_size body_size 0)

unfoldable pub check_size : SizeReader → ℕ → ℕ → SizeReader × GetMsgResult
unfolding report_msg
check_size s data_size size =
    let field_size = size_of s.size_field_type in
    let body_size = if s.size_includes_size_field then size - field_size else size in
    if s.size_includes_size_field && ltb size field_size
    then (record s { opt_data_invalid_reason = some invalid_size_field }, invalid)
    else if ltb s.max_msg_body_size size
        && (not s.size_includes_size_field || ltb field_size (size - s.max_msg_body_size))
    then (record s { opt_data_invalid_reason = some msg_body_too_large }, invalid)
    else report_msg (record s { opt_msg_body_size = some body_size }) data_size body_size

-- The first half, with what the size field reads as.
unfoldable pub begin_msg : SizeReader → ℕ → Option ℕ → SizeReader × GetMsgResult
unfolding check_size
begin_msg s data_size none =
    (record s { opt_data_invalid_reason = some invalid_size_field }, invalid)
begin_msg s data_size (some size) = check_size s data_size size

unfoldable pub get_next_msg : SizeReader → Bytes → Bool → SizeReader × GetMsgResult
unfolding begin_msg report_msg
get_next_msg s bytes end_of_input =
    if ltb (length bytes) (size_of s.size_field_type)
    then (s, no_msg_ready)
    else elim s.opt_msg_body_size [
      | some body_size ↦ report_msg s (length bytes) body_size
      | none ↦ begin_msg s (length bytes) (read_size_field s.size_field_type bytes)
    ]

abbrev pub size_reader_methods : Subclass SizeReader
size_reader_methods = record {
  get_next_read_size = λ s. s.preferred_read_size;
  get_next_msg = get_next_msg;
  handle_reset = λ s. record s { opt_msg_body_size = none; opt_data_invalid_reason = none };
  before_consume_ready_msg = λ s. record s { opt_msg_body_size = none };
}

unfoldable pub new_size_reader : SizeFieldType → Bool → Bool → ℕ → ℕ → SizeReader
new_size_reader size_field_type size_includes include_in_msg max_msg_body_size preferred_read_size =
    record {
      size_field_type = size_field_type;
      size_includes_size_field = size_includes;
      include_size_field_in_msg = include_in_msg;
      max_msg_body_size = max_msg_body_size;
      preferred_read_size = preferred_read_size;
      opt_msg_body_size = none;
      opt_data_invalid_reason = none;
    }
