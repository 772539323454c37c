-- ===== src/Stream/Decode.antt =====
-- What GetNextMsg of the reader of messages with a size field reports, against the frame at the start
-- of the buffered bytes.
use dory.Common.{
  ℕ, ◌+◌, ◌-◌, ◌%◌, ◌^◌, ◌≤◌, ◌<◌, ◌≡◌, ◌⊎◌, inl, inr, refl, ◌∙◌, ◌++◌, arith, length,
  length-append, take, drop, ltb, Bool, Bool-cases, true, false, if◌then◌else◌, ◌&&◌, ◌||◌, not,
  Option, none, some,
}
use dory.Common.Bytes.{Bytes}
use dory.Stream.Reader.{GetMsgResult, ready, no_msg_ready, invalid}
use dory.Stream.WithSize.{
  SizeFieldType, uint8, uint16, uint32, uint64, int8, int16, int32, int64, size_of, read_size_field,
  SizeReader, report_msg, check_size, begin_msg, get_next_msg, DataInvalidReason,
  invalid_size_field, msg_body_too_large,
}
use dory.Stream.Frames.{
  Format, format, field_size, complete, partial, malformed, frame, message, size_announced,
  announced, limit_size, announced_by,
}
use dory.Stream.Frames.Append.{
  size_announced-append, frame-complete, frame-malformed_of, frame-short, frame-partial,
}

-- The size of a body that is remembered is the one that the buffered bytes announce.
abbrev pub Synced : SizeReader → Bytes → Type 0
Synced s bytes =
    (s.opt_msg_body_size ≡ none)
    ⊎ ((field_size (format s) ≤ length bytes)
        × (body : ℕ) × (s.opt_msg_body_size ≡ some body)
        × (size_announced (format s) bytes ≡ some body))

pub Synced-append :
    (s : SizeReader) (bytes more : Bytes) → Synced s bytes → Synced s (bytes ++ more)
Synced-append s bytes more (inl e) = inl e
Synced-append s bytes more (inr (long, body, e, k)) = inr (
  omega (arith, long, length-append bytes more),
  body,
  e,
  size_announced-append (format s) bytes more long ∙ k,
)

pub data Decoded (f : Format) (bytes : Bytes) : SizeReader → GetMsgResult → Type 0 where
  incomplete :
      {s : SizeReader}
      → format s ≡ f
      → Synced s bytes
      → frame f bytes ≡ partial
      → Decoded f bytes s no_msg_ready
  whole :
      {s : SizeReader} {msg rest : Bytes} {offset size : ℕ}
      → format s ≡ f
      → frame f bytes ≡ complete msg rest
      → offset + size ≤ length bytes
      → take size (drop offset bytes) ≡ msg
      → drop (offset + size) bytes ≡ rest
      → 0 < offset + size
      → Decoded f bytes s (ready offset size 0)
  refused :
      {s : SizeReader} (reason : DataInvalidReason)
      → format s ≡ f
      → s.opt_data_invalid_reason ≡ some reason
      → frame f bytes ≡ malformed
      → Decoded f bytes s invalid

size_of_bounds : (t : SizeFieldType) → (1 ≤ size_of t) × (size_of t ≤ 8)
unfolding size_of
size_of_bounds uint8 = omega arith
size_of_bounds uint16 = omega arith
size_of_bounds uint32 = omega arith
size_of_bounds uint64 = omega arith
size_of_bounds int8 = omega arith
size_of_bounds int16 = omega arith
size_of_bounds int32 = omega arith
size_of_bounds int64 = omega arith

announced-le :
    (f : Format) (size : ℕ) {body : ℕ} → announced f size ≡ some body → body ≤ f.max_msg_body_size
unfolding announced
announced-le f size h = ground arith

size_announced-le :
    (f : Format) (bytes : Bytes) {body : ℕ}
    → size_announced f bytes ≡ some body
    → body ≤ f.max_msg_body_size
unfolding size_announced
size_announced-le f bytes {body} h = read_as (read_size_field f.size_field_type bytes) h
  where
    read_as : (o : Option ℕ) → announced_by f o ≡ some body → body ≤ f.max_msg_body_size
    read_as none h' = absurd cc
    read_as (some size) h' = announced-le f size h'

-- What a pair of the reader's state and its report says of the bytes.
abbrev pub Reports : Format → Bytes → SizeReader × GetMsgResult → Type 0
Reports f bytes p = Decoded f bytes p.0 p.1

-- The two places at which a whole message is reported.
offered-Reports :
    (s : SizeReader) (bytes : Bytes) (n body : ℕ) (with_field : Bool)
    → n + body ≤ length bytes
    → 0 < n
    → frame (format s) bytes
      ≡ complete
          (if with_field then take (n + body) bytes else take body (drop n bytes))
          (drop (n + body) bytes)
    → Reports
        (format s)
        bytes
        (if with_field then (s, ready 0 (n + body) 0) else (s, ready n body 0))
offered-Reports s bytes n body true here positive found =
    let e : 0 + (n + body) ≡ n + body = omega arith in
    whole refl found (omega (arith, here)) refl (rw e refl) (omega (arith, positive))
offered-Reports s bytes n body false here positive found =
    whole refl found here refl refl (omega (arith, positive))

report_msg-Reports :
    (s : SizeReader) (bytes : Bytes) (body : ℕ)
    → s.max_msg_body_size + 8 < 2 ^ 64
    → field_size (format s) ≤ length bytes
    → s.opt_msg_body_size ≡ some body
    → size_announced (format s) bytes ≡ some body
    → Reports (format s) bytes (report_msg s (length bytes) body)
unfolding report_msg message
report_msg-Reports s bytes body fits long h k =
    let field = size_of_bounds s.size_field_type in
    let small = size_announced-le (format s) bytes k in
    let n : ℕ = size_of s.size_field_type in
    let wrap : (n + body) % 2 ^ 64 ≡ n + body = omega arith in
    let wrap' : (body + n) % 2 ^ 64 ≡ n + body = omega arith in
    elim (Bool-cases (ltb (length bytes) (n + body))) [
      | inl t ↦
          let cut : frame (format s) bytes ≡ partial =
            frame-partial (format s) bytes body k long (ground (arith, t)) in
          rw (wrap, t) (incomplete refl (inr (long, body, h, k)) cut)
      | inr t ↦
          let here : n + body ≤ length bytes = ground (arith, t) in
          let found = frame-complete (format s) bytes body k here in
          rw (wrap, t, wrap')
            (offered-Reports s bytes n body s.include_size_field_in_msg here (omega arith) found)
    ]

-- The tests of the code are those of the format, with and without the size field counted.
checked-Reports :
    (s : SizeReader) (bytes : Bytes) (size : ℕ) (counted : Bool)
    → s.max_msg_body_size + 8 < 2 ^ 64
    → field_size (format s) ≤ length bytes
    → size_announced (format s) bytes ≡ (
        if counted
        then (if ltb size (field_size (format s))
            then none
            else limit_size (format s) (size - field_size (format s)))
        else limit_size (format s) size)
    → let n = field_size (format s) in
      let body = if counted then size - n else size in
      Reports (format s) bytes (
        if counted && ltb size n
        then (record s { opt_data_invalid_reason = some invalid_size_field }, invalid)
        else if ltb s.max_msg_body_size size && (not counted || ltb n (size - s.max_msg_body_size))
        then (record s { opt_data_invalid_reason = some msg_body_too_large }, invalid)
        else report_msg (record s { opt_msg_body_size = some body }) (length bytes) body)
checked-Reports s bytes size true fits long h =
    let n = field_size (format s) in
    let none_here = frame-malformed_of (format s) bytes long in
    elim (Bool-cases (ltb size n)) [
      | inl t ↦ rw t (refused invalid_size_field refl refl (none_here (rw t at h)))
      | inr t ↦
          let h' : size_announced (format s) bytes ≡ limit_size (format s) (size - n) = rw t at h in
          let enough : n ≤ size = ground (arith, t) in
          elim (Bool-cases (ltb s.max_msg_body_size (size - n))) [
            | inl u ↦
                let a : ltb s.max_msg_body_size size ≡ true = ground (arith, u) in
                let b : ltb n (size - s.max_msg_body_size) ≡ true = ground (arith, u) in
                rw (t, a, b) (refused msg_body_too_large refl refl (none_here (rw u at h')))
            | inr u ↦
                let a : ltb s.max_msg_body_size size && ltb n (size - s.max_msg_body_size) ≡ false =
                  ground (arith, u) in
                rw (t, a)
                  (report_msg-Reports (record s { opt_msg_body_size = some (size - n) }) bytes
                    (size - n) fits long refl (rw u at h'))
          ]
    ]
checked-Reports s bytes size false fits long h = elim (Bool-cases (ltb s.max_msg_body_size size)) [
  | inl u ↦
      rw u (
        refused msg_body_too_large refl refl (frame-malformed_of (format s) bytes long (rw u at h)))
  | inr u ↦ rw u (
      report_msg-Reports (record s { opt_msg_body_size = some size }) bytes size fits long refl
        (rw u at h))
]

check_size-Reports :
    (s : SizeReader) (bytes : Bytes) (size : ℕ)
    → s.max_msg_body_size + 8 < 2 ^ 64
    → field_size (format s) ≤ length bytes
    → size_announced (format s) bytes ≡ announced (format s) size
    → Reports (format s) bytes (check_size s (length bytes) size)
unfolding check_size announced
check_size-Reports s bytes size fits long h =
    checked-Reports s bytes size s.size_includes_size_field fits long h

begin_msg-Reports :
    (s : SizeReader) (bytes : Bytes) (o : Option ℕ)
    → s.max_msg_body_size + 8 < 2 ^ 64
    → field_size (format s) ≤ length bytes
    → size_announced (format s) bytes ≡ announced_by (format s) o
    → Reports (format s) bytes (begin_msg s (length bytes) o)
unfolding begin_msg
begin_msg-Reports s bytes none fits long h =
    refused invalid_size_field refl refl (frame-malformed_of (format s) bytes long h)
begin_msg-Reports s bytes (some size) fits long h = check_size-Reports s bytes size fits long h

-- Whatever the buffer holds, the reader reports the frame at its start.
pub get_next_msg-Reports :
    (s : SizeReader) (bytes : Bytes) (end_of_input : Bool)
    → s.max_msg_body_size + 8 < 2 ^ 64
    → Synced s bytes
    → Reports (format s) bytes (get_next_msg s bytes end_of_input)
unfolding get_next_msg size_announced
get_next_msg-Reports s bytes end_of_input fits sync =
    elim (Bool-cases (ltb (length bytes) (size_of s.size_field_type))) [
      | inl t ↦ rw t (incomplete refl sync (frame-short (format s) bytes (ground (arith, t))))
      | inr t ↦
          let long : size_of s.size_field_type ≤ length bytes = ground (arith, t) in
          elim sync [
            | inl e ↦
                rw (t, e)
                  (begin_msg-Reports s bytes (read_size_field s.size_field_type bytes) fits long
                    refl)
            | inr (_, body, e, k) ↦ rw (t, e) (report_msg-Reports s bytes body fits long e k)
          ]
    ]
