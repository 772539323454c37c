-- ===== src/Stream/Frames/Append.antt =====
-- The start of a stream of src/base/stream_msg_with_size_reader.h, with more bytes behind it.
use dory.Common.{
  ℕ, zero, suc, ◌+◌, ◌≤◌, ◌<◌, ◌≡◌, inl, inr, refl, ap, ◌∙◌, [], ◌∷◌, ◌++◌, arith, length, drop,
  ltb, Bool-cases, true, false, Option, none, some, length-append, length-drop,
}
use dory.Common.Bytes.{Bytes, byte_at, read_u16, read_u32, read_u64}
use dory.Common.Word.{of_u16, of_u32, of_u64}
use dory.Common.Slices.{take-append_le, drop-append_le}
use dory.Stream.WithSize.{
  SizeFieldType, uint8, uint16, uint32, uint64, int8, int16, int32, int64, size_of, read_size_field,
  nonnegative, of_u8,
}
use dory.Stream.Frames.{
  Format, field_size, size_announced, message, frame_of, frame, complete, partial, malformed,
}

byte_at-append : (i : ℕ) (xs ys : Bytes) → i < length xs → byte_at i (xs ++ ys) ≡ byte_at i xs
unfolding byte_at
byte_at-append i [] ys h = absurd (omega arith)
byte_at-append zero (x ∷ xs) ys h = refl
byte_at-append (suc i) (x ∷ xs) ys h = byte_at-append i xs ys (omega arith)

read_u16-append : (xs ys : Bytes) → 2 ≤ length xs → read_u16 (xs ++ ys) ≡ read_u16 xs
unfolding read_u16
read_u16-append xs ys h =
    let at : (i : ℕ) → i < 2 → byte_at i (xs ++ ys) ≡ byte_at i xs =
      λ i k. byte_at-append i xs ys (omega arith) in
    simp (at 0 (omega arith), at 1 (omega arith))

read_u32-append : (xs ys : Bytes) → 4 ≤ length xs → read_u32 (xs ++ ys) ≡ read_u32 xs
unfolding read_u32
read_u32-append xs ys h =
    let at : (i : ℕ) → i < 4 → byte_at i (xs ++ ys) ≡ byte_at i xs =
      λ i k. byte_at-append i xs ys (omega arith) in
    simp (at 0 (omega arith), at 1 (omega arith), at 2 (omega arith), at 3 (omega arith))

read_u64-append : (xs ys : Bytes) → 8 ≤ length xs → read_u64 (xs ++ ys) ≡ read_u64 xs
unfolding read_u64
read_u64-append xs ys h =
    let at : (i : ℕ) → i < 8 → byte_at i (xs ++ ys) ≡ byte_at i xs =
      λ i k. byte_at-append i xs ys (omega arith) in
    simp (
      at 0 (omega arith),
      at 1 (omega arith),
      at 2 (omega arith),
      at 3 (omega arith),
      at 4 (omega arith),
      at 5 (omega arith),
      at 6 (omega arith),
      at 7 (omega arith),
    )

-- A size field that has arrived whole reads the same, whatever comes behind it.
pub read_size_field-append :
    (t : SizeFieldType) (xs ys : Bytes)
    → size_of t ≤ length xs
    → read_size_field t (xs ++ ys) ≡ read_size_field t xs
unfolding read_size_field size_of
read_size_field-append uint8 xs ys h = ap some (byte_at-append 0 xs ys (omega arith))
read_size_field-append uint16 xs ys h = ap some (read_u16-append xs ys h)
read_size_field-append uint32 xs ys h = ap some (read_u32-append xs ys h)
read_size_field-append uint64 xs ys h = ap some (read_u64-append xs ys h)
read_size_field-append int8 xs ys h =
    ap (λ u. nonnegative (of_u8 u)) (byte_at-append 0 xs ys (omega arith))
read_size_field-append int16 xs ys h = ap (λ u. nonnegative (of_u16 u)) (read_u16-append xs ys h)
read_size_field-append int32 xs ys h = ap (λ u. nonnegative (of_u32 u)) (read_u32-append xs ys h)
read_size_field-append int64 xs ys h = ap (λ u. nonnegative (of_u64 u)) (read_u64-append xs ys h)

pub size_announced-append :
    (f : Format) (xs ys : Bytes)
    → field_size f ≤ length xs
    → size_announced f (xs ++ ys) ≡ size_announced f xs
unfolding size_announced
size_announced-append f xs ys h =
    rw (size_announced, read_size_field-append f.size_field_type xs ys h) refl

message-append :
    (f : Format) (body : ℕ) (xs ys : Bytes)
    → field_size f + body ≤ length xs
    → message f body (xs ++ ys) ≡ message f body xs
unfolding message
message-append f body xs ys h = elim (Bool-cases f.include_size_field_in_msg) [
  | inl e ↦ rw e (take-append_le (field_size f + body) xs ys h)
  | inr e ↦
      rw (e, drop-append_le (field_size f) xs ys (omega arith))
        (take-append_le body (drop (field_size f) xs) ys
          (omega (arith, length-drop (field_size f) xs)))
]

-- What a whole message at the start comes from.
pub record Whole (f : Format) (xs msg rest : Bytes) : Type 0 where
  pub body : ℕ
  pub announces : size_announced f xs ≡ some body
  pub arrived : field_size f + body ≤ length xs
  pub is_msg : msg ≡ message f body xs
  pub is_rest : rest ≡ drop (field_size f + body) xs

pub frame-Whole :
    (f : Format) (xs : Bytes) {msg rest : Bytes}
    → frame f xs ≡ complete msg rest
    → Whole f xs msg rest
unfolding frame frame_of
frame-Whole f xs {msg} {rest} h = elim (Bool-cases (ltb (length xs) (field_size f))) [
  | inl e ↦ absurd (cc h)
  | inr e ↦ decided (size_announced f xs) refl (rw e at h)
]
  where
    decided :
        (o : Option ℕ)
        → size_announced f xs ≡ o
        → frame_of f xs o ≡ complete msg rest
        → Whole f xs msg rest
    decided none e h' = absurd cc
    decided (some body) e h' = elim (Bool-cases (ltb (length xs) (field_size f + body))) [
      | inl t ↦ absurd (cc (rw t at h'))
      | inr t ↦
          let same : complete (message f body xs) (drop (field_size f + body) xs)
              ≡ complete msg rest =
            rw t at h' in
          record {
            body = body;
            announces = e;
            arrived = ground (arith, t);
            is_msg = cc;
            is_rest = cc;
          }
    ]

pub frame-complete :
    (f : Format) (xs : Bytes) (body : ℕ)
    → size_announced f xs ≡ some body
    → field_size f + body ≤ length xs
    → frame f xs ≡ complete (message f body xs) (drop (field_size f + body) xs)
unfolding frame frame_of
frame-complete f xs body h k =
    let field : ltb (length xs) (field_size f) ≡ false = ground arith in
    let whole : ltb (length xs) (field_size f + body) ≡ false = ground arith in
    rw (field, h, frame_of, whole) refl

pub frame-partial :
    (f : Format) (xs : Bytes) (body : ℕ)
    → size_announced f xs ≡ some body
    → field_size f ≤ length xs
    → length xs < field_size f + body
    → frame f xs ≡ partial
unfolding frame frame_of
frame-partial f xs body h long k =
    let field : ltb (length xs) (field_size f) ≡ false = ground arith in
    let not_whole : ltb (length xs) (field_size f + body) ≡ true = ground arith in
    rw (field, h, frame_of, not_whole) refl

pub frame-short : (f : Format) (xs : Bytes) → length xs < field_size f → frame f xs ≡ partial
unfolding frame
frame-short f xs h =
    let field : ltb (length xs) (field_size f) ≡ true = ground arith in rw field refl

pub frame-malformed_of :
    (f : Format) (xs : Bytes)
    → field_size f ≤ length xs
    → size_announced f xs ≡ none
    → frame f xs ≡ malformed
unfolding frame frame_of
frame-malformed_of f xs long h =
    let field : ltb (length xs) (field_size f) ≡ false = ground arith in
    rw (field, h, frame_of) refl

-- A start that is decided stays so, whatever comes behind it.
pub frame-append-complete :
    (f : Format) (xs ys : Bytes) {msg rest : Bytes}
    → frame f xs ≡ complete msg rest
    → frame f (xs ++ ys) ≡ complete msg (rest ++ ys)
frame-append-complete f xs ys h =
    let w = frame-Whole f xs h in
    let same =
      frame-complete f (xs ++ ys) w.body
        (size_announced-append f xs ys (omega (arith, w.arrived)) ∙ w.announces)
        (omega (arith, w.arrived, length-append xs ys)) in
    let cut = drop-append_le (field_size f + w.body) xs ys w.arrived in
    cc (w.is_msg, w.is_rest, message-append f w.body xs ys w.arrived)

pub frame-malformed :
    (f : Format) (xs : Bytes)
    → frame f xs ≡ malformed
    → (field_size f ≤ length xs) × (size_announced f xs ≡ none)
unfolding frame frame_of
frame-malformed f xs h = elim (Bool-cases (ltb (length xs) (field_size f))) [
  | inl e ↦ absurd (cc (rw e at h))
  | inr e ↦ (ground (arith, e), undecided (size_announced f xs) (rw e at h))
]
  where
    undecided : (o : Option ℕ) → frame_of f xs o ≡ malformed → o ≡ none
    undecided none h' = refl
    undecided (some body) h' = elim (Bool-cases (ltb (length xs) (field_size f + body))) [
      | inl t ↦ absurd (cc (rw t at h'))
      | inr t ↦ absurd (cc (rw t at h'))
    ]

pub frame-append-malformed :
    (f : Format) (xs ys : Bytes) → frame f xs ≡ malformed → frame f (xs ++ ys) ≡ malformed
frame-append-malformed f xs ys h =
    let (long, none_here) = frame-malformed f xs h in
    frame-malformed_of f (xs ++ ys) (omega (arith, length-append xs ys, long))
      (size_announced-append f xs ys long ∙ none_here)
