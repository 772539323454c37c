-- ===== src/InputDg/Inverse.antt =====
-- The steps of the datagram readers inverted: the bytes that each takes, from what it yields.
use dory.Common.{
  ℕ, zero, suc, ◌^◌, ◌<◌, ◌≡◌, refl, ap, Bool, Bool-cases, true, false, ltb, inl, inr, [], ◌∷◌,
  ◌++◌, Option, none, some, arith, length, take, drop, All, length-take,
}
use dory.Common.Int.{ℤ}
use dory.Common.Word.{of_u16, of_u32, of_u64, to_u16, to_u32, to_u64}
use dory.Common.Bytes.{Bytes, read_u16, read_u32, read_u64, write_u16, write_u32, write_u64}
use dory.InputDg.Field.{◌>>=◌, ◌>>◌, guard, take_bytes, take_i16, take_i32, take_i64}
use mathlib.Core.Path.{ap₂}

abbrev pub IsBytes : Bytes → Type 0
IsBytes bytes = All (λ x. x < 2 ^ 8) bytes

-- What makes a step of a chain succeed, with its result for the steps behind it.
pub bind-some :
    {A B : Type 0} (m : Option A) (k : A → Option B) {b : B} {P : Type 0}
    → (m >>= k) ≡ some b
    → ((a : A) → m ≡ some a → k a ≡ some b → P)
    → P
bind-some none k h next = absurd cc
bind-some (some a) k h next = next a refl h

pub guard-some :
    {B : Type 0} (t : Bool) (m : Option B) {b : B} {P : Type 0}
    → (guard t >> m) ≡ some b
    → (t ≡ true → m ≡ some b → P)
    → P
guard-some true m h next = next refl h
guard-some false m h next = absurd cc

take-append-drop : (n : ℕ) (bs : Bytes) → bs ≡ take n bs ++ drop n bs
take-append-drop zero bs = refl
take-append-drop (suc n) [] = refl
take-append-drop (suc n) (x ∷ bs) = ap (◌∷◌ x) (take-append-drop n bs)

IsBytes-take : (n : ℕ) (bs : Bytes) → IsBytes bs → IsBytes (take n bs)
IsBytes-take zero bs h = tt
IsBytes-take (suc n) [] h = tt
IsBytes-take (suc n) (x ∷ bs) h = (h.0, IsBytes-take n bs h.1)

IsBytes-drop : (n : ℕ) (bs : Bytes) → IsBytes bs → IsBytes (drop n bs)
IsBytes-drop zero bs h = h
IsBytes-drop (suc n) [] h = tt
IsBytes-drop (suc n) (x ∷ bs) h = IsBytes-drop n bs h.1

-- What a successful step says: the bytes taken, and the rest.
pub record Taken (n : ℕ) (bs xs rest : Bytes) : Type 0 where
  pub split : bs ≡ xs ++ rest
  pub size : length xs ≡ n
  pub taken_bytes : IsBytes xs
  pub rest_bytes : IsBytes rest

pub take_bytes-Taken :
    (n : ℕ) (bs : Bytes) {xs rest : Bytes}
    → IsBytes bs
    → take_bytes n bs ≡ some (xs, rest)
    → Taken n bs xs rest
unfolding take_bytes
take_bytes-Taken n bs {xs} {rest} ok h = elim (Bool-cases (ltb (length bs) n)) [
  | inl e ↦ absurd (ground (arith, e, h))
  | inr e ↦
      let same : (take n bs ≡ xs) × (drop n bs ≡ rest) = ground (arith, e, h) in
      record {
        split = rw (← same.0, ← same.1) (take-append-drop n bs);
        size = rw (← same.0) (length-take n bs (ground (arith, e)));
        taken_bytes = rw (← same.0) (IsBytes-take n bs ok);
        rest_bytes = rw (← same.1) (IsBytes-drop n bs ok);
      }
]

to_u16-of_u16 : (u : ℕ) → u < 2 ^ 16 → to_u16 (of_u16 u) ≡ u
unfolding to_u16 of_u16
to_u16-of_u16 u h = ground arith

to_u32-of_u32 : (u : ℕ) → u < 2 ^ 32 → to_u32 (of_u32 u) ≡ u
unfolding to_u32 of_u32
to_u32-of_u32 u h = ground arith

to_u64-of_u64 : (u : ℕ) → u < 2 ^ 64 → to_u64 (of_u64 u) ≡ u
unfolding to_u64 of_u64
to_u64-of_u64 u h = ground arith

write_u16-read_u16 :
    (xs : Bytes)
    → IsBytes xs
    → length xs ≡ 2
    → (write_u16 (read_u16 xs) ≡ xs) × (read_u16 xs < 2 ^ 16)
unfolding write_u16 read_u16
write_u16-read_u16 (a ∷ b ∷ []) h e =
    (ap₂ ◌∷◌ (omega arith) (ap₂ ◌∷◌ (omega arith) refl), omega arith)
write_u16-read_u16 _ h e = absurd (omega arith)

write_u32-read_u32 :
    (xs : Bytes)
    → IsBytes xs
    → length xs ≡ 4
    → (write_u32 (read_u32 xs) ≡ xs) × (read_u32 xs < 2 ^ 32)
unfolding write_u32 write_u16 read_u32
write_u32-read_u32 (a ∷ b ∷ c ∷ d ∷ []) h e = (
  ap₂ ◌∷◌ (omega arith)
      (ap₂ ◌∷◌ (omega arith) (ap₂ ◌∷◌ (omega arith) (ap₂ ◌∷◌ (omega arith) refl))),
  omega arith,
)
write_u32-read_u32 _ h e = absurd (omega arith)

write_u64-read_u64 :
    (xs : Bytes)
    → IsBytes xs
    → length xs ≡ 8
    → (write_u64 (read_u64 xs) ≡ xs) × (read_u64 xs < 2 ^ 64)
unfolding write_u64 write_u32 write_u16 read_u64
write_u64-read_u64 (a ∷ b ∷ c ∷ d ∷ i ∷ j ∷ k ∷ l ∷ []) h e = (
  ap₂ ◌∷◌ (omega arith) (
      ap₂ ◌∷◌ (omega arith) (
        ap₂ ◌∷◌ (omega arith) (
          ap₂ ◌∷◌ (omega arith) (
            ap₂ ◌∷◌ (omega arith)
              (ap₂ ◌∷◌ (omega arith) (ap₂ ◌∷◌ (omega arith) (ap₂ ◌∷◌ (omega arith) refl))))))),
  omega arith,
)
write_u64-read_u64 _ h e = absurd (omega arith)

-- A field that was read, written again, and the bytes behind it.
pub record FieldOf (bs field rest : Bytes) (IsInRange : Type 0) : Type 0 where
  pub split : bs ≡ field ++ rest
  pub rest_bytes : IsBytes rest
  pub in_range : IsInRange

module _ (n : ℕ) (read : Bytes → ℕ) (of_bits : ℕ → ℤ) (to_bits : ℤ → ℕ) (write : ℕ → Bytes)
    (same_bits : (xs : Bytes) → IsBytes xs → length xs ≡ n → to_bits (of_bits (read xs)) ≡ read xs)
    (back : (xs : Bytes) → IsBytes xs → length xs ≡ n → write (read xs) ≡ xs) where
  abbrev take_field : Bytes → Option (ℤ × Bytes)
  take_field bs = do (field, after) ← take_bytes n bs; some (of_bits (read field), after)

  take_field-FieldOf :
      (bs : Bytes) (z : ℤ) (rest : Bytes)
      → IsBytes bs
      → take_field bs ≡ some (z, rest)
      → FieldOf bs (write (to_bits z)) rest (of_bits (to_bits z) ≡ z)
  take_field-FieldOf bs z rest ok h = bind-some (take_bytes n bs) _ h λ p e h'.
      let t = take_bytes-Taken n bs ok e in
      let same : (of_bits (read p.0) ≡ z) × (p.1 ≡ rest) = (cc, cc) in
      record {
        split =
            rw
              (
                ← same.0,
                same_bits p.0 t.taken_bytes t.size,
                back p.0 t.taken_bytes t.size,
                ← same.1,
              )
              t.split;
        rest_bytes = rw (← same.1) t.rest_bytes;
        in_range = rw (← same.0) (ap of_bits (same_bits p.0 t.taken_bytes t.size));
      }

pub take_i16-FieldOf :
    (bs : Bytes) (z : ℤ) (rest : Bytes)
    → IsBytes bs
    → take_i16 bs ≡ some (z, rest)
    → FieldOf bs (write_u16 (to_u16 z)) rest (of_u16 (to_u16 z) ≡ z)
unfolding take_i16
take_i16-FieldOf =
    take_field-FieldOf 2 read_u16 of_u16 to_u16 write_u16
      (λ xs ok size. to_u16-of_u16 (read_u16 xs) (write_u16-read_u16 xs ok size).1)
      (λ xs ok size. (write_u16-read_u16 xs ok size).0)

pub take_i32-FieldOf :
    (bs : Bytes) (z : ℤ) (rest : Bytes)
    → IsBytes bs
    → take_i32 bs ≡ some (z, rest)
    → FieldOf bs (write_u32 (to_u32 z)) rest (of_u32 (to_u32 z) ≡ z)
unfolding take_i32
take_i32-FieldOf =
    take_field-FieldOf 4 read_u32 of_u32 to_u32 write_u32
      (λ xs ok size. to_u32-of_u32 (read_u32 xs) (write_u32-read_u32 xs ok size).1)
      (λ xs ok size. (write_u32-read_u32 xs ok size).0)

pub take_i64-FieldOf :
    (bs : Bytes) (z : ℤ) (rest : Bytes)
    → IsBytes bs
    → take_i64 bs ≡ some (z, rest)
    → FieldOf bs (write_u64 (to_u64 z)) rest (of_u64 (to_u64 z) ≡ z)
unfolding take_i64
take_i64-FieldOf =
    take_field-FieldOf 8 read_u64 of_u64 to_u64 write_u64
      (λ xs ok size. to_u64-of_u64 (read_u64 xs) (write_u64-read_u64 xs ok size).1)
      (λ xs ok size. (write_u64-read_u64 xs ok size).0)
