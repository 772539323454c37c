-- ===== src/InputDg/Field.antt =====
-- Steps of the datagram readers (src/dory/input_dg): each takes a field off the front, if there are
-- enough bytes, and leaves the rest. `none` stands for the datagram being malformed.
use dory.Common.{
  ℕ, ◌<◌, ◌^◌, ◌≡◌, refl, Bool, true, false, [], ◌++◌, Option, none, some, arith, length, take,
  drop, ltb, if◌then◌else◌, length-append, take-append, drop-append, sym, append-nil,
}
use dory.Common.Int.{ℤ, pos}
use dory.Common.Word.{of_u16, of_u32, of_u64, of_u16-small}
use dory.Common.Bytes.{
  Bytes, read_u16, read_u32, read_u64, write_u16, write_u32, write_u64, read_u16-write_u16,
  read_u32-write_u32, read_u64-write_u64, length-write_u16, length-write_u32, length-write_u64,
}

infixl 5 ◌>>=◌ ◌>>◌
abbrev pub ◌>>=◌ {ℓ κ} : {A : Type ℓ} {B : Type κ} → Option A → (A → Option B) → Option B
none >>= f = none
some a >>= f = f a

abbrev pub ◌>>◌ {ℓ} : {B : Type ℓ} → Option (Unit {0}) → Option B → Option B
m >> k = m >>= λ _. k

abbrev pub guard : Bool → Option (Unit {0})
guard true = some tt
guard false = none

-- The next `n` bytes.
unfoldable pub take_bytes : ℕ → Bytes → Option (Bytes × Bytes)
take_bytes n bytes = if ltb (length bytes) n then none else some (take n bytes, drop n bytes)

unfoldable pub take_i16 : Bytes → Option (ℤ × Bytes)
unfolding take_bytes
take_i16 bytes = do (field, rest) ← take_bytes 2 bytes; some (of_u16 (read_u16 field), rest)

unfoldable pub take_i32 : Bytes → Option (ℤ × Bytes)
unfolding take_bytes
take_i32 bytes = do (field, rest) ← take_bytes 4 bytes; some (of_u32 (read_u32 field), rest)

unfoldable pub take_i64 : Bytes → Option (ℤ × Bytes)
unfolding take_bytes
take_i64 bytes = do (field, rest) ← take_bytes 8 bytes; some (of_u64 (read_u64 field), rest)

pub take_bytes-append :
    (xs ys : Bytes) (n : ℕ) → length xs ≡ n → take_bytes n (xs ++ ys) ≡ some (xs, ys)
unfolding take_bytes
take_bytes-append xs ys n h =
    rw (sym h, take-append xs ys, drop-append xs ys) (ground (arith, length-append xs ys))

pub take_i16-write_u16 :
    (n : ℕ) (rest : Bytes) → n < 2 ^ 15 → take_i16 (write_u16 n ++ rest) ≡ some (pos n, rest)
unfolding take_i16
take_i16-write_u16 n rest h =
    let whole : read_u16 (write_u16 n) ≡ n =
      rw (sym (append-nil (write_u16 n))) (read_u16-write_u16 n [] (omega arith)) in
    rw (take_bytes-append (write_u16 n) rest 2 (length-write_u16 n), whole, of_u16-small n h) refl

pub take_i32-write_u32 :
    (n : ℕ) (rest : Bytes) → n < 2 ^ 32 → take_i32 (write_u32 n ++ rest) ≡ some (of_u32 n, rest)
unfolding take_i32
take_i32-write_u32 n rest h =
    let whole : read_u32 (write_u32 n) ≡ n =
      rw (sym (append-nil (write_u32 n))) (read_u32-write_u32 n [] h) in
    rw (take_bytes-append (write_u32 n) rest 4 (length-write_u32 n), whole) refl

pub take_i64-write_u64 :
    (n : ℕ) (rest : Bytes) → n < 2 ^ 64 → take_i64 (write_u64 n ++ rest) ≡ some (of_u64 n, rest)
unfolding take_i64
take_i64-write_u64 n rest h =
    let whole : read_u64 (write_u64 n) ≡ n =
      rw (sym (append-nil (write_u64 n))) (read_u64-write_u64 n [] h) in
    rw (take_bytes-append (write_u64 n) rest 8 (length-write_u64 n), whole) refl
