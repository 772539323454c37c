-- ===== src/Common/Bytes.antt =====
-- base/field_access.h: fields in network byte order. Byte strings are lists of numbers below 256.
use dory.Common.Tests.{◌==◌}
use Prim.Native.Nat.{ℕ, zero, suc, ◌+◌, ◌*◌, ◌/◌, ◌%◌, ◌^◌, ◌<◌}
use dory.Common.Lists.{length}
use mathlib.Core.List.{List, [], ◌∷◌, ◌++◌}
use mathlib.Core.Bool.{Bool, true, false, ◌&&◌}
use mathlib.Core.Path.{◌≡◌, refl}
use native.Mathlib.Omega.{arith}

abbrev pub Bytes : Type 0
Bytes = List ℕ

-- Comparison of two std::string values.
unfoldable pub bytes_eq : Bytes → Bytes → Bool
bytes_eq [] [] = true
bytes_eq [] (y ∷ ys) = false
bytes_eq (x ∷ xs) [] = false
bytes_eq (x ∷ xs) (y ∷ ys) = x == y && bytes_eq xs ys

pub bytes_eq_refl : (xs : Bytes) → bytes_eq xs xs ≡ true
unfolding bytes_eq
bytes_eq_refl [] = refl
bytes_eq_refl (x ∷ xs) = ground (arith, bytes_eq_refl xs)

pub bytes_eq_sound : (xs ys : Bytes) → bytes_eq xs ys ≡ true → xs ≡ ys
unfolding bytes_eq
bytes_eq_sound [] [] h = refl
bytes_eq_sound [] (y ∷ ys) h = cc
bytes_eq_sound (x ∷ xs) [] h = cc
bytes_eq_sound (x ∷ xs) (y ∷ ys) h = ground (arith, bytes_eq_sound xs ys)

-- Fields of 2, 4 and 8 bytes, the most significant byte first.
unfoldable pub write_u16 : ℕ → Bytes
write_u16 v = (v / 2 ^ 8 % 2 ^ 8) ∷ (v % 2 ^ 8) ∷ []

unfoldable pub write_u32 : ℕ → Bytes
unfolding write_u16
write_u32 v = write_u16 (v / 2 ^ 16) ++ write_u16 v

unfoldable pub write_u64 : ℕ → Bytes
unfolding write_u32
write_u64 v = write_u32 (v / 2 ^ 32) ++ write_u32 v

-- A byte beyond the end, which no caller reads, counts as 0.
unfoldable pub byte_at : ℕ → Bytes → ℕ
byte_at i [] = 0
byte_at zero (x ∷ xs) = x
byte_at (suc i) (x ∷ xs) = byte_at i xs

unfoldable pub read_u16 : Bytes → ℕ
unfolding byte_at
read_u16 xs = byte_at 0 xs * 2 ^ 8 + byte_at 1 xs

unfoldable pub read_u32 : Bytes → ℕ
unfolding read_u16 byte_at
read_u32 xs = byte_at 0 xs * 2 ^ 24 + byte_at 1 xs * 2 ^ 16 + byte_at 2 xs * 2 ^ 8 + byte_at 3 xs

unfoldable pub read_u64 : Bytes → ℕ
unfolding read_u32 byte_at
read_u64 xs =
    byte_at 0 xs * 2 ^ 56
    + byte_at 1 xs * 2 ^ 48
    + byte_at 2 xs * 2 ^ 40
    + byte_at 3 xs * 2 ^ 32
    + (byte_at 4 xs * 2 ^ 24 + byte_at 5 xs * 2 ^ 16 + byte_at 6 xs * 2 ^ 8 + byte_at 7 xs)

pub read_u16-write_u16 : (v : ℕ) (rest : Bytes) → v < 2 ^ 16 → read_u16 (write_u16 v ++ rest) ≡ v
unfolding read_u16 write_u16
read_u16-write_u16 v rest h = omega arith

pub read_u32-write_u32 : (v : ℕ) (rest : Bytes) → v < 2 ^ 32 → read_u32 (write_u32 v ++ rest) ≡ v
unfolding read_u32 write_u32
read_u32-write_u32 v rest h = omega arith

pub read_u64-write_u64 : (v : ℕ) (rest : Bytes) → v < 2 ^ 64 → read_u64 (write_u64 v ++ rest) ≡ v
unfolding read_u64 write_u64
read_u64-write_u64 v rest h = omega arith

pub length-write_u16 : (v : ℕ) → length (write_u16 v) ≡ 2
unfolding write_u16
length-write_u16 v = refl

pub length-write_u32 : (v : ℕ) → length (write_u32 v) ≡ 4
unfolding write_u32
length-write_u32 v = refl

pub length-write_u64 : (v : ℕ) → length (write_u64 v) ≡ 8
unfolding write_u64
length-write_u64 v = refl
