-- ===== src/Common/Word.antt =====
-- Fixed-width arithmetic as the C++ types do it: size_t and uint64_t wrap at 2^64, and an int64_t is
-- read from, and turned into, a 64-bit pattern.
use dory.Common.Tests.{ltb, if◌then◌else◌}
use dory.Common.Int.{ℤ, pos, negsuc, ◌+ℤ◌, ◌≤ℤ◌}
use Prim.Native.Nat.{ℕ, ◌+◌, ◌-◌, ◌%◌, ◌^◌, ◌<◌}
use mathlib.Core.Path.{◌≡◌}
use native.Mathlib.Omega.{arith}

abbrev pub add_u64 : ℕ → ℕ → ℕ
add_u64 a b = (a + b) % 2 ^ 64

-- The bit pattern of an int64_t.
unfoldable pub to_u64 : ℤ → ℕ
to_u64 (pos n) = n % 2 ^ 64
to_u64 (negsuc n) = 2 ^ 64 - 1 - n % 2 ^ 64

-- The int64_t of a bit pattern.
unfoldable pub of_u64 : ℕ → ℤ
of_u64 u = if ltb u (2 ^ 63) then pos u else negsuc (2 ^ 64 - 1 - u)

-- int64_t + size_t, converted back to int64_t.
unfoldable pub add_i64_u64 : ℤ → ℕ → ℤ
unfolding to_u64 of_u64
add_i64_u64 t n = of_u64 ((to_u64 t + n) % 2 ^ 64)

abbrev pub i64_max : ℤ
i64_max = pos (2 ^ 63 - 1)

abbrev pub i64_min : ℤ
i64_min = negsuc (2 ^ 63 - 1)

pub add_i64_u64-eq-+ℤ :
    (t : ℤ) (n : ℕ) → i64_min ≤ℤ t → t +ℤ pos n ≤ℤ i64_max → add_i64_u64 t n ≡ t +ℤ pos n
unfolding add_i64_u64 ◌+ℤ◌
add_i64_u64-eq-+ℤ (pos m) n h k = ground arith
add_i64_u64-eq-+ℤ (negsuc m) n h k = ground arith

-- The int16_t and the int32_t of a bit pattern, and the patterns of such integers.
unfoldable pub of_u16 : ℕ → ℤ
of_u16 u = if ltb u (2 ^ 15) then pos u else negsuc (2 ^ 16 - 1 - u)

unfoldable pub of_u32 : ℕ → ℤ
of_u32 u = if ltb u (2 ^ 31) then pos u else negsuc (2 ^ 32 - 1 - u)

unfoldable pub to_u16 : ℤ → ℕ
to_u16 (pos n) = n % 2 ^ 16
to_u16 (negsuc n) = 2 ^ 16 - 1 - n % 2 ^ 16

unfoldable pub to_u32 : ℤ → ℕ
to_u32 (pos n) = n % 2 ^ 32
to_u32 (negsuc n) = 2 ^ 32 - 1 - n % 2 ^ 32

abbrev pub IsI32 : ℤ → Type 0
IsI32 z = (negsuc (2 ^ 31 - 1) ≤ℤ z) × (z ≤ℤ pos (2 ^ 31 - 1))

abbrev pub IsI64 : ℤ → Type 0
IsI64 z = (i64_min ≤ℤ z) × (z ≤ℤ i64_max)

pub to_u32-lt : (z : ℤ) → to_u32 z < 2 ^ 32
unfolding to_u32
to_u32-lt (pos n) = omega arith
to_u32-lt (negsuc n) = omega arith

pub to_u64-lt : (z : ℤ) → to_u64 z < 2 ^ 64
unfolding to_u64
to_u64-lt (pos n) = omega arith
to_u64-lt (negsuc n) = omega arith

pub of_u32-to_u32 : (z : ℤ) → IsI32 z → of_u32 (to_u32 z) ≡ z
unfolding of_u32 to_u32
of_u32-to_u32 (pos n) h = ground arith
of_u32-to_u32 (negsuc n) h = ground arith

pub of_u64-to_u64 : (z : ℤ) → IsI64 z → of_u64 (to_u64 z) ≡ z
unfolding of_u64 to_u64
of_u64-to_u64 (pos n) h = ground arith
of_u64-to_u64 (negsuc n) h = ground arith

-- A size that fits reads back as a nonnegative integer.
pub of_u16-small : (n : ℕ) → n < 2 ^ 15 → of_u16 n ≡ pos n
unfolding of_u16
of_u16-small n h = ground arith

pub of_u32-small : (n : ℕ) → n < 2 ^ 31 → of_u32 n ≡ pos n
unfolding of_u32
of_u32-small n h = ground arith
