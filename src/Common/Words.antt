-- ===== src/Common/Words.antt =====
-- Arithmetic on `u32` and `i32` as a build with overflow checks does it: `none` is the panic.
use inqjet.Common.{
  ℕ, zero, suc, ◌+◌, ◌-◌, ◌*◌, ◌/◌, ◌%◌, ◌^◌, ◌≤◌, ◌<◌, ◌≡◌, Bool, Option, none, some, arith, ltb,
  leb, if◌then◌else◌,
}
use inqjet.Common.Int.{ℤ, pos, negsuc, ◌+ℤ◌, ◌-ℤ◌, ◌*ℤ◌}

abbrev fits_u32 : ℕ → Option ℕ
fits_u32 n = if ltb n (2 ^ 32) then some n else none

abbrev pub add_u32 : ℕ → ℕ → Option ℕ
add_u32 a b = fits_u32 (a + b)

abbrev pub mul_u32 : ℕ → ℕ → Option ℕ
mul_u32 a b = fits_u32 (a * b)

abbrev pub sub_u32 : ℕ → ℕ → Option ℕ
sub_u32 a b = if leb b a then some (a - b) else none

abbrev in_i32 : ℤ → Bool
in_i32 (pos n) = ltb n (2 ^ 31)
in_i32 (negsuc n) = ltb n (2 ^ 31)

abbrev fits_i32 : ℤ → Option ℤ
fits_i32 z = if in_i32 z then some z else none

unfoldable pub add_i32 : ℤ → ℤ → Option ℤ
unfolding ◌+ℤ◌
add_i32 a b = fits_i32 (a +ℤ b)

unfoldable pub sub_i32 : ℤ → ℤ → Option ℤ
unfolding ◌-ℤ◌
sub_i32 a b = fits_i32 (a -ℤ b)

unfoldable pub mul_i32 : ℤ → ℤ → Option ℤ
unfolding ◌*ℤ◌
mul_i32 a b = fits_i32 (a *ℤ b)

-- `-n`
abbrev neg_ℕ : ℕ → ℤ
neg_ℕ zero = pos 0
neg_ℕ (suc n) = negsuc n

-- `/` by a positive constant: towards zero.
abbrev pub quot_i32 : ℤ → ℕ → ℤ
quot_i32 (pos n) k = pos (n / k)
quot_i32 (negsuc n) k = neg_ℕ (suc n / k)

-- `as u32`
abbrev pub cast_u32 : ℤ → ℕ
cast_u32 (pos n) = n % 2 ^ 32
cast_u32 (negsuc n) = 2 ^ 32 - 1 - n % 2 ^ 32

-- `as i32` of a `u32`, or of a longer unsigned integer
abbrev pub cast_i32 : ℕ → ℤ
cast_i32 n = let w = n % 2 ^ 32 in if ltb w (2 ^ 31) then pos w else negsuc (2 ^ 32 - 1 - w)

pub add_u32-eq : (a b : ℕ) → a + b < 2 ^ 32 → add_u32 a b ≡ some (a + b)
add_u32-eq a b h = ground arith

pub mul_u32-eq : (a b : ℕ) → a * b < 2 ^ 32 → mul_u32 a b ≡ some (a * b)
mul_u32-eq a b h = ground arith

pub sub_u32-eq : (a b : ℕ) → b ≤ a → sub_u32 a b ≡ some (a - b)
sub_u32-eq a b h = ground arith

pub add_i32-eq : (a b : ℕ) → a + b < 2 ^ 31 → add_i32 (pos a) (pos b) ≡ some (pos (a + b))
unfolding add_i32
add_i32-eq a b h = ground arith

pub sub_i32-eq : (a b : ℕ) → b ≤ a → a < 2 ^ 31 → sub_i32 (pos a) (pos b) ≡ some (pos (a - b))
unfolding sub_i32
sub_i32-eq a b h k = ground arith

pub mul_i32-eq : (a b : ℕ) → a * b < 2 ^ 31 → mul_i32 (pos a) (pos b) ≡ some (pos (a * b))
unfolding mul_i32
mul_i32-eq a b h = ground arith

pub cast_i32-eq : (a : ℕ) → a < 2 ^ 31 → cast_i32 a ≡ pos a
cast_i32-eq a h = ground arith
