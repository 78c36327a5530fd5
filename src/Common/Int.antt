-- ===== src/Common/Int.antt =====
-- Signed integers over the native numbers, and the arithmetic of Rust's i128 on them.
use Prim.Native.Nat.{ℕ, suc, ◌+◌, ◌-◌, ◌*◌, ◌/◌, ◌%◌, ◌^◌, ◌≤◌, ◌<◌}
use mathlib.Core.Path.{◌≡◌}
use native.Mathlib.Omega.{arith}
use ducp_node_rs.Common.Tests.{ltb, leb, if◌then◌else◌}

-- `negsuc n` is -(n + 1).
pub data ℤ : Type 0 where
  pos : ℕ → ℤ
  negsuc : ℕ → ℤ

abbrev pub pos_part : ℤ → ℕ
pos_part (pos n) = n
pos_part (negsuc n) = 0

abbrev pub neg_part : ℤ → ℕ
neg_part (pos n) = 0
neg_part (negsuc n) = suc n

-- a - b, as an integer.
abbrev pub sub_ℕ : ℕ → ℕ → ℤ
sub_ℕ a b = if leb b a then pos (a - b) else negsuc (b - a - 1)

infixl 65 ◌+ℤ◌
infixl 70 ◌*ℤ◌
infixl 65 ◌-ℤ◌
infix 50 ◌≤ℤ◌
abbrev pub ◌+ℤ◌ : ℤ → ℤ → ℤ
a +ℤ b = sub_ℕ (pos_part a + pos_part b) (neg_part a + neg_part b)

abbrev pub ◌-ℤ◌ : ℤ → ℤ → ℤ
a -ℤ b = sub_ℕ (pos_part a + neg_part b) (neg_part a + pos_part b)

abbrev pub ◌*ℤ◌ : ℤ → ℤ → ℤ
a *ℤ b =
    sub_ℕ (pos_part a * pos_part b + neg_part a * neg_part b)
      (pos_part a * neg_part b + neg_part a * pos_part b)

abbrev pub ◌≤ℤ◌ : ℤ → ℤ → Type 0
a ≤ℤ b = pos_part a + neg_part b ≤ pos_part b + neg_part a

-- `/` of Rust rounds towards zero; the divisor is a positive number.
abbrev pub quot : ℤ → ℕ → ℤ
quot (pos n) d = pos (n / d)
quot (negsuc n) d = sub_ℕ 0 (suc n / d)

-- An i128 is its bit pattern, below 2 ^ 128; this is the integer that the pattern stands for.
unfoldable pub to_i128 : ℕ → ℤ
to_i128 w = if ltb w (2 ^ 127) then pos w else negsuc (2 ^ 128 - w - 1)

-- The bit pattern of an integer, as a wrapping operation leaves it.
unfoldable pub to_bits : ℤ → ℕ
to_bits (pos n) = n % 2 ^ 128
to_bits (negsuc n) = 2 ^ 128 - 1 - n % 2 ^ 128

unfoldable pub add_i128 : ℤ → ℤ → ℤ
unfolding to_i128 to_bits
add_i128 a b = to_i128 (to_bits (a +ℤ b))

unfoldable pub mul_i128 : ℤ → ℤ → ℤ
unfolding to_i128 to_bits
mul_i128 a b = to_i128 (to_bits (a *ℤ b))

unfoldable pub sub_i128 : ℤ → ℤ → ℤ
unfolding to_i128 to_bits
sub_i128 a b = to_i128 (to_bits (a -ℤ b))

pub to_i128-pos : (n : ℕ) → n < 2 ^ 127 → to_i128 n ≡ pos n
unfolding to_i128
to_i128-pos n h = ground arith

pub sub_i128-pos : (a b : ℕ) → a < 2 ^ 127 → b ≤ a → sub_i128 (pos a) (pos b) ≡ pos (a - b)
unfolding sub_i128
sub_i128-pos a b h k = ground arith

-- A sum of two numbers that fits an i128 is exact.
pub add_i128-pos : (a b : ℕ) → a + b < 2 ^ 127 → add_i128 (pos a) (pos b) ≡ pos (a + b)
unfolding add_i128
add_i128-pos a b h = ground arith

pub mul_i128-pos : (a b : ℕ) → a * b < 2 ^ 127 → mul_i128 (pos a) (pos b) ≡ pos (a * b)
unfolding mul_i128
mul_i128-pos a b h = ground arith
