-- ===== src/Common/Words.antt =====
-- The arithmetic of Rust's u128 and u64 in a release build: a value is a number below its modulus,
-- and an operation that leaves the range wraps.
use Prim.Native.Nat.{ℕ, ◌+◌, ◌-◌, ◌*◌, ◌%◌, ◌^◌, ◌≤◌, ◌<◌}
use mathlib.Core.Path.{◌≡◌}
use mathlib.Core.Option.{Option, none, some}
use native.Mathlib.Omega.{arith}
use ducp_node_rs.Common.Tests.{ltb, if◌then◌else◌}

abbrev pub u128_mod : ℕ
u128_mod = 2 ^ 128

abbrev pub u64_mod : ℕ
u64_mod = 2 ^ 64

unfoldable pub add_u128 : ℕ → ℕ → ℕ
add_u128 a b = (a + b) % u128_mod

unfoldable pub sub_u128 : ℕ → ℕ → ℕ
sub_u128 a b = (a + u128_mod - b) % u128_mod

unfoldable pub mul_u128 : ℕ → ℕ → ℕ
mul_u128 a b = (a * b) % u128_mod

unfoldable pub add_u64 : ℕ → ℕ → ℕ
add_u64 a b = (a + b) % u64_mod

-- `checked_add`
unfoldable pub checked_add_u128 : ℕ → ℕ → Option ℕ
checked_add_u128 a b = if ltb (a + b) u128_mod then some (a + b) else none

-- `saturating_sub`, which stops at 0 as `-` on numbers does.
abbrev pub saturating_sub : ℕ → ℕ → ℕ
saturating_sub a b = a - b

-- `saturating_mul` on u128
unfoldable pub saturating_mul_u128 : ℕ → ℕ → ℕ
saturating_mul_u128 a b = if ltb (a * b) u128_mod then a * b else u128_mod - 1

pub add_u128-exact : (a b : ℕ) → a + b < u128_mod → add_u128 a b ≡ a + b
unfolding add_u128
add_u128-exact a b h = omega arith

pub sub_u128-exact : (a b : ℕ) → a < u128_mod → b ≤ a → sub_u128 a b ≡ a - b
unfolding sub_u128
sub_u128-exact a b h k = omega arith

pub mul_u128-exact : (a b : ℕ) → a * b < u128_mod → mul_u128 a b ≡ a * b
unfolding mul_u128
mul_u128-exact a b h = grind arith

pub mul_u128-lt : (a b : ℕ) → mul_u128 a b < u128_mod
unfolding mul_u128
mul_u128-lt a b = omega arith

pub add_u64-exact : (a b : ℕ) → a + b < u64_mod → add_u64 a b ≡ a + b
unfolding add_u64
add_u64-exact a b h = omega arith
