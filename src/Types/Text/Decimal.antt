-- ===== src/Types/Text/Decimal.antt =====
-- Integers are read back from their decimal print.
use ducp_node_rs.Common.{
  ℕ, zero, suc, ◌+◌, ◌*◌, ◌/◌, ◌%◌, ◌^◌, ◌<◌, ◌≤◌, ◌≡◌, refl, ◌∙◌, arith, some, [], ◌∷◌,
}
use ducp_node_rs.Common.Int.{ℤ, pos, negsuc, pos_part, neg_part}
use mathlib.Core.Option
use ducp_node_rs.Common.Words.{u128_mod}
use ducp_node_rs.Types.Text.{
  Text, digits, to_string, to_string_i128, scan, scan_some, parse_u128, parse_i128,
}

-- 10 ^ k
abbrev tens : ℕ → ℕ
tens zero = 1
tens (suc k) = 10 * tens k

-- Reading what `digits` puts in front of `out` leaves `n`.
scan-digits :
    (limit fuel n : ℕ) (out : Text)
    → n < tens (suc fuel)
    → n < limit
    → scan limit (digits (suc fuel) n out) 0 ≡ scan limit out n
unfolding scan digits
scan-digits limit zero n out small fits = ground arith
scan-digits limit (suc fuel) n out small fits =
    ground (arith, scan-digits limit fuel (n / 10) ((b'0' + n % 10) ∷ out))

-- A text that starts with a digit.
abbrev StartsWithDigit : Text → Type 0
StartsWithDigit [] = ⊥
StartsWithDigit (c ∷ s) = (b'0' ≤ c) × (c ≤ b'9')

digits-StartsWithDigit :
    (fuel n : ℕ) (out : Text) → StartsWithDigit out → StartsWithDigit (digits fuel n out)
unfolding digits
digits-StartsWithDigit zero n out h = h
digits-StartsWithDigit (suc fuel) n out h =
    ground (
      arith,
      digits-StartsWithDigit fuel (n / 10) ((b'0' + n % 10) ∷ out) (omega arith, omega arith),
    )

scan_some-scan : (limit : ℕ) (s : Text) → StartsWithDigit s → scan_some limit s ≡ scan limit s 0
unfolding scan_some
scan_some-scan limit [] h = absurd h
scan_some-scan limit (c ∷ s) h = refl

unsigned-scan_some : (s : Text) → StartsWithDigit s → parse_u128 s ≡ scan_some u128_mod s
unfolding parse_u128
unsigned-scan_some [] h = absurd h
unsigned-scan_some (c ∷ s) h = ground arith

signed-scan_some :
    (s : Text) → StartsWithDigit s → parse_i128 s ≡ Option.map pos (scan_some (2 ^ 127) s)
unfolding parse_i128
signed-scan_some [] h = absurd h
signed-scan_some (c ∷ s) h = ground arith

-- What is printed, from its first character to its value.
digits-StartsWithDigit_nil : (fuel n : ℕ) → StartsWithDigit (digits (suc fuel) n [])
unfolding digits
digits-StartsWithDigit_nil fuel n =
    ground (
      arith,
      digits-StartsWithDigit fuel (n / 10) ((b'0' + n % 10) ∷ []) (omega arith, omega arith),
    )

scan_some-digits :
    (limit fuel n : ℕ)
    → n < tens (suc fuel)
    → n < limit
    → scan_some limit (digits (suc fuel) n []) ≡ some n
scan_some-digits limit fuel n small fits =
    scan_some-scan limit _ (digits-StartsWithDigit_nil fuel n)
    ∙ scan-digits limit fuel n [] small fits
    ∙ unfold scan in refl

-- Every u128 is read back from its decimal print.
pub parse_u128-to_string : (n : ℕ) → n < u128_mod → parse_u128 (to_string n) ≡ some n
unfolding to_string
parse_u128-to_string n fits =
    unsigned-scan_some (digits 39 n []) (digits-StartsWithDigit_nil 38 n)
    ∙ scan_some-digits u128_mod 38 n (omega arith) fits

-- Every i128 is read back from its decimal print.
pub parse_i128-to_string :
    (z : ℤ) → pos_part z < 2 ^ 127 → neg_part z ≤ 2 ^ 127 → parse_i128 (to_string_i128 z) ≡ some z
unfolding to_string_i128 to_string
parse_i128-to_string (pos n) fits small =
    signed-scan_some (digits 39 n []) (digits-StartsWithDigit_nil 38 n)
    ∙ rw (scan_some-digits (2 ^ 127) 38 n (omega arith) fits) refl
parse_i128-to_string (negsuc n) fits small =
    unfold parse_i128 in
    rw (scan_some-digits (2 ^ 127 + 1) 38 (n + 1) (omega arith) (omega arith)) (ground arith)
