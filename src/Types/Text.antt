-- ===== src/Types/Text.antt =====
-- Text as the list of its bytes: the decimal printing and parsing of Rust's integers, and the hex
-- package, which the program only calls.
pub mod Decimal
use Prim.Native.Char.{code}
use Prim.Native.String.{String}
use ducp_node_rs.Common.{
  ℕ, zero, suc, ◌+◌, ◌-◌, ◌*◌, ◌/◌, ◌%◌, ◌^◌, ◌≤◌, ◌≡◌, ◌≢◌, Bool, ◌&&◌, Option, none, some, List,
  [], ◌∷◌, ◌==◌, ltb, leb, if◌then◌else◌,
}
use ducp_node_rs.Common.Int.{ℤ, pos, negsuc, sub_ℕ}
use ducp_node_rs.Common.BTreeMap.{unwrap_or}
use ducp_node_rs.Common.Words.{u128_mod}
use ducp_node_rs.Types.Bytes.{Bytes, AreBytes}
use mathlib.Core.Option

abbrev pub Text : Type 0
Text = Bytes

-- The bytes of a literal.
abbrev pub codes : String → Text
codes String.[] = []
codes (String.◌∷◌ c s) = code c ∷ codes s

-- The loop that prints `n` in front of `out`, on fuel.
unfoldable pub digits : ℕ → ℕ → Text → Text
digits zero n out = out
digits (suc fuel) n out =
    let longer = (b'0' + n % 10) ∷ out in
    let rest = digits fuel (n / 10) longer in if ltb n 10 then longer else rest

-- `to_string` of a u128, which has at most 39 digits.
unfoldable pub to_string : ℕ → Text
unfolding digits
to_string n = digits 39 n []

-- `to_string` of an i128.
unfoldable pub to_string_i128 : ℤ → Text
unfolding to_string
to_string_i128 (pos n) = to_string n
to_string_i128 (negsuc n) = b'-' ∷ to_string (n + 1)

-- The loop of `parse`: the number that the digits spell behind `n`, below `limit`.
unfoldable pub scan : ℕ → Text → ℕ → Option ℕ
scan limit [] n = some n
scan limit (c ∷ s) n =
    let m = n * 10 + (c - b'0') in
    let rest = scan limit s m in if leb b'0' c && leb c b'9' && ltb m limit then rest else none

-- At least one digit.
unfoldable pub scan_some : ℕ → Text → Option ℕ
unfolding scan
scan_some limit [] = none
scan_some limit (c ∷ s) = scan limit (c ∷ s) 0

-- `parse::<u128>()`, which takes one leading `+`.
unfoldable pub parse_u128 : Text → Option ℕ
unfolding scan_some
parse_u128 [] = none
parse_u128 (c ∷ s) = if c == b'+' then scan_some u128_mod s else scan_some u128_mod (c ∷ s)

-- `parse::<i128>()`, which takes one leading sign.
unfoldable pub parse_i128 : Text → Option ℤ
unfolding scan_some
parse_i128 [] = none
parse_i128 (c ∷ s) =
    if c == b'-'
    then Option.map (sub_ℕ 0) (scan_some (2 ^ 127 + 1) s)
    else Option.map pos (if c == b'+' then scan_some (2 ^ 127) s else scan_some (2 ^ 127) (c ∷ s))

unfoldable pub strip_prefix : Text → Text → Option Text
strip_prefix [] s = some s
strip_prefix (p ∷ prefix) [] = none
strip_prefix (p ∷ prefix) (c ∷ s) =
    let rest = strip_prefix prefix s in if p == c then rest else none

-- `s.strip_prefix("0x").unwrap_or(s)`
unfoldable pub strip_0x : Text → Text
unfolding strip_prefix
strip_0x s = unwrap_or (strip_prefix (codes "0x") s) s

-- The functions of the hex package, with the text of the error that `decode` gives.
pub record Hex : Type 0 where
  pub encode : Bytes → Text
  pub decode : Text → Option Bytes
  pub decode_error : Text → Text

-- No character is an `x` or a colon.
abbrev pub ArePlain : Text → Type 0
ArePlain [] = Unit {0}
ArePlain (c ∷ s) = (c ≢ b'x') × (c ≢ b':') × ArePlain s

-- What the hex package promises: text of hexadecimal digits, which decodes to the same bytes.
pub record HexLaws (h : Hex) : Type 0 where
  pub decodes : (bs : Bytes) → AreBytes bs → h.decode (h.encode bs) ≡ some bs
  pub plain : (bs : Bytes) → AreBytes bs → ArePlain (h.encode bs)
