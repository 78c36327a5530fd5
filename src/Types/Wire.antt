-- ===== src/Types/Wire.antt =====
-- The JSON form of binary values and of 128-bit amounts: module `wire` of
-- crates/ducp-types/src/lib.rs. What serde is told to write, and what is made of the text that it
-- read; the texts of the errors are left out.
pub mod RoundTrip
use ducp_node_rs.Common.{ℕ, Option, none, some, List, [], ◌∷◌}
use ducp_node_rs.Common.Int.{ℤ}
use ducp_node_rs.Types.Bytes.{Bytes, be_bytes, to_array}
use ducp_node_rs.Types.Text.{Text, Hex, strip_0x, to_string, to_string_i128, parse_u128, parse_i128}
use mathlib.Core.List.{map}

module _ (h : Hex) where
  -- `from_hex` for arrays of `k` bytes.
  unfoldable pub from_hex : ℕ → Text → Option ℕ
  from_hex k s = elim (h.decode (strip_0x s)) [ none ↦ none | some v ↦ to_array k v ]

  -- `bytes32` and `bytes64`, by the length of the array.
  unfoldable pub serialize_array : ℕ → ℕ → Text
  serialize_array k v = h.encode (be_bytes k v)

  unfoldable pub deserialize_array : ℕ → Text → Option ℕ
  unfolding from_hex
  deserialize_array k s = from_hex k s

  unfoldable pub serialize_opt : Option ℕ → Option Text
  serialize_opt none = none
  serialize_opt (some b) = some (h.encode (be_bytes 32 b))

  unfoldable pub deserialize_opt : Option Text → Option (Option ℕ)
  unfolding from_hex
  deserialize_opt none = some none
  deserialize_opt (some s) = elim (from_hex 32 s) [ none ↦ none | some b ↦ some (some b) ]

  unfoldable pub serialize_vec : List ℕ → List Text
  serialize_vec v = map (λ b. h.encode (be_bytes 32 b)) v

  -- `collect` stops at the first error.
  unfoldable pub deserialize_vec : List Text → Option (List ℕ)
  unfolding from_hex
  deserialize_vec [] = some []
  deserialize_vec (s ∷ items) =
      let rest = deserialize_vec items in
      elim (from_hex 32 s) [
        | none ↦ none
        | some b ↦ elim rest [ none ↦ none | some bs ↦ some (b ∷ bs) ]
      ]

  unfoldable pub serialize_bytes : Bytes → Text
  serialize_bytes v = h.encode v

  unfoldable pub deserialize_bytes : Text → Option Bytes
  deserialize_bytes s = h.decode (strip_0x s)

unfoldable pub serialize_u128 : ℕ → Text
serialize_u128 v = to_string v

unfoldable pub deserialize_u128 : Text → Option ℕ
deserialize_u128 s = parse_u128 s

unfoldable pub serialize_i128 : ℤ → Text
serialize_i128 v = to_string_i128 v

unfoldable pub deserialize_i128 : Text → Option ℤ
deserialize_i128 s = parse_i128 s
