-- ===== src/Types/Wire/RoundTrip.antt =====
-- What is written to JSON is read back.
use ducp_node_rs.Common.{
  ℕ, ◌<◌, ◌≤◌, ◌^◌, ◌≡◌, refl, arith, Option, none, some, List, [], ◌∷◌, ==_iff,
}
use ducp_node_rs.Common.Int.{ℤ, pos_part, neg_part}
use ducp_node_rs.Common.Words.{u128_mod}
use ducp_node_rs.Types.Bytes.{Bytes, AreBytes, span, be_bytes, be_bytes-AreBytes, to_array-be_bytes}
use ducp_node_rs.Types.Text.{Text, Hex, HexLaws, ArePlain, strip_0x, strip_prefix}
use ducp_node_rs.Types.Text.Decimal.{parse_u128-to_string, parse_i128-to_string}
use ducp_node_rs.Types.Wire.{
  from_hex, serialize_array, deserialize_array, serialize_opt, deserialize_opt, serialize_vec,
  deserialize_vec, serialize_bytes, deserialize_bytes, serialize_u128, deserialize_u128,
  serialize_i128, deserialize_i128,
}

-- Hexadecimal text has no `0x` in front.
strip_0x-plain : (s : Text) → ArePlain s → strip_0x s ≡ s
unfolding strip_0x strip_prefix
strip_0x-plain [] h = refl
strip_0x-plain (c ∷ []) h = ground arith
strip_0x-plain (c ∷ d ∷ s) h = ground (arith, ==_iff b'x' d)

module _ (h : Hex) (laws : HexLaws h) where
  pub decode-encode : (bs : Bytes) → AreBytes bs → h.decode (strip_0x (h.encode bs)) ≡ some bs
  decode-encode bs a = rw (strip_0x-plain (h.encode bs) (laws.plain bs a)) (laws.decodes bs a)

  pub from_hex-encode : (k v : ℕ) → v < span k → from_hex h k (h.encode (be_bytes k v)) ≡ some v
  unfolding from_hex
  from_hex-encode k v fits =
      ground
        (arith, decode-encode (be_bytes k v) (be_bytes-AreBytes k v), to_array-be_bytes k v fits)

-- Every value is an array of 32 bytes.
abbrev pub AreArrays : List ℕ → Type 0
AreArrays [] = Unit {0}
AreArrays (v ∷ vs) = (v < span 32) × AreArrays vs

abbrev pub IsArray : Option ℕ → Type 0
IsArray none = Unit {0}
IsArray (some v) = v < span 32

module _ (h : Hex) (laws : HexLaws h) where
  vec_lem : (vs : List ℕ) → AreArrays vs → deserialize_vec h (serialize_vec h vs) ≡ some vs
  unfolding deserialize_vec serialize_vec
  vec_lem [] a = refl
  vec_lem (v ∷ vs) (fits, a) =
      rw (deserialize_vec, from_hex-encode h laws 32 v fits, vec_lem vs a) refl

  opt_lem : (o : Option ℕ) → IsArray o → deserialize_opt h (serialize_opt h o) ≡ some o
  unfolding deserialize_opt serialize_opt
  opt_lem none a = refl
  opt_lem (some v) fits = rw (deserialize_opt, from_hex-encode h laws 32 v fits) refl

-- What is written to JSON is read back: with a hex package that keeps its promises, arrays, optional
-- arrays, lists of arrays and byte strings, whatever bytes they hold; and amounts and Standing, from
-- their decimal text, over the whole range of u128 and i128.
pub deserialize-serialize :
    (h : Hex) (k v : ℕ) (o : Option ℕ) (vs : List ℕ) (bs : Bytes) (n : ℕ) (z : ℤ)
    → HexLaws h
    → v < span k
    → IsArray o
    → AreArrays vs
    → AreBytes bs
    → n < u128_mod
    → pos_part z < 2 ^ 127
    → neg_part z ≤ 2 ^ 127
    → (deserialize_array h k (serialize_array h k v) ≡ some v)
      × (deserialize_opt h (serialize_opt h o) ≡ some o)
      × (deserialize_vec h (serialize_vec h vs) ≡ some vs)
      × (deserialize_bytes h (serialize_bytes h bs) ≡ some bs)
      × (deserialize_u128 (serialize_u128 n) ≡ some n)
      × (deserialize_i128 (serialize_i128 z) ≡ some z)
unfolding deserialize_array serialize_array deserialize_bytes serialize_bytes deserialize_u128
    serialize_u128 deserialize_i128 serialize_i128
deserialize-serialize h k v o vs bs n z laws fits array arrays bytes small above below = (
  from_hex-encode h laws k v fits,
  opt_lem h laws o array,
  vec_lem h laws vs arrays,
  decode-encode h laws bs bytes,
  parse_u128-to_string n small,
  parse_i128-to_string z above below,
)
