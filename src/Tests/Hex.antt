-- ===== src/Tests/Hex.antt =====
-- Lower-case hexadecimal text, and that it has the laws which the development asks of the hex
-- package.
use ducp_node_rs.Common.{
  ℕ, ◌+◌, ◌-◌, ◌*◌, ◌/◌, ◌%◌, ◌<◌, ◌≡◌, ◌≢◌, refl, ap, arith, ◌&&◌, Option, none, some, [], ◌∷◌,
  ltb, leb, if◌then◌else◌,
}
use ducp_node_rs.Types.Bytes.{Bytes, AreBytes}
use ducp_node_rs.Types.Text.{Text, Hex, HexLaws, ArePlain, codes}

unfoldable pub digit : ℕ → ℕ
digit n = if ltb n 10 then b'0' + n else b'a' + (n - 10)

unfoldable pub value : ℕ → Option ℕ
value c =
    if leb b'0' c && leb c b'9'
    then some (c - b'0')
    else if leb b'a' c && leb c b'f'
    then some (c - b'a' + 10)
    else none

unfoldable pub encode : Bytes → Text
encode [] = []
encode (b ∷ bs) = digit (b / 16) ∷ digit (b % 16) ∷ encode bs

unfoldable pub decode : Text → Option Bytes
decode [] = some []
decode (c ∷ []) = none
decode (c ∷ d ∷ s) =
    let rest = decode s in
    elim (value c) [
      | none ↦ none
      | some high ↦ elim (value d) [
        | none ↦ none
        | some low ↦ elim rest [ none ↦ none | some bs ↦ some ((high * 16 + low) ∷ bs) ]
      ]
    ]

value-digit : (n : ℕ) → n < 16 → value (digit n) ≡ some n
unfolding value digit
value-digit n small = ground arith

plain_digit : (n : ℕ) → n < 16 → (digit n ≢ b'x') × (digit n ≢ b':')
unfolding digit
plain_digit n small = (ground arith, ground arith)

decode-encode : (bs : Bytes) → AreBytes bs → decode (encode bs) ≡ some bs
unfolding decode encode
decode-encode [] bytes = refl
decode-encode (b ∷ bs) (small, bytes) =
    rw
      (
        decode,
        value-digit (b / 16) (omega (arith, small)),
        value-digit (b % 16) (omega arith),
        decode-encode bs bytes,
      )
      (ap (λ c. some (c ∷ bs)) (omega arith))

encode-ArePlain : (bs : Bytes) → AreBytes bs → ArePlain (encode bs)
unfolding encode
encode-ArePlain [] bytes = tt
encode-ArePlain (b ∷ bs) (small, bytes) =
    let (high_x, high_colon) = plain_digit (b / 16) (omega (arith, small)) in
    let (low_x, low_colon) = plain_digit (b % 16) (omega arith) in
    (high_x, high_colon, (low_x, low_colon, encode-ArePlain bs bytes))

abbrev pub hex : Hex
hex = record { encode = encode; decode = decode; decode_error = λ s. codes "odd or invalid" }

pub hex-HexLaws : HexLaws hex
hex-HexLaws = record { decodes = decode-encode; plain = encode-ArePlain }
