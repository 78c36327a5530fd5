-- ===== src/Conformance/Codec/Check.antt =====
-- A reader of the codec vectors can check them: the hash of each is that of the bytes that its
-- hexadecimal text spells.
use ducp_node_rs.Common.{◌≡◌, refl, some, List, [], ◌∷◌}
use ducp_node_rs.Types.Bytes.{Bytes, AreBytes, be_bytes}
use ducp_node_rs.Types.Text.{Text, Hex, HexLaws}
use ducp_node_rs.Types.Primitives.{Primitives, hash_bytes}
use ducp_node_rs.Types.Wire.RoundTrip.{decode-encode}
use ducp_node_rs.Conformance.{unhex}
use ducp_node_rs.Conformance.Codec.{Codec, Codecs, CodecRecord, codec_record, codec_records}

-- An encoding consists of bytes.
abbrev pub Encodes {ℓ} : {Json : Type 0} {T : Type ℓ} → Codec Json T → Type ℓ
Encodes {T = T} codec = (value : T) → AreBytes (codec.borsh value)

pub record AreEncodings {Json : Type 0} (k : Codecs Json) : Type 0 where
  pub task_body : Encodes k.task_body
  pub limits : Encodes k.limits
  pub submission : Encodes k.submission
  pub compute_proof : Encodes k.compute_proof
  pub power_seal : Encodes k.power_seal
  pub receipt : Encodes k.receipt
  pub account : Encodes k.account
  pub standing_record : Encodes k.standing_record
  pub signed_tx : Encodes k.signed_tx
  pub q_entry : Encodes k.q_entry
  pub block : Encodes k.block

module _ (p : Primitives) (h : Hex) where
  -- The hash is that of the bytes that the hexadecimal text spells.
  abbrev Checks : Text → Text → Type 0
  Checks canonical_hex hash =
      (canonical : Bytes) × (unhex h canonical_hex ≡ some canonical)
      × (hash ≡ h.encode (be_bytes 32 (hash_bytes p canonical)))

module _ (p : Primitives) (h : Hex) {Json : Type 0} where
  abbrev pub IsCheckable : CodecRecord Json → Type 0
  IsCheckable r = Checks p h r.canonical_hex r.hash

  abbrev pub AreCheckable : List (CodecRecord Json) → Type 0
  AreCheckable [] = Unit {0}
  AreCheckable (r ∷ rs) = IsCheckable r × AreCheckable rs

  encoded-Checks {ℓ} :
      {T : Type ℓ} (codec : Codec Json T) (value : T)
      → HexLaws h
      → Encodes codec
      → Checks p h
          (h.encode (codec.borsh value))
          (h.encode (be_bytes 32 (hash_bytes p (codec.borsh value))))
  unfolding unhex
  encoded-Checks codec value laws bytes =
      (codec.borsh value, decode-encode h laws (codec.borsh value) (bytes value), refl)

-- With a hex package that keeps its promises and encodings that consist of bytes, the canonical text
-- of each codec vector decodes, and its hash is the text of the hash of the decoded bytes.
codec_records_checkable :
    (p : Primitives) (h : Hex) {Json : Type 0} (k : Codecs Json)
    → HexLaws h
    → AreEncodings k
    → AreCheckable p h (codec_records p h k)
unfolding codec_records codec_record
codec_records_checkable p h k laws e = (
  encoded-Checks p h k.task_body _ laws e.task_body,
  (
    encoded-Checks p h k.limits _ laws e.limits,
    (
      encoded-Checks p h k.submission _ laws e.submission,
      (
        encoded-Checks p h k.compute_proof _ laws e.compute_proof,
        (
          encoded-Checks p h k.power_seal _ laws e.power_seal,
          (
            encoded-Checks p h k.compute_proof _ laws e.compute_proof,
            (
              encoded-Checks p h k.receipt _ laws e.receipt,
              (
                encoded-Checks p h k.account _ laws e.account,
                (
                  encoded-Checks p h k.standing_record _ laws e.standing_record,
                  (
                    encoded-Checks p h k.signed_tx _ laws e.signed_tx,
                    (
                      encoded-Checks p h k.q_entry _ laws e.q_entry,
                      (
                        encoded-Checks p h k.q_entry _ laws e.q_entry,
                        (encoded-Checks p h k.block _ laws e.block, tt),
                      ),
                    ),
                  ),
                ),
              ),
            ),
          ),
        ),
      ),
    ),
  ),
)
