-- ===== src/Conformance/Codec.antt =====
-- The codec vectors: of each sample its JSON, its canonical bytes and their hash.
pub mod Check
use ducp_node_rs.Common.{◌≡◌, List, [], ◌∷◌, some}
use ducp_node_rs.Types.Bytes.{Bytes, Hash, AreBytes, be_bytes}
use ducp_node_rs.Types.Text.{Text, Hex, codes}
use ducp_node_rs.Types.Task.{TaskBody, Limits}
use ducp_node_rs.Types.Quant.{PowerSeal, QLedgerEntry}
use ducp_node_rs.Types.Records.{Submission, ComputeProof, Receipt, Account, StandingRecord}
use ducp_node_rs.Types.Tx.{SignedTx, Block}
use ducp_node_rs.Types.Primitives.{Primitives, hash_bytes}
use ducp_node_rs.Conformance.Samples
use ducp_node_rs.Conformance.Samples.{task_body}

-- What serde_json and borsh make of the values of a type.
pub record Codec {ℓ} (Json : Type 0) (T : Type ℓ) : Type ℓ where
  pub to_value : T → Json
  pub borsh : T → Bytes

pub record Codecs (Json : Type 0) : Type 0 where
  pub task_body : Codec Json TaskBody
  pub limits : Codec Json Limits
  pub submission : Codec Json Submission
  pub compute_proof : Codec Json ComputeProof
  pub power_seal : Codec Json PowerSeal
  pub receipt : Codec Json Receipt
  pub account : Codec Json Account
  pub standing_record : Codec Json StandingRecord
  pub signed_tx : Codec Json SignedTx
  pub q_entry : Codec Json QLedgerEntry
  pub block : Codec Json Block

pub record CodecRecord (Json : Type 0) : Type 0 where
  pub name : Text
  pub value : Json
  pub canonical_hex : Text
  pub hash : Text

module _ (p : Primitives) (h : Hex) {Json : Type 0} where
  unfoldable pub codec_record {ℓ} : {T : Type ℓ} → Text → Codec Json T → T → CodecRecord Json
  codec_record name codec value =
      let canonical = codec.borsh value in
      record {
        name = name;
        value = codec.to_value value;
        canonical_hex = h.encode canonical;
        hash = h.encode (be_bytes 32 (hash_bytes p canonical));
      }

  unfoldable pub codec_records : Codecs Json → List (CodecRecord Json)
  unfolding codec_record
  codec_records k =
      codec_record (codes "task_body") k.task_body task_body
      ∷ codec_record (codes "limits") k.limits task_body.limits
      ∷ codec_record (codes "submission") k.submission (Samples.submission p)
      ∷ codec_record (codes "compute_proof_no_seal") k.compute_proof (Samples.proof_no_seal p)
      ∷ codec_record (codes "power_seal") k.power_seal (Samples.power_seal p)
      ∷ codec_record (codes "compute_proof_with_seal") k.compute_proof (Samples.proof_with_seal p)
      ∷ codec_record (codes "receipt") k.receipt (Samples.receipt p)
      ∷ codec_record (codes "account") k.account (Samples.account p)
      ∷ codec_record (codes "standing_record") k.standing_record (Samples.standing p)
      ∷ codec_record (codes "signed_transfer") k.signed_tx (Samples.signed_transfer p)
      ∷ codec_record (codes "q_entry_null") k.q_entry (Samples.q_entry_null p)
      ∷ codec_record (codes "q_entry_valued") k.q_entry (Samples.q_entry_valued p)
      ∷ codec_record (codes "block") k.block (Samples.block p)
      ∷ []
