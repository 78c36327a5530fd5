-- ===== src/Types/Primitives.antt =====
-- The hashes, signatures and encodings that the program takes from other packages (blake3,
-- ed25519-dalek, borsh), as one parameter, and the functions that the source writes over them.
use ducp_node_rs.Common.{ℕ, ◌≡◌, Bool, true, false, Option, none, some, ◌++◌}
use ducp_node_rs.Types.Bytes.{
  Hash, ContentId, Identity, Signature, TaskId, TxId, Bytes, be_bytes, le_bytes,
}
use ducp_node_rs.Types.Task.{TaskBody}
use ducp_node_rs.Types.Tx.{Tx, SignedTx, Block}

pub record Primitives : Type 0 where
  pub blake3 : Bytes → Hash
  -- `VerifyingKey::from_bytes`: the point that a public key names, if it names one.
  pub verifying_key : Identity → Option ℕ
  pub verify_with : ℕ → Bytes → Signature → Bool
  -- `SigningKey::from_bytes(seed).verifying_key().to_bytes()`
  pub public_key : ℕ → Identity
  pub sign_with : ℕ → Bytes → Signature
  pub borsh_body : TaskBody → Bytes
  pub borsh_tx : Tx → Bytes
  pub borsh_signed_tx : SignedTx → Bytes
  pub borsh_block : Block → Bytes

module _ (p : Primitives) where
  unfoldable pub hash_bytes : Bytes → Hash
  hash_bytes bytes = p.blake3 bytes

  unfoldable pub hash_canonical {ℓ} : {T : Type ℓ} → (T → Bytes) → T → Hash
  unfolding hash_bytes
  hash_canonical encode value = hash_bytes (encode value)

  unfoldable pub task_id : TaskBody → TaskId
  unfolding hash_canonical
  task_id body = hash_canonical p.borsh_body body

  unfoldable pub tx_id : SignedTx → TxId
  unfolding hash_canonical
  tx_id stx = hash_canonical p.borsh_signed_tx stx

  unfoldable pub block_hash : Block → Hash
  unfolding hash_canonical
  block_hash block = hash_canonical p.borsh_block block

  -- `keys::verify`
  unfoldable pub verify : Identity → Bytes → Signature → Bool
  verify identity message signature = elim (p.verifying_key identity) [
    | none ↦ false
    | some vk ↦ p.verify_with vk message signature
  ]

  -- `keys::identity`
  abbrev pub identity : ℕ → Identity
  identity seed = p.public_key seed

  -- `content_id`
  abbrev pub content_id : Bytes → ContentId
  content_id bytes = hash_bytes bytes

  -- `author ‖ canonical(tx) ‖ nonce_le`
  unfoldable pub signing_payload : Identity → Tx → ℕ → Bytes
  signing_payload author tx nonce = be_bytes 32 author ++ (p.borsh_tx tx ++ le_bytes 8 nonce)

  unfoldable pub sign : ℕ → Tx → ℕ → SignedTx
  unfolding signing_payload
  sign seed tx nonce =
      let author = identity seed in
      let payload = signing_payload author tx nonce in
      record { author = author; tx = tx; nonce = nonce; sig = p.sign_with seed payload }

  unfoldable pub verify_sig : SignedTx → Bool
  unfolding verify signing_payload
  verify_sig stx = verify stx.author (signing_payload stx.author stx.tx stx.nonce) stx.sig

  -- What Ed25519 promises: a signature made with a seed verifies under the seed's public key.
  pub record SignsCorrectly : Type 0 where
    pub verifies :
        (seed : ℕ) (message : Bytes)
        → verify (p.public_key seed) message (p.sign_with seed message) ≡ true

  -- A transaction that `sign` makes passes `verify_sig`, when signatures verify under the public key
  -- of the seed that made them.
  pub verify_sig-sign :
      (seed : ℕ) (tx : Tx) (nonce : ℕ) → SignsCorrectly → verify_sig (sign seed tx nonce) ≡ true
  unfolding verify_sig sign
  verify_sig-sign seed tx nonce law =
      law.verifies seed (signing_payload (p.public_key seed) tx nonce)
