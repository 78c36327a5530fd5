-- ===== src/Tests.antt =====
-- A worked history of a small network, on which the theorems are applied: a toy hash and signature
-- scheme, one Requester, one Provider and one challenger.
pub mod History
pub mod Examples
pub mod Rates
pub mod Machine
pub mod Nodes
pub mod Hex
pub mod Rpc
pub mod Vectors
use ducp_node_rs.Common.{
  ℕ, ◌+◌, ◌*◌, ◌%◌, Bool, true, Option, none, some, List, [], ◌∷◌, ◌==◌, if◌then◌else◌,
}
use ducp_node_rs.Types.Bytes.{Bytes, Hash, Identity, TaskId, Ucu, Signature}
use ducp_node_rs.Types.Reject.{Result, ok, err}
use ducp_node_rs.Types.Task.{TaskBody, wasm, auto_requeue}
use ducp_node_rs.Types.Task
use ducp_node_rs.Types.Records.{ComputeProof}
use ducp_node_rs.Types.Records
use ducp_node_rs.Types.Tx
use ducp_node_rs.Types.Tx.{Tx, SignedTx, Block}
use ducp_node_rs.Types.Primitives.{Primitives}
use ducp_node_rs.Governance.{devnet}
use ducp_node_rs.Ledger.State.{State, genesis}
use ducp_node_rs.Ledger.Apply.{apply}

abbrev pub digest : Bytes → Hash
digest [] = 7
digest (b ∷ bs) = (b + 257 * digest bs) % 65_537

abbrev encode_body : TaskBody → Bytes
encode_body body = body.program ∷ body.input ∷ body.limits.max_ucu ∷ body.nonce ∷ []

abbrev encode_tx : Tx → Bytes
encode_tx (Tx.submit_task body) = 0 ∷ encode_body body
encode_tx (Tx.claim_task task) = 1 ∷ task ∷ []
encode_tx (Tx.submit_proof proof) = 2 ∷ proof.task ∷ proof.output ∷ proof.ucu_count ∷ []
encode_tx (Tx.challenge task bond) = 3 ∷ task ∷ bond ∷ []
encode_tx (Tx.transfer to amount) = 4 ∷ to ∷ amount ∷ []

abbrev pub toy : Primitives
toy = record {
  blake3 = digest;
  verifying_key = λ identity. some identity;
  verify_with = λ vk message signature. signature == vk + digest message;
  public_key = λ seed. seed;
  sign_with = λ seed message. seed + digest message;
  borsh_body = encode_body;
  borsh_tx = encode_tx;
  borsh_signed_tx = λ stx. stx.author ∷ stx.nonce ∷ stx.sig ∷ [];
  borsh_block = λ block. block.height ∷ block.parent ∷ block.state_root ∷ block.txs;
}

-- A toy encoding of a state.
abbrev pub encode_state : State → Bytes
encode_state s = s.supply.minted ∷ s.supply.burned ∷ s.fee_pool ∷ s.epoch ∷ []

abbrev pub requester : Identity
requester = 1

abbrev pub provider : Identity
provider = 2

abbrev pub allocations : List (Identity × Ucu)
allocations = (1, 10_000_000) ∷ (2, 5_000_000) ∷ (3, 5_000_000) ∷ []

abbrev pub body : TaskBody
body = record {
  ir = wasm;
  program = 11;
  input = 12;
  limits = record { max_ucu = 1_000_000; max_memory_bytes = 65_536 };
  tier = Task.sampled_reexec;
  benchmark = 1;
  deadline = 10;
  failure_policy = auto_requeue;
  nonce = 0;
}

abbrev pub proof_of : TaskId → ComputeProof
proof_of task = record {
  task = task;
  provider = provider;
  output = 21;
  result_hash = 21;
  ucu_count = 800_000;
  benchmark = 1;
  tier_data = Records.sampled_reexec;
  power_seal = none;
}

-- The state that an accepted transaction leads to.
abbrev pub state_or : State → Result State → State
state_or s (ok t) = t
state_or s (err e) = s
