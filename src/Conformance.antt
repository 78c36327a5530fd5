-- ===== src/Conformance.antt =====
-- The conformance harness, crates/conformance/src/lib.rs: the scenarios whose outcomes are published
-- as golden vectors. A panic of an `unwrap`, an `expect` or an index is `none`; the files of the
-- vectors and their JSON are left out.
pub mod Samples
pub mod Codec
pub mod Settlement
pub mod Replication
pub mod Metering
pub mod Fraud
pub mod Observable
use ducp_node_rs.Common.{ℕ, ◌*◌, ◌^◌, Option, none, some, [], ◌∷◌, List}
use ducp_node_rs.Types.Bytes.{Bytes, Hash, ContentId, Identity, TaskId, Ucu, ucu_scale, filled}
use ducp_node_rs.Types.Reject.{Result, ok, err}
use ducp_node_rs.Types.Text.{Text, Hex, strip_0x}
use ducp_node_rs.Types.Task.{TaskBody, wasm, sampled_reexec, return_on_failure}
use ducp_node_rs.Types.Records.{ComputeProof}
use ducp_node_rs.Types.Records
use ducp_node_rs.Types.Tx
use ducp_node_rs.Types.Primitives.{Primitives, task_id, sign, identity, content_id, hash_bytes}
use ducp_node_rs.Governance.{devnet}
use ducp_node_rs.Ledger.State.{State}
use ducp_node_rs.Ledger.Apply.{apply}

-- `.unwrap()`
abbrev pub unwrap {ℓ} : {A : Type ℓ} → Result A → Option A
unwrap (ok a) = some a
unwrap (err e) = none

-- What follows a panic is not run.
infixl 5 ◌>>=◌
abbrev pub ◌>>=◌ {ℓ κ} : {A : Type ℓ} {B : Type κ} → Option A → (A → Option B) → Option B
some a >>= f = f a
none >>= f = none

unfoldable pub unhex : Hex → Text → Option Bytes
unhex h s = h.decode (strip_0x s)

-- The seeds of the Requester, the Provider and the challenger.
abbrev pub seed_1 : ℕ
seed_1 = filled 32 1

abbrev pub seed_2 : ℕ
seed_2 = filled 32 2

abbrev pub seed_3 : ℕ
seed_3 = filled 32 3

-- What each account is given at genesis.
abbrev pub grant : Ucu
grant = 100 * ucu_scale

-- The body of every scenario, but for its program, input and memory.
abbrev pub scenario_body : ContentId → ContentId → ℕ → TaskBody
scenario_body program input memory = record {
  ir = wasm;
  program = program;
  input = input;
  limits = record { max_ucu = 10 * ucu_scale; max_memory_bytes = memory };
  tier = sampled_reexec;
  benchmark = 0;
  deadline = 100;
  failure_policy = return_on_failure;
  nonce = 1;
}

module _ (p : Primitives) where
  -- The proof of every scenario, but for its output, hash and work.
  abbrev pub scenario_proof : TaskId → ContentId → Hash → Ucu → ComputeProof
  scenario_proof task output result_hash ucu_count = record {
    task = task;
    provider = identity p seed_2;
    output = output;
    result_hash = result_hash;
    ucu_count = ucu_count;
    benchmark = 0;
    tier_data = Records.sampled_reexec;
    power_seal = none;
  }

  -- The three transactions with which every scenario on the ledger begins.
  unfoldable pub settle_task : State → TaskBody → ComputeProof → Option State
  settle_task s body proof = do
    s1 ← unwrap (apply p s (sign p seed_1 (Tx.submit_task body) 0) devnet)
    s2 ← unwrap (apply p s1 (sign p seed_2 (Tx.claim_task (task_id p body)) 0) devnet)
    unwrap (apply p s2 (sign p seed_2 (Tx.submit_proof proof) 1) devnet)
