-- ===== src/Conformance/Fraud.antt =====
-- The fraud vector: a forged proof settles, is challenged, run again, and resolved.
pub mod Settled
pub mod Proven
use ducp_node_rs.Common.{◌*◌, Bool, Option, some, [], ◌∷◌, max}
use ducp_node_rs.Common.BTreeMap.{get}
use ducp_node_rs.Types.Bytes.{Bytes, Hash, filled, be_bytes}
use ducp_node_rs.Types.Text.{Text, Hex, codes, to_string}
use ducp_node_rs.Types.Task.{TaskBody}
use ducp_node_rs.Types.Records.{Account, StandingRecord, ComputeProof}
use ducp_node_rs.Types.Tx
use ducp_node_rs.Types.Primitives.{Primitives, task_id, sign, identity, content_id}
use ducp_node_rs.Governance.{devnet, bond_min}
use ducp_node_rs.Ledger.State.{State, genesis, check_conservation}
use ducp_node_rs.Ledger.Apply.{apply}
use ducp_node_rs.Ledger.Fraud.{resolve_challenge}
use ducp_node_rs.Dvm.{Wasmtime, ExecOutcome, Benchmark, execute}
use ducp_node_rs.Verification.{check, is_fraud}
use ducp_node_rs.Conformance.{
  ◌>>=◌, unwrap, seed_1, seed_2, seed_3, grant, scenario_body, scenario_proof, settle_task,
}
use ducp_node_rs.Conformance.Settlement.{root_text}
use ducp_node_rs.Conformance.Metering.{Workloads, devnet_benchmark}

pub record FraudRecord : Type 0 where
  pub forged_result_hash : Text
  pub true_result_hash : Text
  pub verdict_is_fraud : Bool
  pub requester : Account
  pub provider : Account
  pub challenger : Account
  pub provider_standing : StandingRecord
  pub minted : Text
  pub burned : Text
  pub fee_pool : Text
  pub conserved : Bool
  pub state_root : Text

abbrev pub forged_result_hash : Hash
forged_result_hash = filled 32 0xBA

abbrev pub verify_input : Bytes
verify_input = codes "verify"

module _ (w : Wasmtime) (p : Primitives) where
  abbrev pub three_accounts : State
  three_accounts =
      genesis
        ((identity p seed_1, grant) ∷ (identity p seed_2, grant) ∷ (identity p seed_3, grant) ∷ [])
        0

  abbrev pub fraud_body : Workloads → TaskBody
  fraud_body loads =
      scenario_body (content_id p loads.echo_module) (content_id p verify_input) (16 * 1024 * 1024)

  abbrev pub honest_run : Workloads → Benchmark → ExecOutcome
  honest_run loads bench =
      execute w p loads.echo_module verify_input (fraud_body loads).limits bench

  abbrev pub forged_proof : Workloads → Benchmark → ComputeProof
  forged_proof loads bench =
      scenario_proof p (task_id p (fraud_body loads)) (content_id p (codes "forged"))
        forged_result_hash (honest_run loads bench).ucu_count

  abbrev pub verdict : Workloads → Benchmark → Bool
  verdict loads bench = is_fraud (
      check (forged_proof loads bench) loads.echo_module verify_input (fraud_body loads).limits
        bench (execute w p))

  unfoldable pub fraud_record : (State → Bytes) → Hex → Workloads → Option FraudRecord
  unfolding settle_task
  fraud_record borsh h loads = do
    bench ← devnet_benchmark w p loads
    let task = task_id p (fraud_body loads)
    settled ← settle_task p three_accounts (fraud_body loads) (forged_proof loads bench)
    let bond = max (bond_min devnet (honest_run loads bench).ucu_count) 1
    disputed ← unwrap (apply p settled (sign p seed_3 (Tx.challenge task bond) 0) devnet)
    let s = resolve_challenge disputed task (verdict loads bench) devnet
    requester ← get (identity p seed_1) s.accounts
    provider ← get (identity p seed_2) s.accounts
    challenger ← get (identity p seed_3) s.accounts
    standing ← get (identity p seed_2) s.standing
    some (record {
      forged_result_hash = h.encode (be_bytes 32 forged_result_hash);
      true_result_hash = h.encode (be_bytes 32 (honest_run loads bench).result_hash);
      verdict_is_fraud = verdict loads bench;
      requester = requester;
      provider = provider;
      challenger = challenger;
      provider_standing = standing;
      minted = to_string s.supply.minted;
      burned = to_string s.supply.burned;
      fee_pool = to_string s.fee_pool;
      conserved = check_conservation s;
      state_root = root_text p borsh h s;
    })
