-- ===== src/Tests/Nodes.antt =====
-- The theorems on nodes, and on penalties, the clock and power seals, applied to the history.
use ducp_node_rs.Common.{ℕ, ◌≡◌, ◌≢◌, refl, arith, none, some, [], ◌∷◌, max}
use ducp_node_rs.Common.BTreeMap.{get}
use ducp_node_rs.Types.Reject.{Reject, ok, err, unknown_task}
use ducp_node_rs.Types.Primitives.{tx_id}
use ducp_node_rs.Governance.{devnet}
use ducp_node_rs.Ledger.State.{State}
use ducp_node_rs.Ledger.Apply.{apply}
use ducp_node_rs.Ledger.Handlers.{open_challenge, submit_proof}
use ducp_node_rs.Ledger.Fraud.{resolve_fraud}
use ducp_node_rs.Ledger.Slashing.{resolve_fraud_once}
use ducp_node_rs.Ledger.Epoch.{advance_to_epoch}
use ducp_node_rs.Ledger.Clock.{advance_to_epoch_reaches}
use ducp_node_rs.Ledger.Neutrality.{without_proofs, submit_proof_neutral}
use ducp_node_rs.Node.{NodeInner, Config, new_node, submit, resolve_pending_challenge}
use ducp_node_rs.Node.Replies.{submit_reply}
use ducp_node_rs.Node.Stuck.{stuck_challenge}
use ducp_node_rs.Ledger.Pending.{IsOpen}
use ducp_node_rs.Types.Primitives.{hash_bytes}
use ducp_node_rs.Node.Commits.{
  IsChained, submits, resolves, advances, stores, perform_all, performed-IsChained,
}
use ducp_node_rs.Tests.{toy, allocations, body, proof_of, encode_state}
use ducp_node_rs.Tests.History.{task, listed_s4, submission, claim, s1, s2, s4, open_after}
use ducp_node_rs.Tests.Machine.{toy_wasmtime, toy_benchmark, seal}

abbrev pub config : Config
config = record {
  primitives = toy;
  borsh_state = encode_state;
  wasmtime = toy_wasmtime;
  params = devnet;
  benchmark = toy_benchmark;
}

-- A node at a state of the history, without blobs.
abbrev pub node_at : State → NodeInner
node_at s = record (new_node 9 allocations) { state = s; saved = s }

resolve_fraud_once_example :
    resolve_fraud (resolve_fraud s4 task (some 3) devnet) task none devnet
    ≡ resolve_fraud s4 task (some 3) devnet
resolve_fraud_once_example = resolve_fraud_once s4 task (some 3) none devnet

advance_to_epoch_reaches_example : (advance_to_epoch s4 40 devnet).epoch ≡ max s4.epoch 40
advance_to_epoch_reaches_example =
    advance_to_epoch_reaches s4 40 devnet (omega arith) (rw open_after.0 (omega arith))

submit_proof_neutral_example :
    without_proofs (submit_proof s2 2 (record (proof_of task) { power_seal = some seal }) devnet)
    ≡ without_proofs (submit_proof s2 2 (proof_of task) devnet)
submit_proof_neutral_example = submit_proof_neutral s2 2 (proof_of task) (some seal) devnet

submit_reply_example :
    ((ns : State)
      → apply toy s1 claim devnet ≡ ok ns
      → ((submit config (node_at s1) claim).0.state ≡ ns)
        × ((submit config (node_at s1) claim).1 ≡ ok (tx_id toy claim)))
    × ((e : Reject)
        → apply toy s1 claim devnet ≡ err e
        → submit config (node_at s1) claim ≡ (node_at s1, err e))
submit_reply_example = submit_reply config (node_at s1) claim (unfold new_node in refl)

stuck_challenge_example :
    let later =
      perform_all config
        (node_at s4)
        (stores (8 ∷ []) ∷ submits submission ∷ resolves task ∷ advances ∷ []) in
    IsOpen task body later.state
    × (resolve_pending_challenge config later task ≡ (later, err unknown_task))
    × ((challenger bond : ℕ) (t : State)
        → open_challenge later.state challenger task bond devnet ≢ ok t)
stuck_challenge_example =
    stuck_challenge config (node_at s4) task body
      (stores (8 ∷ []) ∷ submits submission ∷ resolves task ∷ advances ∷ [])
      (record {
        listed = listed_s4.0;
        known = open_after.1;
        pending = open_after.2;
        sorted = listed_s4.1;
      })
      (unfold new_node get in refl) (unfold hash_bytes in omega arith, tt)

performed-IsChained_example : IsChained config (
    perform_all config
      (new_node 9 allocations)
      (stores (9 ∷ []) ∷ submits submission ∷ submits claim ∷ advances ∷ resolves task ∷ []))
performed-IsChained_example =
    performed-IsChained config 9 allocations
      (stores (9 ∷ []) ∷ submits submission ∷ submits claim ∷ advances ∷ resolves task ∷ [])
      (omega arith)
