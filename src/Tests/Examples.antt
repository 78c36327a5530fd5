-- ===== src/Tests/Examples.antt =====
-- The theorems on the ledger and the sequencer, applied to the worked history.
use ducp_node_rs.Common.{◌+◌, ◌<◌, ◌≡◌, refl, arith, List, [], ◌∷◌, true, some}
use mathlib.Core.Logic.{◌↔◌}
use mathlib.Core.List.{map}
use ducp_node_rs.Common.Words.{u128_mod}
use ducp_node_rs.Common.BTreeMap.{get}
use ducp_node_rs.Common.BTreeMap.Sum.{sum}
use ducp_node_rs.Types.Reject.{ok, err, bad_nonce}
use ducp_node_rs.Types.Tx.{SignedTx}
use ducp_node_rs.Types.Primitives.{tx_id, sign}
use ducp_node_rs.Governance.{devnet}
use ducp_node_rs.Ledger.Accounts.{account}
use ducp_node_rs.Ledger.Conservation.Check.{allocated}
use ducp_node_rs.Ledger.State.{check_conservation}
use ducp_node_rs.Ledger.Handlers.{receipt_of}
use ducp_node_rs.Ledger.Finality.{receipts_final}
use ducp_node_rs.Ledger.Settlement.{Pays, submit_proof-Pays}
use ducp_node_rs.Ledger.Apply.{apply}
use ducp_node_rs.Ledger.Epoch.{advance_epoch}
use ducp_node_rs.Ledger.Escrow.{owed}
use ducp_node_rs.Ledger.Consistent.{IsConsistent, minted_by}
use ducp_node_rs.Ledger.Reach.{
  Reach, here, next, applies, ticks, reached_conserves, reached_escrow, genesis-IsConsistent,
  Reach-IsConsistent, Step-IsConsistent, total_issued,
}
use ducp_node_rs.Ledger.Replay.{apply_again}
use ducp_node_rs.Ledger.Supply.{Mints, apply-Mints}
use ducp_node_rs.Consensus.{sequencer, produce, commit}
use ducp_node_rs.Consensus.Replicas.{commit-produce}
use ducp_node_rs.Consensus.Valid.{Commits, commit_iff}
use ducp_node_rs.Consensus.Valid.{Applied}
use ducp_node_rs.Consensus.Produced.{Picks, accepted_of, produce_results, produce_conserves}
use ducp_node_rs.Tests.{toy, allocations, body, proof_of, encode_state}
use ducp_node_rs.Ledger.Fraud.{resolve_fraud}
use ducp_node_rs.Ledger.Penalty.{Punishes, resolve_fraud-Punishes}
use ducp_node_rs.Tests.History.{
  settled_task, settled_after, task, submission, claim, proof, dispute, s0, s1, s2, s3, s4, runs,
  supplies, executing_sub, settled_s2, tables, paid,
}

small_1 : s0.supply.minted + minted_by devnet submission.tx < u128_mod
unfolding minted_by sign
small_1 = rw supplies.0 (omega arith)

small_3 : s2.supply.minted + minted_by devnet proof.tx < u128_mod
unfolding minted_by sign
small_3 = rw (supplies.2, supplies.4) (omega arith)

-- From the genesis to the claimed task, and on over the proof, the challenge and an epoch.
abbrev reach_s2 : Reach toy devnet s0 s2
reach_s2 = next (next here (applies submission runs.0)) (applies claim runs.1)

abbrev reach_s4 : Reach toy devnet s0 s4
reach_s4 = next (next reach_s2 (applies proof runs.2)) (applies dispute runs.3)

abbrev reach_end : Reach toy devnet s0 (advance_epoch s4 devnet)
reach_end = next reach_s4 (ticks refl)

IsConsistent-s0 : IsConsistent s0
IsConsistent-s0 = genesis-IsConsistent allocations 0 (omega arith)

room_s2 : s0.supply.minted + total_issued reach_s2 < u128_mod
unfolding minted_by sign
room_s2 = rw supplies.0 (omega arith)

IsConsistent-s2 : IsConsistent s2
IsConsistent-s2 = (Reach-IsConsistent reach_s2 IsConsistent-s0 room_s2).0

room_end : allocated allocations + total_issued reach_end < u128_mod
unfolding minted_by sign
room_end = rw supplies.4 (omega arith)

reached_conserves_example : check_conservation (advance_epoch s4 devnet) ≡ true
reached_conserves_example =
    reached_conserves toy devnet allocations 0 (advance_epoch s4 devnet) reach_end room_end

reached_escrow_example : (account s2.accounts 1).escrowed ≡ sum (owed 1 s2.bodies) s2.tasks
reached_escrow_example =
    reached_escrow toy devnet allocations 0 s2 reach_s2 (unfold minted_by sign in omega arith) 1

pub IsConsistent-s3 : IsConsistent s3
IsConsistent-s3 =
    (Step-IsConsistent toy devnet s2 s3 (applies proof runs.2) IsConsistent-s2 small_3).0

apply_again_example : apply toy s3 proof devnet ≡ err bad_nonce
apply_again_example = apply_again toy s2 s3 proof devnet (unfold sign in omega arith) runs.2

apply-Mints_example : Mints s2 s3 (minted_by devnet proof.tx)
apply-Mints_example = apply-Mints toy s2 s3 proof devnet small_3 runs.2

-- The mempool holds the claim twice: the second is refused.
abbrev mempool : List SignedTx
mempool = claim ∷ claim ∷ proof ∷ []

commit-produce_example :
    let proposal = produce toy encode_state (sequencer 9) mempool s1 devnet in
    commit toy encode_state (sequencer 8) proposal.block proposal.txs s1 devnet ≡ ok proposal.state
commit-produce_example =
    commit-produce toy encode_state (sequencer 9) (sequencer 8) mempool s1 devnet

commit_iff_example :
    let proposal = produce toy encode_state (sequencer 9) mempool s1 devnet in
    commit toy encode_state (sequencer 8) proposal.block proposal.txs s1 devnet ≡ ok s3
    ↔ Commits toy encode_state devnet proposal.block proposal.txs s1 s3
commit_iff_example =
    let proposal = produce toy encode_state (sequencer 9) mempool s1 devnet in
    commit_iff toy encode_state (sequencer 8) proposal.block proposal.txs s1 s3 devnet

produce_results_example :
    let proposal = produce toy encode_state (sequencer 9) mempool s1 devnet in
    (map (λ r. r.tx_id) proposal.results ≡ map (tx_id toy) mempool)
    × (accepted_of proposal.results ≡ proposal.block.txs)
produce_results_example = produce_results toy encode_state (sequencer 9) mempool s1 devnet

produce_conserves_example :
    let proposal = produce toy encode_state (sequencer 9) mempool s1 devnet in
    Picks proposal.txs mempool
    × Applied toy devnet s1 proposal.txs proposal.state
    × (check_conservation proposal.state ≡ true)
produce_conserves_example =
    produce_conserves toy encode_state (sequencer 9) mempool s1 devnet
      (Step-IsConsistent toy devnet s0 s1 (applies submission runs.0) IsConsistent-s0 small_1).0
      (unfold minted_by sign in rw (supplies.1, supplies.4) (omega arith))

receipts_final_example :
    get task s4.receipts ≡ some (receipt_of s2 executing_sub (proof_of task) devnet)
receipts_final_example =
    receipts_final task (receipt_of s2 executing_sub (proof_of task) devnet)
      (next here (applies dispute runs.3)) (unfold minted_by sign in rw supplies.3 (omega arith))
      IsConsistent-s3 paid

submit_proof-Pays_example : Pays s2 settled_s2 body executing_sub (proof_of task) devnet
submit_proof-Pays_example =
    submit_proof-Pays s2 settled_s2 2 (proof_of task) devnet body executing_sub IsConsistent-s2
      (rw (supplies.2, supplies.4) (omega arith)) tables.0 tables.1 (omega arith) tables.2

room_s4 : s0.supply.minted + total_issued reach_s4 < u128_mod
unfolding minted_by sign
room_s4 = rw (supplies.0, supplies.4) (omega arith)

resolve_fraud-Punishes_example :
    Punishes s4 task
      (receipt_of s2 executing_sub (proof_of task) devnet)
      2
      1
      3
      devnet
      (resolve_fraud s4 task (some 3) devnet)
resolve_fraud-Punishes_example =
    resolve_fraud-Punishes s4 task (receipt_of s2 executing_sub (proof_of task) devnet) settled_task
      2 3 devnet (Reach-IsConsistent reach_s4 IsConsistent-s0 room_s4).0.conserved (omega arith)
      (omega arith) (omega arith) settled_after.0 settled_after.1 settled_after.2 refl
