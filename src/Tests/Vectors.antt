-- ===== src/Tests/Vectors.antt =====
-- The theorems on the life of a task and on the golden vectors, applied to toy primitives.
use ducp_node_rs.Common.{◌*◌, ◌/◌, ◌≡◌, ◌≢◌, refl, arith, true, some, [], ◌∷◌}
use ducp_node_rs.Common.Words.{add_u64}
use ducp_node_rs.Common.BTreeMap.{get, contains_key}
use ducp_node_rs.Common.Lists.{length}
use ducp_node_rs.Types.Bytes.{ucu_scale}
use ducp_node_rs.Types.Reject.{ok}
use ducp_node_rs.Types.Tx
use ducp_node_rs.Types.Primitives.{identity, sign, task_id}
use ducp_node_rs.Governance.{devnet}
use ducp_node_rs.Ledger.State.{State}
use ducp_node_rs.Ledger.Apply.{apply}
use ducp_node_rs.Ledger.Guards.{next_nonce}
use ducp_node_rs.Ledger.Handlers.{receipt_of}
use ducp_node_rs.Ledger.Reach.{here, next, applies}
use ducp_node_rs.Ledger.Status.{Moves, status_of}
use ducp_node_rs.Ledger.Status.Reached.{reached-Moves}
use ducp_node_rs.Ledger.Release.Returned.{Returns, advance_to_epoch-Returns}
use ducp_node_rs.Ledger.Epoch.{advance_to_epoch}
use ducp_node_rs.Ledger.Lifecycle.Completed.{Completes, task-Completes}
use ducp_node_rs.Dvm.{run, finish, consumed, measure_fuel, calibrate, meter, execute, Benchmark}
use ducp_node_rs.Dvm.Calibrated.{meter-calibrate}
use ducp_node_rs.Conformance.{seed_1, seed_2}
use ducp_node_rs.Conformance.Metering.{Workloads}
use ducp_node_rs.Conformance.Fraud.{FraudRecord, fraud_record}
use ducp_node_rs.Conformance.Fraud.Proven.{fraud_proven}
use ducp_node_rs.Types.Text.{codes}
use ducp_node_rs.Types.Primitives.{hash_bytes}
use ducp_node_rs.Common.Int.{pos}
use ducp_node_rs.Conformance.Replication.{ReplicationRecord, replication_record}
use ducp_node_rs.Conformance.Replication.Full.{replication_matches}
use ducp_node_rs.Conformance.Settlement.{
  SettlementRecord, FinalityRecord, settlement_record, finality_record, two_accounts, happy_body,
  happy_proof,
}
use ducp_node_rs.Conformance.Settlement.HappyPath.{
  happy-IsHonest, happy-room, two_accounts-IsConsistent,
}
use ducp_node_rs.Conformance.Settlement.Vector.{
  IsPublished, published_receipt, settlement-IsPublished,
}
use ducp_node_rs.Conformance.Settlement.Final.{finality_published}
use ducp_node_rs.Tests.{toy, allocations, encode_state, proof_of}
use ducp_node_rs.Tests.Examples.{IsConsistent-s3}
use ducp_node_rs.Tests.Hex.{hex}
use ducp_node_rs.Tests.Machine.{toy_wasmtime}
use ducp_node_rs.Tests.History.{
  task, submission, claim, proof, dispute, s2, s3, s4, runs, settled_task, executing_sub, paid,
  settled_s3,
}
use ducp_node_rs.Tests.Rates.{toy-SignsCorrectly}

distinct : identity toy seed_1 ≢ identity toy seed_2
distinct = omega arith

settlement-IsPublished_example :
    (r : SettlementRecord) × (settlement_record toy encode_state hex ≡ some r) × IsPublished toy r
settlement-IsPublished_example =
    settlement-IsPublished toy encode_state hex toy-SignsCorrectly distinct

finality_published_example :
    (r : FinalityRecord) × (finality_record toy encode_state hex ≡ some r)
    × (r.epoch ≡ 32)
    × (r.receipt ≡ published_receipt toy)
    × (r.released ≡ true)
    × (r.provider.balance ≡ 104_040_000_000)
    × (r.provider.bonded ≡ 0)
    × (r.receipt_unchanged ≡ true)
    × (r.conserved ≡ true)
finality_published_example = finality_published toy encode_state hex toy-SignsCorrectly distinct

replication_matches_example :
    (r : ReplicationRecord) × (replication_record toy encode_state hex ≡ some r)
    × (r.replica_matches ≡ true)
    × (r.blocks ≡ 4)
    × (length r.block_state_roots ≡ 4)
replication_matches_example = replication_matches toy encode_state hex toy-SignsCorrectly distinct

task-Completes_example :
    let s = two_accounts toy in
    let b = happy_body toy in
    let nonce = next_nonce s (identity toy seed_2) in
    let work = happy_proof toy (7 ∷ []) in
    (t1 t2 t3 : State) × (apply toy s
        (sign toy seed_1 (Tx.submit_task b) (next_nonce s (identity toy seed_1)))
        devnet
      ≡ ok t1)
    × (apply toy t1 (sign toy seed_2 (Tx.claim_task (task_id toy b)) nonce) devnet ≡ ok t2)
    × (apply toy t2 (sign toy seed_2 (Tx.submit_proof work) (add_u64 nonce 1)) devnet ≡ ok t3)
    × Completes toy devnet s seed_1 seed_2 b work t3
task-Completes_example =
    task-Completes toy devnet (two_accounts toy) seed_1 seed_2 (happy_body toy)
      (happy_proof toy (7 ∷ [])) (happy-IsHonest toy (7 ∷ []) toy-SignsCorrectly distinct)
      (two_accounts-IsConsistent toy (7 ∷ []) toy-SignsCorrectly distinct)
      (happy-room toy (7 ∷ []) toy-SignsCorrectly distinct)

reached-Moves_example : Moves (status_of s3 task) (status_of s4 task)
reached-Moves_example =
    reached-Moves toy devnet allocations 0 s3 s4 task
      (next (next (next here (applies submission runs.0)) (applies claim runs.1))
        (applies proof runs.2))
      (applies dispute runs.3)

advance_to_epoch-Returns_example :
    let t = advance_to_epoch s3 40 devnet in
    (contains_key task t.released ≡ true)
    × (get task t.receipts ≡ some (receipt_of s2 executing_sub (proof_of task) devnet))
    × Returns s3.accounts t.accounts 2 settled_task.claim_stake
advance_to_epoch-Returns_example =
    advance_to_epoch-Returns s3 task (receipt_of s2 executing_sub (proof_of task) devnet)
      settled_task 2 devnet 40 IsConsistent-s3.conserved
      (record { paid = paid; listed = settled_s3.0; named = refl; unmarked = settled_s3.1 })
      settled_s3.4 (omega arith) (rw settled_s3.2 (omega arith))
      (unfold receipt_of in rw settled_s3.3 (unfold add_u64 in omega arith))

meter-calibrate_example :
    (b : Benchmark) × (calibrate toy_wasmtime toy (1 ∷ []) (9 ∷ []) [] ≡ some b)
    × (meter toy_wasmtime (9 ∷ []) [] b ≡ ucu_scale)
    × (meter toy_wasmtime (8 ∷ []) [] b ≡ 1_099_511_627_768 * ucu_scale / 1_099_511_627_767)
meter-calibrate_example =
    meter-calibrate toy_wasmtime toy (1 ∷ []) (9 ∷ []) [] (8 ∷ []) [] 1_099_511_627_767
      1_099_511_627_768 (unfold measure_fuel run finish consumed in refl)
      (unfold measure_fuel run finish consumed in refl) (omega arith) (omega arith) (omega arith)

abbrev workloads : Workloads
workloads = record { reference_module = 9 ∷ []; echo_module = 8 ∷ [] }

abbrev calibrated_benchmark : Benchmark
calibrated_benchmark = record {
  version = 0;
  fuel_cost_table_hash = hash_bytes toy (codes "ducp.fuel.wasmtime.v46.profile0");
  fuel_per_ucu = 1_099_511_627_767;
  e_baseline = 137;
  t_std_millikelvin = 300_000;
}

fraud_proven_example :
    (r : FraudRecord) × (fraud_record toy_wasmtime toy encode_state hex workloads ≡ some r)
    × (r.verdict_is_fraud ≡ true)
    × (r.provider_standing.sp ≡ pos 0)
    × (r.provider_standing.strikes ≡ 1)
    × (r.conserved ≡ true)
fraud_proven_example =
    fraud_proven toy_wasmtime toy workloads calibrated_benchmark encode_state hex toy-SignsCorrectly
      (record { one_two = distinct; one_three = omega arith; two_three = omega arith })
      (unfold calibrate measure_fuel run finish consumed in refl) (omega arith)
      (unfold execute hash_bytes in omega arith)
