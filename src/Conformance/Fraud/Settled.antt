-- ===== src/Conformance/Fraud/Settled.antt =====
-- The forged proof settles, and its challenge is accepted.
use ducp_node_rs.Common.{
  ◌+◌, ◌*◌, ◌<◌, ◌≤◌, ◌≡◌, ◌≢◌, refl, ap, sym, ◌∙◌, arith, some, false, [], ◌∷◌,
}
use ducp_node_rs.Common.Words.{u64_mod, u128_mod, add_u64, add_u128, mul_u128}
use ducp_node_rs.Common.BTreeMap.{get, contains_key}
use ducp_node_rs.Types.Bytes.{Identity, TaskId, Ucu, ucu_scale}
use ducp_node_rs.Types.Reject.{ok}
use ducp_node_rs.Types.Task.{settled}
use ducp_node_rs.Types.Records.{Submission, Receipt, new_account}
use ducp_node_rs.Types.Primitives.{Primitives, SignsCorrectly, identity}
use ducp_node_rs.Governance.{Params, devnet, bond_min, issuance}
use ducp_node_rs.Ledger.Accounts.{account, update, credit}
use ducp_node_rs.Ledger.State.{State, genesis, allocate, standing_of}
use ducp_node_rs.Ledger.Handlers.{open_challenge, accept_challenge}
use ducp_node_rs.Ledger.Consistent.{IsConsistent}
use ducp_node_rs.Ledger.Conservation.Check.{genesis-IsConserved}
use ducp_node_rs.Ledger.Reach.{genesis-IsConsistent}
use ducp_node_rs.Ledger.Lifecycle.{s1, s2}
use ducp_node_rs.Ledger.Lifecycle.Accepted.{IsHonest, s3, submitted_lem, claimed_lem, proved_lem}
use ducp_node_rs.Ledger.Lifecycle.Entries.{account-update_other, account-update_self}
use ducp_node_rs.Dvm.{Wasmtime, Benchmark, calibrate}
use ducp_node_rs.Dvm.Meter.{execute_bounds}
use ducp_node_rs.Conformance.{seed_1, seed_2, seed_3, grant, settle_task}
use ducp_node_rs.Conformance.Settlement.HappyPath.{rates, settle_task-accepted}
use ducp_node_rs.Conformance.Metering.{Workloads, devnet_benchmark}
use ducp_node_rs.Conformance.Fraud.{three_accounts, fraud_body, forged_proof, honest_run}

-- A challenge of a settled task within its window is accepted, when its bond is large enough and
-- covered.
pub open_challenge-accepts :
    (s : State) (challenger : Identity) (task : TaskId) (bond : Ucu) (params : Params)
    (receipt : Receipt) (sub : Submission)
    → get task s.receipts ≡ some receipt
    → get task s.tasks ≡ some sub
    → sub.status ≡ settled
    → s.epoch ≤ receipt.clawback_until
    → contains_key task s.slashed ≡ false
    → contains_key task s.pending_challenges ≡ false
    → bond_min params receipt.paid_to_provider ≤ bond
    → bond ≤ (account s.accounts challenger).balance
    → open_challenge s challenger task bond params ≡ ok (accept_challenge s challenger task bond)
unfolding open_challenge
open_challenge-accepts s challenger task bond params receipt sub paid listed was window fresh idle
      large covered =
    ground (arith, paid, listed, was, fresh, idle)

-- A devnet benchmark has a positive rate.
benchmark_positive :
    (w : Wasmtime) (p : Primitives) (loads : Workloads) (bench : Benchmark)
    → devnet_benchmark w p loads ≡ some bench
    → 0 < bench.fuel_per_ucu
unfolding calibrate
benchmark_positive w p loads bench calibrated = ground (arith, calibrated)

-- Three keys that differ.
pub record AreDistinct (p : Primitives) : Type 0 where
  pub one_two : identity p seed_1 ≢ identity p seed_2
  pub one_three : identity p seed_1 ≢ identity p seed_3
  pub two_three : identity p seed_2 ≢ identity p seed_3

module _ (w : Wasmtime) (p : Primitives) (loads : Workloads) (bench : Benchmark)
    (law : SignsCorrectly p) (differ : AreDistinct p)
    (calibrated : devnet_benchmark w p loads ≡ some bench)
    (small : bench.fuel_per_ucu < u64_mod) where
  abbrev pub start : State
  start = three_accounts w p

  abbrev pub work : Ucu
  work = (honest_run w p loads bench).ucu_count

  pub work_small : work ≤ 10 * ucu_scale
  work_small =
      (execute_bounds w p loads.echo_module _ (fraud_body w p loads).limits bench
        (benchmark_positive w p loads bench calibrated) (omega (arith, small))).0

  abbrev pub Granted : Identity → Type 0
  Granted id = account start.accounts id ≡ record (new_account id) { balance = grant }

  pub granted :
      Granted (identity p seed_1) × Granted (identity p seed_2) × Granted (identity p seed_3)
  unfolding genesis allocate credit add_u128
  granted =
      let a = identity p seed_1 in
      let b = identity p seed_2 in
      let c = identity p seed_3 in
      let m1 = update [] a (credit grant) in
      let m2 = update m1 b (credit grant) in
      let empty : (account [] a ≡ new_account a)
          × (account [] b ≡ new_account b)
          × (account [] c ≡ new_account c) =
        unfold account get in (refl, refl, refl) in
      let b_a = λ (e : b ≡ a). differ.one_two (sym e) in
      let c_a = λ (e : c ≡ a). differ.one_three (sym e) in
      let c_b = λ (e : c ≡ b). differ.two_three (sym e) in
      (
        account-update_other m2 c a (credit grant) differ.one_three
            ∙ account-update_other m1 b a (credit grant) differ.one_two
            ∙ account-update_self [] a (credit grant)
            ∙ ap (credit grant) empty.0,
        account-update_other m2 c b (credit grant) differ.two_three
            ∙ account-update_self m1 b (credit grant)
            ∙ ap (credit grant) (account-update_other [] a b (credit grant) b_a ∙ empty.1),
        account-update_self m2 c (credit grant)
            ∙ ap (credit grant) (
                account-update_other m1 b c (credit grant) c_b
                ∙ account-update_other [] a c (credit grant) c_a
                ∙ empty.2),
      )

  pub fraud-IsHonest :
      IsHonest p devnet start seed_1 seed_2 (fraud_body w p loads) (forged_proof w p loads bench)
  unfolding genesis
  fraud-IsHonest = record {
    signs = law;
    differ = differ.one_two;
    supported = refl;
    fresh = unfold get in refl;
    funded = rw granted.0 (omega (arith, rates.0));
    staked = rw granted.1 (unfold standing_of get in omega (arith, rates.2));
    in_time = omega arith;
    of_task = refl;
    by_provider = refl;
    within = work_small;
    benchmark = refl;
  }

  pub start-IsConsistent : IsConsistent start
  start-IsConsistent =
      genesis-IsConsistent
        ((identity p seed_1, grant) ∷ (identity p seed_2, grant) ∷ (identity p seed_3, grant) ∷ [])
        0 (omega arith)

  start-supply : start.supply.minted ≡ 3 * grant
  start-supply =
      (genesis-IsConserved
        ((identity p seed_1, grant) ∷ (identity p seed_2, grant) ∷ (identity p seed_3, grant) ∷ [])
        0 (omega arith)).1

  pub room : start.supply.minted + issuance devnet work < u128_mod
  room = unfold issuance mul_u128 in omega (arith, start-supply, work_small)

  abbrev pub fraud_end : State
  fraud_end = s3 p devnet start seed_1 seed_2 (fraud_body w p loads) (forged_proof w p loads bench)

  pub fraud-settle_task :
      settle_task p start (fraud_body w p loads) (forged_proof w p loads bench) ≡ some fraud_end
  unfolding genesis
  fraud-settle_task =
      let body = fraud_body w p loads in
      let proof = forged_proof w p loads bench in
      let t1 = s1 p devnet start seed_1 seed_2 body proof in
      let t2 = s2 p devnet start seed_1 seed_2 body proof in
      let first =
        submitted_lem p devnet start seed_1 seed_2 body proof fraud-IsHonest start-IsConsistent in
      let second = claimed_lem p devnet start seed_1 seed_2 body proof fraud-IsHonest in
      let third = proved_lem p devnet start seed_1 seed_2 body proof fraud-IsHonest in
      settle_task-accepted p start t1 t2 fraud_end body proof (unfold get in first)
        (unfold get in second) (unfold get add_u64 in third)
