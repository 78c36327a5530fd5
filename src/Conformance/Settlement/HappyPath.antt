-- ===== src/Conformance/Settlement/HappyPath.antt =====
-- The settlement vector is made, and has the published amounts, whatever the hashes are.
use ducp_node_rs.Common.{◌+◌, ◌*◌, ◌<◌, ◌≡◌, ◌≢◌, refl, arith, some, [], ◌∷◌}
use ducp_node_rs.Common.Int.{pos, to_i128}
use ducp_node_rs.Common.Words.{u128_mod, add_u64, add_u128, mul_u128, sub_u128}
use ducp_node_rs.Common.BTreeMap.{get}
use ducp_node_rs.Types.Bytes.{Bytes, ucu_scale}
use ducp_node_rs.Types.Records.{ComputeProof, new_account}
use ducp_node_rs.Types.Task.{TaskBody}
use ducp_node_rs.Types.Reject.{ok}
use ducp_node_rs.Types.Tx
use ducp_node_rs.Ledger.Apply.{apply}
use ducp_node_rs.Types.Primitives.{Primitives, SignsCorrectly, identity, task_id, sign}
use ducp_node_rs.Governance.{
  devnet, fee, claim_stake, stake_base, discount_reduction_ppm, issuance, standing_accrual,
}
use ducp_node_rs.Ledger.Accounts.{account, credit, update}
use ducp_node_rs.Ledger.Accounts.Held.{account-update}
use ducp_node_rs.Ledger.State.{State, genesis, allocate, standing_of}
use ducp_node_rs.Ledger.Consistent.{IsConsistent}
use ducp_node_rs.Ledger.Conservation.Check.{genesis-IsConserved}
use ducp_node_rs.Ledger.Reach.{genesis-IsConsistent}
use ducp_node_rs.Ledger.Lifecycle.{s1, s2}
use ducp_node_rs.Ledger.Lifecycle.Accepted.{IsHonest, s3, submitted_lem, claimed_lem, proved_lem}
use ducp_node_rs.Ledger.Lifecycle.Completed.{Completes, s3-Completes}
use ducp_node_rs.Conformance.{seed_1, seed_2, grant, settle_task}
use ducp_node_rs.Conformance.Settlement.{two_accounts, happy_body, happy_proof}

-- What the devnet's rates make of the scenario's ceiling and work.
pub rates :
    (fee devnet (10 * ucu_scale) ≡ 10_000_000)
    × (issuance devnet (4 * ucu_scale) ≡ 40_000_000)
    × (claim_stake devnet (10 * ucu_scale) (pos 0) ≡ 5_000_000_000)
    × (standing_accrual devnet (4 * ucu_scale) devnet.efficiency_mult_ppm ≡ pos 4_000_000_000)
unfolding fee issuance claim_stake stake_base discount_reduction_ppm standing_accrual to_i128
    mul_u128 sub_u128
rates = (refl, refl, refl, refl)

pub settle_task-accepted :
    (p : Primitives) (s t1 t2 t3 : State) (body : TaskBody) (proof : ComputeProof)
    → apply p s (sign p seed_1 (Tx.submit_task body) 0) devnet ≡ ok t1
    → apply p t1 (sign p seed_2 (Tx.claim_task (task_id p body)) 0) devnet ≡ ok t2
    → apply p t2 (sign p seed_2 (Tx.submit_proof proof) 1) devnet ≡ ok t3
    → settle_task p s body proof ≡ some t3
unfolding settle_task
settle_task-accepted p s t1 t2 t3 body proof first second third = rw (first, second, third) refl

module _ (p : Primitives) (output : Bytes) (law : SignsCorrectly p)
    (differ : identity p seed_1 ≢ identity p seed_2) where
  pub granted :
      (account (two_accounts p).accounts (identity p seed_1)
        ≡ record (new_account (identity p seed_1)) { balance = grant })
      × (account (two_accounts p).accounts (identity p seed_2)
          ≡ record (new_account (identity p seed_2)) { balance = grant })
  unfolding genesis allocate credit add_u128
  granted =
      let a = identity p seed_1 in
      let b = identity p seed_2 in
      let first = update [] a (credit grant) in
      let empty : (account [] a ≡ new_account a) × (account [] b ≡ new_account b) =
        unfold account get in (refl, refl) in
      (
        ground (
          arith,
          differ,
          empty.0,
          account-update [] a a (credit grant),
          account-update first b a (credit grant),
        ),
        ground (
          arith,
          differ,
          empty.1,
          account-update [] a b (credit grant),
          account-update first b b (credit grant),
        ),
      )

  pub happy-IsHonest :
      IsHonest p devnet (two_accounts p) seed_1 seed_2 (happy_body p) (happy_proof p output)
  unfolding genesis
  happy-IsHonest = record {
    signs = law;
    differ = differ;
    supported = refl;
    fresh = unfold get in refl;
    funded = rw granted.0 (omega (arith, rates.0));
    staked = rw granted.1 (unfold standing_of get in omega (arith, rates.2));
    in_time = omega arith;
    of_task = refl;
    by_provider = refl;
    within = omega arith;
    benchmark = refl;
  }

  abbrev pub happy_end : State
  happy_end = s3 p devnet (two_accounts p) seed_1 seed_2 (happy_body p) (happy_proof p output)

  pub two_accounts-IsConsistent : IsConsistent (two_accounts p)
  two_accounts-IsConsistent =
      genesis-IsConsistent ((identity p seed_1, grant) ∷ (identity p seed_2, grant) ∷ []) 0
        (omega arith)

  pub two_accounts-supply : (two_accounts p).supply.minted ≡ 2 * grant
  two_accounts-supply =
      (genesis-IsConserved ((identity p seed_1, grant) ∷ (identity p seed_2, grant) ∷ []) 0
        (omega arith)).1

  abbrev pub happy_1 : State
  happy_1 = s1 p devnet (two_accounts p) seed_1 seed_2 (happy_body p) (happy_proof p output)

  abbrev pub happy_2 : State
  happy_2 = s2 p devnet (two_accounts p) seed_1 seed_2 (happy_body p) (happy_proof p output)

  -- The three transactions of the scenario are accepted.
  pub happy-applies :
      (apply p (two_accounts p) (sign p seed_1 (Tx.submit_task (happy_body p)) 0) devnet
        ≡ ok happy_1)
      × (apply p happy_1 (sign p seed_2 (Tx.claim_task (task_id p (happy_body p))) 0) devnet
          ≡ ok happy_2)
      × (apply p happy_2 (sign p seed_2 (Tx.submit_proof (happy_proof p output)) 1) devnet
          ≡ ok happy_end)
  unfolding genesis
  happy-applies =
      let s = two_accounts p in
      let first =
        submitted_lem p devnet s seed_1 seed_2 (happy_body p) (happy_proof p output) happy-IsHonest
          two_accounts-IsConsistent in
      let second =
        claimed_lem p devnet s seed_1 seed_2 (happy_body p) (happy_proof p output) happy-IsHonest in
      let third =
        proved_lem p devnet s seed_1 seed_2 (happy_body p) (happy_proof p output) happy-IsHonest in
      (unfold get in first, unfold get in second, unfold get add_u64 in third)

  pub happy-settle_task :
      settle_task p (two_accounts p) (happy_body p) (happy_proof p output) ≡ some happy_end
  happy-settle_task =
      let (first, second, third) = happy-applies in
      settle_task-accepted p (two_accounts p) happy_1 happy_2 happy_end (happy_body p)
        (happy_proof p output) first second third

  pub happy-room :
      (two_accounts p).supply.minted + issuance devnet (happy_proof p output).ucu_count < u128_mod
  happy-room = omega (arith, two_accounts-supply, rates.1)

  pub happy-Completes :
      Completes p devnet
        (two_accounts p)
        seed_1
        seed_2
        (happy_body p)
        (happy_proof p output)
        happy_end
  happy-Completes =
      s3-Completes p devnet (two_accounts p) seed_1 seed_2 (happy_body p) (happy_proof p output)
        happy-IsHonest two_accounts-IsConsistent happy-room
