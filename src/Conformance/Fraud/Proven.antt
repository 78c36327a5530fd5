-- ===== src/Conformance/Fraud/Proven.antt =====
-- The fraud vector is made: the verdict is fraud, the Provider is marked, the ledger conserves.
use ducp_node_rs.Common.{
  ◌*◌, ◌+◌, ◌%◌, ◌^◌, ◌<◌, ◌≤◌, ◌≡◌, ◌≢◌, refl, ap, sym, ◌∙◌, arith, some, true, false, Bool, max,
}
use ducp_node_rs.Common.Int.{pos}
use ducp_node_rs.Common.Words.{u64_mod, u128_mod, mul_u128, add_u64}
use ducp_node_rs.Common.BTreeMap.{get, remove, is_some, contains_key}
use ducp_node_rs.Common.BTreeMap.Laws.{get-insert_self}
use ducp_node_rs.Types.Bytes.{Bytes, Identity, TaskId, Ucu, ucu_scale, be_bytes}
use ducp_node_rs.Types.Text.{Hex, to_string}
use ducp_node_rs.Types.Reject.{ok}
use ducp_node_rs.Types.Records.{Submission, Receipt, StandingRecord}
use ducp_node_rs.Types.Tx
use ducp_node_rs.Types.Primitives.{Primitives, SignsCorrectly, identity, sign, task_id}
use ducp_node_rs.Governance.{Params, devnet, bond_min, issuance}
use ducp_node_rs.Ledger.Accounts.{account}
use ducp_node_rs.Ledger.State.{
  State, ChallengeRecord, check_conservation, genesis, update_standing, update_task,
}
use ducp_node_rs.Ledger.Apply.{apply, dispatch}
use ducp_node_rs.Ledger.Handlers.{accept_challenge, receipt_of}
use ducp_node_rs.Ledger.Guards.{bumped, next_nonce}
use ducp_node_rs.Ledger.Fraud.{
  penalise, claw_back, burn_issuance, levy_fine, pay_reward, mark_fraud, resolve_fraud, return_bond,
  forfeit_bond, resolve_challenge,
}
use ducp_node_rs.Ledger.Fraud.Cases.{resolve_fraud_cases, resolve_challenge_cases}
use ducp_node_rs.Ledger.Penalty.{penalise-accounts}
use ducp_node_rs.Ledger.Consistent.{IsConsistent, apply-IsConsistent, minted_by}
use ducp_node_rs.Ledger.Consistent.Fraud.{resolve_challenge-IsConsistent}
use ducp_node_rs.Ledger.Conservation.Check.{check_conservation-IsConserved}
use ducp_node_rs.Ledger.Settled.{settled_sub}
use ducp_node_rs.Ledger.Lifecycle.{apply-sign, taken}
use ducp_node_rs.Ledger.Lifecycle.Accepted.{IsHonest}
use ducp_node_rs.Ledger.Lifecycle.Completed.{Completes, s3-Completes, s3-IsConsistent}
use ducp_node_rs.Ledger.Lifecycle.Entries.{
  s3-bystander, s3-marks, s3-entries, accrued, get-account, update-contains, update-contains_self,
}
use ducp_node_rs.Dvm.{Wasmtime, Benchmark}
use ducp_node_rs.Verification.{check, is_fraud}
use ducp_node_rs.Conformance.{grant, seed_1, seed_2, seed_3}
use ducp_node_rs.Conformance.Metering.{Workloads, devnet_benchmark}
use ducp_node_rs.Conformance.Settlement.{root_text}
use ducp_node_rs.Conformance.Fraud.{
  FraudRecord, fraud_record, three_accounts, fraud_body, forged_proof, honest_run, verdict,
  forged_result_hash,
}
use ducp_node_rs.Conformance.Fraud.Settled.{
  AreDistinct, fraud_end, fraud-settle_task, fraud-IsHonest, start-IsConsistent, room, granted,
  work_small, open_challenge-accepts,
}

module _ (j : Identity) where
  penalise-contains :
      (s : State) (task : TaskId) (receipt : Receipt) (provider requester challenger : Identity)
      (params : Params)
      → contains_key j s.accounts ≡ true
      → contains_key j
          (penalise s task receipt provider requester (some challenger) params).accounts
        ≡ true
  unfolding claw_back burn_issuance levy_fine pay_reward
  penalise-contains s task receipt provider requester challenger params there =
      rw (penalise-accounts s task receipt provider requester challenger params) (
        update-contains _ challenger j _ (
          update-contains _ provider j _ (
            update-contains _ provider j _
              (update-contains _ requester j _ (update-contains s.accounts provider j _ there)))))

  resolve_challenge-contains :
      (s : State) (task : TaskId) (fraud : Bool) (params : Params)
      → contains_key j s.accounts ≡ true
      → contains_key j (resolve_challenge s task fraud params).accounts ≡ true
  unfolding return_bond forfeit_bond
  resolve_challenge-contains s task fraud params there =
      let closed = record s { pending_challenges = remove task s.pending_challenges } in
      resolve_challenge_cases (λ t. contains_key j t.accounts ≡ true) s task params fraud there
        (λ pc _. update-contains _ pc.challenger j _ (
          resolve_fraud_cases (λ t. contains_key j t.accounts ≡ true) closed task params
            (some pc.challenger) there
            (λ receipt sub provider _ _ _ _.
              penalise-contains closed task receipt provider sub.requester pc.challenger params
                there)))
        (λ pc _. update-contains s.accounts pc.challenger j _ there)

-- The Standing of a Provider once its task is found fraudulent.
penalise-standing :
    (s : State) (task : TaskId) (receipt : Receipt) (provider requester challenger : Identity)
    (params : Params) (r : StandingRecord)
    → get provider s.standing ≡ some r
    → get provider (penalise s task receipt provider requester (some challenger) params).standing
      ≡ some (record r { sp = pos 0; strikes = (r.strikes + 1) % 2 ^ 32 })
unfolding penalise claw_back burn_issuance levy_fine pay_reward mark_fraud update_standing
    update_task
penalise-standing s task receipt provider requester challenger params r had = ground (
  arith,
  had,
  get-insert_self provider (record r { sp = pos 0; strikes = (r.strikes + 1) % 2 ^ 32 }) s.standing,
)

resolve_challenge-standing :
    (s : State) (task : TaskId) (params : Params) (pc : ChallengeRecord) (receipt : Receipt)
    (sub : Submission) (provider : Identity) (r : StandingRecord)
    → get task s.pending_challenges ≡ some pc
    → contains_key task s.slashed ≡ false
    → get task s.receipts ≡ some receipt
    → get task s.tasks ≡ some sub
    → sub.provider ≡ some provider
    → get provider s.standing ≡ some r
    → get provider (resolve_challenge s task true params).standing
      ≡ some (record r { sp = pos 0; strikes = (r.strikes + 1) % 2 ^ 32 })
unfolding resolve_challenge return_bond resolve_fraud
resolve_challenge-standing s task params pc receipt sub provider r opened fresh paid listed named
      had =
    let closed = record s { pending_challenges = remove task s.pending_challenges } in
    rw (opened, resolve_challenge)
      (rw (fresh, paid, listed, named)
        (penalise-standing closed task receipt provider sub.requester pc.challenger params r had))

bond_fits : (work : Ucu) → work ≤ 10 * ucu_scale → max (bond_min devnet work) 1 ≤ grant
unfolding bond_min mul_u128
bond_fits work small = ground (arith, small)

verdict_lem :
    (w : Wasmtime) (p : Primitives) (loads : Workloads) (bench : Benchmark)
    → (honest_run w p loads bench).result_hash ≢ forged_result_hash
    → verdict w p loads bench ≡ true
unfolding check is_fraud
verdict_lem w p loads bench wrong = ground (arith, wrong)

module _ (w : Wasmtime) (p : Primitives) (loads : Workloads) (bench : Benchmark)
    (law : SignsCorrectly p) (differ : AreDistinct p)
    (calibrated : devnet_benchmark w p loads ≡ some bench)
    (small : bench.fuel_per_ucu < u64_mod) where
  abbrev task : TaskId
  task = task_id p (fraud_body w p loads)

  abbrev bond : Ucu
  bond = max (bond_min devnet (honest_run w p loads bench).ucu_count) 1

  abbrev end : State
  end = fraud_end w p loads bench law differ calibrated small

  abbrev first_state : State
  first_state = three_accounts w p

  abbrev disputed : State
  disputed = accept_challenge (bumped end (identity p seed_3)) (identity p seed_3) task bond

  honest :
      IsHonest p devnet first_state seed_1 seed_2
        (fraud_body w p loads)
        (forged_proof w p loads bench)
  honest = fraud-IsHonest w p loads bench law differ calibrated small

  started : IsConsistent first_state
  started = start-IsConsistent w p loads bench law differ calibrated small

  enough :
      first_state.supply.minted + issuance devnet (honest_run w p loads bench).ucu_count < u128_mod
  enough = room w p loads bench law differ calibrated small

  completed :
      Completes p devnet first_state seed_1 seed_2
        (fraud_body w p loads)
        (forged_proof w p loads bench)
        end
  completed =
      s3-Completes p devnet first_state seed_1 seed_2 (fraud_body w p loads)
        (forged_proof w p loads bench) honest started enough

  disputed_lem : apply p end (sign p seed_3 (Tx.challenge task bond) 0) devnet ≡ ok disputed
  unfolding genesis dispatch
  disputed_lem =
      let c = identity p seed_3 in
      let body = fraud_body w p loads in
      let proof = forged_proof w p loads bench in
      let tx = Tx.challenge task bond in
      let (rich, due, idle) =
        s3-bystander p devnet first_state seed_1 seed_2 body proof c honest
          (λ e. differ.one_three (sym e)) (λ e. differ.two_three (sym e)) in
      let (unmarked, time) = s3-marks p devnet first_state seed_1 seed_2 body proof honest in
      let zero : next_nonce first_state c ≡ 0 = unfold get in refl in
      let sub = taken p devnet first_state seed_1 seed_2 body proof in
      let own = granted w p loads bench law differ calibrated small in
      ap (λ n. apply p end (sign p seed_3 tx n) devnet) (sym (due ∙ zero))
      ∙ apply-sign p devnet end seed_3 tx law
      ∙ open_challenge-accepts (bumped end c) c task bond devnet
          (receipt_of first_state sub proof devnet) (settled_sub sub proof) completed.receipt
          completed.settled refl (rw time (unfold receipt_of add_u64 in omega arith))
          (rw unmarked (unfold get in refl)) (rw idle (unfold get in refl))
          (unfold receipt_of in ground arith)
          (rw (rich ∙ own.2) (bond_fits _ (work_small w p loads bench law differ calibrated small)))

  disputed-IsConsistent : IsConsistent disputed
  disputed-IsConsistent =
      apply-IsConsistent p end disputed (sign p seed_3 (Tx.challenge task bond) 0) devnet
        (s3-IsConsistent p devnet first_state seed_1 seed_2 (fraud_body w p loads)
          (forged_proof w p loads bench) honest started enough)
        (unfold minted_by sign in omega (arith, completed.minted, enough)) disputed_lem

  -- What is left of the scenario when the verdict is in.
  abbrev resolved : State
  resolved = resolve_challenge disputed task true devnet

  resolved-conserved : check_conservation resolved ≡ true
  resolved-conserved =
      check_conservation-IsConserved resolved
        (resolve_challenge-IsConsistent disputed task true devnet disputed-IsConsistent).conserved

  resolved-accounts :
      (get (identity p seed_1) resolved.accounts
        ≡ some (account resolved.accounts (identity p seed_1)))
      × (get (identity p seed_2) resolved.accounts
          ≡ some (account resolved.accounts (identity p seed_2)))
      × (get (identity p seed_3) resolved.accounts
          ≡ some (account resolved.accounts (identity p seed_3)))
  unfolding accept_challenge
  resolved-accounts =
      let (one, two, standing) =
        s3-entries p devnet first_state seed_1 seed_2 (fraud_body w p loads)
          (forged_proof w p loads bench) honest in
      let there = λ (j : Identity) (known : contains_key j disputed.accounts ≡ true).
        get-account resolved.accounts j
          (resolve_challenge-contains j disputed task true devnet known) in
      (
        there (identity p seed_1) (update-contains _ (identity p seed_3) _ _ (ap is_some one)),
        there (identity p seed_2) (update-contains _ (identity p seed_3) _ _ (ap is_some two)),
        there (identity p seed_3) (update-contains_self _ (identity p seed_3) _),
      )

  resolved-standing :
      get (identity p seed_2) resolved.standing
      ≡ some
          (record (accrued first_state (identity p seed_2) (forged_proof w p loads bench) devnet) {
            sp = pos 0;
            strikes = 1;
          })
  unfolding accept_challenge genesis resolve_challenge get
  resolved-standing =
      let body = fraud_body w p loads in
      let proof = forged_proof w p loads bench in
      let (one, two, earned) = s3-entries p devnet first_state seed_1 seed_2 body proof honest in
      let (unmarked, time) = s3-marks p devnet first_state seed_1 seed_2 body proof honest in
      let sub = taken p devnet first_state seed_1 seed_2 body proof in
      resolve_challenge-standing disputed task devnet _ (receipt_of first_state sub proof devnet)
        (settled_sub sub proof) (identity p seed_2) _
        (get-insert_self task _ end.pending_challenges) (rw unmarked (unfold get in refl))
        completed.receipt completed.settled refl earned

-- The fraud vector is made, whatever the encodings are, when signatures verify, the three seeds
-- have different public keys, the calibration of the devnet yields a benchmark with a u64 rate, and
-- the true result differs from the forged one: the verdict is fraud, the Provider ends with no
-- Standing and one strike, and `check_conservation` holds.
pub fraud_proven :
    (w : Wasmtime) (p : Primitives) (loads : Workloads) (bench : Benchmark) (borsh : State → Bytes)
    (h : Hex)
    → SignsCorrectly p
    → AreDistinct p
    → devnet_benchmark w p loads ≡ some bench
    → bench.fuel_per_ucu < u64_mod
    → (honest_run w p loads bench).result_hash ≢ forged_result_hash
    → (r : FraudRecord) × (fraud_record w p borsh h loads ≡ some r)
      × (r.verdict_is_fraud ≡ true)
      × (r.provider_standing.sp ≡ pos 0)
      × (r.provider_standing.strikes ≡ 1)
      × (r.conserved ≡ true)
unfolding fraud_record
fraud_proven w p loads bench borsh h law differ calibrated small wrong =
    let s = resolved w p loads bench law differ calibrated small in
    let guilty = verdict_lem w p loads bench wrong in
    let (one, two, three) = resolved-accounts w p loads bench law differ calibrated small in
    let proof = forged_proof w p loads bench in
    let earned = accrued (three_accounts w p) (identity p seed_2) proof devnet in
    (
      record {
        forged_result_hash = h.encode (be_bytes 32 forged_result_hash);
        true_result_hash = h.encode (be_bytes 32 (honest_run w p loads bench).result_hash);
        verdict_is_fraud = true;
        requester = account s.accounts (identity p seed_1);
        provider = account s.accounts (identity p seed_2);
        challenger = account s.accounts (identity p seed_3);
        provider_standing = record earned { sp = pos 0; strikes = 1 };
        minted = to_string s.supply.minted;
        burned = to_string s.supply.burned;
        fee_pool = to_string s.fee_pool;
        conserved = true;
        state_root = root_text p borsh h s;
      },
      rw
          (
            calibrated,
            fraud-settle_task w p loads bench law differ calibrated small,
            disputed_lem w p loads bench law differ calibrated small,
            guilty,
            one,
            two,
            three,
            resolved-standing w p loads bench law differ calibrated small,
            resolved-conserved w p loads bench law differ calibrated small,
          )
          refl,
      refl,
      refl,
      refl,
      refl,
    )
