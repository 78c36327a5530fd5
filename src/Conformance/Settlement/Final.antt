-- ===== src/Conformance/Settlement/Final.antt =====
-- The finality vector is made: the claim is released, the receipt stands, the ledger conserves.
use ducp_node_rs.Common.{
  ℕ, zero, suc, ◌-◌, ◌≡◌, ◌≢◌, refl, ap, ◌∙◌, arith, true, false, some, [], ◌∷◌, ==_self, List,
}
use ducp_node_rs.Common.Int.{ℤ, pos, negsuc}
use ducp_node_rs.Common.BTreeMap.{get, contains_key}
use ducp_node_rs.Types.Bytes.{Bytes, Identity, TaskId, Ucu, Epoch}
use ducp_node_rs.Types.Text.{Hex, codes}
use ducp_node_rs.Types.Records.{Receipt}
use ducp_node_rs.Types.Primitives.{Primitives, SignsCorrectly, identity, task_id}
use ducp_node_rs.Governance.{Params, devnet}
use ducp_node_rs.Ledger.Accounts.{account}
use ducp_node_rs.Ledger.State.{State, genesis, check_conservation}
use ducp_node_rs.Ledger.Epoch.{
  tick, matured, release, release_all, advance_epoch, advance_loop, advance_to_epoch,
}
use ducp_node_rs.Ledger.Clock.{advance_to_epoch_reaches}
use ducp_node_rs.Ledger.Consistent.{IsConsistent, advance_epoch-IsConsistent}
use ducp_node_rs.Ledger.Conservation.Check.{check_conservation-IsConserved}
use ducp_node_rs.Ledger.Settled.{settled_sub}
use ducp_node_rs.Ledger.Release.{IsClaimed}
use ducp_node_rs.Ledger.Release.Returned.{advance_to_epoch-Returns}
use ducp_node_rs.Ledger.Lifecycle.{taken}
use ducp_node_rs.Ledger.Lifecycle.Completed.{s3-IsConsistent}
use ducp_node_rs.Ledger.Lifecycle.Entries.{
  s3-released, s3-entries, s3-marks, get-account, update-contains,
}
use ducp_node_rs.Conformance.{seed_1, seed_2}
use ducp_node_rs.Conformance.Settlement.{
  FinalityRecord, two_accounts, happy_body, happy_proof, root_text, finality_record, eq_receipt,
  eq_int,
}
use ducp_node_rs.Conformance.Settlement.HappyPath.{
  granted, rates, happy_end, happy-IsHonest, happy-settle_task, happy-Completes, happy-room,
  two_accounts-IsConsistent,
}
use ducp_node_rs.Conformance.Settlement.Vector.{published_receipt, receipt_lem, staked}

module _ (j : Identity) where
  release_all-contains :
      (claims : List (TaskId × Identity × Ucu)) (s : State)
      → contains_key j s.accounts ≡ true
      → contains_key j (release_all claims s).accounts ≡ true
  unfolding release_all release
  release_all-contains [] s there = there
  release_all-contains ((task, who, stake) ∷ rest) s there =
      release_all-contains rest (release s (task, who, stake))
        (update-contains s.accounts who j _ there)

  advance_loop-keeps :
      (fuel : ℕ) (s : State) (target : Epoch) (params : Params)
      → contains_key j s.accounts ≡ true
      → IsConsistent s
      → (contains_key j (advance_loop fuel s target params).accounts ≡ true)
        × IsConsistent (advance_loop fuel s target params)
  unfolding advance_loop
  advance_loop-keeps zero s target params there i = (there, i)
  advance_loop-keeps (suc fuel) s target params there i =
      let ticked = tick s params in
      let kept : contains_key j (advance_epoch s params).accounts ≡ true =
        unfold advance_epoch tick in
        release_all-contains (matured ticked ticked.receipts) ticked there in
      let rest =
        advance_loop-keeps fuel (advance_epoch s params) target params kept
          (advance_epoch-IsConsistent s params i) in
      ground (arith, there, i, rest)

  advance_to_epoch-keeps :
      (s : State) (target : Epoch) (params : Params)
      → contains_key j s.accounts ≡ true
      → IsConsistent s
      → (contains_key j (advance_to_epoch s target params).accounts ≡ true)
        × IsConsistent (advance_to_epoch s target params)
  unfolding advance_to_epoch
  advance_to_epoch-keeps s target params there i =
      advance_loop-keeps (target - s.epoch) s target params there i

eq_int_self : (z : ℤ) → eq_int z z ≡ true
eq_int_self (pos n) = ==_self n
eq_int_self (negsuc n) = ==_self n

eq_receipt_self : (r : Receipt) → eq_receipt r r ≡ true
unfolding eq_receipt
eq_receipt_self r = ground (
  arith,
  ==_self r.task,
  ==_self r.paid_to_provider,
  ==_self r.work_issuance,
  ==_self r.validator_fee,
  eq_int_self r.standing_delta,
  ==_self r.settled_epoch,
  ==_self r.clawback_until,
)

-- The finality vector is made, whatever the hashes and the encodings are, when signatures verify and
-- the two seeds have different public keys: at epoch 32 the claim is released, the Provider has the
-- published balance of 104040000000 and nothing bonded, the receipt is the
-- published one and compares equal to that of the settlement, and `check_conservation` holds.
pub finality_published :
    (p : Primitives) (borsh : State → Bytes) (h : Hex)
    → SignsCorrectly p
    → identity p seed_1 ≢ identity p seed_2
    → (r : FinalityRecord) × (finality_record p borsh h ≡ some r)
      × (r.epoch ≡ 32)
      × (r.receipt ≡ published_receipt p)
      × (r.released ≡ true)
      × (r.provider.balance ≡ 104_040_000_000)
      × (r.provider.bonded ≡ 0)
      × (r.receipt_unchanged ≡ true)
      × (r.conserved ≡ true)
unfolding finality_record
finality_published p borsh h law differ =
    let output = codes "out" in
    let start = two_accounts p in
    let body = happy_body p in
    let proof = happy_proof p output in
    let honest = happy-IsHonest p output law differ in
    let end = happy_end p output law differ in
    let s = advance_to_epoch end 32 devnet in
    let sub = taken p devnet start seed_1 seed_2 body proof in
    let c = happy-Completes p output law differ in
    let entries = s3-entries p devnet start seed_1 seed_2 body proof honest in
    let marks = s3-marks p devnet start seed_1 seed_2 body proof honest in
    let receipt = c.receipt ∙ ap some (receipt_lem p output) in
    let now : end.epoch ≡ 0 = marks.1 ∙ unfold genesis in refl in
    let claimed : IsClaimed end (task_id p body) (published_receipt p) (settled_sub sub proof)
        (identity p seed_2) =
      record {
        paid = receipt;
        listed = c.settled;
        named = refl;
        unmarked = rw marks.0 (unfold genesis get in refl);
      } in
    let unreleased : contains_key (task_id p body) end.released ≡ false =
      rw (s3-released p devnet start seed_1 seed_2 body proof honest)
        (unfold genesis get in refl) in
    let consistent =
      s3-IsConsistent p devnet start seed_1 seed_2 body proof honest
        (two_accounts-IsConsistent p output law differ) (happy-room p output law differ) in
    let (released, stands, returned) =
      advance_to_epoch-Returns end (task_id p body) (published_receipt p) (settled_sub sub proof)
        (identity p seed_2) devnet 32 consistent.conserved claimed unreleased (omega arith)
        (omega (arith, now)) (omega arith) in
    let (before_1, before_2) = granted p output law differ in
    let earned : (account end.accounts (identity p seed_2)).balance ≡ 99_040_000_000 =
      omega (arith, c.earned, rates.1, staked p, ap (λ a. a.balance) before_2) in
    let bonded : (account end.accounts (identity p seed_2)).bonded ≡ 5_000_000_000 =
      omega (arith, c.bonded, staked p, ap (λ a. a.bonded) before_2) in
    let emptied : (account s.accounts (identity p seed_2)).bonded ≡ 0 =
      omega (arith, returned.unbonded, bonded, staked p) in
    let (present, still) =
      advance_to_epoch-keeps (identity p seed_2) end 32 devnet (rw entries.1 refl) consistent in
    (
      record {
        epoch = s.epoch;
        provider = account s.accounts (identity p seed_2);
        receipt = published_receipt p;
        released = contains_key (task_id p body) s.released;
        receipt_unchanged = eq_receipt (published_receipt p) (published_receipt p);
        conserved = check_conservation s;
        state_root = root_text p borsh h s;
      },
      rw
          (
            happy-settle_task p output law differ,
            receipt,
            get-account s.accounts (identity p seed_2) present,
            stands,
          )
          refl,
      advance_to_epoch_reaches end 32 devnet (omega arith) (omega (arith, now)) ∙ rw now refl,
      refl,
      released,
      omega (arith, emptied, returned.total, earned, bonded),
      emptied,
      eq_receipt_self (published_receipt p),
      check_conservation-IsConserved s still.conserved,
    )
