-- ===== src/Ledger/Lifecycle/Entries.antt =====
-- Which entries an honest task makes in the tables of the ledger.
use ducp_node_rs.Common.{ℕ, ◌≡◌, ◌≢◌, ap, ◌∙◌, arith, true, some, ==_self}
use ducp_node_rs.Common.Int.{add_i128}
use ducp_node_rs.Common.Words.{add_u64}
use ducp_node_rs.Common.BTreeMap.{get, contains_key, unwrap_or}
use ducp_node_rs.Common.BTreeMap.Laws.{get-insert, get-insert_self}
use ducp_node_rs.Types.Bytes.{Identity}
use ducp_node_rs.Types.Task.{TaskBody}
use ducp_node_rs.Types.Records.{Account, Submission, ComputeProof, StandingRecord, new_standing}
use ducp_node_rs.Types.Primitives.{Primitives}
use ducp_node_rs.Governance.{Params, standing_accrual}
use ducp_node_rs.Ledger.Accounts.{Accounts, account, update}
use ducp_node_rs.Ledger.State.{State, update_standing}
use ducp_node_rs.Ledger.Handlers.{settle_money, receipt_of, accept_claim, accept_submission}
use ducp_node_rs.Ledger.State.{update_task}
use ducp_node_rs.Ledger.Guards.{bumped, next_nonce}
use ducp_node_rs.Ledger.Accounts.Held.{account-update}
use ducp_node_rs.Ledger.Settled.{settle-IsSettled}
use ducp_node_rs.Ledger.Lifecycle.{s2, taken, s2-provider}
use ducp_node_rs.Ledger.Lifecycle.Accepted.{IsHonest, s3, s2-accounts}

pub get-account :
    (m : Accounts) (id : Identity) → contains_key id m ≡ true → get id m ≡ some (account m id)
unfolding account
get-account m id present = ground arith

pub update-contains :
    (m : Accounts) (id j : Identity) (change : Account → Account)
    → contains_key j m ≡ true
    → contains_key j (update m id change) ≡ true
unfolding update
update-contains m id j change present = ground (arith, get-insert j id (change (account m id)) m)

pub update-contains_self :
    (m : Accounts) (id : Identity) (change : Account → Account)
    → contains_key id (update m id change) ≡ true
unfolding update
update-contains_self m id change = ground (arith, get-insert_self id (change (account m id)) m)

pub account-update_self :
    (m : Accounts) (id : Identity) (change : Account → Account)
    → account (update m id change) id ≡ change (account m id)
account-update_self m id change = ground (arith, ==_self id, account-update m id id change)

pub account-update_other :
    (m : Accounts) (id j : Identity) (change : Account → Account)
    → j ≢ id
    → account (update m id change) j ≡ account m j
account-update_other m id j change other = ground (arith, other, account-update m id j change)

account-settle_money_other :
    (s : State) (body : TaskBody) (sub : Submission) (proof : ComputeProof) (params : Params)
    (j : Identity)
    → j ≢ sub.requester
    → j ≢ proof.provider
    → account (settle_money s body sub proof params).accounts j ≡ account s.accounts j
unfolding settle_money
account-settle_money_other s body sub proof params j other_r other_v =
    account-update_other _ proof.provider j _ other_v
    ∙ account-update_other _ proof.provider j _ other_v
    ∙ account-update_other s.accounts sub.requester j _ other_r

settle_money-contains :
    (s : State) (body : TaskBody) (sub : Submission) (proof : ComputeProof) (params : Params)
    (j : Identity)
    → contains_key j s.accounts ≡ true
    → contains_key j (settle_money s body sub proof params).accounts ≡ true
unfolding settle_money
settle_money-contains s body sub proof params j present =
    update-contains _ proof.provider j _
      (update-contains _ proof.provider j _ (update-contains s.accounts sub.requester j _ present))

-- The Standing that a proof earns its Provider.
abbrev pub accrued : State → Identity → ComputeProof → Params → StandingRecord
accrued s provider proof params =
    let r = unwrap_or (get provider s.standing) (new_standing provider s.epoch) in
    record r {
      sp = add_i128 r.sp (standing_accrual params proof.ucu_count params.efficiency_mult_ppm);
    }

module _ (p : Primitives) (params : Params) (s : State) (r v : ℕ) (body : TaskBody)
    (proof : ComputeProof) where
  s2-accrued :
      accrued (bumped (s2 p params s r v body proof) (p.public_key v)) (p.public_key v) proof params
      ≡ accrued s (p.public_key v) proof params
  unfolding accept_claim update_task accept_submission
  s2-accrued = ground arith

  standing_lem :
      (t : State) (provider : Identity) (proof' : ComputeProof) (sub : Submission)
      → proof'.provider ≡ provider
      → get provider
          (update_standing t proof'.provider (λ x. record x {
            sp = add_i128 x.sp (receipt_of t sub proof' params).standing_delta;
          })).standing
        ≡ some (accrued t provider proof' params)
  unfolding update_standing receipt_of
  standing_lem t provider proof' sub by =
      rw by (get-insert_self provider (accrued t provider proof' params) t.standing)

  pub s3-entries :
      IsHonest p params s r v body proof
      → let t = s3 p params s r v body proof in
        (get (p.public_key r) t.accounts ≡ some (account t.accounts (p.public_key r)))
        × (get (p.public_key v) t.accounts ≡ some (account t.accounts (p.public_key v)))
        × (get (p.public_key v) t.standing ≡ some (accrued s (p.public_key v) proof params))
  s3-entries a =
      let r' = p.public_key r in
      let v' = p.public_key v in
      let t = s2 p params s r v body proof in
      let sub = taken p params s r v body proof in
      let (nonce, found, taken') = s2-provider p params s r v body proof a.differ in
      let e = settle-IsSettled (bumped t v') body sub proof params (rw a.of_task taken') in
      (
        get-account _ r' (
            rw e.accounts (
              settle_money-contains (bumped t v') body sub proof params r' (
                rw (s2-accounts p params s r v body proof)
                  (update-contains _ v' r' _ (update-contains_self s.accounts r' _))))),
        get-account _ v' (
            rw e.accounts (
              settle_money-contains (bumped t v') body sub proof params v'
                (rw (s2-accounts p params s r v body proof) (update-contains_self _ v' _)))),
        ap (get v') e.standing
            ∙ standing_lem (bumped t v') v' proof sub a.by_provider
            ∙ ap some s2-accrued,
      )

  s2-marks :
      ((s2 p params s r v body proof).slashed ≡ s.slashed)
      × ((s2 p params s r v body proof).epoch ≡ s.epoch)
  unfolding accept_claim update_task accept_submission
  s2-marks = ground arith

  -- No task is marked on the way, and no epoch begins.
  pub s3-marks :
      IsHonest p params s r v body proof
      → ((s3 p params s r v body proof).slashed ≡ s.slashed)
        × ((s3 p params s r v body proof).epoch ≡ s.epoch)
  s3-marks a =
      let t = s2 p params s r v body proof in
      let sub = taken p params s r v body proof in
      let (nonce, found, taken') = s2-provider p params s r v body proof a.differ in
      let e =
        settle-IsSettled (bumped t (p.public_key v)) body sub proof params (rw a.of_task taken') in
      (e.slashed ∙ s2-marks.0, e.epoch ∙ s2-marks.1)

  s2-released : (s2 p params s r v body proof).released ≡ s.released
  unfolding accept_claim update_task accept_submission
  s2-released = ground arith

  -- No claim is released on the way.
  pub s3-released :
      IsHonest p params s r v body proof → (s3 p params s r v body proof).released ≡ s.released
  s3-released a =
      let t = s2 p params s r v body proof in
      let sub = taken p params s r v body proof in
      let (nonce, found, taken') = s2-provider p params s r v body proof a.differ in
      let e =
        settle-IsSettled (bumped t (p.public_key v)) body sub proof params (rw a.of_task taken') in
      e.released ∙ s2-released

  s2-nonces :
      (s2 p params s r v body proof).nonces
      ≡ (bumped (bumped s (p.public_key r)) (p.public_key v)).nonces
  unfolding accept_claim update_task accept_submission
  s2-nonces = ground arith

  next_nonce-bumped_other :
      (t : State) (id j : Identity) → j ≢ id → next_nonce (bumped t id) j ≡ next_nonce t j
  next_nonce-bumped_other t id j other =
      ground (arith, other, get-insert j id (add_u64 (next_nonce t id) 1) t.nonces)

  s2-pending : (s2 p params s r v body proof).pending_challenges ≡ s.pending_challenges
  unfolding accept_claim update_task accept_submission
  s2-pending = ground arith

  s2-bystander :
      (j : Identity)
      → j ≢ p.public_key r
      → j ≢ p.public_key v
      → (account (s2 p params s r v body proof).accounts j ≡ account s.accounts j)
        × (next_nonce (s2 p params s r v body proof) j ≡ next_nonce s j)
        × ((s2 p params s r v body proof).pending_challenges ≡ s.pending_challenges)
  s2-bystander j other_r other_v = (
    ap (λ m. account m j) (s2-accounts p params s r v body proof)
        ∙ account-update_other _ (p.public_key v) j _ other_v
        ∙ account-update_other s.accounts (p.public_key r) j _ other_r,
    ap (λ m. unwrap_or (get j m) 0) s2-nonces
        ∙ next_nonce-bumped_other (bumped s (p.public_key r)) (p.public_key v) j other_v
        ∙ next_nonce-bumped_other s (p.public_key r) j other_r,
    s2-pending,
  )

  -- An account that takes no part keeps its balance and its nonce, and no challenge is opened.
  pub s3-bystander :
      (j : Identity)
      → IsHonest p params s r v body proof
      → j ≢ p.public_key r
      → j ≢ p.public_key v
      → (account (s3 p params s r v body proof).accounts j ≡ account s.accounts j)
        × (next_nonce (s3 p params s r v body proof) j ≡ next_nonce s j)
        × ((s3 p params s r v body proof).pending_challenges ≡ s.pending_challenges)
  s3-bystander j a other_r other_v =
      let t = s2 p params s r v body proof in
      let sub = taken p params s r v body proof in
      let (nonce, found, taken') = s2-provider p params s r v body proof a.differ in
      let e =
        settle-IsSettled (bumped t (p.public_key v)) body sub proof params (rw a.of_task taken') in
      let (same, due, pending) = s2-bystander j other_r other_v in
      (
        ap (λ m. account m j) e.accounts
            ∙ account-settle_money_other (bumped t (p.public_key v)) body sub proof params j other_r
                (rw a.by_provider other_v)
            ∙ same,
        ap (λ m. unwrap_or (get j m) 0) e.nonces
            ∙ next_nonce-bumped_other t (p.public_key v) j other_v
            ∙ due,
        e.pending ∙ pending,
      )
