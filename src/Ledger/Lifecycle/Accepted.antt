-- ===== src/Ledger/Lifecycle/Accepted.antt =====
-- An honest task is accepted at each of its steps, and what the steps lock.
use ducp_node_rs.Common.{ℕ, ◌+◌, ◌≤◌, ◌≡◌, ◌≢◌, refl, ◌∙◌, arith, none}
use ducp_node_rs.Common.Words.{add_u64, add_u128, sub_u128}
use ducp_node_rs.Common.BTreeMap.{get}
use ducp_node_rs.Types.Reject.{ok}
use ducp_node_rs.Types.Task.{TaskBody, sampled_reexec}
use ducp_node_rs.Types.Records.{ComputeProof}
use ducp_node_rs.Types.Tx
use ducp_node_rs.Types.Primitives.{Primitives, SignsCorrectly, sign, task_id}
use ducp_node_rs.Governance.{Params, fee, claim_stake}
use ducp_node_rs.Ledger.Accounts.{account, update, lock_escrow, lock_bond}
use ducp_node_rs.Ledger.Accounts.Held.{account-update, hold-le-held}
use ducp_node_rs.Ledger.State.{State, standing_of, update_task}
use ducp_node_rs.Ledger.Apply.{apply, dispatch}
use ducp_node_rs.Ledger.Handlers.{accept_submission, accept_claim, settle, record_proof}
use ducp_node_rs.Ledger.Guards.{bumped, next_nonce}
use ducp_node_rs.Ledger.Consistent.{IsConsistent}
use ducp_node_rs.Ledger.Lifecycle.{
  apply-sign, submit_task-accepts, claim_task-accepts, submit_proof-accepts, s1, s2, listed, taken,
  s1-provider, s2-provider,
}

-- A body, and a proof of it, that an honest Requester and Provider can bring to the ledger.
pub record IsHonest (p : Primitives) (params : Params) (s : State) (r v : ℕ) (body : TaskBody)
    (proof : ComputeProof) : Type 0 where
  pub signs : SignsCorrectly p
  pub differ : p.public_key r ≢ p.public_key v
  pub supported : body.tier ≡ sampled_reexec
  pub fresh : get (task_id p body) s.tasks ≡ none
  pub funded :
      body.limits.max_ucu + fee params body.limits.max_ucu
      ≤ (account s.accounts (p.public_key r)).balance
  pub staked :
      claim_stake params body.limits.max_ucu (standing_of s (p.public_key v))
      ≤ (account s.accounts (p.public_key v)).balance
  pub in_time : s.epoch ≤ body.deadline
  pub of_task : proof.task ≡ task_id p body
  pub by_provider : proof.provider ≡ p.public_key v
  pub within : proof.ucu_count ≤ body.limits.max_ucu
  pub benchmark : proof.benchmark ≡ body.benchmark

module _ (p : Primitives) (params : Params) (s : State) (r v : ℕ) (body : TaskBody)
    (proof : ComputeProof) where
  abbrev pub s3 : State
  s3 =
      let before = bumped (s2 p params s r v body proof) (p.public_key v) in
      settle (record_proof before proof) body (taken p params s r v body proof) proof params

  pub submitted_lem :
      IsHonest p params s r v body proof
      → IsConsistent s
      → apply p s (sign p r (Tx.submit_task body) (next_nonce s (p.public_key r))) params
        ≡ ok (s1 p params s r v body proof)
  unfolding dispatch
  submitted_lem a i =
      apply-sign p params s r (Tx.submit_task body) a.signs
      ∙ submit_task-accepts p params (bumped s (p.public_key r)) (p.public_key r) body a.supported
          a.fresh
          (omega (
            arith,
            a.funded,
            hold-le-held s.accounts (p.public_key r),
            i.conserved.balanced,
            i.conserved.minted_fits,
          ))
          a.funded

  pub claimed_lem :
      IsHonest p params s r v body proof
      → let t = s1 p params s r v body proof in
        apply p t (sign p v (Tx.claim_task (task_id p body)) (next_nonce s (p.public_key v))) params
        ≡ ok (s2 p params s r v body proof)
  unfolding dispatch standing_of accept_submission
  claimed_lem a =
      let v' = p.public_key v in
      let t = s1 p params s r v body proof in
      let (same, nonce, standing, epoch, found, listed') =
        s1-provider p params s r v body proof a.differ in
      rw (← nonce) (
        apply-sign p params t v (Tx.claim_task (task_id p body)) a.signs
        ∙ claim_task-accepts params (bumped t v') v' (task_id p body) body
            (listed p params s r v body proof) found listed' refl (omega (arith, epoch, a.in_time))
            (rw same a.staked))

  pub proved_lem :
      IsHonest p params s r v body proof
      → apply p
          (s2 p params s r v body proof)
          (sign p v (Tx.submit_proof proof) (add_u64 (next_nonce s (p.public_key v)) 1))
          params
        ≡ ok s3
  unfolding dispatch
  proved_lem a =
      let v' = p.public_key v in
      let t = s2 p params s r v body proof in
      let (nonce, found, taken') = s2-provider p params s r v body proof a.differ in
      rw (← nonce) (
        apply-sign p params t v (Tx.submit_proof proof) a.signs
        ∙ submit_proof-accepts params (bumped t v') v' proof body (taken p params s r v body proof)
            (rw a.of_task found) (rw a.of_task taken') refl refl a.by_provider a.within a.benchmark)

  -- What the first two transactions lock.
  abbrev pub Locks : State → Type 0
  Locks t =
      let n = body.limits.max_ucu + fee params body.limits.max_ucu in
      let c = claim_stake params body.limits.max_ucu (standing_of s (p.public_key v)) in
      ((account t.accounts (p.public_key r)).balance + n
        ≡ (account s.accounts (p.public_key r)).balance)
      × ((account t.accounts (p.public_key r)).escrowed
          ≡ (account s.accounts (p.public_key r)).escrowed + n)
      × ((account t.accounts (p.public_key v)).balance + c
          ≡ (account s.accounts (p.public_key v)).balance)
      × ((account t.accounts (p.public_key v)).bonded
          ≡ (account s.accounts (p.public_key v)).bonded + c)

  pub s2-accounts :
      (s2 p params s r v body proof).accounts
      ≡ update
          (update s.accounts
            (p.public_key r)
            (lock_escrow (body.limits.max_ucu + fee params body.limits.max_ucu)))
          (p.public_key v)
          (lock_bond (claim_stake params body.limits.max_ucu (standing_of s (p.public_key v))))
  unfolding accept_claim update_task accept_submission
  s2-accounts = ground arith

  pub s2-Locks :
      IsHonest p params s r v body proof → IsConsistent s → Locks (s2 p params s r v body proof)
  s2-Locks a i =
      let r' = p.public_key r in
      let v' = p.public_key v in
      let n = body.limits.max_ucu + fee params body.limits.max_ucu in
      let c = claim_stake params body.limits.max_ucu (standing_of s v') in
      rw s2-accounts (
        unfold lock_escrow lock_bond add_u128 sub_u128 in
        ground (
          arith,
          a.differ,
          a.funded,
          a.staked,
          i.conserved.balanced,
          i.conserved.minted_fits,
          hold-le-held s.accounts r',
          hold-le-held s.accounts v',
          account-update s.accounts r' r' (lock_escrow n),
          account-update s.accounts r' v' (lock_escrow n),
          account-update (update s.accounts r' (lock_escrow n)) v' r' (lock_bond c),
          account-update (update s.accounts r' (lock_escrow n)) v' v' (lock_bond c),
        ))

  pub s2-supply :
      ((s2 p params s r v body proof).supply ≡ s.supply)
      × ((s2 p params s r v body proof).fee_pool ≡ s.fee_pool)
      × ((s2 p params s r v body proof).epoch ≡ s.epoch)
  unfolding accept_claim update_task accept_submission
  s2-supply = ground arith
