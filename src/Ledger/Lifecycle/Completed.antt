-- ===== src/Ledger/Lifecycle/Completed.antt =====
-- What an honest task leaves behind in the ledger.
use ducp_node_rs.Common.{ℕ, ◌+◌, ◌<◌, ◌≡◌, refl, ap, subst, ◌∙◌, arith, some}
use ducp_node_rs.Common.Words.{u128_mod, add_u64}
use ducp_node_rs.Common.BTreeMap.{get}
use ducp_node_rs.Types.Reject.{ok}
use ducp_node_rs.Types.Task.{TaskBody}
use ducp_node_rs.Types.Records.{Submission, ComputeProof}
use ducp_node_rs.Types.Quant.{unmeasured}
use ducp_node_rs.Types.Tx
use ducp_node_rs.Types.Primitives.{Primitives, sign, task_id}
use ducp_node_rs.Governance.{Params, fee, claim_stake, issuance}
use ducp_node_rs.Ledger.Accounts.{account}
use ducp_node_rs.Ledger.State.{State, standing_of}
use ducp_node_rs.Ledger.Apply.{apply, dispatch}
use ducp_node_rs.Ledger.Handlers.{receipt_of}
use ducp_node_rs.Ledger.Guards.{bumped, next_nonce, apply-Accepts}
use ducp_node_rs.Ledger.Settled.{settled_sub}
use ducp_node_rs.Ledger.Settlement.{Pays, submit_proof-Pays}
use ducp_node_rs.Ledger.Consistent.{
  IsConsistent, apply-IsConsistent, bumped-IsConsistent, minted_by,
}
use ducp_node_rs.Ledger.Lifecycle.{s1, s2, taken, s2-provider}
use ducp_node_rs.Ledger.Lifecycle.Accepted.{
  IsHonest, s3, submitted_lem, claimed_lem, proved_lem, s2-Locks, s2-supply,
}

-- The end of an honest task: what the Requester spent and the Provider earned, both by the ledger
-- before the task, what was minted, and what was recorded.
pub record Completes (p : Primitives) (params : Params) (s : State) (r v : ℕ) (body : TaskBody)
    (proof : ComputeProof) (t : State) : Type 0 where
  pub spent :
      (account t.accounts (p.public_key r)).balance
        + (proof.ucu_count + fee params body.limits.max_ucu)
      ≡ (account s.accounts (p.public_key r)).balance
  pub unlocked :
      (account t.accounts (p.public_key r)).escrowed
      ≡ (account s.accounts (p.public_key r)).escrowed
  pub earned :
      (account t.accounts (p.public_key v)).balance
        + claim_stake params body.limits.max_ucu (standing_of s (p.public_key v))
      ≡ (account s.accounts (p.public_key v)).balance
        + (proof.ucu_count + issuance params proof.ucu_count)
  pub bonded :
      (account t.accounts (p.public_key v)).bonded
      ≡ (account s.accounts (p.public_key v)).bonded
        + claim_stake params body.limits.max_ucu (standing_of s (p.public_key v))
  pub minted : t.supply.minted ≡ s.supply.minted + issuance params proof.ucu_count
  pub pooled : t.fee_pool ≡ s.fee_pool + fee params body.limits.max_ucu
  pub settled :
      get (task_id p body) t.tasks ≡ some (settled_sub (taken p params s r v body proof) proof)
  pub receipt :
      get (task_id p body) t.receipts
      ≡ some (receipt_of s (taken p params s r v body proof) proof params)
  pub pair :
      get (task_id p body) t.q_ledger
      ≡ some (unmeasured (task_id p body) proof.ucu_count body.benchmark)

-- A receipt depends on the state by its epoch only.
receipt_of-epoch :
    (s t : State) (sub : Submission) (proof : ComputeProof) (params : Params)
    → s.epoch ≡ t.epoch
    → receipt_of s sub proof params ≡ receipt_of t sub proof params
unfolding receipt_of
receipt_of-epoch s t sub proof params e = rw e refl

module _ (p : Primitives) (params : Params) (s : State) (r v : ℕ) (body : TaskBody)
    (proof : ComputeProof) where
  s2-IsConsistent :
      IsHonest p params s r v body proof
      → IsConsistent s
      → IsConsistent (s2 p params s r v body proof)
  s2-IsConsistent a i =
      let t = s1 p params s r v body proof in
      let first =
        apply-IsConsistent p s t (sign p r (Tx.submit_task body) (next_nonce s (p.public_key r)))
          params i (unfold minted_by sign in omega (arith, i.conserved.minted_fits))
          (submitted_lem p params s r v body proof a i) in
      apply-IsConsistent p t (s2 p params s r v body proof)
        (sign p v (Tx.claim_task (task_id p body)) (next_nonce s (p.public_key v))) params first
        (unfold minted_by sign in omega (arith, first.conserved.minted_fits))
        (claimed_lem p params s r v body proof a)

  s3-Pays :
      IsHonest p params s r v body proof
      → IsConsistent s
      → s.supply.minted + issuance params proof.ucu_count < u128_mod
      → Pays
          (bumped (s2 p params s r v body proof) (p.public_key v))
          (s3 p params s r v body proof)
          body
          (taken p params s r v body proof)
          proof
          params
  unfolding sign dispatch
  s3-Pays a i fits =
      let v' = p.public_key v in
      let t = s2 p params s r v body proof in
      let end = s3 p params s r v body proof in
      let (nonce, found, taken') = s2-provider p params s r v body proof a.differ in
      let (supply, pool, epoch) = s2-supply p params s r v body proof in
      let stx = sign p v (Tx.submit_proof proof) (add_u64 (next_nonce s v') 1) in
      submit_proof-Pays (bumped t v') end v' proof params body (taken p params s r v body proof)
        (bumped-IsConsistent t v' (s2-IsConsistent a i)) (rw supply fits) (rw a.of_task found)
        (rw a.of_task taken') a.differ
        (apply-Accepts p t end stx params (proved_lem p params s r v body proof a)).handled

  pub s3-Completes :
      IsHonest p params s r v body proof
      → IsConsistent s
      → s.supply.minted + issuance params proof.ucu_count < u128_mod
      → Completes p params s r v body proof (s3 p params s r v body proof)
  s3-Completes a i fits =
      let pays = s3-Pays a i fits in
      let (spent, locked, staked, bonded) = s2-Locks p params s r v body proof a i in
      let (supply, pool, epoch) = s2-supply p params s r v body proof in
      let end = s3 p params s r v body proof in
      let before = s2 p params s r v body proof in
      let sub = taken p params s r v body proof in
      let u = proof.ucu_count in
      let paid =
        subst
          (λ k.
            (account end.accounts k).balance
            ≡ (account before.accounts k).balance + u + issuance params u)
          a.by_provider pays.paid in
      let kept =
        subst (λ k. (account end.accounts k).bonded ≡ (account before.accounts k).bonded)
          a.by_provider pays.still_bonded in
      record {
        spent = omega (arith, pays.refunded, spent, a.within);
        unlocked = omega (arith, pays.drained, locked);
        earned = omega (arith, paid, staked);
        bonded = omega (arith, kept, bonded);
        minted = pays.minted ∙ ap (λ x. x.minted + issuance params u) supply;
        pooled = pays.fee_paid ∙ ap (λ x. x + fee params body.limits.max_ucu) pool;
        settled = subst (λ k. get k end.tasks ≡ some (settled_sub sub proof)) a.of_task pays.marked;
        receipt =
            subst (λ k. get k end.receipts ≡ some (receipt_of s sub proof params)) a.of_task
              (pays.receipt
                ∙ ap some
                    (receipt_of-epoch (bumped before (p.public_key v)) s sub proof params epoch));
        pair =
            subst (λ k. get k end.q_ledger ≡ some (unmeasured k u body.benchmark)) a.of_task
              pays.pair;
      }

  pub s3-IsConsistent :
      IsHonest p params s r v body proof
      → IsConsistent s
      → s.supply.minted + issuance params proof.ucu_count < u128_mod
      → IsConsistent (s3 p params s r v body proof)
  s3-IsConsistent a i fits =
      let t = s2 p params s r v body proof in
      let (supply, pool, epoch) = s2-supply p params s r v body proof in
      apply-IsConsistent p t (s3 p params s r v body proof)
        (sign p v (Tx.submit_proof proof) (add_u64 (next_nonce s (p.public_key v)) 1)) params
        (s2-IsConsistent a i)
        (unfold minted_by sign in omega (arith, ap (λ x. x.minted) supply, fits))
        (proved_lem p params s r v body proof a)

-- An honest Requester and Provider, with distinct keys, the funds and the stake, a supported task
-- that is not yet recorded and a proof within its terms, in a consistent ledger whose supply has
-- room for the issuance, get the task settled by three transactions that each carry the nonce that
-- is due: all three are accepted, and in the end the Requester has spent the metered work and the
-- fee, the Provider has earned the work and the issuance and has its stake bonded, and the receipt,
-- the settled submission and the pair are recorded.
pub task-Completes :
    (p : Primitives) (params : Params) (s : State) (r v : ℕ) (body : TaskBody)
    (proof : ComputeProof)
    → IsHonest p params s r v body proof
    → IsConsistent s
    → s.supply.minted + issuance params proof.ucu_count < u128_mod
    → let nonce = next_nonce s (p.public_key v) in
      (t1 t2 t3 : State) × (apply p s
          (sign p r (Tx.submit_task body) (next_nonce s (p.public_key r)))
          params
        ≡ ok t1)
      × (apply p t1 (sign p v (Tx.claim_task (task_id p body)) nonce) params ≡ ok t2)
      × (apply p t2 (sign p v (Tx.submit_proof proof) (add_u64 nonce 1)) params ≡ ok t3)
      × Completes p params s r v body proof t3
task-Completes p params s r v body proof a i fits = (
  s1 p params s r v body proof,
  s2 p params s r v body proof,
  s3 p params s r v body proof,
  submitted_lem p params s r v body proof a i,
  claimed_lem p params s r v body proof a,
  proved_lem p params s r v body proof a,
  s3-Completes p params s r v body proof a i fits,
)
