-- ===== src/Ledger/Status/Steps.antt =====
-- Every step of the ledger, and every history from genesis, follows the machine.
use ducp_node_rs.Common.{◌≡◌, sym, subst, arith, Option, some, Bool, inl, inr, ◌⊎◌}
use ducp_node_rs.Common.BTreeMap.{get, insert, remove}
use ducp_node_rs.Types.Bytes.{Identity, TaskId}
use ducp_node_rs.Types.Task.{settled, failed}
use ducp_node_rs.Types.Records.{Submission, Receipt}
use ducp_node_rs.Types.Primitives.{Primitives}
use ducp_node_rs.Governance.{Params}
use ducp_node_rs.Ledger.State.{State, update_task, update_standing}
use ducp_node_rs.Ledger.Guards.{apply-Accepts, bumped}
use ducp_node_rs.Ledger.Fraud.{
  penalise, claw_back, burn_issuance, levy_fine, pay_reward, mark_fraud, resolve_fraud, return_bond,
  forfeit_bond, resolve_challenge,
}
use ducp_node_rs.Ledger.Fraud.Cases.{resolve_fraud_cases, resolve_challenge_cases}
use ducp_node_rs.Ledger.Escrow.Frame.{advance_epoch-SameEscrow}
use ducp_node_rs.Ledger.Reach.{Step, applies, ticks, audits, resolves}
use ducp_node_rs.Ledger.Status.{
  Moves, stays, fails, status_of, status_in, same-Moves, insert-Moves, dispatch-Moves,
}

-- A task with a receipt is settled, or has failed.
pub record IsClosed (s : State) : Type 0 where
  pub closed :
      (task : TaskId) (receipt : Receipt)
      → get task s.receipts ≡ some receipt
      → (status_of s task ≡ some settled) ⊎ (status_of s task ≡ some failed)

pub penalise-tasks :
    (s : State) (task : TaskId) (receipt : Receipt) (provider requester : Identity)
    (to : Option Identity) (params : Params) (sub : Submission)
    → get task s.tasks ≡ some sub
    → (penalise s task receipt provider requester to params).tasks
      ≡ insert task (record sub { status = failed }) s.tasks
unfolding penalise claw_back burn_issuance levy_fine pay_reward mark_fraud update_standing
    update_task
penalise-tasks s task receipt provider requester to params sub found = ground (arith, found)

resolve_fraud-Moves :
    (s : State) (audited : TaskId) (to : Option Identity) (params : Params) (task : TaskId)
    → IsClosed s
    → Moves (status_of s task) (status_of (resolve_fraud s audited to params) task)
resolve_fraud-Moves s audited to params task i =
    resolve_fraud_cases (λ t. Moves (status_of s task) (status_of t task)) s audited params to stays
      (λ receipt sub provider fresh found task_found named.
        let end =
          penalise-tasks s audited receipt provider sub.requester to params sub task_found in
        let move : Moves (status_of s audited) (some failed) =
          elim (i.closed audited receipt found) [
            | inl is ↦ subst (λ x. Moves x (some failed)) (sym is) fails
            | inr is ↦ subst (λ x. Moves x (some failed)) (sym is) stays
          ] in
        subst (λ m. Moves (status_of s task) (status_in m task)) (sym end)
          (insert-Moves s.tasks audited task (record sub { status = failed }) move))

resolve_challenge-Moves :
    (s : State) (ended : TaskId) (fraud : Bool) (params : Params) (task : TaskId)
    → IsClosed s
    → Moves (status_of s task) (status_of (resolve_challenge s ended fraud params) task)
unfolding return_bond forfeit_bond
resolve_challenge-Moves s ended fraud params task i =
    let closed = record s { pending_challenges = remove ended s.pending_challenges } in
    resolve_challenge_cases (λ t. Moves (status_of s task) (status_of t task)) s ended params fraud
      stays
      (λ pc _.
        resolve_fraud-Moves closed ended (some pc.challenger) params task
          (record { closed = i.closed }))
      (λ pc _. stays)

-- A step of a ledger whose receipts are closed moves no task's status but as the machine does.
pub Step-Moves :
    (p : Primitives) (params : Params) (s t : State) (task : TaskId)
    → Step p params s t
    → IsClosed s
    → Moves (status_of s task) (status_of t task)
Step-Moves p params s t task (applies stx h) i =
    let a = apply-Accepts p s t stx params h in
    dispatch-Moves p (bumped s stx.author) t stx.author stx.tx params task a.handled
Step-Moves p params s t task (ticks e) i =
    same-Moves s t task (rw e (advance_epoch-SameEscrow s params).tasks)
Step-Moves p params s t task (audits audited to e) i =
    rw e (resolve_fraud-Moves s audited to params task i)
Step-Moves p params s t task (resolves ended fraud e) i =
    rw e (resolve_challenge-Moves s ended fraud params task i)
