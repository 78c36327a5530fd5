-- ===== src/Ledger/Status.antt =====
-- The life of a task, as an abstract machine on its status, which every step of the ledger follows.
pub mod Steps
pub mod Reached
use ducp_node_rs.Common.{
  ℕ, ◌+◌, ◌<◌, ◌≤◌, ◌≡◌, refl, ap, sym, subst, ◌∙◌, arith, Option, none, some, Bool, true, false,
  inl, inr, Option-cases, ◌==◌, Bool-cases, ==_iff,
}
use ducp_node_rs.Common.Words.{u128_mod}
use ducp_node_rs.Common.BTreeMap.{BTreeMap, get, insert}
use ducp_node_rs.Common.BTreeMap.Laws.{get-insert, get-insert_self}
use ducp_node_rs.Types.Bytes.{Identity, TaskId, Ucu}
use ducp_node_rs.Types.Reject.{ok}
use ducp_node_rs.Types.Task.{TaskStatus, submitted, matched, executing, verified, settled, failed}
use ducp_node_rs.Types.Records.{Submission, Receipt, ComputeProof}
use ducp_node_rs.Types.Tx
use ducp_node_rs.Types.Tx.{Tx, SignedTx}
use ducp_node_rs.Types.Primitives.{Primitives, task_id}
use ducp_node_rs.Governance.{Params}
use ducp_node_rs.Ledger.State.{State, update_task}
use ducp_node_rs.Ledger.Apply.{apply, dispatch}
use ducp_node_rs.Ledger.Handlers.{accept_submission, accept_claim, accept_challenge}
use ducp_node_rs.Ledger.Guards.{
  submit_task-Submits, claim_task-Claims, submit_proof-Proves, open_challenge-Challenges,
  transfer-Transfers, apply-Accepts, bumped,
}
use ducp_node_rs.Ledger.Settled.{settle-IsSettled, settled_sub, verified_sub}
use ducp_node_rs.Ledger.Escrow.Frame.{advance_epoch-SameEscrow}
use ducp_node_rs.Ledger.Consistent.{IsConsistent}
use ducp_node_rs.Ledger.Reach.{Step, applies, ticks, audits, resolves}

-- One move of the machine: a task is submitted, claimed, settled, and may be found fraudulent.
pub data Moves : Option TaskStatus → Option TaskStatus → Type 0 where
  stays : {a : Option TaskStatus} → Moves a a
  opens : Moves none (some submitted)
  takes : Moves (some submitted) (some executing)
  settles : Moves (some executing) (some settled)
  fails : Moves (some settled) (some failed)

abbrev pub status_read : Option Submission → Option TaskStatus
status_read none = none
status_read (some sub) = some sub.status

abbrev pub status_in : BTreeMap Submission → TaskId → Option TaskStatus
status_in tasks task = status_read (get task tasks)

abbrev pub status_of : State → TaskId → Option TaskStatus
status_of s task = status_in s.tasks task

-- A new entry of one task moves that task, and no other.
pub insert-Moves :
    (tasks : BTreeMap Submission) (task other : TaskId) (sub : Submission)
    → Moves (status_in tasks task) (some sub.status)
    → Moves (status_in tasks other) (status_in (insert task sub tasks) other)
insert-Moves tasks task other sub move = elim (Bool-cases (other == task)) [
  | inl same ↦
      let e : other ≡ task = ground (arith, same, ==_iff other task) in
      rw e (
        subst (λ x. Moves (status_in tasks task) (status_read x))
          (sym (get-insert_self task sub tasks)) move)
  | inr differ ↦
      let kept : get other (insert task sub tasks) ≡ get other tasks =
        ground (arith, get-insert other task sub tasks, differ) in
      subst (λ x. Moves (status_in tasks other) (status_read x)) (sym kept) stays
]

-- Of two entries for one task the later one counts.
pub status_in-twice :
    (tasks : BTreeMap Submission) (task other : TaskId) (sub before : Submission)
    → status_in (insert task sub (insert task before tasks)) other
      ≡ status_in (insert task sub tasks) other
status_in-twice tasks task other sub before = ground (
  arith,
  get-insert other task sub (insert task before tasks),
  get-insert other task before tasks,
  get-insert other task sub tasks,
)

pub same-Moves :
    (s t : State) (task : TaskId) → t.tasks ≡ s.tasks → Moves (status_of s task) (status_of t task)
same-Moves s t task e = rw e stays

-- What a task's status is, from its entry.
pub entered :
    (s : State) (task : TaskId) (sub : Submission) (status : TaskStatus)
    → get task s.tasks ≡ some sub
    → sub.status ≡ status
    → status_of s task ≡ some status
entered s task sub status found is = ap status_read found ∙ ap some is

claim-tasks :
    (s : State) (provider : Identity) (task : TaskId) (stake : Ucu) (sub : Submission)
    → get task s.tasks ≡ some sub
    → (accept_claim s provider task stake).tasks
      ≡ insert task
          (record sub { provider = some provider; status = executing; claim_stake = stake })
          s.tasks
unfolding accept_claim update_task
claim-tasks s provider task stake sub found = ground (arith, found)

-- A move to a status that is that of the state after.
pub same-end :
    {a b : Option TaskStatus} {u t : State} (task : TaskId)
    → status_of u task ≡ b
    → t ≡ u
    → Moves a b
    → Moves a (status_of t task)
same-end {a} {b} {u} {t} task same e move =
    subst (λ x. Moves a x) (sym (ap (λ x. status_of x task) e ∙ same)) move

pub dispatch-Moves :
    (p : Primitives) (s t : State) (author : Identity) (tx : Tx) (params : Params) (task : TaskId)
    → dispatch p s author tx params ≡ ok t
    → Moves (status_of s task) (status_of t task)
unfolding dispatch
dispatch-Moves p s t author (Tx.submit_task body) params task h =
    let a = submit_task-Submits s t params p author body h in
    rw a.committed (
      unfold accept_submission in
      insert-Moves s.tasks (task_id p body) task _ (rw (status_in, a.fresh) opens))
dispatch-Moves p s t author (Tx.claim_task claimed) params task h =
    let (body, sub, a) = claim_task-Claims s t params author claimed h in
    let move : Moves (status_of s claimed) (some executing) =
      subst (λ x. Moves x (some executing))
        (sym (entered s claimed sub submitted a.sub_found a.was_submitted)) takes in
    same-end task (ap (λ m. status_in m task) (claim-tasks s author claimed _ sub a.sub_found))
      a.committed (insert-Moves s.tasks claimed task _ move)
dispatch-Moves p s t author (Tx.submit_proof proof) params task h =
    let (body, sub, a) = submit_proof-Proves s t params author proof h in
    let e = settle-IsSettled s body sub proof params a.sub_found in
    let move : Moves (status_of s proof.task) (some settled) =
      subst (λ x. Moves x (some settled))
        (sym (entered s proof.task sub executing a.sub_found a.was_executing)) settles in
    same-end task (ap (λ m. status_in m task) e.tasks ∙ status_in-twice s.tasks proof.task task _ _)
      a.committed (insert-Moves s.tasks proof.task task _ move)
dispatch-Moves p s t author (Tx.challenge challenged bond) params task h =
    let (receipt, sub, a) = open_challenge-Challenges s t params author challenged bond h in
    same-Moves s t task (rw a.committed (unfold accept_challenge in refl))
dispatch-Moves p s t author (Tx.transfer to amount) params task h =
    let a = transfer-Transfers s t author to amount h in same-Moves s t task (rw a.committed refl)
