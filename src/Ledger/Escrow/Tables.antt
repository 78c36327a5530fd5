-- ===== src/Ledger/Escrow/Tables.antt =====
-- How the updates of the tables move what an account has escrowed and what it owes.
use ducp_node_rs.Common.{◌+◌, ◌≡◌, arith, inl, inr, Option-cases, none, some, ◌==◌, if◌then◌else◌}
use ducp_node_rs.Common.BTreeMap.{BTreeMap, get, insert}
use ducp_node_rs.Common.BTreeMap.Laws.{get-insert, IsSorted, insert-IsSorted}
use ducp_node_rs.Common.BTreeMap.Sum.{sum, sum-insert, sum_congr}
use ducp_node_rs.Types.Bytes.{Identity, TaskId}
use ducp_node_rs.Types.Task.{TaskBody}
use ducp_node_rs.Types.Records.{Account, Submission}
use ducp_node_rs.Ledger.Accounts.{Accounts, account, update}
use ducp_node_rs.Ledger.Accounts.Held.{account-update}
use ducp_node_rs.Ledger.State.{State, update_task}
use ducp_node_rs.Ledger.Escrow.{owed}

-- A movement that leaves `escrowed` alone leaves it alone for everybody.
pub escrowed-update :
    (m : Accounts) (id : Identity) (change : Account → Account) (j : Identity)
    → (change (account m id)).escrowed ≡ (account m id).escrowed
    → (account (update m id change) j).escrowed ≡ (account m j).escrowed
escrowed-update m id change j same = ground (arith, account-update m id j change)

-- A new task under a new body adds what it owes, and changes no other task's part.
pub sum-owed-insert :
    (id : Identity) (task : TaskId) (body : TaskBody) (sub : Submission)
    (bodies : BTreeMap TaskBody) (tasks : BTreeMap Submission)
    → IsSorted tasks
    → get task tasks ≡ none
    → sum (owed id (insert task body bodies)) (insert task sub tasks)
      ≡ sum (owed id bodies) tasks + owed id (insert task body bodies) task sub
unfolding owed
sum-owed-insert id task body sub bodies tasks sorted fresh =
    let after = insert task body bodies in
    let others =
      sum_congr (owed id after) (owed id bodies) task tasks sorted fresh
        (λ j v ne. ground (arith, get-insert j task body bodies)) in
    ground (arith, others, sum-insert (owed id after) task sub tasks)

-- A change of a recorded task replaces its part of what is owed.
pub sum-owed-update_task :
    (id : Identity) (s : State) (task : TaskId) (sub : Submission)
    (change : Submission → Submission)
    → get task s.tasks ≡ some sub
    → sum (owed id s.bodies) (update_task s task change).tasks + owed id s.bodies task sub
      ≡ sum (owed id s.bodies) s.tasks + owed id s.bodies task (change sub)
unfolding update_task
sum-owed-update_task id s task sub change found =
    ground (arith, sum-insert (owed id s.bodies) task (change sub) s.tasks)

pub update_task-IsSorted :
    (s : State) (task : TaskId) (change : Submission → Submission)
    → IsSorted s.tasks
    → IsSorted (update_task s task change).tasks
unfolding update_task
update_task-IsSorted s task change sorted = elim (Option-cases (get task s.tasks)) [
  | inl missing ↦ rw (missing, update_task) sorted
  | inr (sub, found) ↦ rw (found, update_task) (insert-IsSorted task (change sub) s.tasks sorted)
]

pub get-update_task :
    (s : State) (task j : TaskId) (sub : Submission) (change : Submission → Submission)
    → get task s.tasks ≡ some sub
    → get j (update_task s task change).tasks
      ≡ (if j == task then some (change sub) else get j s.tasks)
unfolding update_task
get-update_task s task j sub change found = ground (arith, get-insert j task (change sub) s.tasks)
