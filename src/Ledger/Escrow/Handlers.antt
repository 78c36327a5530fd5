-- ===== src/Ledger/Escrow/Handlers.antt =====
-- The states that the handlers commit keep every account's escrow backed.
use ducp_node_rs.Common.{◌+◌, ◌≤◌, ◌≡◌, arith, none, some}
use ducp_node_rs.Common.Words.{add_u128}
use ducp_node_rs.Common.BTreeMap.{get}
use ducp_node_rs.Common.BTreeMap.Laws.{get-insert, insert-IsSorted}
use ducp_node_rs.Common.BTreeMap.Sum.{sum-insert}
use ducp_node_rs.Types.Bytes.{Identity, TaskId, Ucu}
use ducp_node_rs.Types.Task.{TaskBody, submitted}
use ducp_node_rs.Types.Records.{Submission}
use ducp_node_rs.Ledger.Accounts.{Accounts, account, lock_bond, lock_escrow}
use ducp_node_rs.Ledger.Accounts.Held.{account-update, hold-le-held}
use ducp_node_rs.Ledger.State.{State, update_task}
use ducp_node_rs.Ledger.Handlers.{accept_submission, accept_claim}
use ducp_node_rs.Ledger.Conservation.{IsConserved}
use ducp_node_rs.Ledger.Escrow.{IsBacked, owed}
use ducp_node_rs.Ledger.Escrow.Tables.{escrowed-update, sum-owed-insert, update_task-IsSorted}

pub accept_submission-IsBacked :
    (s : State) (requester : Identity) (task : TaskId) (body : TaskBody) (task_fee : Ucu)
    → IsConserved s
    → IsBacked s
    → get task s.tasks ≡ none
    → body.limits.max_ucu + task_fee ≤ (account s.accounts requester).balance
    → IsBacked (accept_submission s requester task body task_fee (body.limits.max_ucu + task_fee))
unfolding accept_submission
accept_submission-IsBacked s requester task body task_fee c b fresh covered = record {
  sorted = insert-IsSorted task _ s.tasks b.sorted;
  backed = λ id.
      let need = body.limits.max_ucu + task_fee in
      unfold owed lock_escrow add_u128 in
      ground (
        arith,
        b.backed id,
        hold-le-held s.accounts requester,
        account-update s.accounts requester id (lock_escrow need),
        get-insert task task body s.bodies,
        sum-owed-insert id task body new s.bodies s.tasks b.sorted fresh,
      );
}
  where
    new : Submission
    new = record {
      task = task;
      requester = requester;
      ucu_count = 0;
      fee = task_fee;
      status = submitted;
      provider = none;
      claim_stake = 0;
    }

-- The accounts and one recorded task change together.
pub update_task-IsBacked :
    (s : State) (accounts : Accounts) (task : TaskId) (sub : Submission)
    (change : Submission → Submission)
    → IsBacked s
    → get task s.tasks ≡ some sub
    → ((id : Identity)
        → (account accounts id).escrowed + owed id s.bodies task sub
          ≡ (account s.accounts id).escrowed + owed id s.bodies task (change sub))
    → IsBacked (update_task (record s { accounts = accounts }) task change)
update_task-IsBacked s accounts task sub change b found moved = record {
  sorted = update_task-IsSorted (record s { accounts = accounts }) task change b.sorted;
  backed = λ id.
      unfold update_task in
      rw (found, update_task)
        (ground
          (arith, moved id, b.backed id, sum-insert (owed id s.bodies) task (change sub) s.tasks));
}

pub accept_claim-IsBacked :
    (s : State) (provider : Identity) (task : TaskId) (sub : Submission) (stake : Ucu)
    → IsBacked s
    → get task s.tasks ≡ some sub
    → sub.status ≡ submitted
    → IsBacked (accept_claim s provider task stake)
unfolding accept_claim
accept_claim-IsBacked s provider task sub stake b found was =
    update_task-IsBacked s _ task sub _ b found (λ id.
      unfold owed lock_bond in
      ground (arith, escrowed-update s.accounts provider (lock_bond stake) id))
