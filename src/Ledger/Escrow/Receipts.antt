-- ===== src/Ledger/Escrow/Receipts.antt =====
-- A task with a receipt stays recorded and closed.
use ducp_node_rs.Common.{◌≡◌, refl, arith, inl, inr, Bool-cases, none, some, true, false, ◌==◌}
use ducp_node_rs.Common.BTreeMap.{BTreeMap, get, insert}
use ducp_node_rs.Common.BTreeMap.Laws.{get-insert, get-insert_fresh}
use ducp_node_rs.Types.Bytes.{Identity, TaskId, Ucu}
use ducp_node_rs.Types.Task.{TaskBody, submitted}
use ducp_node_rs.Types.Records.{Submission, ComputeProof}
use ducp_node_rs.Governance.{Params}
use ducp_node_rs.Ledger.Accounts.{update, lock_bond}
use ducp_node_rs.Ledger.State.{State, update_task}
use ducp_node_rs.Ledger.Handlers.{accept_submission, accept_claim, receipt_of}
use ducp_node_rs.Ledger.Settled.{IsSettled, verified_sub, settled_sub}
use ducp_node_rs.Ledger.Escrow.{HasClosedReceipts, is_open}
use ducp_node_rs.Ledger.Escrow.Tables.{get-update_task}

pub accept_submission-HasClosedReceipts :
    (s : State) (requester : Identity) (task : TaskId) (body : TaskBody) (task_fee need : Ucu)
    → HasClosedReceipts s
    → get task s.tasks ≡ none
    → HasClosedReceipts (accept_submission s requester task body task_fee need)
unfolding accept_submission
accept_submission-HasClosedReceipts s requester task body task_fee need h fresh = record {
  closed = λ t receipt found.
      let (sub, recorded, shut) = h.closed t receipt found in
      (sub, get-insert_fresh t task sub _ s.tasks fresh recorded, shut);
}

module _ (s : State) (task : TaskId) (sub : Submission) (change : Submission → Submission) where
  -- A task that was open and changes had no receipt.
  pub update_task-HasClosedReceipts :
      HasClosedReceipts s
      → get task s.tasks ≡ some sub
      → is_open sub.status ≡ true
      → HasClosedReceipts (update_task s task change)
  update_task-HasClosedReceipts h found was = record {
    closed = λ t receipt paid.
        let (x, recorded, shut) = h.closed t receipt (unfold update_task in ground arith) in
        (x, ground (arith, get-update_task s task t sub change found), shut);
  }

  -- A recorded task may change into a closed one.
  pub close_task-HasClosedReceipts :
      HasClosedReceipts s
      → get task s.tasks ≡ some sub
      → is_open (change sub).status ≡ false
      → HasClosedReceipts (update_task s task change)
  close_task-HasClosedReceipts h found shuts = record {
    closed = λ t receipt paid.
        let (x, recorded, shut) = h.closed t receipt (unfold update_task in ground arith) in
        elim (Bool-cases (t == task)) [
          | inl same ↦
              (change sub, ground (arith, get-update_task s task t sub change found), shuts)
          | inr other ↦ (x, ground (arith, get-update_task s task t sub change found), shut)
        ];
  }

pub accept_claim-HasClosedReceipts :
    (s : State) (provider : Identity) (task : TaskId) (sub : Submission) (stake : Ucu)
    → HasClosedReceipts s
    → get task s.tasks ≡ some sub
    → sub.status ≡ submitted
    → HasClosedReceipts (accept_claim s provider task stake)
unfolding accept_claim
accept_claim-HasClosedReceipts s provider task sub stake h found was =
    let paid = record s { accounts = update s.accounts provider (lock_bond stake) } in
    update_task-HasClosedReceipts paid task sub _ (record { closed = h.closed }) found (rw was)

pub settled-HasClosedReceipts :
    (s : State) (body : TaskBody) (sub : Submission) (proof : ComputeProof) (params : Params)
    (after : State)
    → HasClosedReceipts s
    → IsSettled s body sub proof params after
    → HasClosedReceipts after
settled-HasClosedReceipts s body sub proof params after h e = record {
  closed = λ t receipt paid. rw e.tasks (elim (Bool-cases (t == proof.task)) [
    | inl same ↦ (
      settled_sub sub proof,
      ground (arith, get-insert t proof.task (settled_sub sub proof) marked),
      refl,
    )
    | inr other ↦
        let old : get t s.receipts ≡ some receipt =
          ground (
            arith,
            e.receipts,
            get-insert t proof.task (receipt_of s sub proof params) s.receipts,
          ) in
        let (x, recorded, shut) = h.closed t receipt old in
        (
          x,
          ground (
            arith,
            get-insert t proof.task (settled_sub sub proof) marked,
            get-insert t proof.task (verified_sub sub proof) s.tasks,
          ),
          shut,
        )
  ]);
}
  where
    marked : BTreeMap Submission
    marked = insert proof.task (verified_sub sub proof) s.tasks
