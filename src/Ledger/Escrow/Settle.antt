-- ===== src/Ledger/Escrow/Settle.antt =====
-- Settlement drains exactly the escrow of the settled task.
use ducp_node_rs.Common.{◌+◌, ◌≤◌, ◌≡◌, arith, some}
use ducp_node_rs.Common.Words.{add_u128, sub_u128}
use ducp_node_rs.Common.BTreeMap.{get, insert}
use ducp_node_rs.Common.BTreeMap.Laws.{get-insert_self, insert-IsSorted}
use ducp_node_rs.Common.BTreeMap.Sum.{sum, sum-insert, share-le-sum}
use ducp_node_rs.Types.Bytes.{Identity}
use ducp_node_rs.Types.Task.{TaskBody, executing}
use ducp_node_rs.Types.Records.{Submission, ComputeProof}
use ducp_node_rs.Governance.{Params, issuance}
use ducp_node_rs.Ledger.Accounts.{account, update, credit, drain_escrow}
use ducp_node_rs.Ledger.Accounts.Held.{account-update, hold-le-held}
use ducp_node_rs.Ledger.State.{State}
use ducp_node_rs.Ledger.Handlers.{settle_money}
use ducp_node_rs.Ledger.Settled.{IsSettled, verified_sub, settled_sub}
use ducp_node_rs.Ledger.Conservation.{IsConserved}
use ducp_node_rs.Ledger.Escrow.{IsBacked, owed}
use ducp_node_rs.Ledger.Escrow.Tables.{escrowed-update}

module _ (s : State) (body : TaskBody) (sub : Submission) (proof : ComputeProof) (c : IsConserved s)
    (b : IsBacked s) (body_found : get proof.task s.bodies ≡ some body)
    (sub_found : get proof.task s.tasks ≡ some sub) (was : sub.status ≡ executing) where
  -- The requester of an executing task still holds the whole ceiling and the fee in escrow.
  pub executing_covered :
      body.limits.max_ucu + sub.fee ≤ (account s.accounts sub.requester).escrowed
  executing_covered =
      unfold owed in
      ground (
        arith,
        b.backed sub.requester,
        share-le-sum (owed sub.requester s.bodies) proof.task s.tasks,
      )

  escrowed-settle_money :
      (params : Params) (id : Identity)
      → (account (settle_money s body sub proof params).accounts id).escrowed
          + owed id s.bodies proof.task sub
        ≡ (account s.accounts id).escrowed
  unfolding settle_money owed
  escrowed-settle_money params id =
      let x = add_u128 body.limits.max_ucu sub.fee in
      let refund = sub_u128 body.limits.max_ucu proof.ucu_count in
      let drained = update s.accounts sub.requester (drain_escrow x refund) in
      let paid = update drained proof.provider (credit proof.ucu_count) in
      unfold credit drain_escrow add_u128 sub_u128 in
      ground (
        arith,
        executing_covered,
        hold-le-held s.accounts sub.requester,
        account-update s.accounts sub.requester id (drain_escrow x refund),
        escrowed-update drained proof.provider (credit proof.ucu_count) id,
        escrowed-update paid proof.provider (credit (issuance params proof.ucu_count)) id,
      )

  owed-settled :
      (id : Identity)
      → sum (owed id s.bodies) (
            insert proof.task
              (settled_sub sub proof)
              (insert proof.task (verified_sub sub proof) s.tasks))
          + owed id s.bodies proof.task sub
        ≡ sum (owed id s.bodies) s.tasks
  unfolding owed
  owed-settled id =
      let marked = insert proof.task (verified_sub sub proof) s.tasks in
      ground (
        arith,
        sum-insert (owed id s.bodies) proof.task (verified_sub sub proof) s.tasks,
        sum-insert (owed id s.bodies) proof.task (settled_sub sub proof) marked,
        get-insert_self proof.task (verified_sub sub proof) s.tasks,
      )

  pub settled-IsBacked :
      (params : Params) (after : State) → IsSettled s body sub proof params after → IsBacked after
  settled-IsBacked params after e = record {
    sorted =
        rw e.tasks (insert-IsSorted proof.task _ _ (insert-IsSorted proof.task _ s.tasks b.sorted));
    backed = λ id.
        rw (e.tasks, e.bodies, e.accounts)
          (omega (arith, escrowed-settle_money params id, owed-settled id, b.backed id));
  }
