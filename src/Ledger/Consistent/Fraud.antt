-- ===== src/Ledger/Consistent/Fraud.antt =====
-- Fraud resolution and the end of a challenge keep the ledger consistent.
use ducp_node_rs.Common.{◌≡◌, refl, arith, Option, some, Bool, false}
use ducp_node_rs.Common.BTreeMap.{get, remove}
use ducp_node_rs.Types.Bytes.{Identity, TaskId}
use ducp_node_rs.Types.Records.{Receipt, Submission}
use ducp_node_rs.Governance.{Params}
use ducp_node_rs.Ledger.State.{State, update_standing}
use ducp_node_rs.Ledger.Fraud.{
  claw_back, burn_issuance, levy_fine, mark_fraud, penalise, resolve_fraud, resolve_challenge,
}
use ducp_node_rs.Ledger.Fraud.Cases.{resolve_fraud_cases, resolve_challenge_cases}
use ducp_node_rs.Ledger.Conservation.{IsConserved}
use ducp_node_rs.Ledger.Conservation.Fraud.{
  claw_back-IsConserved, burn_issuance-IsConserved, levy_fine-IsConserved, mark_fraud-IsConserved,
  return_bond-IsConserved, forfeit_bond-IsConserved,
}
use ducp_node_rs.Ledger.Escrow.{is_open, owed}
use ducp_node_rs.Ledger.Escrow.Handlers.{update_task-IsBacked}
use ducp_node_rs.Ledger.Escrow.Receipts.{close_task-HasClosedReceipts}
use ducp_node_rs.Ledger.Escrow.Frame.{
  SameEscrow, SameEscrow-trans, claw_back-SameEscrow, burn_issuance-SameEscrow,
  levy_fine-SameEscrow, return_bond-SameEscrow, forfeit_bond-SameEscrow,
}
use ducp_node_rs.Ledger.Consistent.{IsConsistent, SameEscrow-IsConsistent}

mark_fraud-IsConsistent :
    (s : State) (provider : Identity) (task : TaskId) (sub : Submission)
    → IsConsistent s
    → get task s.tasks ≡ some sub
    → is_open sub.status ≡ false
    → IsConsistent (mark_fraud s provider task)
mark_fraud-IsConsistent s provider task sub i found shut = record {
  conserved = mark_fraud-IsConserved s provider task i.conserved;
  backed =
      unfold mark_fraud update_standing in
      update_task-IsBacked (record s { standing = _; slashed = _ }) s.accounts task sub _
        (record { sorted = i.backed.sorted; backed = i.backed.backed }) found
        (λ id. unfold owed in ground arith);
  receipts =
      unfold mark_fraud update_standing in
      close_task-HasClosedReceipts (record s { standing = _; slashed = _ }) task sub _
        (record { closed = i.receipts.closed }) found refl;
}

penalise-IsConsistent :
    (s : State) (task : TaskId) (receipt : Receipt) (sub : Submission) (provider : Identity)
    (to : Option Identity) (params : Params)
    → IsConsistent s
    → get task s.receipts ≡ some receipt
    → get task s.tasks ≡ some sub
    → IsConsistent (penalise s task receipt provider sub.requester to params)
unfolding penalise
penalise-IsConsistent s task receipt sub provider to params i paid found =
    let p = receipt.paid_to_provider in
    let clawed = claw_back s provider sub.requester p in
    let burnt = burn_issuance clawed provider receipt.work_issuance in
    let fined = levy_fine burnt provider to p params in
    let same : SameEscrow s fined =
      SameEscrow-trans (claw_back-SameEscrow s provider sub.requester p) (
        SameEscrow-trans (burn_issuance-SameEscrow clawed provider receipt.work_issuance)
          (levy_fine-SameEscrow burnt provider to p params)) in
    let c : IsConserved fined = levy_fine-IsConserved burnt provider to p params (
      burn_issuance-IsConserved clawed provider receipt.work_issuance
        (claw_back-IsConserved s provider sub.requester p i.conserved)) in
    let (x, recorded, shut) = i.receipts.closed task receipt paid in
    mark_fraud-IsConsistent fined provider task sub (SameEscrow-IsConsistent s fined same c i)
      (rw same.tasks found) (ground (arith, recorded, shut))

-- Resolving fraud keeps the ledger consistent, whatever the task and whoever is paid.
pub resolve_fraud-IsConsistent :
    (s : State) (task : TaskId) (to : Option Identity) (params : Params)
    → IsConsistent s
    → IsConsistent (resolve_fraud s task to params)
resolve_fraud-IsConsistent s task to params i =
    resolve_fraud_cases IsConsistent s task params to i λ receipt sub provider _ paid found _.
      penalise-IsConsistent s task receipt sub provider to params i paid found

-- The end of a challenge, either way, keeps the ledger consistent.
pub resolve_challenge-IsConsistent :
    (s : State) (task : TaskId) (fraud : Bool) (params : Params)
    → IsConsistent s
    → IsConsistent (resolve_challenge s task fraud params)
resolve_challenge-IsConsistent s task fraud params i =
    let closed = record s { pending_challenges = remove task s.pending_challenges } in
    let same : SameEscrow s closed = record {
      tasks = refl;
      bodies = refl;
      receipts = refl;
      escrowed = λ id. refl;
    } in
    let c : IsConserved closed = record {
      balanced = i.conserved.balanced;
      minted_fits = i.conserved.minted_fits;
    } in
    let ready = SameEscrow-IsConsistent s closed same c i in
    resolve_challenge_cases IsConsistent s task params fraud i
      (λ pc _.
        let t = resolve_fraud closed task (some pc.challenger) params in
        let j = resolve_fraud-IsConsistent closed task (some pc.challenger) params ready in
        SameEscrow-IsConsistent t _ (return_bond-SameEscrow t pc)
          (return_bond-IsConserved t pc j.conserved) j)
      (λ pc _.
        SameEscrow-IsConsistent closed _ (forfeit_bond-SameEscrow closed pc)
          (forfeit_bond-IsConserved closed pc c) ready)
