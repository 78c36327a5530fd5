-- ===== src/Ledger/Finality.antt =====
-- Receipts are final: no transition rewrites the receipt of a settled task.
use ducp_node_rs.Common.Words.{u128_mod}
use ducp_node_rs.Common.{◌+◌, ◌<◌, ◌≡◌, refl, ◌∙◌, arith, Option, some, Bool}
use ducp_node_rs.Common.BTreeMap.{get, remove}
use ducp_node_rs.Common.BTreeMap.Laws.{get-insert}
use ducp_node_rs.Types.Bytes.{Identity, TaskId}
use ducp_node_rs.Types.Reject.{ok}
use ducp_node_rs.Types.Records.{Submission, Receipt}
use ducp_node_rs.Types.Tx.{Tx}
use ducp_node_rs.Types.Primitives.{Primitives}
use ducp_node_rs.Governance.{Params}
use ducp_node_rs.Ledger.State.{State, update_task, update_standing}
use ducp_node_rs.Ledger.Handlers.{accept_submission, accept_claim, accept_challenge, receipt_of}
use ducp_node_rs.Ledger.Apply.{dispatch}
use ducp_node_rs.Ledger.Fraud.{
  claw_back, burn_issuance, mark_fraud, penalise, resolve_fraud, resolve_challenge,
}
use ducp_node_rs.Ledger.Fraud.Cases.{resolve_fraud_cases, resolve_challenge_cases}
use ducp_node_rs.Ledger.Settled.{settle-IsSettled}
use ducp_node_rs.Ledger.Escrow.{HasClosedReceipts}
use ducp_node_rs.Ledger.Escrow.Frame.{
  claw_back-SameEscrow, burn_issuance-SameEscrow, levy_fine-SameEscrow, return_bond-SameEscrow,
  forfeit_bond-SameEscrow, advance_epoch-SameEscrow,
}
use ducp_node_rs.Ledger.Guards.{
  submit_task-Submits, claim_task-Claims, submit_proof-Proves, open_challenge-Challenges,
  transfer-Transfers, apply-Accepts, bumped,
}
use ducp_node_rs.Ledger.Consistent.{IsConsistent}
use ducp_node_rs.Ledger.Reach.{
  Step, applies, ticks, audits, resolves, Reach, here, next, Reach-IsConsistent, total_issued,
}

update_task-receipts :
    (s : State) (task : TaskId) (change : Submission → Submission)
    → (update_task s task change).receipts ≡ s.receipts
unfolding update_task
update_task-receipts s task change = ground arith

dispatch-receipts :
    (p : Primitives) (s s' : State) (author : Identity) (tx : Tx) (params : Params) (task : TaskId)
    (receipt : Receipt)
    → HasClosedReceipts s
    → get task s.receipts ≡ some receipt
    → dispatch p s author tx params ≡ ok s'
    → get task s'.receipts ≡ some receipt
unfolding dispatch
dispatch-receipts p s s' author (Tx.submit_task body) params task receipt c paid h =
    rw (submit_task-Submits s s' params p author body h).committed
      (unfold accept_submission in paid)
dispatch-receipts p s s' author (Tx.claim_task claimed) params task receipt c paid h =
    let (body, sub, a) = claim_task-Claims s s' params author claimed h in
    rw a.committed (unfold accept_claim in rw update_task-receipts paid)
dispatch-receipts p s s' author (Tx.submit_proof proof) params task receipt c paid h =
    let (body, sub, a) = submit_proof-Proves s s' params author proof h in
    let e = settle-IsSettled s body sub proof params a.sub_found in
    let new = receipt_of s sub proof params in
    let (x, recorded, shut) = c.closed task receipt paid in
    rw (a.committed, e.receipts)
      (ground (
        arith,
        a.sub_found,
        a.was_executing,
        recorded,
        shut,
        get-insert task proof.task new s.receipts,
      ))
dispatch-receipts p s s' author (Tx.transfer to amount) params task receipt c paid h =
    rw (transfer-Transfers s s' author to amount h).committed paid
dispatch-receipts p s s' author (Tx.challenge challenged bond) params task receipt c paid h =
    let (r, sub, a) = open_challenge-Challenges s s' params author challenged bond h in
    rw a.committed (unfold accept_challenge in paid)

penalise-receipts :
    (s : State) (task : TaskId) (receipt : Receipt) (provider requester : Identity)
    (to : Option Identity) (params : Params)
    → (penalise s task receipt provider requester to params).receipts ≡ s.receipts
unfolding penalise mark_fraud update_standing
penalise-receipts s task receipt provider requester to params =
    let p = receipt.paid_to_provider in
    let clawed = claw_back s provider requester p in
    let burnt = burn_issuance clawed provider receipt.work_issuance in
    update_task-receipts _ task _
    ∙ (levy_fine-SameEscrow burnt provider to p params).receipts
    ∙ (burn_issuance-SameEscrow clawed provider receipt.work_issuance).receipts
    ∙ (claw_back-SameEscrow s provider requester p).receipts

pub resolve_fraud-receipts :
    (s : State) (task : TaskId) (to : Option Identity) (params : Params)
    → (resolve_fraud s task to params).receipts ≡ s.receipts
resolve_fraud-receipts s task to params =
    resolve_fraud_cases (λ t. t.receipts ≡ s.receipts) s task params to refl
      λ receipt sub provider _ _ _ _.
        penalise-receipts s task receipt provider sub.requester to params

pub resolve_challenge-receipts :
    (s : State) (task : TaskId) (fraud : Bool) (params : Params)
    → (resolve_challenge s task fraud params).receipts ≡ s.receipts
resolve_challenge-receipts s task fraud params =
    let closed = record s { pending_challenges = remove task s.pending_challenges } in
    resolve_challenge_cases (λ t. t.receipts ≡ s.receipts) s task params fraud refl
      (λ pc _.
        (return_bond-SameEscrow (resolve_fraud closed task (some pc.challenger) params) pc).receipts
        ∙ resolve_fraud-receipts closed task (some pc.challenger) params)
      (λ pc _. (forfeit_bond-SameEscrow closed pc).receipts)

Step-receipts :
    (p : Primitives) (params : Params) (s t : State) (task : TaskId) (receipt : Receipt)
    → Step p params s t
    → IsConsistent s
    → get task s.receipts ≡ some receipt
    → get task t.receipts ≡ some receipt
Step-receipts p params s t task receipt (applies stx h) i paid =
    let a = apply-Accepts p s t stx params h in
    dispatch-receipts p (bumped s stx.author) t stx.author stx.tx params task receipt
      (record { closed = i.receipts.closed }) paid a.handled
Step-receipts p params s t task receipt (ticks e) i paid =
    rw (e, (advance_epoch-SameEscrow s params).receipts) paid
Step-receipts p params s t task receipt (audits audited to e) i paid =
    rw (e, resolve_fraud-receipts s audited to params) paid
Step-receipts p params s t task receipt (resolves ended fraud e) i paid =
    rw (e, resolve_challenge-receipts s ended fraud params) paid

-- Once a consistent ledger holds a receipt, every state that a later history reaches, whose proofs
-- mint no more than the supply's u128 has room for, holds the same receipt for that task:
-- transactions, epoch boundaries, audits and resolved challenges rewrite none.
pub receipts_final :
    {p : Primitives} {params : Params} {s t : State} (task : TaskId) (receipt : Receipt)
    (r : Reach p params s t)
    → s.supply.minted + total_issued r < u128_mod
    → IsConsistent s
    → get task s.receipts ≡ some receipt
    → get task t.receipts ≡ some receipt
receipts_final task receipt here fits i paid = paid
receipts_final {p} {params} task receipt (next {t} {u} r step) fits i paid =
    Step-receipts p params t u task receipt step (Reach-IsConsistent r i (omega (arith, fits))).0
      (receipts_final task receipt r (omega (arith, fits)) i paid)
