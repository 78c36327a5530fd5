-- ===== src/Ledger/Status/Reached.antt =====
-- The machine governs every history from a genesis.
use ducp_node_rs.Common.{
  ◌≡◌, refl, ap, sym, ◌∙◌, arith, List, Option, some, inl, inr, ◌⊎◌, ◌==◌, Bool-cases, ==_iff,
}
use ducp_node_rs.Common.BTreeMap.{get}
use ducp_node_rs.Common.BTreeMap.Laws.{get-insert, get-insert_self}
use ducp_node_rs.Types.Bytes.{Identity, TaskId, Ucu, Epoch}
use ducp_node_rs.Types.Reject.{ok}
use ducp_node_rs.Types.Task.{TaskStatus, settled, failed}
use ducp_node_rs.Types.Records.{Receipt}
use ducp_node_rs.Types.Tx.{Tx}
use ducp_node_rs.Types.Primitives.{Primitives}
use ducp_node_rs.Governance.{Params}
use ducp_node_rs.Ledger.State.{State, genesis, update_task}
use ducp_node_rs.Ledger.Apply.{dispatch}
use ducp_node_rs.Ledger.Handlers.{accept_submission, accept_claim, accept_challenge, receipt_of}
use ducp_node_rs.Ledger.Guards.{
  submit_task-Submits, claim_task-Claims, submit_proof-Proves, open_challenge-Challenges,
  transfer-Transfers, apply-Accepts, bumped,
}
use ducp_node_rs.Ledger.Settled.{settle-IsSettled}
use ducp_node_rs.Ledger.Escrow.Frame.{advance_epoch-SameEscrow}
use ducp_node_rs.Ledger.Finality.{resolve_fraud-receipts, resolve_challenge-receipts}
use ducp_node_rs.Ledger.Reach.{Step, Reach, here, next, applies, ticks, audits, resolves}
use ducp_node_rs.Ledger.Status.{Moves, stays, opens, takes, settles, fails, status_of, status_read}
use ducp_node_rs.Ledger.Status.Steps.{IsClosed, Step-Moves}

abbrev Ended : Option TaskStatus → Type 0
Ended a = (a ≡ some settled) ⊎ (a ≡ some failed)

-- Settled and failed are final.
Moves-Ended : {a b : Option TaskStatus} → Moves a b → Ended a → Ended b
Moves-Ended stays ended = ended
Moves-Ended opens ended = absurd (ground arith)
Moves-Ended takes ended = absurd (ground arith)
Moves-Ended settles ended = inl refl
Moves-Ended fails ended = inr refl

-- A receipt after a transaction was there before, or its task has just been settled.
dispatch-written :
    (p : Primitives) (s t : State) (author : Identity) (tx : Tx) (params : Params) (task : TaskId)
    (receipt : Receipt)
    → dispatch p s author tx params ≡ ok t
    → get task t.receipts ≡ some receipt
    → (get task s.receipts ≡ some receipt) ⊎ (status_of t task ≡ some settled)
unfolding dispatch
dispatch-written p s t author (Tx.submit_task body) params task receipt h found =
    let a = submit_task-Submits s t params p author body h in
    inl (sym (ap (λ x. get task x.receipts) a.committed ∙ unfold accept_submission in refl) ∙ found)
dispatch-written p s t author (Tx.claim_task claimed) params task receipt h found =
    let (body, sub, a) = claim_task-Claims s t params author claimed h in
    inl (
      sym (
        ap (λ x. get task x.receipts) a.committed ∙ unfold accept_claim update_task in ground arith)
      ∙ found)
dispatch-written p s t author (Tx.submit_proof proof) params task receipt h found =
    let (body, sub, a) = submit_proof-Proves s t params author proof h in
    let e = settle-IsSettled s body sub proof params a.sub_found in
    elim (Bool-cases (task == proof.task)) [
      | inl same ↦
          let k : task ≡ proof.task = ground (arith, same, ==_iff task proof.task) in
          inr (
            rw (k, a.committed)
              (ap (λ m. status_read (get proof.task m)) e.tasks
                ∙ ap status_read (get-insert_self proof.task _ _)))
      | inr differ ↦ inl (
          sym (
            ap (λ x. get task x.receipts) a.committed
            ∙ ap (get task) e.receipts
            ∙ ground (
              arith,
              get-insert task proof.task (receipt_of s sub proof params) s.receipts,
              differ,
            ))
          ∙ found)
    ]
dispatch-written p s t author (Tx.challenge challenged bond) params task receipt h found =
    let (receipt', sub, a) = open_challenge-Challenges s t params author challenged bond h in
    inl (sym (ap (λ x. get task x.receipts) a.committed ∙ unfold accept_challenge in refl) ∙ found)
dispatch-written p s t author (Tx.transfer to amount) params task receipt h found =
    let a = transfer-Transfers s t author to amount h in
    inl (sym (ap (λ x. get task x.receipts) a.committed) ∙ found)

written :
    (p : Primitives) (params : Params) (s t : State) (task : TaskId) (receipt : Receipt)
    → Step p params s t
    → get task t.receipts ≡ some receipt
    → (get task s.receipts ≡ some receipt) ⊎ (status_of t task ≡ some settled)
written p params s t task receipt (applies stx h) found =
    let a = apply-Accepts p s t stx params h in
    dispatch-written p (bumped s stx.author) t stx.author stx.tx params task receipt a.handled found
written p params s t task receipt (ticks e) found = inl (
    sym
      (ap (λ x. get task x.receipts) e ∙ ap (get task) (advance_epoch-SameEscrow s params).receipts)
    ∙ found)
written p params s t task receipt (audits audited to e) found = inl (
    sym
      (ap (λ x. get task x.receipts) e ∙ ap (get task) (resolve_fraud-receipts s audited to params))
    ∙ found)
written p params s t task receipt (resolves ended fraud e) found = inl (
    sym (
      ap (λ x. get task x.receipts) e
      ∙ ap (get task) (resolve_challenge-receipts s ended fraud params))
    ∙ found)

Step-IsClosed :
    (p : Primitives) (params : Params) (s t : State) → Step p params s t → IsClosed s → IsClosed t
Step-IsClosed p params s t step i = record {
  closed = λ task receipt found. elim (written p params s t task receipt step found) [
    | inl before ↦ Moves-Ended (Step-Moves p params s t task step i) (i.closed task receipt before)
    | inr now ↦ inl now
  ];
}

Reach-IsClosed :
    {p : Primitives} {params : Params} {s t : State} → Reach p params s t → IsClosed s → IsClosed t
Reach-IsClosed here i = i
Reach-IsClosed {p} {params} (next {t} {u} r step) i =
    Step-IsClosed p params t u step (Reach-IsClosed r i)

-- In every history of the ledger from a genesis, whatever the transactions, epoch boundaries, audits
-- and resolved challenges are and in whatever order they come, each step moves the status of each
-- task as the abstract machine does: from nothing to submitted, to executing, to settled, to failed,
-- or not at all.
pub reached-Moves :
    (p : Primitives) (params : Params) (allocations : List (Identity × Ucu)) (epoch : Epoch)
    (s t : State) (task : TaskId)
    → Reach p params (genesis allocations epoch) s
    → Step p params s t
    → Moves (status_of s task) (status_of t task)
reached-Moves p params allocations epoch s t task r step =
    let start : IsClosed (genesis allocations epoch) =
      unfold genesis get in record { closed = λ task' receipt found. absurd (cc) } in
    Step-Moves p params s t task step (Reach-IsClosed r start)
