-- ===== src/Ledger/Consistent.antt =====
-- The invariant of the ledger: balanced books, backed escrow, closed receipts.
pub mod Fraud
use ducp_node_rs.Common.{ℕ, ◌+◌, ◌<◌, ◌≡◌, refl, arith, not, Bool, true, false, Option, some, none}
use ducp_node_rs.Common.Words.{u128_mod}
use ducp_node_rs.Types.Bytes.{Identity, TaskId}
use ducp_node_rs.Types.Reject.{Result, ok, err}
use ducp_node_rs.Types.Records.{Receipt, Submission}
use ducp_node_rs.Common.BTreeMap.{get}
use ducp_node_rs.Types.Tx.{Tx, SignedTx}
use ducp_node_rs.Types.Tx
use ducp_node_rs.Types.Primitives.{Primitives, verify_sig}
use ducp_node_rs.Governance.{Params, issuance, fee}
use ducp_node_rs.Ledger.State.{State}
use ducp_node_rs.Ledger.Apply.{dispatch, apply}
use ducp_node_rs.Ledger.Guards.{
  submit_task-Submits, claim_task-Claims, submit_proof-Proves, open_challenge-Challenges,
  transfer-Transfers, apply-Accepts, bumped,
}
use ducp_node_rs.Ledger.Fraud.{claw_back, burn_issuance, levy_fine, mark_fraud, penalise}
use ducp_node_rs.Ledger.Epoch.{advance_epoch}
use ducp_node_rs.Ledger.Conservation.Epoch.{advance_epoch-IsConserved}
use ducp_node_rs.Ledger.Settled.{settle-IsSettled}
use ducp_node_rs.Ledger.Conservation.{IsConserved}
use ducp_node_rs.Ledger.Conservation.Handlers.{
  accept_submission-IsConserved, accept_claim-IsConserved, accept_challenge-IsConserved,
  transferred-IsConserved, settled-IsConserved,
}
use ducp_node_rs.Ledger.Escrow.{IsBacked, HasClosedReceipts}
use ducp_node_rs.Ledger.Escrow.Handlers.{accept_submission-IsBacked, accept_claim-IsBacked}
use ducp_node_rs.Ledger.Escrow.Settle.{executing_covered, settled-IsBacked}
use ducp_node_rs.Ledger.Escrow.Receipts.{
  accept_submission-HasClosedReceipts, accept_claim-HasClosedReceipts, settled-HasClosedReceipts,
}
use ducp_node_rs.Ledger.Escrow.Frame.{
  SameEscrow, SameEscrow-IsBacked, SameEscrow-HasClosedReceipts, accept_challenge-SameEscrow,
  transferred-SameEscrow, advance_epoch-SameEscrow, SameEscrow-trans, claw_back-SameEscrow,
  burn_issuance-SameEscrow, levy_fine-SameEscrow,
}

pub record IsConsistent (s : State) : Type 0 where
  pub conserved : IsConserved s
  pub backed : IsBacked s
  pub receipts : HasClosedReceipts s

pub SameEscrow-IsConsistent :
    (s t : State) → SameEscrow s t → IsConserved t → IsConsistent s → IsConsistent t
SameEscrow-IsConsistent s t f c i = record {
  conserved = c;
  backed = SameEscrow-IsBacked s t f i.backed;
  receipts = SameEscrow-HasClosedReceipts s t f i.receipts;
}

-- What a transaction may mint: the issuance of a proof's work, and otherwise nothing.
unfoldable pub minted_by : Params → Tx → ℕ
minted_by params (Tx.submit_proof proof) = issuance params proof.ucu_count
minted_by params _ = 0

dispatch-IsConsistent :
    (p : Primitives) (s s' : State) (author : Identity) (tx : Tx) (params : Params)
    → IsConsistent s
    → s.supply.minted + minted_by params tx < u128_mod
    → dispatch p s author tx params ≡ ok s'
    → IsConsistent s'
unfolding dispatch minted_by
dispatch-IsConsistent p s s' author (Tx.submit_task body) params i fits h =
    let a = submit_task-Submits s s' params p author body h in
    rw a.committed (record {
      conserved = accept_submission-IsConserved s author _ body _ _ i.conserved a.covered;
      backed = accept_submission-IsBacked s author _ body _ i.conserved i.backed a.fresh a.covered;
      receipts = accept_submission-HasClosedReceipts s author _ body _ _ i.receipts a.fresh;
    })
dispatch-IsConsistent p s s' author (Tx.claim_task task) params i fits h =
    let (body, sub, a) = claim_task-Claims s s' params author task h in
    rw a.committed (record {
      conserved = accept_claim-IsConserved s author task _ i.conserved a.covered;
      backed = accept_claim-IsBacked s author task sub _ i.backed a.sub_found a.was_submitted;
      receipts =
          accept_claim-HasClosedReceipts s author task sub _ i.receipts a.sub_found a.was_submitted;
    })
dispatch-IsConsistent p s s' author (Tx.submit_proof proof) params i fits h =
    let (body, sub, a) = submit_proof-Proves s s' params author proof h in
    let e = settle-IsSettled s body sub proof params a.sub_found in
    let covered =
      executing_covered s body sub proof i.conserved i.backed a.body_found a.sub_found
        a.was_executing in
    rw a.committed (record {
      conserved =
          settled-IsConserved s body sub proof params i.conserved covered a.within_limit fits _ e;
      backed =
          settled-IsBacked s body sub proof i.conserved i.backed a.body_found a.sub_found
            a.was_executing params _ e;
      receipts = settled-HasClosedReceipts s body sub proof params _ i.receipts e;
    })
dispatch-IsConsistent p s s' author (Tx.transfer to amount) params i fits h =
    let a = transfer-Transfers s s' author to amount h in
    rw a.committed (
      SameEscrow-IsConsistent s _ (transferred-SameEscrow s author to amount)
        (transferred-IsConserved s author to amount i.conserved a.covered) i)
dispatch-IsConsistent p s s' author (Tx.challenge task bond) params i fits h =
    let (receipt, sub, a) = open_challenge-Challenges s s' params author task bond h in
    rw a.committed (
      SameEscrow-IsConsistent s _ (accept_challenge-SameEscrow s author task bond)
        (accept_challenge-IsConserved s author task bond i.conserved a.covered) i)

-- Using up a nonce keeps it.
pub bumped-IsConsistent :
    (s : State) (author : Identity) → IsConsistent s → IsConsistent (bumped s author)
bumped-IsConsistent s author i =
    let same : SameEscrow s (bumped s author) = record {
      tasks = refl;
      bodies = refl;
      receipts = refl;
      escrowed = λ id. refl;
    } in
    let c : IsConserved (bumped s author) = record {
      balanced = i.conserved.balanced;
      minted_fits = i.conserved.minted_fits;
    } in
    SameEscrow-IsConsistent s (bumped s author) same c i

-- An accepted transaction keeps the ledger consistent, as long as what it mints fits the supply.
pub apply-IsConsistent :
    (p : Primitives) (s s' : State) (stx : SignedTx) (params : Params)
    → IsConsistent s
    → s.supply.minted + minted_by params stx.tx < u128_mod
    → apply p s stx params ≡ ok s'
    → IsConsistent s'
apply-IsConsistent p s s' stx params i fits h =
    let a = apply-Accepts p s s' stx params h in
    dispatch-IsConsistent p (bumped s stx.author) s' stx.author stx.tx params
      (bumped-IsConsistent s stx.author i) fits a.handled

-- The epoch boundary keeps the ledger consistent.
pub advance_epoch-IsConsistent :
    (s : State) (params : Params) → IsConsistent s → IsConsistent (advance_epoch s params)
advance_epoch-IsConsistent s params i =
    SameEscrow-IsConsistent s _ (advance_epoch-SameEscrow s params)
      (advance_epoch-IsConserved s params i.conserved) i
