-- ===== src/Ledger/Supply.antt =====
-- The supply under transactions: work is the only thing that mints, and nothing burns.
use ducp_node_rs.Common.{ℕ, ◌+◌, ◌<◌, ◌≡◌, refl, ◌∙◌, ap, arith}
use ducp_node_rs.Common.Words.{u128_mod, add_u128-exact}
use ducp_node_rs.Types.Bytes.{Identity, TaskId}
use ducp_node_rs.Types.Reject.{ok}
use ducp_node_rs.Types.Records.{Submission}
use ducp_node_rs.Types.Tx.{Tx, SignedTx}
use ducp_node_rs.Types.Primitives.{Primitives}
use ducp_node_rs.Governance.{Params}
use ducp_node_rs.Ledger.State.{State, update_task}
use ducp_node_rs.Ledger.Handlers.{accept_submission, accept_claim, accept_challenge, settle_money}
use ducp_node_rs.Ledger.Apply.{dispatch, apply}
use ducp_node_rs.Ledger.Settled.{settle-IsSettled}
use ducp_node_rs.Ledger.Consistent.{minted_by}
use ducp_node_rs.Ledger.Guards.{
  submit_task-Submits, claim_task-Claims, submit_proof-Proves, open_challenge-Challenges,
  transfer-Transfers, apply-Accepts, bumped,
}

update_task-supply :
    (s : State) (task : TaskId) (change : Submission → Submission)
    → (update_task s task change).supply ≡ s.supply
unfolding update_task
update_task-supply s task change = ground arith

abbrev pub Mints : State → State → ℕ → Type 0
Mints s s' w = (s'.supply.minted ≡ s.supply.minted + w) × (s'.supply.burned ≡ s.supply.burned)

kept-Mints : (s s' : State) → s'.supply ≡ s.supply → Mints s s' 0
kept-Mints s s' e = rw e (omega arith, refl)

dispatch-Mints :
    (p : Primitives) (s s' : State) (author : Identity) (tx : Tx) (params : Params)
    → s.supply.minted + minted_by params tx < u128_mod
    → dispatch p s author tx params ≡ ok s'
    → Mints s s' (minted_by params tx)
unfolding dispatch minted_by
dispatch-Mints p s s' author (Tx.submit_task body) params fits h = kept-Mints s s' (
    unfold accept_submission in
    ap (λ t. t.supply) (submit_task-Submits s s' params p author body h).committed)
dispatch-Mints p s s' author (Tx.claim_task task) params fits h =
    let (body, sub, a) = claim_task-Claims s s' params author task h in
    kept-Mints s s'
      (ap (λ t. t.supply) a.committed ∙ unfold accept_claim in update_task-supply _ task _)
dispatch-Mints p s s' author (Tx.submit_proof proof) params fits h =
    let (body, sub, a) = submit_proof-Proves s s' params author proof h in
    let e = settle-IsSettled s body sub proof params a.sub_found in
    rw (a.committed, e.supply)
      (unfold settle_money in (add_u128-exact s.supply.minted _ fits, refl))
dispatch-Mints p s s' author (Tx.transfer to amount) params fits h =
    kept-Mints s s' (ap (λ t. t.supply) (transfer-Transfers s s' author to amount h).committed)
dispatch-Mints p s s' author (Tx.challenge task bond) params fits h =
    let (receipt, sub, a) = open_challenge-Challenges s s' params author task bond h in
    kept-Mints s s' (unfold accept_challenge in ap (λ t. t.supply) a.committed)

-- When its issuance fits the supply's u128, an accepted transaction mints exactly that issuance if
-- it is a proof, and nothing if it is anything else; it never burns.
pub apply-Mints :
    (p : Primitives) (s s' : State) (stx : SignedTx) (params : Params)
    → s.supply.minted + minted_by params stx.tx < u128_mod
    → apply p s stx params ≡ ok s'
    → Mints s s' (minted_by params stx.tx)
apply-Mints p s s' stx params fits h =
    dispatch-Mints p (bumped s stx.author) s' stx.author stx.tx params fits
      (apply-Accepts p s s' stx params h).handled
