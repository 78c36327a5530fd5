-- ===== src/Ledger/Replay.antt =====
-- Nonces: an accepted transaction uses up its author's nonce, and cannot be applied again.
use ducp_node_rs.Common.{◌+◌, ◌<◌, ◌≡◌, ◌∙◌, ap, arith, ◌==◌, if◌then◌else◌}
use ducp_node_rs.Common.Words.{u64_mod, add_u64}
use ducp_node_rs.Common.BTreeMap.Laws.{get-insert}
use ducp_node_rs.Types.Bytes.{Identity, TaskId}
use ducp_node_rs.Types.Reject.{ok, err, bad_nonce}
use ducp_node_rs.Types.Records.{Submission}
use ducp_node_rs.Types.Tx.{Tx, SignedTx}
use ducp_node_rs.Types.Primitives.{Primitives}
use ducp_node_rs.Governance.{Params}
use ducp_node_rs.Ledger.State.{State, update_task, check_and_bump_nonce}
use ducp_node_rs.Ledger.Handlers.{accept_submission, accept_claim, accept_challenge}
use ducp_node_rs.Ledger.Apply.{dispatch, apply}
use ducp_node_rs.Ledger.Settled.{settle-IsSettled}
use ducp_node_rs.Ledger.Guards.{
  submit_task-Submits, claim_task-Claims, submit_proof-Proves, open_challenge-Challenges,
  transfer-Transfers, apply-Accepts, next_nonce, bumped,
}

update_task-nonces :
    (s : State) (task : TaskId) (change : Submission → Submission)
    → (update_task s task change).nonces ≡ s.nonces
unfolding update_task
update_task-nonces s task change = ground arith

dispatch-nonces :
    (p : Primitives) (s s' : State) (author : Identity) (tx : Tx) (params : Params)
    → dispatch p s author tx params ≡ ok s'
    → s'.nonces ≡ s.nonces
unfolding dispatch
dispatch-nonces p s s' author (Tx.submit_task body) params h =
    unfold accept_submission in
    ap (λ t. t.nonces) (submit_task-Submits s s' params p author body h).committed
dispatch-nonces p s s' author (Tx.claim_task task) params h =
    let (body, sub, a) = claim_task-Claims s s' params author task h in
    ap (λ t. t.nonces) a.committed ∙ unfold accept_claim in update_task-nonces _ task _
dispatch-nonces p s s' author (Tx.submit_proof proof) params h =
    let (body, sub, a) = submit_proof-Proves s s' params author proof h in
    ap (λ t. t.nonces) a.committed ∙ (settle-IsSettled s body sub proof params a.sub_found).nonces
dispatch-nonces p s s' author (Tx.transfer to amount) params h =
    ap (λ t. t.nonces) (transfer-Transfers s s' author to amount h).committed
dispatch-nonces p s s' author (Tx.challenge task bond) params h =
    let (receipt, sub, a) = open_challenge-Challenges s s' params author task bond h in
    unfold accept_challenge in ap (λ t. t.nonces) a.committed

-- An accepted transaction carries the nonce that its author is due. It moves that author's nonce on
-- by one, modulo 2 ^ 64, and no other account's.
pub apply-next_nonce :
    (p : Primitives) (s s' : State) (stx : SignedTx) (params : Params) (id : Identity)
    → apply p s stx params ≡ ok s'
    → (stx.nonce ≡ next_nonce s stx.author)
      × (next_nonce s' id ≡ (if id == stx.author then add_u64 stx.nonce 1 else next_nonce s id))
apply-next_nonce p s s' stx params id h =
    let a = apply-Accepts p s s' stx params h in
    let moved = dispatch-nonces p (bumped s stx.author) s' stx.author stx.tx params a.handled in
    (
      a.in_order,
      rw (moved, a.in_order)
          (ground (arith, get-insert id stx.author (add_u64 (next_nonce s stx.author) 1) s.nonces)),
    )

-- Unless its nonce was the last of the u64, an accepted transaction is refused with `BadNonce` when
-- it is applied once more to the state that it made.
pub apply_again :
    (p : Primitives) (s s' : State) (stx : SignedTx) (params : Params)
    → stx.nonce + 1 < u64_mod
    → apply p s stx params ≡ ok s'
    → apply p s' stx params ≡ err bad_nonce
apply_again p s s' stx params fits h =
    let (due, next) = apply-next_nonce p s s' stx params stx.author h in
    unfold apply check_and_bump_nonce add_u64 in
    ground (arith, due, next, (apply-Accepts p s s' stx params h).signed)
