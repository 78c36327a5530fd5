-- ===== src/Node/Rpc/Answers.antt =====
-- What a node answers to the calls that carry a signed transaction.
use ducp_node_rs.Common.{◌≡◌, arith, Bool, true, false, Option, none, some, []}
use ducp_node_rs.Common.BTreeMap.{get, insert, contains_key}
use ducp_node_rs.Common.BTreeMap.Laws.{IsSorted, insert-IsSorted, get-insert_self}
use ducp_node_rs.Types.Bytes.{Bytes, TaskId, Ucu}
use ducp_node_rs.Types.Reject.{Reject, ok, err}
use ducp_node_rs.Types.Task.{TaskBody}
use ducp_node_rs.Types.Records.{ComputeProof}
use ducp_node_rs.Types.Text.{Text, codes, Hex}
use ducp_node_rs.Types.Tx.{Tx, SignedTx}
use ducp_node_rs.Types.Primitives.{Primitives}
use ducp_node_rs.Governance.{Params}
use ducp_node_rs.Ledger.State.{State}
use ducp_node_rs.Ledger.Fraud.{resolve_challenge}
use ducp_node_rs.Ledger.Fraud.Closed.{resolve_challenge-closed}
use ducp_node_rs.Ledger.Handlers.{accept_challenge}
use ducp_node_rs.Ledger.Guards.{apply-Accepts, open_challenge-Challenges, bumped}
use ducp_node_rs.Ledger.Apply.{dispatch}
use ducp_node_rs.Ledger.Apply.{apply}
use ducp_node_rs.Node.{
  NodeInner, Config, submit, gather, rerun, commit_verdict, commit_system,
  resolve_pending_challenge,
}
use ducp_node_rs.Node.Replies.{submit_reply}
use ducp_node_rs.Node.Rpc.{ErrorObject, RpcResult, answer, refusal, reject_err}
use ducp_node_rs.Node.Rpc.Calls.{
  submit_task, claim_task, submit_proof, transfer, challenge, answer_of,
}

-- The calls that change the state of the ledger.
pub data Call : Type 0 where
  submits_task claims_task submits_proof transfers challenges : Call

-- The error of an answer.
abbrev error_of {ℓ} : {T : Type ℓ} → RpcResult T → Option ErrorObject
error_of (answer a) = none
error_of (refusal e) = some e

abbrev forget {ℓ} : {T : Type ℓ} → NodeInner × RpcResult T → NodeInner × Option ErrorObject
forget (inner, reply) = (inner, error_of reply)

abbrev pub perform_call :
    Config → Hex → Call → NodeInner → SignedTx → NodeInner × Option ErrorObject
perform_call c h submits_task inner stx = forget (submit_task c h inner stx)
perform_call c h claims_task inner stx = forget (claim_task c h inner stx)
perform_call c h submits_proof inner stx = forget (submit_proof c h inner stx)
perform_call c h transfers inner stx = forget (transfer c h inner stx)
perform_call c h challenges inner stx = forget (challenge c h inner stx)

-- The call takes this kind of transaction.
abbrev pub takes : Call → Tx → Bool
takes submits_task (Tx.submit_task body) = true
takes claims_task (Tx.claim_task task) = true
takes submits_proof (Tx.submit_proof proof) = true
takes transfers (Tx.transfer to amount) = true
takes challenges (Tx.challenge task bond) = true
takes _ _ = false

-- What a call says of a transaction of another kind.
abbrev pub expected : Call → Text
expected submits_task = codes "expected a SubmitTask transaction"
expected claims_task = codes "expected a ClaimTask transaction"
expected submits_proof = codes "expected a SubmitProof transaction"
expected transfers = codes "expected a Transfer transaction"
expected challenges = codes "expected a Challenge transaction"

-- An accepted challenge is entered among those that are open.
pub apply-pending :
    (p : Primitives) (s ns : State) (stx : SignedTx) (params : Params) (task : TaskId) (bond : Ucu)
    → stx.tx ≡ Tx.challenge task bond
    → apply p s stx params ≡ ok ns
    → ns.pending_challenges
      ≡ insert task (record { challenger = stx.author; bond = bond }) s.pending_challenges
unfolding dispatch accept_challenge
apply-pending p s ns stx params task bond kind accepted =
    let a = apply-Accepts p s ns stx params accepted in
    let (receipt, sub, opened) =
      open_challenge-Challenges (bumped s stx.author) ns params stx.author task bond
        (ground (arith, kind, a.handled)) in
    ground (arith, opened.committed)

-- The answer to an accepted challenge, by what `gather` finds.
pub challenge-gather :
    (c : Config) (h : Hex) (inner : NodeInner) (stx : SignedTx) (task : TaskId) (bond : Ucu)
    (ns : State)
    → inner.mempool ≡ []
    → IsSorted inner.state.pending_challenges
    → stx.tx ≡ Tx.challenge task bond
    → apply c.primitives inner.state stx c.params ≡ ok ns
    → let after = (submit c inner stx).0 in
      ((body : TaskBody) (proof : ComputeProof) (program input : Bytes)
        → gather c after task ≡ ok (body, proof, program, input)
        → ((challenge c h inner stx).0.state
            ≡ resolve_challenge ns task (rerun c body proof program input) c.params)
          × (get task (challenge c h inner stx).0.state.pending_challenges ≡ none)
          × ((challenge c h inner stx).1 ≡ answer (record { ok = true })))
      × ((e : Reject)
          → gather c after task ≡ err e
          → challenge c h inner stx ≡ (after, refusal (reject_err e))
            × (contains_key task after.state.pending_challenges ≡ true))
unfolding challenge answer_of resolve_pending_challenge commit_verdict commit_system
challenge-gather c h inner stx task bond ns idle sorted kind accepted =
    let (taken, reply) = (submit_reply c inner stx idle).0 ns accepted in
    let pending = apply-pending c.primitives inner.state ns stx c.params task bond kind accepted in
    let after = (submit c inner stx).0 in
    let ordered : IsSorted after.state.pending_challenges =
      rw (taken, pending)
        (insert-IsSorted task (record { challenger = stx.author; bond = bond })
          inner.state.pending_challenges sorted) in
    (
      λ body proof program input gathered. ground (
        arith,
        kind,
        reply,
        gathered,
        taken,
        resolve_challenge-closed after.state task (rerun c body proof program input) c.params
            ordered,
      ),
      λ e missing. ground (
        arith,
        kind,
        reply,
        missing,
        taken,
        pending,
        get-insert_self task (record { challenger = stx.author; bond = bond })
            inner.state.pending_challenges,
      ),
    )
