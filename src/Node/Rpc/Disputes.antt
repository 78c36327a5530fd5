-- ===== src/Node/Rpc/Disputes.antt =====
-- The `challenge` call: the task runs again, and the ledger acts on what comes out.
use ducp_node_rs.Common.{
  ◌≡◌, refl, ap, ◌∙◌, arith, true, false, none, some, [], ◌⊎◌, ==_iff, ==_self,
}
use ducp_node_rs.Common.Int.{negsuc}
use ducp_node_rs.Common.BTreeMap.{BTreeMap, get, contains_key}
use ducp_node_rs.Common.BTreeMap.Laws.{IsSorted}
use ducp_node_rs.Types.Bytes.{Bytes, TaskId, Ucu}
use ducp_node_rs.Types.Reject.{ok, err, unknown_task}
use ducp_node_rs.Types.Task.{TaskBody}
use ducp_node_rs.Types.Records.{ComputeProof}
use ducp_node_rs.Types.Text.{codes, Hex}
use ducp_node_rs.Types.Tx.{Tx, SignedTx}
use ducp_node_rs.Ledger.State.{State}
use ducp_node_rs.Ledger.Fraud.{resolve_challenge}
use ducp_node_rs.Ledger.Apply.{apply}
use ducp_node_rs.Dvm.{execute}
use ducp_node_rs.Verification.{check, is_fraud}
use ducp_node_rs.Node.{NodeInner, Config, submit, adopt_proposal, gather, rerun}
use ducp_node_rs.Node.Replies.{submit_reply}
use ducp_node_rs.Node.Rpc.{answer, refusal}
use ducp_node_rs.Node.Rpc.Published.{reject_err-published}
use ducp_node_rs.Node.Rpc.Calls.{challenge}
use ducp_node_rs.Node.Rpc.Answers.{challenge-gather}

-- The machine, run with this program and input under the task's limits, comes to the hash and the
-- count of the proof.
abbrev pub Confirms : Config → TaskBody → ComputeProof → Bytes → Bytes → Type 0
Confirms c body proof program input =
    let run = execute c.wasmtime c.primitives program input body.limits c.benchmark in
    (run.result_hash ≡ proof.result_hash) × (run.ucu_count ≡ proof.ucu_count)

-- Something is missing that a run needs: the body or the proof, or the program or the input that the
-- body names.
abbrev pub Lacks : State → BTreeMap Bytes → TaskId → Type 0
Lacks s blobs task =
    (get task s.bodies ≡ none)
    ⊎ (get task s.proofs ≡ none)
    ⊎ ((body : TaskBody) × (get task s.bodies ≡ some body)
        × ((get body.program blobs ≡ none) ⊎ (get body.input blobs ≡ none)))

submit-blobs :
    (c : Config) (inner : NodeInner) (stx : SignedTx) → (submit c inner stx).0.blobs ≡ inner.blobs
unfolding submit adopt_proposal
submit-blobs c inner stx = ground arith

module _ (c : Config) (body : TaskBody) (proof : ComputeProof) (program input : Bytes) where
  rerun-confirmed : Confirms c body proof program input → rerun c body proof program input ≡ false
  unfolding rerun check is_fraud
  rerun-confirmed (same_hash, same_count) =
      rw (same_hash, same_count, ==_self proof.result_hash, ==_self proof.ucu_count) refl

  rerun-refuted :
      (Confirms c body proof program input → ⊥) → rerun c body proof program input ≡ true
  unfolding rerun check is_fraud
  rerun-refuted differs =
      let run = execute c.wasmtime c.primitives program input body.limits c.benchmark in
      ground (
        arith,
        λ (same_hash : run.result_hash ≡ proof.result_hash)
              (same_count : run.ucu_count ≡ proof.ucu_count).
            differs (same_hash, same_count),
        ==_iff run.result_hash proof.result_hash,
        ==_iff run.ucu_count proof.ucu_count,
      )

gather-Lacks :
    (c : Config) (inner : NodeInner) (task : TaskId)
    → Lacks inner.state inner.blobs task
    → gather c inner task ≡ err unknown_task
unfolding gather
gather-Lacks c inner task lacks = ground (arith, lacks)

gather-found :
    (c : Config) (inner : NodeInner) (task : TaskId) (body : TaskBody) (proof : ComputeProof)
    (program input : Bytes)
    → get task inner.state.bodies ≡ some body
    → get task inner.state.proofs ≡ some proof
    → get body.program inner.blobs ≡ some program
    → get body.input inner.blobs ≡ some input
    → gather c inner task ≡ ok (body, proof, program, input)
unfolding gather
gather-found c inner task body proof program input has_body has_proof has_program has_input =
    rw (has_body, has_proof, has_program, has_input) refl

-- A challenge that the ledger accepts, on an empty mempool and with the open challenges in key order,
-- is resolved in the same call. Where the body and the proof of the task are in the ledger, and the
-- program and the input that the body names are among the node's blobs: if the machine comes to the
-- hash and the count of the proof, the ledger's next state is that of a challenge that failed, and
-- if it does not, that of a proven fraud; no challenge of the task is open then, and the call
-- answers `ok`. Where one of the four is missing, the challenge stays open in the state that the
-- ledger made of it, and the call answers the error -32004, `unknown task`.
pub challenge_answer :
    (c : Config) (h : Hex) (inner : NodeInner) (stx : SignedTx) (task : TaskId) (bond : Ucu)
    (ns : State)
    → inner.mempool ≡ []
    → IsSorted inner.state.pending_challenges
    → stx.tx ≡ Tx.challenge task bond
    → apply c.primitives inner.state stx c.params ≡ ok ns
    → let (last, reply) = challenge c h inner stx in
      ((body : TaskBody) (proof : ComputeProof) (program input : Bytes)
        → get task ns.bodies ≡ some body
        → get task ns.proofs ≡ some proof
        → get body.program inner.blobs ≡ some program
        → get body.input inner.blobs ≡ some input
        → (Confirms c body proof program input
            → last.state ≡ resolve_challenge ns task false c.params)
          × (¬ Confirms c body proof program input
              → last.state ≡ resolve_challenge ns task true c.params)
          × (get task last.state.pending_challenges ≡ none)
          × (reply ≡ answer (record { ok = true })))
      × (Lacks ns inner.blobs task
          → (last.state ≡ ns)
            × (contains_key task ns.pending_challenges ≡ true)
            × (reply ≡ refusal (record { code = negsuc 32_003; message = codes "unknown task" })))
challenge_answer c h inner stx task bond ns idle sorted kind accepted =
    let after = (submit c inner stx).0 in
    let taken = ((submit_reply c inner stx idle).0 ns accepted).0 in
    let same_blobs = submit-blobs c inner stx in
    let (resolved, stuck) = challenge-gather c h inner stx task bond ns idle sorted kind accepted in
    (
      λ body proof program input has_body has_proof has_program has_input.
          let found : gather c after task ≡ ok (body, proof, program, input) =
            gather-found c after task body proof program input (rw taken has_body)
              (rw taken has_proof) (rw same_blobs has_program) (rw same_blobs has_input) in
          let (state, closed, reply) = resolved body proof program input found in
          (
            λ confirmed.
                state
                ∙ ap (λ fraud. resolve_challenge ns task fraud c.params)
                    (rerun-confirmed c body proof program input confirmed),
            λ differs.
                state
                ∙ ap (λ fraud. resolve_challenge ns task fraud c.params)
                    (rerun-refuted c body proof program input differs),
            closed,
            reply,
          ),
      λ lacks.
          let missing : gather c after task ≡ err unknown_task =
            gather-Lacks c after task (rw (taken, same_blobs) lacks) in
          let (same, open') = stuck unknown_task missing in
          (
            ap (λ r. r.0.state) same ∙ taken,
            rw (← taken) open',
            ap (λ r. r.1) same ∙ ap refusal (reject_err-published unknown_task),
          ),
    )
