-- ===== src/Node/Stuck.antt =====
-- A challenge that the node cannot run again, and what becomes of it.
use ducp_node_rs.Common.{
  ◌≡◌, ◌≢◌, arith, Bool-cases, List, [], ◌∷◌, ◌++◌, none, inl, inr, ◌==◌, ==_iff,
}
use ducp_node_rs.Common.BTreeMap.{get}
use ducp_node_rs.Common.BTreeMap.Laws.{get-insert}
use ducp_node_rs.Common.Lists.{length}
use ducp_node_rs.Types.Bytes.{ContentId, Identity, TaskId, Ucu}
use ducp_node_rs.Types.Task.{TaskBody}
use ducp_node_rs.Types.Reject.{ok, err, unknown_task, Result-cases}
use ducp_node_rs.Types.Tx.{SignedTx}
use ducp_node_rs.Types.Primitives.{content_id}
use ducp_node_rs.Ledger.State.{State}
use ducp_node_rs.Ledger.Handlers.{open_challenge}
use ducp_node_rs.Ledger.Pending.{
  IsOpen, apply-IsOpen, resolve_challenge-IsOpen, advance_epoch-IsOpen,
}
use ducp_node_rs.Consensus.{order, produce}
use ducp_node_rs.Consensus
use ducp_node_rs.Consensus.Ordered.{order_cases}
use ducp_node_rs.Node.{
  NodeInner, Config, submit, adopt_proposal, gather, rerun, commit_verdict, commit_system,
  resolve_pending_challenge, advance_epoch, put_blob,
}
use ducp_node_rs.Node.Replies.{stuck_now}
use ducp_node_rs.Node.Commits.{Operation, submits, resolves, advances, stores, perform, perform_all}

-- None of the operations stores a blob of this id.
abbrev pub Avoids : Config → ContentId → List Operation → Type 0
Avoids c id [] = Unit {0}
Avoids c id (submits stx ∷ rest) = Avoids c id rest
Avoids c id (resolves task ∷ rest) = Avoids c id rest
Avoids c id (advances ∷ rest) = Avoids c id rest
Avoids c id (stores bytes ∷ rest) = (content_id c.primitives bytes ≢ id) × Avoids c id rest

module _ (c : Config) (task : TaskId) (body : TaskBody) where
  -- The task has an open challenge, and its program is not there.
  record IsStuck (inner : NodeInner) : Type 0 where
    pub challenged : IsOpen task body inner.state
    pub missing : get body.program inner.blobs ≡ none

  order-IsOpen :
      (mempool : List SignedTx) (s : State)
      → IsOpen task body s
      → IsOpen task body (order c.primitives c.params mempool s).state
  order-IsOpen [] s o = unfold order in o
  order-IsOpen (tx ∷ mempool) s o =
      order_cases (λ r. IsOpen task body r.state) c.primitives c.params tx mempool s
        (λ ns h. order-IsOpen mempool ns (apply-IsOpen task body c.primitives s ns tx c.params h o))
        (λ e h. order-IsOpen mempool s o)

  submit-IsStuck :
      (inner : NodeInner) (stx : SignedTx) → IsStuck inner → IsStuck (submit c inner stx).0
  unfolding submit adopt_proposal produce
  submit-IsStuck inner stx i =
      let round = order c.primitives c.params (inner.mempool ++ stx ∷ []) inner.state in
      elim (Bool-cases (length round.accepted_ids == 0)) [
        | inl nothing ↦ rw nothing (record { challenged = i.challenged; missing = i.missing })
        | inr some_txs ↦ rw some_txs (record {
          challenged = order-IsOpen (inner.mempool ++ stx ∷ []) inner.state i.challenged;
          missing = i.missing;
        })
      ]

  resolves-IsStuck :
      (inner : NodeInner) (ended : TaskId)
      → IsStuck inner
      → IsStuck (resolve_pending_challenge c inner ended).0
  unfolding resolve_pending_challenge
  resolves-IsStuck inner ended i = elim (Bool-cases (ended == task)) [
    | inl same ↦
        let stays =
          (stuck_now c inner task body i.challenged.known i.missing i.challenged.pending).0 in
        rw ((==_iff ended task).0 same, stays) i
    | inr other ↦ elim (Result-cases (gather c inner ended)) [
      | inl ((b, proof, program, input), found) ↦
          let fraud = rerun c b proof program input in
          unfold commit_verdict commit_system in
          rw (found, resolve_pending_challenge)
            (record {
              challenged =
                  resolve_challenge-IsOpen task body inner.state ended fraud c.params
                    (ground (arith, other, ==_iff ended task)) i.challenged;
              missing = i.missing;
            })
      | inr (e, lacking) ↦ rw (lacking, resolve_pending_challenge) i
    ]
  ]

  perform-IsStuck :
      (inner : NodeInner) (o : Operation)
      → IsStuck inner
      → Avoids c body.program (o ∷ [])
      → IsStuck (perform c inner o)
  unfolding advance_epoch commit_system Consensus.advance_epoch put_blob
  perform-IsStuck inner (submits stx) i free = submit-IsStuck inner stx i
  perform-IsStuck inner (resolves ended) i free = resolves-IsStuck inner ended i
  perform-IsStuck inner advances i free = record {
    challenged = advance_epoch-IsOpen task body inner.state c.params i.challenged;
    missing = i.missing;
  }
  perform-IsStuck inner (stores bytes) i free = record {
    challenged = i.challenged;
    missing = ground (
      arith,
      free.0,
      i.missing,
      get-insert body.program (content_id c.primitives bytes) bytes inner.blobs,
    );
  }

  perform_all-IsStuck :
      (inner : NodeInner) (operations : List Operation)
      → IsStuck inner
      → Avoids c body.program operations
      → IsStuck (perform_all c inner operations)
  perform_all-IsStuck inner [] i free = i
  perform_all-IsStuck inner (submits stx ∷ rest) i free =
      perform_all-IsStuck (perform c inner (submits stx)) rest
        (perform-IsStuck inner (submits stx) i tt) free
  perform_all-IsStuck inner (resolves ended ∷ rest) i free =
      perform_all-IsStuck (perform c inner (resolves ended)) rest
        (perform-IsStuck inner (resolves ended) i tt) free
  perform_all-IsStuck inner (advances ∷ rest) i free =
      perform_all-IsStuck (perform c inner advances) rest (perform-IsStuck inner advances i tt) free
  perform_all-IsStuck inner (stores bytes ∷ rest) i free =
      perform_all-IsStuck (perform c inner (stores bytes)) rest
        (perform-IsStuck inner (stores bytes) i (free.0, tt)) free.1

-- A challenge of a task whose program is not among the node's blobs, with the open challenges in key
-- order, stays open whatever the node is asked to do, as long as the program is not stored: after any
-- submissions, resolutions, epochs and other blobs, resolving it still answers `UnknownTask` and
-- changes nothing, and the ledger accepts no other challenge of the task.
pub stuck_challenge :
    (c : Config) (inner : NodeInner) (task : TaskId) (body : TaskBody) (operations : List Operation)
    → IsOpen task body inner.state
    → get body.program inner.blobs ≡ none
    → Avoids c body.program operations
    → let later = perform_all c inner operations in
      IsOpen task body later.state
      × (resolve_pending_challenge c later task ≡ (later, err unknown_task))
      × ((challenger : Identity) (bond : Ucu) (t : State)
          → open_challenge later.state challenger task bond c.params ≢ ok t)
stuck_challenge c inner task body operations open' missing free =
    let later = perform_all c inner operations in
    let i =
      perform_all-IsStuck c task body inner operations
        (record { challenged = open'; missing = missing }) free in
    let (answered, refused) =
      stuck_now c later task body i.challenged.known i.missing i.challenged.pending in
    (i.challenged, answered, refused)
