-- ===== src/Node/Replies.antt =====
-- What a node answers: to a submission, and to a challenge that it cannot run again.
use ducp_node_rs.Common.{
  ℕ, ◌≡◌, ◌≢◌, List, ◌++◌, refl, sym, ◌∙◌, ap, arith, [], ◌∷◌, true, false, none, some, ==_self,
}
use ducp_node_rs.Common.Int.{neg_part}
use ducp_node_rs.Common.BTreeMap.{get, contains_key, unwrap_or}
use ducp_node_rs.Common.Lists.{get_elem?}
use ducp_node_rs.Ledger.Guards.{open_challenge-Challenges}
use ducp_node_rs.Types.Bytes.{Identity, TaskId, Ucu}
use ducp_node_rs.Types.Task.{TaskBody}
use ducp_node_rs.Types.Reject.{
  Reject, ok, err, bad_signature, bad_nonce, unknown_account, unknown_task, insufficient_balance,
  bad_status, deadline_passed, already_claimed, wrong_provider, ucu_exceeds_limit,
  benchmark_mismatch, not_in_clawback_window, bond_too_small, unsupported_feature,
  conservation_violated, invalid,
}
use ducp_node_rs.Types.Tx.{SignedTx}
use ducp_node_rs.Types.Primitives.{tx_id}
use ducp_node_rs.Ledger.State.{State}
use ducp_node_rs.Ledger.Apply.{apply}
use ducp_node_rs.Ledger.Handlers.{open_challenge}
use ducp_node_rs.Consensus.{order, produce}
use ducp_node_rs.Node.{
  NodeInner, Config, submit, adopt_proposal, find_result, reply_of, gather,
  resolve_pending_challenge, reject_code, code_offset,
}

module _ (c : Config) (inner : NodeInner) where
  order-accepted :
      (stx : SignedTx) (ns : State)
      → inner.mempool ≡ []
      → apply c.primitives inner.state stx c.params ≡ ok ns
      → order c.primitives c.params (inner.mempool ++ stx ∷ []) inner.state ≡ record {
        state = ns;
        accepted_ids = tx_id c.primitives stx ∷ [];
        accepted_txs = stx ∷ [];
        results = record { tx_id = tx_id c.primitives stx; accepted = true; reject = none } ∷ [];
      }
  unfolding order
  order-accepted stx ns empty accepted = ground (arith, empty, accepted)

  order-refused :
      (stx : SignedTx) (e : Reject)
      → inner.mempool ≡ []
      → apply c.primitives inner.state stx c.params ≡ err e
      → order c.primitives c.params (inner.mempool ++ stx ∷ []) inner.state ≡ record {
        state = inner.state;
        accepted_ids = [];
        accepted_txs = [];
        results = record { tx_id = tx_id c.primitives stx; accepted = false; reject = some e } ∷ [];
      }
  unfolding order
  order-refused stx e empty refused = ground (arith, empty, refused)

  -- On an empty mempool a submission is answered as the ledger decides: accepted, the node's state
  -- is the ledger's next one and the reply is the transaction's id; refused, nothing changes and
  -- the reply is the ledger's reason.
  pub submit_reply :
      (stx : SignedTx)
      → inner.mempool ≡ []
      → ((ns : State)
          → apply c.primitives inner.state stx c.params ≡ ok ns
          → ((submit c inner stx).0.state ≡ ns)
            × ((submit c inner stx).1 ≡ ok (tx_id c.primitives stx)))
        × ((e : Reject)
            → apply c.primitives inner.state stx c.params ≡ err e
            → submit c inner stx ≡ (inner, err e))
  unfolding submit adopt_proposal find_result reply_of produce
  submit_reply stx empty = (
    λ ns accepted.
        rw (order-accepted stx ns empty accepted, ==_self (tx_id c.primitives stx)) (refl, refl),
    λ e refused.
        rw (order-refused stx e empty refused, ==_self (tx_id c.primitives stx))
          (ap (λ m. (record inner { mempool = m }, err e)) (sym empty)),
  )

  -- A challenge whose task's program is not among the node's blobs stays open: its resolution
  -- answers `UnknownTask` and changes nothing, while the ledger accepts no other challenge of
  -- the task.
  pub stuck_now :
      (task : TaskId) (body : TaskBody)
      → get task inner.state.bodies ≡ some body
      → get body.program inner.blobs ≡ none
      → contains_key task inner.state.pending_challenges ≡ true
      → (resolve_pending_challenge c inner task ≡ (inner, err unknown_task))
        × ((challenger : Identity) (bond : Ucu) (t : State)
            → open_challenge inner.state challenger task bond c.params ≢ ok t)
  unfolding resolve_pending_challenge gather
  stuck_now task body found missing pending = (
    ground arith,
    λ challenger bond t opened.
        let (receipt, sub, a) =
          open_challenge-Challenges inner.state t c.params challenger task bond opened in
        ground (arith, a.not_pending),
  )

-- The reasons in the order of their codes, and a reason from its code.
abbrev reasons : List Reject
reasons =
    invalid ∷ bad_signature ∷ bad_nonce ∷ unknown_account ∷ unknown_task ∷ insufficient_balance
    ∷ bad_status ∷ deadline_passed ∷ already_claimed ∷ wrong_provider ∷ ucu_exceeds_limit
    ∷ benchmark_mismatch ∷ not_in_clawback_window ∷ bond_too_small ∷ unsupported_feature
    ∷ conservation_violated ∷ []

abbrev reject_of : ℕ → Reject
reject_of n = unwrap_or (get_elem? reasons n) invalid

reject_of-code_offset : (r : Reject) → reject_of (code_offset r) ≡ r
unfolding code_offset
reject_of-code_offset r = ground arith

-- Two reasons with the same error code are the same reason.
reject_code_injective : (r q : Reject) → reject_code r ≡ reject_code q → r ≡ q
unfolding reject_code
reject_code_injective r q same =
    let offsets : code_offset r ≡ code_offset q = omega (arith, ap neg_part same) in
    sym (reject_of-code_offset r) ∙ ap reject_of offsets ∙ reject_of-code_offset q
