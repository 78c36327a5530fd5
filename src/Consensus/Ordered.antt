-- ===== src/Consensus/Ordered.antt =====
-- The branches of one round of `produce`, for any statement about what the rounds make.
use ducp_node_rs.Common.{◌≡◌, List, ◌∷◌, inl, inr}
use ducp_node_rs.Types.Reject.{Reject, ok, err, Result-cases}
use ducp_node_rs.Types.Tx.{SignedTx}
use ducp_node_rs.Types.Primitives.{Primitives, tx_id}
use ducp_node_rs.Governance.{Params}
use ducp_node_rs.Ledger.State.{State}
use ducp_node_rs.Ledger.Apply.{apply}
use ducp_node_rs.Consensus.{Round, order, accept_tx, refuse_tx}

module _ {ℓ} (P : Round → Type ℓ) (p : Primitives) (params : Params) (tx : SignedTx)
    (mempool : List SignedTx) (s : State) where
  pub order_cases :
      ((ns : State)
        → apply p s tx params ≡ ok ns
        → P (accept_tx (tx_id p tx) tx (order p params mempool ns)))
      → ((e : Reject)
          → apply p s tx params ≡ err e
          → P (refuse_tx (tx_id p tx) e (order p params mempool s)))
      → P (order p params (tx ∷ mempool) s)
  unfolding order
  order_cases accepted refused = elim (Result-cases (apply p s tx params)) [
    | inl (ns, h) ↦ rw (h, order) (accepted ns h)
    | inr (e, h) ↦ rw (h, order) (refused e h)
  ]
