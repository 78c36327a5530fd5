-- ===== src/Consensus/Replicas.antt =====
-- Replication: a replica that commits what the sequencer produced reaches the same state.
use ducp_node_rs.Common.{◌≡◌, refl, ap, arith, List, [], ◌∷◌, ◌==◌, ==_self, true}
use ducp_node_rs.Common.Lists.{length}
use mathlib.Core.List.{map}
use ducp_node_rs.Types.Bytes.{Bytes}
use ducp_node_rs.Types.Reject.{ok}
use ducp_node_rs.Types.Tx.{SignedTx}
use ducp_node_rs.Types.Primitives.{Primitives, tx_id}
use ducp_node_rs.Governance.{Params}
use ducp_node_rs.Ledger.State.{State, state_root}
use ducp_node_rs.Consensus.{SingleSequencer, order, produce, replay, commit}
use ducp_node_rs.Consensus.Ordered.{order_cases}

module _ (p : Primitives) (params : Params) where
  order-replay :
      (mempool : List SignedTx) (s : State)
      → let round = order p params mempool s in
        replay p params round.accepted_txs round.accepted_ids s ≡ ok round.state
  unfolding replay
  order-replay [] s = unfold order in refl
  order-replay (tx ∷ mempool) s =
      order_cases (λ r. replay p params r.accepted_txs r.accepted_ids s ≡ ok r.state) p params tx
        mempool s (λ ns h. rw (==_self (tx_id p tx), h) (order-replay mempool ns))
        (λ e h. order-replay mempool s)

  pub order-ids :
      (mempool : List SignedTx) (s : State)
      → let round = order p params mempool s in
        round.accepted_ids ≡ map (tx_id p) round.accepted_txs
  order-ids [] s = unfold order in refl
  order-ids (tx ∷ mempool) s =
      order_cases (λ r. r.accepted_ids ≡ map (tx_id p) r.accepted_txs) p params tx mempool s
        (λ ns h. ap (λ ids. tx_id p tx ∷ ids) (order-ids mempool ns)) (λ e h. order-ids mempool s)

  order-length :
      (mempool : List SignedTx) (s : State)
      → let round = order p params mempool s in
        (length round.accepted_txs == length round.accepted_ids) ≡ true
  order-length [] s = unfold order in refl
  order-length (tx ∷ mempool) s =
      order_cases (λ r. (length r.accepted_txs == length r.accepted_ids) ≡ true) p params tx mempool
        s (λ ns h. ground (arith, order-length mempool ns)) (λ e h. order-length mempool s)

-- Any replica that commits a block which a sequencer produced on the same state, with the
-- transactions of the proposal, accepts it and reaches the proposer's state.
pub commit-produce :
    (p : Primitives) (borsh : State → Bytes) (leader replica : SingleSequencer)
    (mempool : List SignedTx) (s : State) (params : Params)
    → let proposal = produce p borsh leader mempool s params in
      commit p borsh replica proposal.block proposal.txs s params ≡ ok proposal.state
unfolding commit produce
commit-produce p borsh leader replica mempool s params =
    rw
      (
        order-length p params mempool s,
        order-replay p params mempool s,
        ==_self (state_root p borsh (order p params mempool s).state),
      )
      refl
