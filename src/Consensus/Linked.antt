-- ===== src/Consensus/Linked.antt =====
-- A chain of blocks, each with its transactions, from the parent that its first block names.
use ducp_node_rs.Common.{ℕ, suc, ◌≡◌, List, [], ◌∷◌, ◌++◌}
use mathlib.Core.List.{map}
use ducp_node_rs.Types.Bytes.{Hash, Bytes}
use ducp_node_rs.Types.Tx.{SignedTx, Block}
use ducp_node_rs.Types.Primitives.{Primitives, tx_id, block_hash}
use ducp_node_rs.Governance.{Params}
use ducp_node_rs.Ledger.State.{State}
use ducp_node_rs.Consensus.{SingleSequencer, produce}
use ducp_node_rs.Consensus.Replicas.{order-ids}

-- From a height and a parent to a height and a parent: each block is one higher than the last, names
-- the hash of the last as its parent, and lists the ids of its transactions.
pub data IsLinked (p : Primitives)
    : ℕ → Hash → List Block → List (List SignedTx) → ℕ → Hash → Type 0 where
  ends : {n : ℕ} {parent : Hash} → IsLinked p n parent [] [] n parent
  links :
      {n last : ℕ} {parent head : Hash} {b : Block} {txs : List SignedTx} {blocks : List Block}
      {rest : List (List SignedTx)}
      → b.height ≡ suc n
      → b.parent ≡ parent
      → b.txs ≡ map (tx_id p) txs
      → IsLinked p b.height (block_hash p b) blocks rest last head
      → IsLinked p n parent (b ∷ blocks) (txs ∷ rest) last head

module _ (p : Primitives) where
  pub IsLinked-snoc :
      {n last : ℕ} {parent head : Hash} {blocks : List Block} {rest : List (List SignedTx)}
      (b : Block) (txs : List SignedTx)
      → IsLinked p n parent blocks rest last head
      → b.height ≡ suc last
      → b.parent ≡ head
      → b.txs ≡ map (tx_id p) txs
      → IsLinked p n parent (blocks ++ b ∷ []) (rest ++ txs ∷ []) b.height (block_hash p b)
  IsLinked-snoc b txs ends high onto own = links high onto own ends
  IsLinked-snoc b txs (links h o i more) high onto own =
      links h o i (IsLinked-snoc b txs more high onto own)

  -- A proposal's block lists the ids of the proposal's transactions.
  pub produce-ids :
      (borsh : State → Bytes) (seq : SingleSequencer) (mempool : List SignedTx) (s : State)
      (params : Params)
      → let proposal = produce p borsh seq mempool s params in
        proposal.block.txs ≡ map (tx_id p) proposal.txs
  unfolding produce
  produce-ids borsh seq mempool s params = order-ids p params mempool s
