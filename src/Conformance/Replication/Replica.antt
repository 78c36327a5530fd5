-- ===== src/Conformance/Replication/Replica.antt =====
-- The replica follows the producer.
use ducp_node_rs.Common.{
  suc, ◌≡◌, refl, ap, true, some, List, [], ◌∷◌, inl, inr, Bool-cases, ◌==◌, ==_self,
}
use ducp_node_rs.Common.Lists.{length}
use ducp_node_rs.Types.Bytes.{Bytes, filled}
use ducp_node_rs.Types.Text.{Text, Hex}
use ducp_node_rs.Types.Tx.{SignedTx}
use ducp_node_rs.Types.Primitives.{Primitives, identity}
use ducp_node_rs.Governance.{devnet}
use ducp_node_rs.Ledger.State.{State, state_root}
use ducp_node_rs.Consensus.{SingleSequencer, sequencer, produce, adopt}
use ducp_node_rs.Consensus.Replicas.{commit-produce}
use ducp_node_rs.Conformance.Settlement.{two_accounts, root_text}
use ducp_node_rs.Conformance.Replication.{
  Blocks, ReplicationRecord, produce_all, replay_all, replication_record, scenario_txs,
}

module _ (p : Primitives) (borsh : State → Bytes) (h : Hex) where
  -- Each block is committed, and the states at the end are the same.
  abbrev pub Follows : SingleSequencer → State → Blocks × State → Type 0
  Follows seq s (blocks, end) =
      (roots : List Text) × (replay_all p borsh h seq s blocks ≡ some (roots, end))
      × (length roots ≡ length blocks)

  replay_all-produce_all :
      (seq : SingleSequencer) (s : State) (txs : List SignedTx)
      → Follows seq s (produce_all p borsh seq s txs)
  unfolding produce_all replay_all
  replay_all-produce_all seq s [] = ([], unfold replay_all in refl, refl)
  replay_all-produce_all seq s (tx ∷ txs) =
      let proposal = produce p borsh seq (tx ∷ []) s devnet in
      elim (Bool-cases (length proposal.block.txs == 0)) [
        | inl empty ↦
            let (roots, replayed, same) = replay_all-produce_all seq s txs in
            rw (empty, produce_all) (roots, replayed, same)
        | inr filled' ↦
            let (roots, replayed, same) =
              replay_all-produce_all (adopt p seq proposal.block) proposal.state txs in
            rw (filled', produce_all)
              (
                root_text p borsh h proposal.state ∷ roots,
                rw (replay_all, commit-produce p borsh seq seq (tx ∷ []) s devnet, replayed) refl,
                ap suc same,
              )
      ]

-- The replication vector is made, whatever the transactions come to: every block of the producer is
-- committed by the replica, and the roots at the end match.
pub replication_follows :
    (p : Primitives) (borsh : State → Bytes) (h : Hex)
    → (r : ReplicationRecord) × (replication_record p borsh h ≡ some r)
      × (r.replica_matches ≡ true)
      × (length r.block_state_roots ≡ r.blocks)
      × (r.blocks
          ≡ length
              (produce_all p borsh
                (sequencer (identity p (filled 32 0)))
                (two_accounts p)
                (scenario_txs p)).0)
unfolding replication_record scenario_txs
replication_follows p borsh h =
    let seq = sequencer (identity p (filled 32 0)) in
    let (blocks, end) = produce_all p borsh seq (two_accounts p) (scenario_txs p) in
    let (roots, replayed, same) =
      replay_all-produce_all p borsh h seq (two_accounts p) (scenario_txs p) in
    (
      record {
        blocks = length blocks;
        block_state_roots = roots;
        final_state_root = root_text p borsh h end;
        replica_matches = state_root p borsh end == state_root p borsh end;
      },
      rw replayed refl,
      ==_self (state_root p borsh end),
      same,
      refl,
    )
