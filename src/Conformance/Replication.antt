-- ===== src/Conformance/Replication.antt =====
-- The replication vector: a producer makes one block of each transaction, and a replica commits the
-- blocks from the same genesis.
pub mod Replica
pub mod Full
use ducp_node_rs.Common.{ℕ, ◌*◌, ◌^◌, Bool, Option, none, some, List, [], ◌∷◌, ◌==◌, if◌then◌else◌}
use ducp_node_rs.Common.Lists.{length}
use ducp_node_rs.Types.Bytes.{Bytes, Hash, ucu_scale, filled, be_bytes}
use ducp_node_rs.Types.Text.{Text, Hex, codes}
use ducp_node_rs.Types.Tx
use ducp_node_rs.Types.Tx.{SignedTx, Block}
use ducp_node_rs.Types.Primitives.{Primitives, task_id, sign, identity}
use ducp_node_rs.Governance.{devnet}
use ducp_node_rs.Ledger.State.{State, state_root}
use ducp_node_rs.Consensus.{SingleSequencer, sequencer, produce, adopt, commit}
use ducp_node_rs.Conformance.{◌>>=◌, unwrap, seed_1, seed_2}
use ducp_node_rs.Conformance.Settlement.{two_accounts, happy_body, happy_proof, root_text}

pub record ReplicationRecord : Type 0 where
  pub blocks : ℕ
  pub block_state_roots : List Text
  pub final_state_root : Text
  pub replica_matches : Bool

abbrev pub Blocks : Type 0
Blocks = List (Block × List SignedTx)

unfoldable pub scenario_txs : Primitives → List SignedTx
scenario_txs p =
    sign p seed_1 (Tx.submit_task (happy_body p)) 0
    ∷ sign p seed_2 (Tx.claim_task (task_id p (happy_body p))) 0
    ∷ sign p seed_2 (Tx.submit_proof (happy_proof p (codes "out"))) 1
    ∷ sign p seed_2 (Tx.transfer (identity p seed_1) ucu_scale) 2
    ∷ []

module _ (p : Primitives) (borsh : State → Bytes) where
  -- The producer's loop: the blocks, and the state at the end.
  unfoldable pub produce_all : SingleSequencer → State → List SignedTx → Blocks × State
  produce_all seq s [] = ([], s)
  produce_all seq s (tx ∷ txs) =
      let proposal = produce p borsh seq (tx ∷ []) s devnet in
      let skipped = produce_all seq s txs in
      let (blocks, end) = produce_all (adopt p seq proposal.block) proposal.state txs in
      if length proposal.block.txs == 0
      then skipped
      else ((proposal.block, proposal.txs) ∷ blocks, end)

  -- The replica's loop: the roots after each block, and the state at the end.
  unfoldable pub replay_all : Hex → SingleSequencer → State → Blocks → Option (List Text × State)
  replay_all h seq s [] = some ([], s)
  replay_all h seq s ((block, btxs) ∷ blocks) = do
    next ← unwrap (commit p borsh seq block btxs s devnet)
    (roots, end) ← replay_all h (adopt p seq block) next blocks
    some (root_text p borsh h next ∷ roots, end)

  unfoldable pub replication_record : Hex → Option ReplicationRecord
  unfolding produce_all replay_all scenario_txs
  replication_record h =
      let proposer = sequencer (identity p (filled 32 0)) in
      let (blocks, prod_state) = produce_all proposer (two_accounts p) (scenario_txs p) in
      do
        (roots, rep_state) ← replay_all h proposer (two_accounts p) blocks
        some (record {
          blocks = length blocks;
          block_state_roots = roots;
          final_state_root = root_text p borsh h prod_state;
          replica_matches = state_root p borsh rep_state == state_root p borsh prod_state;
        })
