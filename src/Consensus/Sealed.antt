-- ===== src/Consensus/Sealed.antt =====
-- Blocks that seal a transition of the system, seen by a replica.
use ducp_node_rs.Common.{◌≡◌, arith, ◌==◌, [], if◌then◌else◌}
use ducp_node_rs.Types.Bytes.{Bytes}
use ducp_node_rs.Types.Reject.{ok, err, invalid}
use ducp_node_rs.Types.Primitives.{Primitives}
use ducp_node_rs.Governance.{Params}
use ducp_node_rs.Ledger.State.{State, state_root}
use ducp_node_rs.Consensus.{SingleSequencer, seal_block, replay, commit}

-- A replica that commits a sealed block, which has no transactions, never takes over the sealed
-- state: it keeps its own state when the two roots are the same, and answers `Invalid` otherwise.
commit-seal_block :
    (p : Primitives) (borsh : State → Bytes) (leader replica : SingleSequencer)
    (post_state s : State) (params : Params)
    → commit p borsh replica (seal_block p borsh leader post_state) [] s params
      ≡ (if state_root p borsh s == state_root p borsh post_state then ok s else err invalid)
unfolding commit seal_block replay
commit-seal_block p borsh leader replica post_state s params = ground arith
