-- ===== src/Consensus.antt =====
-- The sequencer and its replicas, crates/consensus/src/lib.rs.
pub mod Ordered
pub mod Replicas
pub mod Valid
pub mod Sealed
pub mod Produced
pub mod Linked
use ducp_node_rs.Common.{
  ℕ, Bool, true, false, not, Option, none, some, List, [], ◌∷◌, ◌==◌, ◌+◌, if◌then◌else◌,
}
use ducp_node_rs.Common.Lists.{length}
use ducp_node_rs.Common.Words.{add_u64}
use ducp_node_rs.Types.Bytes.{Hash, Identity, TxId, Epoch, Bytes}
use ducp_node_rs.Types.Reject.{Reject, Result, ok, err, invalid, ◌>>=◌, ◌>>◌, reject_if}
use ducp_node_rs.Types.Tx.{SignedTx, Block}
use ducp_node_rs.Types.Primitives.{Primitives, tx_id, block_hash}
use ducp_node_rs.Governance.{Params}
use ducp_node_rs.Ledger.State.{State, state_root}
use ducp_node_rs.Ledger.Apply.{apply}
use ducp_node_rs.Ledger.Epoch

pub record TxResult : Type 0 where
  pub tx_id : TxId
  pub accepted : Bool
  pub reject : Option Reject

pub record Proposal : Type 0 where
  pub block : Block
  pub txs : List SignedTx
  pub state : State
  pub results : List TxResult

pub record SingleSequencer : Type 0 where
  pub proposer : Identity
  pub height : ℕ
  pub parent : Hash
  pub epoch : Epoch

-- `SingleSequencer::new`
unfoldable pub sequencer : Identity → SingleSequencer
sequencer proposer = record { proposer = proposer; height = 0; parent = 0; epoch = 0 }

unfoldable pub adopt : Primitives → SingleSequencer → Block → SingleSequencer
adopt p seq block = record seq {
  height = block.height;
  parent = block_hash p block;
  epoch = block.epoch;
}

unfoldable pub seal_block : Primitives → (State → Bytes) → SingleSequencer → State → Block
seal_block p borsh seq post_state = record {
  height = add_u64 seq.height 1;
  parent = seq.parent;
  epoch = seq.epoch;
  txs = [];
  state_root = state_root p borsh post_state;
  proposer = seq.proposer;
}

-- The sequencer at the new epoch, and the state there.
unfoldable pub advance_epoch : SingleSequencer → State → Params → SingleSequencer × State
advance_epoch seq state params =
    let s = Epoch.advance_epoch state params in (record seq { epoch = s.epoch }, s)

-- What the loop of `produce` has at its end: the state and the vectors it pushed to.
pub record Round : Type 0 where
  pub state : State
  pub accepted_ids : List TxId
  pub accepted_txs : List SignedTx
  pub results : List TxResult

-- One round of the loop, in front of the rounds that follow it.
abbrev accept_tx : TxId → SignedTx → Round → Round
accept_tx id tx rest = record rest {
  accepted_ids = id ∷ rest.accepted_ids;
  accepted_txs = tx ∷ rest.accepted_txs;
  results = record { tx_id = id; accepted = true; reject = none } ∷ rest.results;
}

abbrev refuse_tx : TxId → Reject → Round → Round
refuse_tx id e rest = record rest {
  results = record { tx_id = id; accepted = false; reject = some e } ∷ rest.results;
}

unfoldable pub order : Primitives → Params → List SignedTx → State → Round
order p params [] s = record { state = s; accepted_ids = []; accepted_txs = []; results = [] }
order p params (tx ∷ mempool) s = elim (apply p s tx params) [
  | ok ns ↦ accept_tx (tx_id p tx) tx (order p params mempool ns)
  | err e ↦ refuse_tx (tx_id p tx) e (order p params mempool s)
]

unfoldable pub produce :
    Primitives → (State → Bytes) → SingleSequencer → List SignedTx → State → Params → Proposal
produce p borsh seq mempool state params =
    let round = order p params mempool state in
    record {
      block = record {
        height = add_u64 seq.height 1;
        parent = seq.parent;
        epoch = seq.epoch;
        txs = round.accepted_ids;
        state_root = state_root p borsh round.state;
        proposer = seq.proposer;
      };
      txs = round.accepted_txs;
      state = round.state;
      results = round.results;
    }

-- The loop of `commit` over the transactions zipped with the block's ids.
unfoldable pub replay : Primitives → Params → List SignedTx → List TxId → State → Result State
replay p params (tx ∷ txs) (expected_id ∷ ids) s = do
  reject_if (not (tx_id p tx == expected_id)) invalid
  ns ← apply p s tx params
  replay p params txs ids ns
replay p params txs ids s = ok s

unfoldable pub commit :
    Primitives
    → (State → Bytes)
    → SingleSequencer
    → Block
    → List SignedTx
    → State
    → Params
    → Result State
commit p borsh seq block txs state params = do
  reject_if (not (length txs == length block.txs)) invalid
  s ← replay p params txs block.txs state
  reject_if (not (state_root p borsh s == block.state_root)) invalid
  ok s
