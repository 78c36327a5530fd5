-- ===== src/Node.antt =====
-- A node, ducp-node/src/lib.rs: its state behind the mutex, and the operations on it. Each
-- operation takes the lock for its whole body, except `resolve_pending_challenge`, which lets go of
-- it while the machine runs again: its two halves are `gather` and `commit_verdict`.
pub mod Replies
pub mod Stuck
pub mod Commits
pub mod Rpc
pub mod Program
use ducp_node_rs.Common.{
  ℕ, zero, suc, ◌+◌, ◌-◌, ◌%◌, Bool, true, false, not, Option, none, some, List, [], ◌∷◌, ◌++◌,
  ◌==◌, if◌then◌else◌,
}
use ducp_node_rs.Common.Int.{ℤ, negsuc}
use ducp_node_rs.Common.Lists.{length, get_elem?}
use ducp_node_rs.Common.BTreeMap.{BTreeMap, get, insert, unwrap_or}
use mathlib.Core.Option
use ducp_node_rs.Types.Bytes.{Bytes, ContentId, Identity, TaskId, TxId, Ucu}
use ducp_node_rs.Types.Reject.{
  Reject, Result, ok, err, bad_signature, bad_nonce, unknown_account, unknown_task,
  insufficient_balance, bad_status, deadline_passed, already_claimed, wrong_provider,
  ucu_exceeds_limit, benchmark_mismatch, not_in_clawback_window, bond_too_small,
  unsupported_feature, conservation_violated, invalid, ◌>>=◌, ok_or,
}
use ducp_node_rs.Types.Task.{TaskBody}
use ducp_node_rs.Types.Quant.{QLedgerEntry}
use ducp_node_rs.Types.Records.{Account, new_account, Receipt, ComputeProof, Submission, Sp}
use ducp_node_rs.Types.Tx.{SignedTx, Block}
use ducp_node_rs.Types.Primitives.{Primitives, tx_id, content_id}
use ducp_node_rs.Governance.{Params, devnet}
use ducp_node_rs.Ledger.State.{State, genesis}
use ducp_node_rs.Ledger.Fraud.{resolve_challenge}
use ducp_node_rs.Dvm.{Benchmark, Wasmtime, execute, meter}
use ducp_node_rs.Verification.{check, is_fraud, VerifyOutcome}
use ducp_node_rs.Consensus.{
  SingleSequencer, Proposal, TxResult, sequencer, produce, adopt, seal_block,
}
use ducp_node_rs.Consensus

pub record NodeInner : Type 0 where
  pub state : State
  pub sequencer : SingleSequencer
  pub mempool : List SignedTx
  pub blobs : BTreeMap Bytes
  pub blocks : List Block
  pub block_txs : List (List SignedTx)
  -- what the storage was last told to save
  pub saved : State

-- The configuration of a node and the packages that it calls.
pub record Config : Type 0 where
  pub primitives : Primitives
  pub borsh_state : State → Bytes
  pub wasmtime : Wasmtime
  pub params : Params
  pub benchmark : Benchmark

-- `NodeHandle::with_storage`
unfoldable pub new_node : Identity → List (Identity × Ucu) → NodeInner
new_node proposer allocations =
    let state = genesis allocations 0 in
    record {
      state = state;
      sequencer = sequencer proposer;
      mempool = [];
      blobs = [];
      blocks = [];
      block_txs = [];
      saved = state;
    }

-- `results.iter().find(|r| r.tx_id == txid)`
unfoldable pub find_result : TxId → List TxResult → Option TxResult
find_result id [] = none
find_result id (r ∷ results) =
    let rest = find_result id results in if r.tx_id == id then some r else rest

-- The reply to a submission, from its outcome.
unfoldable pub reply_of : TxId → Option TxResult → Result TxId
reply_of id none = err invalid
reply_of id (some r) = if r.accepted then ok id else err (unwrap_or r.reject invalid)

module _ (c : Config) where
  -- A proposal with transactions becomes the head.
  unfoldable pub adopt_proposal : NodeInner → Proposal → NodeInner
  adopt_proposal inner proposal = if length proposal.block.txs == 0 then inner else record inner {
    sequencer = adopt c.primitives inner.sequencer proposal.block;
    state = proposal.state;
    blocks = inner.blocks ++ proposal.block ∷ [];
    block_txs = inner.block_txs ++ proposal.txs ∷ [];
    saved = proposal.state;
  }

  unfoldable pub submit : NodeInner → SignedTx → NodeInner × Result TxId
  unfolding adopt_proposal find_result reply_of
  submit inner stx =
      let id = tx_id c.primitives stx in
      let mempool = inner.mempool ++ stx ∷ [] in
      let proposal =
        produce c.primitives c.borsh_state inner.sequencer mempool inner.state c.params in
      (
        adopt_proposal (record inner { mempool = [] }) proposal,
        reply_of id (find_result id proposal.results),
      )

  -- A state of the system's own making becomes the head, in a block without transactions.
  unfoldable pub commit_system : NodeInner → SingleSequencer → State → NodeInner
  commit_system inner seq new_state =
      let block = seal_block c.primitives c.borsh_state seq new_state in
      record inner {
        sequencer = adopt c.primitives seq block;
        state = new_state;
        blocks = inner.blocks ++ block ∷ [];
        block_txs = inner.block_txs ++ [] ∷ [];
        saved = new_state;
      }

  -- What the re-execution of a challenged task needs.
  unfoldable pub gather : NodeInner → TaskId → Result (TaskBody × ComputeProof × Bytes × Bytes)
  gather inner task = do
    body ← ok_or (get task inner.state.bodies) unknown_task
    proof ← ok_or (get task inner.state.proofs) unknown_task
    program ← ok_or (get body.program inner.blobs) unknown_task
    input ← ok_or (get body.input inner.blobs) unknown_task
    ok (body, proof, program, input)

  unfoldable pub rerun : TaskBody → ComputeProof → Bytes → Bytes → Bool
  rerun body proof program input =
      is_fraud (check proof program input body.limits c.benchmark (execute c.wasmtime c.primitives))

  unfoldable pub commit_verdict : NodeInner → TaskId → Bool → NodeInner
  unfolding commit_system
  commit_verdict inner task fraud =
      commit_system inner inner.sequencer (resolve_challenge inner.state task fraud c.params)

  -- `resolve_pending_challenge`, when nothing happens between its two locks.
  unfoldable pub resolve_pending_challenge : NodeInner → TaskId → NodeInner × Result Bool
  unfolding gather rerun commit_verdict
  resolve_pending_challenge inner task = elim (gather inner task) [
    | err e ↦ (inner, err e)
    | ok (body, proof, program, input) ↦
        let fraud = rerun body proof program input in (commit_verdict inner task fraud, ok fraud)
  ]

  unfoldable pub advance_epoch : NodeInner → NodeInner
  unfolding commit_system
  advance_epoch inner =
      let (seq, new_state) = Consensus.advance_epoch inner.sequencer inner.state c.params in
      commit_system inner seq new_state

  unfoldable pub put_blob : NodeInner → Bytes → NodeInner × ContentId
  put_blob inner bytes =
      let id = content_id c.primitives bytes in
      (record inner { blobs = insert id bytes inner.blobs }, id)

-- `block_at`; `block_txs_at` reads the other list in the same way.
unfoldable pub block_at : NodeInner → ℕ → Option Block
block_at inner zero = none
block_at inner (suc n) = get_elem? inner.blocks n

unfoldable pub block_txs_at : NodeInner → ℕ → Option (List SignedTx)
block_txs_at inner zero = none
block_txs_at inner (suc n) = get_elem? inner.block_txs n

unfoldable pub get_blob : NodeInner → ContentId → Option Bytes
get_blob inner id = get id inner.blobs

unfoldable pub account_of : NodeInner → Identity → Account
account_of inner id = unwrap_or (get id inner.state.accounts) (new_account id)

unfoldable pub q_entry : NodeInner → TaskId → Option QLedgerEntry
q_entry inner task = get task inner.state.q_ledger

unfoldable pub task_claim_stake : NodeInner → TaskId → Option Ucu
task_claim_stake inner task = Option.map (λ sub. sub.claim_stake) (get task inner.state.tasks)

pub data EstimateError : Type 0 where
  missing_program missing_input : EstimateError

pub data Estimate : Type 0 where
  metered : Ucu → Estimate
  refused : EstimateError → Estimate

unfoldable pub estimate : Config → NodeInner → ContentId → ContentId → Estimate
estimate c inner program input = elim (get program inner.blobs) [
  | none ↦ refused missing_program
  | some prog ↦ elim (get input inner.blobs) [
    | none ↦ refused missing_input
    | some inp ↦ metered (meter c.wasmtime prog inp c.benchmark)
  ]
]

-- The place of a reason below the base of the error codes.
unfoldable pub code_offset : Reject → ℕ
code_offset bad_signature = 1
code_offset bad_nonce = 2
code_offset unknown_account = 3
code_offset unknown_task = 4
code_offset insufficient_balance = 5
code_offset bad_status = 6
code_offset deadline_passed = 7
code_offset already_claimed = 8
code_offset wrong_provider = 9
code_offset ucu_exceeds_limit = 10
code_offset benchmark_mismatch = 11
code_offset not_in_clawback_window = 12
code_offset bond_too_small = 13
code_offset unsupported_feature = 14
code_offset conservation_violated = 15
code_offset invalid = 16

-- `ERR_BASE - offset`, where ERR_BASE is -32000.
unfoldable pub reject_code : Reject → ℤ
unfolding code_offset
reject_code r = negsuc (31_999 + code_offset r)
