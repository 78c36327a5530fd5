-- ===== src/Node/Commits.antt =====
-- The chain that a node keeps: its blocks, their transactions, the head and the saved state agree.
use ducp_node_rs.Common.{
  ℕ, zero, suc, ◌+◌, ◌<◌, ◌≤◌, ◌≡◌, refl, ap, sym, ◌∙◌, arith, List, [], ◌∷◌, ◌++◌, some, inl, inr,
  Bool-cases, ◌==◌,
}
use ducp_node_rs.Common.Lists.{length, get_elem?, length-snoc, get_elem?-snoc}
use ducp_node_rs.Common.Words.{u64_mod, add_u64}
use ducp_node_rs.Common.BTreeMap.{BTreeMap, insert}
use ducp_node_rs.Types.Bytes.{Bytes, TaskId, Identity, Ucu}
use ducp_node_rs.Types.Tx.{SignedTx, Block}
use ducp_node_rs.Types.Primitives.{block_hash, hash_bytes, tx_id}
use ducp_node_rs.Ledger.State.{State, state_root}
use ducp_node_rs.Ledger.Fraud.{resolve_challenge}
use ducp_node_rs.Consensus.{SingleSequencer, Proposal, adopt, seal_block, produce, sequencer}
use ducp_node_rs.Consensus
use ducp_node_rs.Consensus.Linked.{IsLinked, ends, IsLinked-snoc, produce-ids}
use mathlib.Core.List.{map}
use ducp_node_rs.Types.Reject.{Result-cases}
use ducp_node_rs.Node.{
  gather, rerun, NodeInner, Config, new_node, submit, adopt_proposal, commit_system,
  resolve_pending_challenge, commit_verdict, advance_epoch, put_blob,
}

-- The head of a chain of `n` blocks: none at genesis, and then the last block, which is the one
-- that the sequencer builds on and which commits to the state.
abbrev HeadOf : Config → NodeInner → ℕ → Type 0
HeadOf c inner zero = Unit {0}
HeadOf c inner (suc n) =
    (b : Block) × (get_elem? inner.blocks n ≡ some b)
    × (b.height ≡ suc n)
    × (b.state_root ≡ state_root c.primitives c.borsh_state inner.state)
    × (inner.sequencer.parent ≡ block_hash c.primitives b)

HeadOf-blobs :
    (c : Config) (inner : NodeInner) (blobs : BTreeMap Bytes) (n : ℕ)
    → HeadOf c inner n
    → HeadOf c (record inner { blobs = blobs }) n
HeadOf-blobs c inner blobs zero h = tt
HeadOf-blobs c inner blobs (suc n) h = h

pub record IsChained (c : Config) (inner : NodeInner) : Type 0 where
  pub height : inner.sequencer.height ≡ length inner.blocks
  pub linked :
      IsLinked c.primitives 0 0 inner.blocks inner.block_txs inner.sequencer.height
        inner.sequencer.parent
  pub saved : inner.saved ≡ inner.state
  pub idle : inner.mempool ≡ []
  pub head : HeadOf c inner (length inner.blocks)

module _ (c : Config) where
  -- A block of the sequencer's next height that commits to the new state extends the chain.
  extended-IsChained :
      (inner : NodeInner) (seq : SingleSequencer) (block : Block) (txs : List SignedTx) (s : State)
      → IsChained c inner
      → block.height ≡ suc (length inner.blocks)
      → block.parent ≡ inner.sequencer.parent
      → block.txs ≡ map (tx_id c.primitives) txs
      → block.state_root ≡ state_root c.primitives c.borsh_state s
      → IsChained c (record inner {
        sequencer = adopt c.primitives seq block;
        state = s;
        blocks = inner.blocks ++ block ∷ [];
        block_txs = inner.block_txs ++ txs ∷ [];
        saved = s;
      })
  unfolding adopt
  extended-IsChained inner seq block txs s i high onto own root = record {
    height = high ∙ sym (length-snoc inner.blocks block);
    linked = IsLinked-snoc c.primitives block txs i.linked (high ∙ ap suc (sym i.height)) onto own;
    saved = refl;
    idle = i.idle;
    head =
        rw (length-snoc inner.blocks block)
          (block, get_elem?-snoc inner.blocks block, high, root, refl);
  }

  system-IsChained :
      (inner : NodeInner) (seq : SingleSequencer) (s : State)
      → IsChained c inner
      → length inner.blocks + 1 < u64_mod
      → seq.height ≡ inner.sequencer.height
      → seq.parent ≡ inner.sequencer.parent
      → IsChained c (commit_system c inner seq s)
  unfolding commit_system seal_block
  system-IsChained inner seq s i fits same onto =
      extended-IsChained inner seq (seal_block c.primitives c.borsh_state seq s) [] s i
        (unfold add_u64 in omega (arith, i.height)) onto refl refl

  proposal-IsChained :
      (inner : NodeInner) (mempool : List SignedTx)
      → IsChained c inner
      → length inner.blocks + 1 < u64_mod
      → IsChained c (
          adopt_proposal c inner
            (produce c.primitives c.borsh_state inner.sequencer mempool inner.state c.params))
  unfolding adopt_proposal
  proposal-IsChained inner mempool i fits =
      let proposal =
        produce c.primitives c.borsh_state inner.sequencer mempool inner.state c.params in
      elim (Bool-cases (length proposal.block.txs == 0)) [
        | inl nothing ↦ rw nothing i
        | inr some_txs ↦ rw some_txs (
            extended-IsChained inner inner.sequencer proposal.block proposal.txs proposal.state i
              (unfold produce add_u64 in omega (arith, i.height)) (unfold produce in refl)
              (produce-ids c.primitives c.borsh_state inner.sequencer mempool inner.state c.params)
              (unfold produce in refl))
      ]

-- A new node's chain is in order: no blocks, height 0, and the genesis state saved.
new_node-IsChained :
    (c : Config) (proposer : Identity) (allocations : List (Identity × Ucu))
    → IsChained c (new_node proposer allocations)
unfolding new_node sequencer
new_node-IsChained c proposer allocations = record {
  height = refl;
  linked = ends;
  saved = refl;
  idle = refl;
  head = tt;
}

-- What may happen to a node.
pub data Operation : Type 0 where
  submits : SignedTx → Operation
  resolves : TaskId → Operation
  advances : Operation
  stores : Bytes → Operation

abbrev pub perform : Config → NodeInner → Operation → NodeInner
perform c inner (submits stx) = (submit c inner stx).0
perform c inner (resolves task) = (resolve_pending_challenge c inner task).0
perform c inner advances = advance_epoch c inner
perform c inner (stores bytes) = (put_blob c inner bytes).0

abbrev pub perform_all : Config → NodeInner → List Operation → NodeInner
perform_all c inner [] = inner
perform_all c inner (o ∷ rest) = perform_all c (perform c inner o) rest

perform-IsChained :
    (c : Config) (inner : NodeInner) (o : Operation)
    → IsChained c inner
    → length inner.blocks + 1 < u64_mod
    → IsChained c (perform c inner o)
perform-IsChained c inner (submits stx) i fits =
    let taken : IsChained c (record inner { mempool = [] }) = record {
      height = i.height;
      linked = i.linked;
      saved = i.saved;
      idle = refl;
      head = rw (← i.idle) i.head;
    } in
    unfold submit in
    proposal-IsChained c (record inner { mempool = [] }) (inner.mempool ++ stx ∷ []) taken fits
perform-IsChained c inner (resolves task) i fits = elim (Result-cases (gather c inner task)) [
  | inl ((body, proof, program, input), found) ↦
      let fraud = rerun c body proof program input in
      unfold resolve_pending_challenge commit_verdict in
      rw (found, perform)
        (system-IsChained c inner inner.sequencer
          (resolve_challenge inner.state task fraud c.params) i fits refl refl)
  | inr (e, missing) ↦ unfold resolve_pending_challenge in rw (missing, perform) i
]
perform-IsChained c inner advances i fits =
    unfold advance_epoch in
    system-IsChained c inner _ _ i fits (unfold Consensus.advance_epoch in refl)
      (unfold Consensus.advance_epoch in refl)
perform-IsChained c inner (stores bytes) i fits =
    let stored = insert (hash_bytes c.primitives bytes) bytes inner.blobs in
    unfold put_blob in
    record {
      height = i.height;
      linked = i.linked;
      saved = i.saved;
      idle = i.idle;
      head = HeadOf-blobs c inner stored (length inner.blocks) i.head;
    }

perform-length :
    (c : Config) (inner : NodeInner) (o : Operation)
    → length (perform c inner o).blocks ≤ length inner.blocks + 1
unfolding submit adopt_proposal resolve_pending_challenge commit_verdict commit_system advance_epoch
    put_blob
perform-length c inner (submits stx) =
    let proposal =
      produce c.primitives c.borsh_state inner.sequencer (inner.mempool ++ stx ∷ []) inner.state
        c.params in
    ground (arith, length-snoc inner.blocks proposal.block)
perform-length c inner (resolves task) = elim (Result-cases (gather c inner task)) [
  | inl ((body, proof, program, input), found) ↦
      let fraud = rerun c body proof program input in
      let resolved = resolve_challenge inner.state task fraud c.params in
      let block = seal_block c.primitives c.borsh_state inner.sequencer resolved in
      rw (found, perform) (omega (arith, length-snoc inner.blocks block))
  | inr (e, missing) ↦ rw (missing, perform) (omega arith)
]
perform-length c inner advances = omega (arith, length-snoc inner.blocks _)
perform-length c inner (stores bytes) = omega arith

perform_all-IsChained :
    (c : Config) (inner : NodeInner) (operations : List Operation)
    → IsChained c inner
    → length inner.blocks + length operations + 1 < u64_mod
    → IsChained c (perform_all c inner operations)
perform_all-IsChained c inner [] i fits = i
perform_all-IsChained c inner (o ∷ rest) i fits =
    perform_all-IsChained c (perform c inner o) rest
      (perform-IsChained c inner o i (omega (arith, fits)))
      (omega (arith, fits, perform-length c inner o))

-- Whatever a new node is asked to do, fewer than 2 ^ 64 - 1 times, its chain stays in order: the height
-- is the number of its blocks; from genesis on each block is one higher than the last, names its hash
-- as the parent, and lists the ids of the transactions kept for it; the storage holds the state;
-- nothing waits in the mempool; and the block at the head has that height, commits to the state, and is
-- the parent that the sequencer builds on.
pub performed-IsChained :
    (c : Config) (proposer : Identity) (allocations : List (Identity × Ucu))
    (operations : List Operation)
    → length operations + 1 < u64_mod
    → IsChained c (perform_all c (new_node proposer allocations) operations)
performed-IsChained c proposer allocations operations fits =
    perform_all-IsChained c (new_node proposer allocations) operations
      (new_node-IsChained c proposer allocations) (unfold new_node in omega arith)
