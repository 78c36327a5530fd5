-- ===== src/Consensus/Valid.antt =====
-- What `commit` accepts: an independent description of a valid block, and that they agree.
use ducp_node_rs.Common.{suc, ◌≡◌, refl, ap, arith, List, [], ◌∷◌, ==_self, ==_iff}
use ducp_node_rs.Common.Lists.{length}
use mathlib.Core.List.{map}
use mathlib.Core.Logic.{◌↔◌}
use ducp_node_rs.Types.Bytes.{TxId, Bytes}
use ducp_node_rs.Types.Reject.{ok}
use ducp_node_rs.Types.Tx.{SignedTx, Block}
use ducp_node_rs.Types.Primitives.{Primitives, tx_id}
use ducp_node_rs.Governance.{Params}
use ducp_node_rs.Ledger.State.{State, state_root}
use ducp_node_rs.Ledger.Apply.{apply}
use ducp_node_rs.Consensus.{SingleSequencer, replay, commit}

-- A run of accepted transactions from one state to another.
pub data Applied (p : Primitives) (params : Params) : State → List SignedTx → State → Type 0 where
  stop : {s : State} → Applied p params s [] s
  more :
      {s ns t : State} {tx : SignedTx} {txs : List SignedTx}
      → apply p s tx params ≡ ok ns
      → Applied p params ns txs t
      → Applied p params s (tx ∷ txs) t

pub record Commits (p : Primitives) (borsh : State → Bytes) (params : Params) (block : Block)
    (txs : List SignedTx) (s t : State) : Type 0 where
  pub same_ids : map (tx_id p) txs ≡ block.txs
  pub applied : Applied p params s txs t
  pub same_root : state_root p borsh t ≡ block.state_root

module _ (p : Primitives) (params : Params) where
  replay_step :
      (tx : SignedTx) (txs : List SignedTx) (id : TxId) (ids : List TxId) (s t : State)
      → replay p params (tx ∷ txs) (id ∷ ids) s ≡ ok t
      → (tx_id p tx ≡ id)
        × (ns : State) × (apply p s tx params ≡ ok ns)
        × (replay p params txs ids ns ≡ ok t)
  unfolding replay
  replay_step tx txs id ids s t h = ground (arith, ==_iff (tx_id p tx) id)

  replay_sound :
      (txs : List SignedTx) (ids : List TxId) (s t : State)
      → length txs ≡ length ids
      → replay p params txs ids s ≡ ok t
      → (map (tx_id p) txs ≡ ids) × Applied p params s txs t
  replay_sound [] [] s t same h = let e : s ≡ t = unfold replay in ground arith in (refl, rw e stop)
  replay_sound [] (id ∷ ids) s t same h = absurd (omega (arith, same))
  replay_sound (tx ∷ txs) [] s t same h = absurd (omega (arith, same))
  replay_sound (tx ∷ txs) (id ∷ ids) s t same h =
      let (named, ns, accepted, rest) = replay_step tx txs id ids s t h in
      let (same_ids, applied) = replay_sound txs ids ns t (omega (arith, same)) rest in
      (rw (named, same_ids) refl, more accepted applied)

  replay_complete :
      (txs : List SignedTx) (s t : State)
      → Applied p params s txs t
      → replay p params txs (map (tx_id p) txs) s ≡ ok t
  unfolding replay
  replay_complete [] s t stop = refl
  replay_complete (tx ∷ txs) s t (more accepted applied) =
      rw (==_self (tx_id p tx), accepted) (replay_complete txs _ t applied)

length-map : {A B : Type 0} (f : A → B) (xs : List A) → length (map f xs) ≡ length xs
length-map f [] = refl
length-map f (x ∷ xs) = ap suc (length-map f xs)

module _ (p : Primitives) (borsh : State → Bytes) (seq : SingleSequencer) (block : Block)
    (txs : List SignedTx) (s t : State) (params : Params) where
  commit_guards :
      commit p borsh seq block txs s params ≡ ok t
      → (length txs ≡ length block.txs)
        × (replay p params txs block.txs s ≡ ok t)
        × (state_root p borsh t ≡ block.state_root)
  unfolding commit
  commit_guards h = ground arith

  commit_sound : commit p borsh seq block txs s params ≡ ok t → Commits p borsh params block txs s t
  commit_sound h =
      let (same, replayed, root) = commit_guards h in
      let (ids, applied) = replay_sound p params txs block.txs s t same replayed in
      record { same_ids = ids; applied = applied; same_root = root }

  commit_complete :
      Commits p borsh params block txs s t → commit p borsh seq block txs s params ≡ ok t
  unfolding commit
  commit_complete c =
      rw
        (
          ← c.same_ids,
          length-map (tx_id p) txs,
          ==_self (length txs),
          replay_complete p params txs s t c.applied,
          c.same_root,
          ==_self block.state_root,
        )
        refl

-- `commit` answers `t` exactly for the blocks whose ids are those of the transactions, in order,
-- whose transactions are each accepted in turn from `s` to `t`, and whose root is the root of `t`.
pub commit_iff :
    (p : Primitives) (borsh : State → Bytes) (seq : SingleSequencer) (block : Block)
    (txs : List SignedTx) (s t : State) (params : Params)
    → commit p borsh seq block txs s params ≡ ok t ↔ Commits p borsh params block txs s t
commit_iff p borsh seq block txs s t params = (
  commit_sound p borsh seq block txs s t params,
  commit_complete p borsh seq block txs s t params,
)
