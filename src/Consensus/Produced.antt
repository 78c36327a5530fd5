-- ===== src/Consensus/Produced.antt =====
-- What `produce` answers: a verdict for every transaction of the mempool, and a state that the
-- ledger reaches by the accepted ones.
use ducp_node_rs.Common.{◌≤◌, ℕ, ◌+◌, ◌<◌, ◌≡◌, refl, ap, arith, List, [], ◌∷◌, true, if◌then◌else◌}
use mathlib.Core.List.{map}
use ducp_node_rs.Common.Words.{u128_mod}
use ducp_node_rs.Types.Bytes.{TxId, Bytes}
use ducp_node_rs.Types.Tx.{SignedTx}
use ducp_node_rs.Types.Primitives.{Primitives, tx_id}
use ducp_node_rs.Governance.{Params}
use ducp_node_rs.Ledger.State.{State, check_conservation}
use ducp_node_rs.Ledger.Supply.{apply-Mints}
use ducp_node_rs.Ledger.Consistent.{IsConsistent, minted_by}
use ducp_node_rs.Ledger.Conservation.Check.{check_conservation-IsConserved}
use ducp_node_rs.Ledger.Reach.{
  Step, applies, Reach, here, next, Reach-IsConsistent, issued, total_issued,
}
use ducp_node_rs.Consensus.{SingleSequencer, TxResult, order, produce}
use ducp_node_rs.Consensus.Valid.{Applied, stop, more}
use ducp_node_rs.Consensus.Ordered.{order_cases}

-- The ids that the verdicts name as accepted.
abbrev pub accepted_of : List TxResult → List TxId
accepted_of [] = []
accepted_of (r ∷ results) =
    let rest = accepted_of results in if r.accepted then r.tx_id ∷ rest else rest

-- The most that the transactions of a mempool can mint.
abbrev pub mintable : Params → List SignedTx → ℕ
mintable params [] = 0
mintable params (stx ∷ mempool) = minted_by params stx.tx + mintable params mempool

-- The first list is made of some items of the second, in their order.
pub data Picks {ℓ} {A : Type ℓ} : List A → List A → Type ℓ where
  none_left : Picks [] []
  picks : {a : A} {xs ys : List A} → Picks xs ys → Picks (a ∷ xs) (a ∷ ys)
  skips : {a : A} {xs ys : List A} → Picks xs ys → Picks xs (a ∷ ys)

Step-Reach :
    {p : Primitives} {params : Params} {s t u : State}
    → Step p params s t
    → Reach p params t u
    → Reach p params s u
Step-Reach step here = next here step
Step-Reach step (next r last) = next (Step-Reach step r) last

total_issued-Step-Reach :
    {p : Primitives} {params : Params} {s t u : State} (step : Step p params s t)
    (r : Reach p params t u)
    → total_issued (Step-Reach step r) ≡ issued step + total_issued r
unfolding Step-Reach
total_issued-Step-Reach step here = omega arith
total_issued-Step-Reach step (next r last) = omega (arith, total_issued-Step-Reach step r)

module _ (p : Primitives) (params : Params) where
  order-results :
      (mempool : List SignedTx) (s : State)
      → let round = order p params mempool s in
        (map (λ r. r.tx_id) round.results ≡ map (tx_id p) mempool)
        × (accepted_of round.results ≡ round.accepted_ids)
  order-results [] s = unfold order in (refl, refl)
  order-results (tx ∷ mempool) s =
      order_cases
        (λ r.
          (map (λ x. x.tx_id) r.results ≡ map (tx_id p) (tx ∷ mempool))
          × (accepted_of r.results ≡ r.accepted_ids))
        p params tx mempool s
        (λ ns h.
          let (all, chosen) = order-results mempool ns in
          (ap (λ ids. tx_id p tx ∷ ids) all, ap (λ ids. tx_id p tx ∷ ids) chosen))
        (λ e h.
          let (all, chosen) = order-results mempool s in (ap (λ ids. tx_id p tx ∷ ids) all, chosen))

  order-Reach :
      (mempool : List SignedTx) (s : State)
      → s.supply.minted + mintable params mempool < u128_mod
      → (r : Reach p params s (order p params mempool s).state) × (total_issued r
          ≤ mintable params mempool)
  order-Reach [] s fits = unfold order in (here, omega arith)
  order-Reach (tx ∷ mempool) s fits =
      order_cases
        (λ r. (h : Reach p params s r.state) × (total_issued h ≤ mintable params (tx ∷ mempool))) p
        params tx mempool s
        (λ ns h.
          let small : s.supply.minted + minted_by params tx.tx < u128_mod = omega arith in
          let minted = (apply-Mints p s ns tx params small h).0 in
          let (r, within) = order-Reach mempool ns (omega (arith, minted)) in
          (
            Step-Reach (applies tx h) r,
            omega (arith, within, total_issued-Step-Reach (applies tx h) r),
          ))
        (λ e h. let (r, within) = order-Reach mempool s (omega arith) in (r, omega (arith, within)))

  order-Applied :
      (mempool : List SignedTx) (s : State)
      → let round = order p params mempool s in
        Picks round.accepted_txs mempool × Applied p params s round.accepted_txs round.state
  order-Applied [] s = unfold order in (none_left, stop)
  order-Applied (tx ∷ mempool) s =
      order_cases
        (λ r. Picks r.accepted_txs (tx ∷ mempool) × Applied p params s r.accepted_txs r.state) p
        params tx mempool s
        (λ ns h. let (picked, applied) = order-Applied mempool ns in (picks picked, more h applied))
        (λ e h. let (picked, applied) = order-Applied mempool s in (skips picked, applied))

-- `produce` gives one verdict for each transaction of the mempool, in the order of arrival, and the
-- block lists exactly the ids of the accepted ones, in that order.
pub produce_results :
    (p : Primitives) (borsh : State → Bytes) (seq : SingleSequencer) (mempool : List SignedTx)
    (s : State) (params : Params)
    → let proposal = produce p borsh seq mempool s params in
      (map (λ r. r.tx_id) proposal.results ≡ map (tx_id p) mempool)
      × (accepted_of proposal.results ≡ proposal.block.txs)
unfolding produce
produce_results p borsh seq mempool s params = order-results p params mempool s

-- From a consistent ledger whose supply has room for all that the mempool can mint, the transactions
-- of the proposal are some of the mempool's, in the order of arrival; the ledger accepts them one
-- after the other, and nothing else happens on the way to the proposal's state; and that state
-- passes `check_conservation`.
pub produce_conserves :
    (p : Primitives) (borsh : State → Bytes) (seq : SingleSequencer) (mempool : List SignedTx)
    (s : State) (params : Params)
    → IsConsistent s
    → s.supply.minted + mintable params mempool < u128_mod
    → let proposal = produce p borsh seq mempool s params in
      Picks proposal.txs mempool
      × Applied p params s proposal.txs proposal.state
      × (check_conservation proposal.state ≡ true)
unfolding produce
produce_conserves p borsh seq mempool s params i fits =
    let (r, within) = order-Reach p params mempool s fits in
    let (picked, applied) = order-Applied p params mempool s in
    (
      picked,
      applied,
      check_conservation-IsConserved _
          (Reach-IsConsistent r i (omega (arith, fits, within))).0.conserved,
    )
