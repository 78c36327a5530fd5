-- ===== src/Ledger/Reach.antt =====
-- The histories of a ledger: genesis, then any sequence of accepted transactions, epoch boundaries
-- and resolutions, as a relation; and what holds in every state that a history reaches.
use ducp_node_rs.Common.{ℕ, arith, ◌∙◌, ◌+◌, ◌<◌, ◌≡◌, refl, List, [], ◌∷◌, true, Bool, Option}
use ducp_node_rs.Common.Words.{u128_mod, add_u128}
use ducp_node_rs.Common.BTreeMap.{get}
use ducp_node_rs.Common.BTreeMap.Sum.{sum}
use ducp_node_rs.Types.Bytes.{Identity, TaskId, Ucu, Epoch}
use ducp_node_rs.Types.Reject.{ok}
use ducp_node_rs.Types.Tx.{SignedTx}
use ducp_node_rs.Types.Primitives.{Primitives}
use ducp_node_rs.Governance.{Params}
use ducp_node_rs.Ledger.Accounts.{account}
use ducp_node_rs.Ledger.State.{State, genesis, allocate, check_conservation}
use ducp_node_rs.Ledger.Apply.{apply}
use ducp_node_rs.Ledger.Epoch.{advance_epoch}
use ducp_node_rs.Ledger.Fraud.{resolve_fraud, resolve_challenge}
use ducp_node_rs.Ledger.Conservation.Check.{
  allocated, genesis-IsConserved, check_conservation-IsConserved,
}
use ducp_node_rs.Ledger.Escrow.{owed}
use ducp_node_rs.Ledger.Escrow.Tables.{escrowed-update}
use ducp_node_rs.Ledger.Accounts.{Accounts, update, credit}
use ducp_node_rs.Ledger.Consistent.{
  IsConsistent, minted_by, apply-IsConsistent, advance_epoch-IsConsistent,
}
use ducp_node_rs.Ledger.Supply.{apply-Mints}
use ducp_node_rs.Ledger.Minted.{
  advance_epoch-minted, resolve_fraud-minted, resolve_challenge-minted,
}
use ducp_node_rs.Ledger.Consistent.Fraud.{
  resolve_fraud-IsConsistent, resolve_challenge-IsConsistent,
}

-- One transition: an accepted transaction, an epoch boundary, an audit or the end of a challenge.
pub data Step (p : Primitives) (params : Params) (s t : State) : Type 0 where
  applies : (stx : SignedTx) → apply p s stx params ≡ ok t → Step p params s t
  ticks : t ≡ advance_epoch s params → Step p params s t
  audits :
      (task : TaskId) (to : Option Identity)
      → t ≡ resolve_fraud s task to params
      → Step p params s t
  resolves :
      (task : TaskId) (fraud : Bool) → t ≡ resolve_challenge s task fraud params → Step p params s t

pub data Reach (p : Primitives) (params : Params) (s : State) : State → Type 0 where
  here : Reach p params s s
  next : {t u : State} → Reach p params s t → Step p params t u → Reach p params s u

-- What a history mints: the issuance of its accepted proofs.
abbrev pub issued : {p : Primitives} {params : Params} {s t : State} → Step p params s t → ℕ
issued {p} {params} (applies stx h) = minted_by params stx.tx
issued (ticks e) = 0
issued (audits task to e) = 0
issued (resolves task fraud e) = 0

abbrev pub total_issued : {p : Primitives} {params : Params} {s t : State} → Reach p params s t → ℕ
total_issued here = 0
total_issued (next r step) = total_issued r + issued step

pub Step-IsConsistent :
    (p : Primitives) (params : Params) (s t : State) (step : Step p params s t)
    → IsConsistent s
    → s.supply.minted + issued step < u128_mod
    → IsConsistent t × (t.supply.minted ≡ s.supply.minted + issued step)
Step-IsConsistent p params s t (applies stx h) i fits =
    (apply-IsConsistent p s t stx params i fits h, (apply-Mints p s t stx params fits h).0)
Step-IsConsistent p params s t (ticks e) i fits =
    rw e (advance_epoch-IsConsistent s params i, omega (arith, advance_epoch-minted s params))
Step-IsConsistent p params s t (audits task to e) i fits = rw e (
  resolve_fraud-IsConsistent s task to params i,
  omega (arith, resolve_fraud-minted s task to params),
)
Step-IsConsistent p params s t (resolves task fraud e) i fits = rw e (
  resolve_challenge-IsConsistent s task fraud params i,
  omega (arith, resolve_challenge-minted s task fraud params),
)

pub Reach-IsConsistent :
    {p : Primitives} {params : Params} {s t : State} (r : Reach p params s t)
    → IsConsistent s
    → s.supply.minted + total_issued r < u128_mod
    → IsConsistent t × (t.supply.minted ≡ s.supply.minted + total_issued r)
Reach-IsConsistent here i fits = (i, omega arith)
Reach-IsConsistent {p} {params} (next {t} {u} r step) i fits =
    let (middle, minted) = Reach-IsConsistent r i (omega (arith, fits)) in
    let (end, more) = Step-IsConsistent p params t u step middle (omega (arith, fits, minted)) in
    (end, omega (arith, minted, more))

allocate-escrowed :
    (allocations : List (Identity × Ucu)) (m : Accounts) (minted : Ucu) (id : Identity)
    → (account (allocate allocations (m, minted)).0 id).escrowed ≡ (account m id).escrowed
unfolding allocate
allocate-escrowed [] m minted id = refl
allocate-escrowed ((to, amount) ∷ rest) m minted id =
    allocate-escrowed rest (update m to (credit amount)) (add_u128 minted amount) id
    ∙ escrowed-update m to (credit amount) id (unfold credit in refl)

pub genesis-IsConsistent :
    (allocations : List (Identity × Ucu)) (epoch : Epoch)
    → allocated allocations < u128_mod
    → IsConsistent (genesis allocations epoch)
genesis-IsConsistent allocations epoch fits = record {
  conserved = (genesis-IsConserved allocations epoch fits).0;
  backed =
      unfold genesis in
      record {
        sorted = tt;
        backed = λ id. allocate-escrowed allocations [] 0 id ∙ unfold account get in refl;
      };
  receipts = unfold genesis get in record { closed = λ t receipt paid. absurd (cc) };
}

module _ (p : Primitives) (params : Params) (allocations : List (Identity × Ucu)) (epoch : Epoch)
    (t : State) (r : Reach p params (genesis allocations epoch) t)
    (fits : allocated allocations + total_issued r < u128_mod) where
  reached-IsConsistent : IsConsistent t
  reached-IsConsistent =
      let room : allocated allocations < u128_mod = omega (arith, fits) in
      let minted = (genesis-IsConserved allocations epoch room).1 in
      let i = genesis-IsConsistent allocations epoch room in
      (Reach-IsConsistent r i (omega (arith, fits, minted))).0

  -- In every state that a history of the ledger reaches from a genesis, when the allocations and all
  -- that the history's proofs mint fit a u128, `check_conservation` answers `true`.
  pub reached_conserves : check_conservation t ≡ true
  reached_conserves = check_conservation-IsConserved t reached-IsConsistent.conserved

  -- In every state that a history of the ledger reaches from a genesis, when the allocations and all
  -- that the history's proofs mint fit a u128, each account has in escrow exactly the ceilings and
  -- fees of its tasks that are submitted or executing.
  pub reached_escrow :
      (id : Identity) → (account t.accounts id).escrowed ≡ sum (owed id t.bodies) t.tasks
  reached_escrow = reached-IsConsistent.backed.backed
