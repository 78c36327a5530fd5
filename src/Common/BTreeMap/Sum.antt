-- ===== src/Common/BTreeMap/Sum.antt =====
-- Sums over the entries of a map, and how an update moves them.
use Prim.Native.Nat.{ℕ, ◌+◌, ◌≤◌}
use mathlib.Core.Path.{◌≡◌}
use mathlib.Core.Logic.{◌≢◌}
use mathlib.Core.Option.{Option, none, some}
use mathlib.Core.List.{[], ◌∷◌}
use native.Mathlib.Omega.{arith}
use ducp_node_rs.Common.BTreeMap.{BTreeMap, get, insert}
use ducp_node_rs.Common.BTreeMap.Laws.{IsSorted, Above-IsSorted, get_below}

module _ {ℓ} {V : Type ℓ} (f : ℕ → V → ℕ) where
  abbrev pub sum : BTreeMap V → ℕ
  sum [] = 0
  sum ((k, v) ∷ m) = f k v + sum m

  -- What the entry of a key adds to the sum; nothing, where there is none.
  abbrev pub share : ℕ → Option V → ℕ
  share k none = 0
  share k (some v) = f k v

  pub sum-insert :
      (k : ℕ) (v : V) (m : BTreeMap V) → sum (insert k v m) + share k (get k m) ≡ sum m + f k v
  unfolding insert get
  sum-insert k v [] = omega arith
  sum-insert k v ((j, w) ∷ m) = ground (arith, sum-insert k v m)

  pub share-le-sum : (k : ℕ) (m : BTreeMap V) → share k (get k m) ≤ sum m
  unfolding get
  share-le-sum k [] = omega arith
  share-le-sum k ((j, w) ∷ m) = ground (arith, share-le-sum k m)

module _ {ℓ} {V : Type ℓ} (f g : ℕ → V → ℕ) where
  -- Two ways to count that differ at an absent key alone give one sum.
  pub sum_congr :
      (k : ℕ) (m : BTreeMap V)
      → IsSorted m
      → get k m ≡ none
      → ((j : ℕ) (v : V) → j ≢ k → f j v ≡ g j v)
      → sum f m ≡ sum g m
  unfolding get
  sum_congr k [] s absent same = omega arith
  sum_congr k ((j, w) ∷ m) s absent same =
      ground (arith, same j w, Above-IsSorted j m s, get_below k j m s, sum_congr k m)
