-- ===== src/Common/BTreeMap/Laws.antt =====
-- What a lookup finds after an update. The order of the entries matters to `remove` alone.
use Prim.Native.Nat.{ℕ, ◌<◌}
use mathlib.Core.Path.{◌≡◌, refl}
use mathlib.Core.Option.{none, some}
use mathlib.Core.List.{[], ◌∷◌}
use native.Mathlib.Omega.{arith}
use ducp_node_rs.Common.Tests.{◌==◌, if◌then◌else◌}
use ducp_node_rs.Common.BTreeMap.{BTreeMap, get, insert, remove}

module _ {ℓ} {V : Type ℓ} where
  pub get-insert :
      (j k : ℕ) (v : V) (m : BTreeMap V)
      → get j (insert k v m) ≡ (if j == k then some v else get j m)
  unfolding get insert
  get-insert j k v [] = ground arith
  get-insert j k v ((i, w) ∷ m) = ground (arith, get-insert j k v m)

  pub get-insert_self : (k : ℕ) (v : V) (m : BTreeMap V) → get k (insert k v m) ≡ some v
  get-insert_self k v m = ground (arith, get-insert k k v m)

  -- Every key of the map is above `k`, and the keys rise.
  abbrev pub Above : ℕ → BTreeMap V → Type 0
  Above k [] = Unit {0}
  Above k ((j, v) ∷ m) = (k < j) × Above j m

  abbrev pub IsSorted : BTreeMap V → Type 0
  IsSorted [] = Unit {0}
  IsSorted ((j, v) ∷ m) = Above j m

  pub Above-IsSorted : (k : ℕ) (m : BTreeMap V) → Above k m → IsSorted m
  Above-IsSorted k [] h = tt
  Above-IsSorted k (e ∷ m) h = h.1

  Above-mono : (i j : ℕ) (m : BTreeMap V) → i < j → Above j m → Above i m
  Above-mono i j [] p h = tt
  Above-mono i j ((k, v) ∷ m) p h = (omega arith, h.1)

  insert-Above : (i k : ℕ) (v : V) (m : BTreeMap V) → i < k → Above i m → Above i (insert k v m)
  unfolding insert
  insert-Above i k v [] p h = (p, tt)
  insert-Above i k v ((j, w) ∷ m) p h = ground (arith, insert-Above j k v m)

  pub insert-IsSorted : (k : ℕ) (v : V) (m : BTreeMap V) → IsSorted m → IsSorted (insert k v m)
  unfolding insert
  insert-IsSorted k v [] h = tt
  insert-IsSorted k v ((j, w) ∷ m) h = ground (arith, insert-Above j k v m)

  pub get_below : (i k : ℕ) (m : BTreeMap V) → Above k m → i < k → get i m ≡ none
  unfolding get
  get_below i k [] h p = refl
  get_below i k ((j, v) ∷ m) h p = ground arith

  get_at : (k : ℕ) (m : BTreeMap V) → Above k m → get k m ≡ none
  unfolding get
  get_at k [] h = refl
  get_at k ((j, v) ∷ m) h = ground arith

  pub get-remove :
      (j k : ℕ) (m : BTreeMap V)
      → IsSorted m
      → get j (remove k m) ≡ (if j == k then none else get j m)
  unfolding get remove
  get-remove j k [] h = ground arith
  get-remove j k ((i, w) ∷ m) h =
      ground (arith, get-remove j k m (Above-IsSorted i m h), get_at k m, get_below j i m h)

  remove-Above : (i k : ℕ) (m : BTreeMap V) → Above i m → Above i (remove k m)
  unfolding remove
  remove-Above i k [] h = tt
  remove-Above i k ((j, w) ∷ m) h = ground (arith, remove-Above j k m, Above-mono i j m)

  pub remove-IsSorted : (k : ℕ) (m : BTreeMap V) → IsSorted m → IsSorted (remove k m)
  unfolding remove
  remove-IsSorted k [] h = tt
  remove-IsSorted k ((j, w) ∷ m) h = ground (arith, remove-Above j k m, Above-IsSorted j m)

  -- An entry at a new key hides no other.
  pub get-insert_fresh :
      (j k : ℕ) (v w : V) (m : BTreeMap V)
      → get k m ≡ none
      → get j m ≡ some v
      → get j (insert k w m) ≡ some v
  get-insert_fresh j k v w m fresh found = ground (arith, get-insert j k w m)
