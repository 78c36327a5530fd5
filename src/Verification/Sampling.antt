-- ===== src/Verification/Sampling.antt =====
-- Audits: how likely a task is drawn, and who runs it again.
use ducp_node_rs.Common.{
  ℕ, zero, suc, ◌*◌, ◌%◌, ◌<◌, ◌≤◌, ◌≡◌, ◌≢◌, refl, arith, true, false, none, some, List, [], ◌∷◌,
  ◌==◌, ==_iff, inl, inr, Bool-cases,
}
use ducp_node_rs.Common.Lists.{length, get_elem?}
use ducp_node_rs.Common.Words.{u64_mod, u128_mod, saturating_mul_u128}
use ducp_node_rs.Types.Bytes.{
  AreBytes, be_bytes-AreBytes, span, Hash, Identity, TaskId, Bytes, be_bytes, from_le_bytes,
}
use ducp_node_rs.Types.Primitives.{Primitives}
use ducp_node_rs.Governance.{ppm}
use ducp_node_rs.Dvm.Abi.{take, drop}
use ducp_node_rs.Verification.{is_sampled, select_reexecutor, without, draw_of, seed_of}

drop-AreBytes : (k : ℕ) (bs : Bytes) → AreBytes bs → AreBytes (drop k bs)
unfolding drop
drop-AreBytes zero bs a = a
drop-AreBytes (suc k) [] a = tt
drop-AreBytes (suc k) (b ∷ bs) (small, a) = drop-AreBytes k bs a

from_le_bytes-take : (k : ℕ) (bs : Bytes) → AreBytes bs → from_le_bytes (take k bs) < span k
unfolding from_le_bytes take
from_le_bytes-take zero bs a = omega arith
from_le_bytes-take (suc k) [] a = omega (arith, from_le_bytes-take k [] tt)
from_le_bytes-take (suc k) (b ∷ bs) (small, a) = omega (arith, from_le_bytes-take k bs a)

draw_of-lt : (from : ℕ) (h : Hash) → draw_of from 8 h < u64_mod
unfolding draw_of
draw_of-lt from h =
    from_le_bytes-take 8 (drop from (be_bytes 32 h)) (drop-AreBytes from _ (be_bytes-AreBytes 32 h))

-- When the higher of two ordered probabilities leaves room for a product with 2 ^ 64 in a u128: a
-- task is never drawn at probability 0, one that is drawn at the lower is drawn at the higher, and
-- it is drawn at the higher if that is 1 or more.
pub is_sampled_rates :
    (p : Primitives) (block_hash : Hash) (task : TaskId) (low high : ℕ)
    → low ≤ high
    → high * u64_mod < u128_mod
    → (is_sampled p block_hash task 0 ≡ false)
      × (is_sampled p block_hash task low ≡ true → is_sampled p block_hash task high ≡ true)
      × (ppm ≤ high → is_sampled p block_hash task high ≡ true)
unfolding is_sampled saturating_mul_u128
is_sampled_rates p block_hash task low high ordered fits = (
  ground arith,
  λ drawn. ground arith,
  λ sure. ground (arith, draw_of-lt 0 (seed_of p block_hash task)),
)

-- An identity stands in a list, at some place.
abbrev pub IsListed : Identity → List Identity → Type 0
IsListed e eligible = (i : ℕ) × (get_elem? eligible i ≡ some e)

without-IsListed :
    (exclude : Identity) (eligible : List Identity) (i : ℕ) (e : Identity)
    → get_elem? (without exclude eligible) i ≡ some e
    → IsListed e eligible × (e ≢ exclude)
unfolding without
without-IsListed exclude [] i e h = absurd (cc)
without-IsListed exclude (x ∷ eligible) i e h = elim (Bool-cases (x == exclude)) [
  | inl same ↦
      let shorter : get_elem? (without exclude eligible) i ≡ some e = ground (arith, same) in
      let (listed, differs) = without-IsListed exclude eligible i e shorter in
      ((suc listed.0, listed.1), differs)
  | inr other ↦
      elim i
          as (λ k.
            get_elem? (x ∷ without exclude eligible) k ≡ some e
            → IsListed e (x ∷ eligible) × (e ≢ exclude)) [
              | zero ↦ λ found. ((0, found), ground (arith, ==_iff x exclude))
              | suc k ↦ λ found.
                  let (listed, differs) = without-IsListed exclude eligible k e found in
                  ((suc listed.0, listed.1), differs)
            ]
        (ground (arith, other))
]

without-empty :
    (exclude : Identity) (eligible : List Identity) (i : ℕ) (e : Identity)
    → length (without exclude eligible) ≡ 0
    → get_elem? eligible i ≡ some e
    → e ≡ exclude
unfolding without
without-empty exclude [] i e none_left h = absurd (cc)
without-empty exclude (x ∷ eligible) zero e none_left h = ground (arith, ==_iff x exclude)
without-empty exclude (x ∷ eligible) (suc i) e none_left h =
    without-empty exclude eligible i e (ground arith) h

get_elem?-lt :
    (l : List Identity) (i : ℕ) → i < length l → (e : Identity) × (get_elem? l i ≡ some e)
get_elem?-lt [] i h = absurd (omega arith)
get_elem?-lt (x ∷ l) zero h = (x, refl)
get_elem?-lt (x ∷ l) (suc i) h = get_elem?-lt l i (omega arith)

-- The chosen re-executor stands in the eligible list and is not the excluded Provider; there is
-- none only when the list names nobody but that Provider.
pub select_reexecutor_fair :
    (p : Primitives) (block_hash : Hash) (task : TaskId) (eligible : List Identity)
    (exclude : Identity)
    → ((e : Identity)
        → select_reexecutor p block_hash task eligible exclude ≡ some e
        → IsListed e eligible × (e ≢ exclude))
      × (select_reexecutor p block_hash task eligible exclude ≡ none
          → (e : Identity) → IsListed e eligible
          → e ≡ exclude)
unfolding select_reexecutor
select_reexecutor_fair p block_hash task eligible exclude =
    let filtered = without exclude eligible in
    let place = draw_of 8 8 (seed_of p block_hash task) % length filtered in
    (
      λ e chosen. without-IsListed exclude eligible place e (ground arith),
      λ nobody e (i, found).
          without-empty exclude eligible i e (ground (arith, get_elem?-lt filtered place)) found,
    )
