-- ===== src/Node/Program/Arguments.antt =====
-- The arguments of the node program are read as they are printed.
use ducp_node_rs.Common.{ℕ, true, ◌<◌, ◌≡◌, refl, arith, some, List, [], ◌∷◌, ◌++◌, map, ==_iff}
use ducp_node_rs.Common.Words.{u128_mod}
use ducp_node_rs.Types.Bytes.{Identity, Ucu, span, be_bytes, be_bytes-AreBytes, to_array-be_bytes}
use ducp_node_rs.Types.Text.{Text, Hex, HexLaws, ArePlain, to_string}
use ducp_node_rs.Types.Text.Decimal.{parse_u128-to_string}
use ducp_node_rs.Types.Wire.RoundTrip.{decode-encode}
use ducp_node_rs.Types.Primitives.{Primitives, identity}
use ducp_node_rs.Ledger.State.{genesis, check_conservation}
use ducp_node_rs.Ledger.Conservation.Check.{
  allocated, genesis-IsConserved, check_conservation-IsConserved,
}
use ducp_node_rs.Node.{new_node}
use ducp_node_rs.Node.Program.{
  Cli, split_once, parse_seed, parse_alloc, parse_allocs, allocations_of, dev_allocations, start,
}

split_once-plain :
    (s back : Text) → ArePlain s → split_once b':' (s ++ b':' ∷ back) ≡ some (s, back)
unfolding split_once
split_once-plain [] back plain = refl
split_once-plain (c ∷ s) back (x, colon, plain) =
    ground (arith, split_once-plain s back plain, ==_iff c b':')

-- `<identity_hex>:<amount>`
abbrev pub print_alloc : Hex → Identity × Ucu → Text
print_alloc h (id, amount) = h.encode (be_bytes 32 id) ++ b':' ∷ to_string amount

abbrev pub AreAllocations : List (Identity × Ucu) → Type 0
AreAllocations [] = Unit {0}
AreAllocations ((id, amount) ∷ rest) = (id < span 32) × (amount < u128_mod) × AreAllocations rest

module _ (h : Hex) (laws : HexLaws h) where
  parse_alloc-print_alloc :
      (id : Identity) (amount : Ucu)
      → id < span 32
      → amount < u128_mod
      → parse_alloc h (print_alloc h (id, amount)) ≡ some (id, amount)
  unfolding parse_alloc
  parse_alloc-print_alloc id amount small fits = ground (
    arith,
    split_once-plain (h.encode (be_bytes 32 id)) (to_string amount)
        (laws.plain (be_bytes 32 id) (be_bytes-AreBytes 32 id)),
    decode-encode h laws (be_bytes 32 id) (be_bytes-AreBytes 32 id),
    to_array-be_bytes 32 id small,
    parse_u128-to_string amount fits,
  )

  parse_allocs-print_alloc :
      (allocations : List (Identity × Ucu))
      → AreAllocations allocations
      → parse_allocs h (map (print_alloc h) allocations) ≡ some allocations
  unfolding parse_allocs
  parse_allocs-print_alloc [] a = refl
  parse_allocs-print_alloc ((id, amount) ∷ rest) (small, fits, a) =
      rw
        (
          parse_allocs,
          parse_alloc-print_alloc id amount small fits,
          parse_allocs-print_alloc rest a,
        )
        refl

conserves :
    (allocations : List (Identity × Ucu))
    → allocated allocations < u128_mod
    → check_conservation (genesis allocations 0) ≡ true
conserves allocations fits =
    check_conservation-IsConserved (genesis allocations 0)
      (genesis-IsConserved allocations 0 fits).0

-- The allocations that are given, or those of the dev keys.
abbrev pub funded : Primitives → List (Identity × Ucu) → List (Identity × Ucu)
funded p [] = dev_allocations p
funded p (x ∷ rest) = x ∷ rest

-- With a hex package that keeps its promises, the program that is given the printed seed and
-- allocations starts a node of exactly these; given no allocation, it funds the three dev keys. In
-- both cases the ledger conserves, when what is allocated fits a u128.
pub start-print_alloc :
    (p : Primitives) (h : Hex) (seed : ℕ) (allocations : List (Identity × Ucu))
    → HexLaws h
    → seed < span 32
    → AreAllocations allocations
    → allocated allocations < u128_mod
    → let cli : Cli = record {
      seed = h.encode (be_bytes 32 seed);
      alloc = map (print_alloc h) allocations;
    } in
      (start p h cli ≡ some (new_node (identity p seed) (funded p allocations)))
      × (check_conservation (new_node (identity p seed) (funded p allocations)).state ≡ true)
unfolding start parse_seed allocations_of new_node
start-print_alloc p h seed [] laws small a fits = (
  ground (
    arith,
    decode-encode h laws (be_bytes 32 seed) (be_bytes-AreBytes 32 seed),
    to_array-be_bytes 32 seed small,
  ),
  conserves (dev_allocations p) (unfold dev_allocations in omega arith),
)
start-print_alloc p h seed (x ∷ rest) laws small a fits = (
  ground (
    arith,
    decode-encode h laws (be_bytes 32 seed) (be_bytes-AreBytes 32 seed),
    to_array-be_bytes 32 seed small,
    parse_allocs-print_alloc h laws (x ∷ rest) a,
  ),
  conserves (x ∷ rest) fits,
)
