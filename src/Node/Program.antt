-- ===== src/Node/Program.antt =====
-- The node program, ducp-node/src/main.rs: its arguments, the genesis allocations, and the node that
-- it starts. The texts of the errors, the log and the server are left out.
pub mod Arguments
use ducp_node_rs.Common.{
  ℕ, zero, suc, ◌+◌, ◌*◌, Option, none, some, List, [], ◌∷◌, ◌==◌, if◌then◌else◌,
}
use ducp_node_rs.Types.Bytes.{Identity, Ucu, ucu_scale, to_array, filled}
use ducp_node_rs.Types.Text.{Text, Hex, strip_0x, parse_u128}
use ducp_node_rs.Types.Primitives.{Primitives, identity}
use ducp_node_rs.Node.{NodeInner, new_node}

-- The command line, less the address of the server.
pub record Cli : Type 0 where
  pub seed : Text
  pub alloc : List Text

-- `s.split_once(c)`
unfoldable pub split_once : ℕ → Text → Option (Text × Text)
split_once c [] = none
split_once c (d ∷ s) =
    let rest = split_once c s in
    if d == c
    then some ([], s)
    else elim rest [ none ↦ none | some (front, back) ↦ some (d ∷ front, back) ]

module _ (h : Hex) where
  unfoldable pub parse_seed : Text → Option ℕ
  parse_seed hex_str = elim (h.decode (strip_0x hex_str)) [ none ↦ none | some v ↦ to_array 32 v ]

  unfoldable pub parse_alloc : Text → Option (Identity × Ucu)
  unfolding split_once
  parse_alloc s = elim (split_once b':' s) [
    | none ↦ none
    | some (id_hex, amount) ↦ elim (h.decode (strip_0x id_hex)) [
      | none ↦ none
      | some id_bytes ↦ elim (to_array 32 id_bytes) [
        | none ↦ none
        | some id ↦ elim (parse_u128 amount) [ none ↦ none | some n ↦ some (id, n) ]
      ]
    ]
  ]

  -- `.map(parse_alloc).collect()`, which stops at the first error.
  unfoldable pub parse_allocs : List Text → Option (List (Identity × Ucu))
  unfolding parse_alloc
  parse_allocs [] = some []
  parse_allocs (s ∷ alloc) =
      let rest = parse_allocs alloc in
      elim (parse_alloc s) [
        | none ↦ none
        | some a ↦ elim rest [ none ↦ none | some as' ↦ some (a ∷ as') ]
      ]

-- The three dev keys that are funded when no allocation is given.
unfoldable pub dev_allocations : Primitives → List (Identity × Ucu)
dev_allocations p =
    let fund = 1_000_000 * ucu_scale in
    (identity p (filled 32 1), fund)
    ∷ (identity p (filled 32 2), fund)
    ∷ (identity p (filled 32 3), fund)
    ∷ []

unfoldable pub allocations_of : Primitives → Hex → List Text → Option (List (Identity × Ucu))
unfolding dev_allocations parse_allocs
allocations_of p h [] = some (dev_allocations p)
allocations_of p h (s ∷ alloc) = parse_allocs h (s ∷ alloc)

-- The node that `main` starts the server with.
unfoldable pub start : Primitives → Hex → Cli → Option NodeInner
unfolding parse_seed allocations_of
start p h cli = elim (parse_seed h cli.seed) [
  | none ↦ none
  | some seed ↦ elim (allocations_of p h cli.alloc) [
    | none ↦ none
    | some allocations ↦ some (new_node (identity p seed) allocations)
  ]
]
