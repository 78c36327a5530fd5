-- ===== src/Ledger/Conservation/Check.antt =====
-- `check_conservation` tells whether the books balance, and `genesis` opens balanced books.
use ducp_node_rs.Common.{ℕ, ◌+◌, ◌<◌, ◌≡◌, refl, arith, List, [], ◌∷◌, true, ==_iff}
use ducp_node_rs.Common.Words.{u128_mod, add_u128, add_u128-exact}
use ducp_node_rs.Types.Bytes.{Identity, Ucu, Epoch}
use ducp_node_rs.Ledger.Accounts.{Accounts, update, credit}
use ducp_node_rs.Ledger.Accounts.Held.{hold, held, held-credit}
use ducp_node_rs.Ledger.State.{State, held_from, check_conservation, allocate, genesis}
use ducp_node_rs.Ledger.Conservation.{IsConserved}

-- The loop computes the true total, as long as that fits a u128.
held_from-held :
    (start : Ucu) (m : Accounts) → start + held m < u128_mod → held_from start m ≡ start + held m
unfolding held_from held
held_from-held start [] fits = omega arith
held_from-held start ((id, a) ∷ m) fits =
    let own : add_u128 start (add_u128 (add_u128 a.balance a.escrowed) a.bonded) ≡ start + hold a =
      unfold add_u128 in omega arith in
    omega (
      arith,
      own,
      held_from-held (add_u128 start (add_u128 (add_u128 a.balance a.escrowed) a.bonded)) m,
    )

-- On balanced books the ledger's own check answers `true`.
pub check_conservation-IsConserved : (s : State) → IsConserved s → check_conservation s ≡ true
unfolding check_conservation
check_conservation-IsConserved s c =
    (==_iff _ _).1 (omega (arith, held_from-held s.fee_pool s.accounts))

abbrev pub allocated : List (Identity × Ucu) → ℕ
allocated [] = 0
allocated ((id, amount) ∷ rest) = amount + allocated rest

allocate-held :
    (allocations : List (Identity × Ucu)) (m : Accounts) (minted : Ucu)
    → held m ≡ minted
    → minted + allocated allocations < u128_mod
    → (held (allocate allocations (m, minted)).0 ≡ (allocate allocations (m, minted)).1)
      × ((allocate allocations (m, minted)).1 ≡ minted + allocated allocations)
unfolding allocate
allocate-held [] m minted e fits = (e, omega arith)
allocate-held ((id, amount) ∷ rest) m minted e fits =
    let more : add_u128 minted amount ≡ minted + amount =
      add_u128-exact minted amount (omega arith) in
    let (equal, total) =
      allocate-held rest (update m id (credit amount)) (add_u128 minted amount)
        (omega (arith, more, held-credit m id amount)) (omega (arith, more)) in
    (equal, omega (arith, total, more))

-- Genesis opens balanced books that mint exactly what is allocated.
pub genesis-IsConserved :
    (allocations : List (Identity × Ucu)) (epoch : Epoch)
    → allocated allocations < u128_mod
    → IsConserved (genesis allocations epoch)
      × ((genesis allocations epoch).supply.minted ≡ allocated allocations)
unfolding genesis
genesis-IsConserved allocations epoch fits =
    let (equal, total) = allocate-held allocations [] 0 (unfold held in refl) (omega arith) in
    (omega (arith, equal, total), omega (arith, total))
