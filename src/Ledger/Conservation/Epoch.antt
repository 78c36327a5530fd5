-- ===== src/Ledger/Conservation/Epoch.antt =====
-- The epoch boundary keeps the books balanced: a release moves a bond to the same account's balance.
use ducp_node_rs.Common.{arith, min, min-le_right, List, [], ◌∷◌}
use ducp_node_rs.Types.Bytes.{Identity, TaskId, Ucu}
use ducp_node_rs.Governance.{Params}
use ducp_node_rs.Ledger.Accounts.{account}
use ducp_node_rs.Ledger.Accounts.Held.{held-release_bond}
use ducp_node_rs.Ledger.State.{State}
use ducp_node_rs.Ledger.Epoch.{release, release_all, tick, matured, advance_epoch}
use ducp_node_rs.Ledger.Conservation.{IsConserved}

pub release-IsConserved :
    (s : State) (claim : TaskId × Identity × Ucu) → IsConserved s → IsConserved (release s claim)
unfolding release
release-IsConserved s (task, provider, stake) c =
    let bonded = (account s.accounts provider).bonded in
    omega
      (arith, min-le_right stake bonded, held-release_bond s.accounts provider (min stake bonded))

release_all-IsConserved :
    (claims : List (TaskId × Identity × Ucu)) (s : State)
    → IsConserved s
    → IsConserved (release_all claims s)
unfolding release_all
release_all-IsConserved [] s c = c
release_all-IsConserved (claim ∷ rest) s c =
    release_all-IsConserved rest (release s claim) (release-IsConserved s claim c)

pub tick-IsConserved : (s : State) (params : Params) → IsConserved s → IsConserved (tick s params)
unfolding tick
tick-IsConserved s params c = record { balanced = c.balanced; minted_fits = c.minted_fits }

-- Decay and bond release move no 𝕌 into or out of the accounts.
pub advance_epoch-IsConserved :
    (s : State) (params : Params) → IsConserved s → IsConserved (advance_epoch s params)
unfolding advance_epoch
advance_epoch-IsConserved s params c =
    let ticked = tick s params in
    release_all-IsConserved (matured ticked ticked.receipts) ticked (tick-IsConserved s params c)
