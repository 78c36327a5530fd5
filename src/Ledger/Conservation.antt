-- ===== src/Ledger/Conservation.antt =====
-- Conservation: what the accounts, the fee pool and the burned 𝕌 add up to is what was minted.
pub mod Handlers
pub mod Fraud
pub mod Epoch
pub mod Check
use ducp_node_rs.Common.{ℕ, ◌+◌, ◌<◌, ◌≡◌, arith, Option-cases, inl, inr, none, some}
use ducp_node_rs.Common.Words.{u128_mod}
use ducp_node_rs.Common.BTreeMap.{get}
use ducp_node_rs.Types.Bytes.{Identity, TaskId}
use ducp_node_rs.Types.Records.{Submission, StandingRecord}
use ducp_node_rs.Ledger.Accounts.Held.{held}
use ducp_node_rs.Ledger.State.{State, update_task, update_standing}

-- The books balance, and the supply fits its u128.
pub record IsConserved (s : State) : Type 0 where
  pub balanced : held s.accounts + s.fee_pool + s.supply.burned ≡ s.supply.minted
  pub minted_fits : s.supply.minted < u128_mod

pub update_task-IsConserved :
    (s : State) (task : TaskId) (change : Submission → Submission)
    → IsConserved s
    → IsConserved (update_task s task change)
unfolding update_task
update_task-IsConserved s task change c = ground arith
