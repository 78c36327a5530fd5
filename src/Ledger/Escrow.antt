-- ===== src/Ledger/Escrow.antt =====
-- Escrow: what an account has escrowed is what its open tasks may still cost it.
pub mod Tables
pub mod Handlers
pub mod Settle
pub mod Frame
pub mod Receipts
use ducp_node_rs.Common.{ℕ, ◌+◌, ◌≡◌, Bool, true, false, ◌&&◌, none, some, ◌==◌, if◌then◌else◌}
use ducp_node_rs.Common.BTreeMap.{BTreeMap, get}
use ducp_node_rs.Common.BTreeMap.Laws.{IsSorted}
use ducp_node_rs.Common.BTreeMap.Sum.{sum}
use ducp_node_rs.Types.Bytes.{Identity, TaskId, Ucu}
use ducp_node_rs.Types.Task.{TaskBody, TaskStatus, submitted, executing}
use ducp_node_rs.Types.Records.{Submission, Receipt}
use ducp_node_rs.Ledger.Accounts.{account}
use ducp_node_rs.Ledger.State.{State}

-- A task whose escrow has not been drained.
abbrev pub is_open : TaskStatus → Bool
is_open submitted = true
is_open executing = true
is_open _ = false

abbrev pub ceiling : BTreeMap TaskBody → TaskId → Ucu
ceiling bodies task = elim (get task bodies) [ none ↦ 0 | some body ↦ body.limits.max_ucu ]

-- What one task may still cost `id`.
unfoldable pub owed : Identity → BTreeMap TaskBody → TaskId → Submission → Ucu
owed id bodies task sub =
    if sub.requester == id && is_open sub.status then ceiling bodies task + sub.fee else 0

pub record IsBacked (s : State) : Type 0 where
  pub sorted : IsSorted s.tasks
  pub backed : (id : Identity) → (account s.accounts id).escrowed ≡ sum (owed id s.bodies) s.tasks

-- A task with a receipt is recorded, and is not open.
pub record HasClosedReceipts (s : State) : Type 0 where
  pub closed :
      (task : TaskId) (receipt : Receipt)
      → get task s.receipts ≡ some receipt
      → (sub : Submission) × (get task s.tasks ≡ some sub) × (is_open sub.status ≡ false)
