-- ===== src/Ledger/Epoch.antt =====
-- The epoch boundary: Standing decays, and claim stakes whose window has closed are released.
use ducp_node_rs.Common.{
  ℕ, zero, suc, ◌-◌, Bool, true, false, ◌&&◌, not, Option, none, some, List, [], ◌∷◌, leb, ltb, min,
  if◌then◌else◌,
}
use ducp_node_rs.Common.Words.{add_u64}
use ducp_node_rs.Common.BTreeMap.{BTreeMap, get, insert, contains_key}
use ducp_node_rs.Types.Bytes.{Identity, TaskId, Ucu, Epoch}
use ducp_node_rs.Types.Records.{Receipt, StandingRecord}
use ducp_node_rs.Governance.{Params, decay}
use ducp_node_rs.Ledger.Accounts.{account, update, release_bond}
use ducp_node_rs.Ledger.State.{State}

-- The loop over `standing.values_mut()`.
unfoldable pub decay_all : Params → Epoch → BTreeMap StandingRecord → BTreeMap StandingRecord
decay_all params epoch [] = []
decay_all params epoch ((id, r) ∷ m) =
    (id, record r { sp = decay params r.sp; last_decay_epoch = epoch }) ∷ decay_all params epoch m

-- The claim that a receipt's task releases, if its provider is known.
unfoldable pub claim_of : State → TaskId → Option (Identity × Ucu)
claim_of s task = elim (get task s.tasks) [
  | none ↦ none
  | some sub ↦ elim sub.provider [ none ↦ none | some provider ↦ some (provider, sub.claim_stake) ]
]

unfoldable pub is_mature : State → TaskId → Receipt → Bool
is_mature s task receipt =
    leb receipt.clawback_until s.epoch
    && not (contains_key task s.released)
    && not (contains_key task s.slashed)

-- One round of the loop that collects `to_release`.
abbrev collect :
    Bool
    → Option (Identity × Ucu)
    → TaskId
    → List (TaskId × Identity × Ucu)
    → List (TaskId × Identity × Ucu)
collect true (some (provider, stake)) task rest = (task, provider, stake) ∷ rest
collect true none task rest = rest
collect false claim task rest = rest

unfoldable pub matured : State → BTreeMap Receipt → List (TaskId × Identity × Ucu)
unfolding is_mature claim_of
matured s [] = []
matured s ((task, receipt) ∷ rest) =
    collect (is_mature s task receipt) (claim_of s task) task (matured s rest)

-- One claim is released: at most what the Provider still has bonded.
unfoldable pub release : State → TaskId × Identity × Ucu → State
release s (task, provider, stake) =
    let amount = min stake (account s.accounts provider).bonded in
    record s {
      accounts = update s.accounts provider (release_bond amount);
      released = insert task tt s.released;
    }

unfoldable pub release_all : List (TaskId × Identity × Ucu) → State → State
unfolding release
release_all [] s = s
release_all (claim ∷ rest) s = release_all rest (release s claim)

-- The state at the boundary, before any claim is released.
unfoldable pub tick : State → Params → State
unfolding decay_all
tick s params =
    let epoch = add_u64 s.epoch 1 in
    record s { epoch = epoch; standing = decay_all params epoch s.standing }

unfoldable pub advance_epoch : State → Params → State
unfolding tick matured release_all
advance_epoch s params =
    let ticked = tick s params in release_all (matured ticked ticked.receipts) ticked

-- The `while` loop of `advance_to_epoch`, on fuel.
unfoldable pub advance_loop : ℕ → State → Epoch → Params → State
unfolding advance_epoch
advance_loop zero s target params = s
advance_loop (suc fuel) s target params =
    let rest = advance_loop fuel (advance_epoch s params) target params in
    if ltb s.epoch target then rest else s

-- A round raises the epoch by one, so the distance to the target is fuel enough.
unfoldable pub advance_to_epoch : State → Epoch → Params → State
unfolding advance_loop
advance_to_epoch s target params = advance_loop (target - s.epoch) s target params
