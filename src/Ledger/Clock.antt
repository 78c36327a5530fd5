-- ===== src/Ledger/Clock.antt =====
-- The epoch counter, and that `advance_to_epoch` reaches its target.
use ducp_node_rs.Common.{ℕ, zero, suc, ◌+◌, ◌-◌, ◌<◌, ◌≤◌, ◌≡◌, refl, arith, List, [], ◌∷◌, max}
use ducp_node_rs.Common.Words.{u64_mod, add_u64}
use ducp_node_rs.Types.Bytes.{Identity, TaskId, Ucu, Epoch}
use ducp_node_rs.Governance.{Params}
use ducp_node_rs.Ledger.State.{State}
use ducp_node_rs.Ledger.Epoch.{
  tick, matured, release, release_all, advance_epoch, advance_loop, advance_to_epoch,
}

release_all-epoch :
    (claims : List (TaskId × Identity × Ucu)) (s : State) → (release_all claims s).epoch ≡ s.epoch
unfolding release_all release
release_all-epoch [] s = refl
release_all-epoch (claim ∷ rest) s = release_all-epoch rest (release s claim)

advance_epoch-epoch :
    (s : State) (params : Params) → (advance_epoch s params).epoch ≡ add_u64 s.epoch 1
unfolding advance_epoch tick
advance_epoch-epoch s params =
    let ticked = tick s params in release_all-epoch (matured ticked ticked.receipts) ticked

pub advance_epoch-suc :
    (s : State) (params : Params)
    → s.epoch + 1 < u64_mod
    → (advance_epoch s params).epoch ≡ s.epoch + 1
advance_epoch-suc s params fits = unfold add_u64 in omega (arith, advance_epoch-epoch s params)

advance_loop-epoch :
    (fuel : ℕ) (s : State) (target : Epoch) (params : Params)
    → target < u64_mod
    → s.epoch < u64_mod
    → target - s.epoch ≤ fuel
    → (advance_loop fuel s target params).epoch ≡ max s.epoch target
unfolding advance_loop
advance_loop-epoch zero s target params fits now enough = ground arith
advance_loop-epoch (suc fuel) s target params fits now enough = ground (
  arith,
  advance_epoch-suc s params,
  advance_loop-epoch fuel (advance_epoch s params) target params fits,
)

-- `advance_to_epoch` ends with the epoch at the target, or leaves it where it is when the target
-- is not ahead; both are u64 values.
pub advance_to_epoch_reaches :
    (s : State) (target : Epoch) (params : Params)
    → target < u64_mod
    → s.epoch < u64_mod
    → (advance_to_epoch s target params).epoch ≡ max s.epoch target
unfolding advance_to_epoch
advance_to_epoch_reaches s target params fits now =
    advance_loop-epoch (target - s.epoch) s target params fits now (omega arith)
