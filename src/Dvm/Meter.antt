-- ===== src/Dvm/Meter.antt =====
-- What a run costs is never more than what its task allows.
use ducp_node_rs.Common.{ℕ, ◌*◌, ◌<◌, ◌≤◌, ◌≡◌, arith, []}
use native.Mathlib.Nat.{div-le_of_le-mul}
use ducp_node_rs.Common.Words.{u128_mod, mul_u128-exact}
use ducp_node_rs.Types.Bytes.{Bytes, Ucu, ucu_scale}
use ducp_node_rs.Types.Task.{Limits}
use ducp_node_rs.Types.Primitives.{Primitives}
use ducp_node_rs.Dvm.{
  Benchmark, Wasmtime, FailureKind, failure, out_of_fuel, succeeded, fuel_to_ucu,
  ucu_to_fuel_ceiling, run, finish, consumed, execute, settle_run, Ran,
}

-- A run consumes at most its ceiling, and a run that fails has no output.
run_bounds :
    (w : Wasmtime) (module_bytes input : Bytes) (ceiling memory : ℕ)
    → let ran = run w module_bytes input ceiling memory in
      (ran.2 ≤ ceiling) × ((kind : FailureKind) → ran.0 ≡ failure kind → ran.1 ≡ [])
unfolding run finish consumed
run_bounds w module_bytes input ceiling memory = (ground arith, λ kind failed. ground arith)

-- Fuel within the ceiling of `max_ucu` converts to at most `max_ucu`.
fuel_to_ucu-ceiling :
    (b : Benchmark) (max_ucu : Ucu) (fuel : ℕ)
    → 0 < b.fuel_per_ucu
    → max_ucu * b.fuel_per_ucu < u128_mod
    → fuel ≤ ucu_to_fuel_ceiling b max_ucu
    → fuel_to_ucu b fuel ≤ max_ucu
unfolding fuel_to_ucu ucu_to_fuel_ceiling
fuel_to_ucu-ceiling b max_ucu fuel positive fits h =
    let product : fuel * ucu_scale ≤ max_ucu * b.fuel_per_ucu =
      ground (arith, mul_u128-exact max_ucu b.fuel_per_ucu fits) in
    rw (mul_u128-exact fuel ucu_scale (omega (arith, product)))
      (div-le_of_le-mul b.fuel_per_ucu (grind arith))

settle_run-le :
    (w : Wasmtime) (p : Primitives) (limits : Limits) (b : Benchmark) (ran : Ran)
    → 0 < b.fuel_per_ucu
    → limits.max_ucu * b.fuel_per_ucu < u128_mod
    → ran.2 ≤ ucu_to_fuel_ceiling b limits.max_ucu
    → (settle_run w p limits b ran).1 ≤ limits.max_ucu
unfolding settle_run
settle_run-le w p limits b (succeeded, output, fuel) positive fits h =
    fuel_to_ucu-ceiling b limits.max_ucu fuel positive fits h
settle_run-le w p limits b (failure out_of_fuel, output, fuel) positive fits h = omega arith
settle_run-le w p limits b (failure kind, output, fuel) positive fits h =
    fuel_to_ucu-ceiling b limits.max_ucu fuel positive fits h

settle_run-spent :
    (w : Wasmtime) (p : Primitives) (limits : Limits) (b : Benchmark) (ran : Ran)
    → ran.0 ≡ failure out_of_fuel
    → (settle_run w p limits b ran).1 ≡ limits.max_ucu
unfolding settle_run
settle_run-spent w p limits b ran spent = ground arith

-- A benchmark with a positive rate meters every run at most at the task's `max_ucu`, when their
-- product fits a u128; a run that fails has no output, and one that ran out of fuel is metered at
-- exactly `max_ucu`.
pub execute_bounds :
    (w : Wasmtime) (p : Primitives) (module_bytes input : Bytes) (limits : Limits) (b : Benchmark)
    → 0 < b.fuel_per_ucu
    → limits.max_ucu * b.fuel_per_ucu < u128_mod
    → let outcome = execute w p module_bytes input limits b in
      (outcome.ucu_count ≤ limits.max_ucu)
      × ((kind : FailureKind) → outcome.status ≡ failure kind → outcome.output ≡ [])
      × (outcome.status ≡ failure out_of_fuel → outcome.ucu_count ≡ limits.max_ucu)
unfolding execute
execute_bounds w p module_bytes input limits b positive fits =
    let ceiling = ucu_to_fuel_ceiling b limits.max_ucu in
    let (cost, silent) = run_bounds w module_bytes input ceiling limits.max_memory_bytes in
    let ran = run w module_bytes input ceiling limits.max_memory_bytes in
    (
      settle_run-le w p limits b ran positive fits cost,
      silent,
      λ spent. settle_run-spent w p limits b ran spent,
    )
