-- ===== src/Dvm/Calibrated.antt =====
-- The calibration: the reference workload costs exactly one 𝕌.
use ducp_node_rs.Common.{ℕ, ◌*◌, ◌/◌, max, ◌<◌, ◌≡◌, refl, arith, some}
use native.Mathlib.Nat.{mul-div_cancel_left}
use ducp_node_rs.Common.Words.{u64_mod, mul_u128-exact}
use ducp_node_rs.Types.Bytes.{Bytes, ucu_scale}
use ducp_node_rs.Types.Primitives.{Primitives, hash_bytes}
use ducp_node_rs.Dvm.{
  Benchmark, Wasmtime, run, measure_fuel, calibrate, meter, fuel_to_ucu, meter_fuel_ceiling,
  default_max_mem,
}

max_lem : (n : ℕ) → 0 < n → max n 1 ≡ n
max_lem n positive = ground arith

ran :
    (w : Wasmtime) (module_bytes input : Bytes) (fuel : ℕ)
    → measure_fuel w module_bytes input ≡ some fuel
    → (run w module_bytes input meter_fuel_ceiling default_max_mem).2 ≡ fuel
unfolding measure_fuel
ran w module_bytes input fuel measured = ground arith

-- When the reference workload completes and consumes some fuel, within a u64, the benchmark that is
-- calibrated on it meters it at exactly one 𝕌, and meters any workload that completes in proportion
-- to the fuel of the reference, rounded down.
pub meter-calibrate :
    (w : Wasmtime) (p : Primitives) (cost_model reference input module_bytes other : Bytes)
    (fuel_ref fuel : ℕ)
    → measure_fuel w reference input ≡ some fuel_ref
    → measure_fuel w module_bytes other ≡ some fuel
    → 0 < fuel_ref
    → fuel_ref < u64_mod
    → fuel < u64_mod
    → (b : Benchmark) × (calibrate w p cost_model reference input ≡ some b)
      × (meter w reference input b ≡ ucu_scale)
      × (meter w module_bytes other b ≡ fuel * ucu_scale / fuel_ref)
unfolding calibrate measure_fuel meter fuel_to_ucu
meter-calibrate w p cost_model reference input module_bytes other fuel_ref fuel measured m' used
      fits fits' =
    (
      record {
        version = 0;
        fuel_cost_table_hash = hash_bytes p cost_model;
        fuel_per_ucu = max fuel_ref 1;
        e_baseline = 137;
        t_std_millikelvin = 300_000;
      },
      ground (arith, measured),
      rw
          (
            ran w reference input fuel_ref measured,
            max_lem fuel_ref used,
            mul_u128-exact fuel_ref ucu_scale (omega (arith, fits)),
          )
          (mul-div_cancel_left ucu_scale used),
      rw
          (
            ran w module_bytes other fuel m',
            max_lem fuel_ref used,
            mul_u128-exact fuel ucu_scale (omega (arith, fits')),
          )
          refl,
    )
