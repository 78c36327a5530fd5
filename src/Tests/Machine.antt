-- ===== src/Tests/Machine.antt =====
-- The theorems on the machine and on verification, applied to a toy wasmtime: a module is its first
-- byte, runs for that much fuel, and answers its input.
use ducp_node_rs.Common.{
  ◌<◌, ℕ, ◌*◌, ◌/◌, ◌≤◌, ◌≡◌, ◌≢◌, refl, arith, Option, none, some, [], ◌∷◌, true, false,
}
use ducp_node_rs.Common.Int.{ℤ, pos, negsuc}
use ducp_node_rs.Common.Lists.{length}
use ducp_node_rs.Common.Words.{mul_u128}
use ducp_node_rs.Types.Bytes.{Bytes, micro_q_scale}
use ducp_node_rs.Types.Task.{Limits}
use ducp_node_rs.Types.Quant.{PowerSeal, s2_locked, chip}
use ducp_node_rs.Dvm.{Benchmark, Wasmtime, execute, failure, FailureKind, out_of_fuel}
use ducp_node_rs.Dvm.Abi.{
  HostState, new_host, as_usize, input_read, input_read_safe, input_read_panics,
}
use ducp_node_rs.Dvm.Meter.{execute_bounds}
use ducp_node_rs.Verification.{
  is_fraud, check, is_sampled, select_reexecutor, sealed_attest, evidence_valid, plausible,
  well_formed, sealed_q_floor,
}
use ducp_node_rs.Verification.Checks.{check-execute}
use ducp_node_rs.Verification.Sampling.{is_sampled_rates, select_reexecutor_fair, IsListed}
use ducp_node_rs.Verification.Seals.{IsSound, sealed_attest_floor}
use ducp_node_rs.Governance.{ppm}
use ducp_node_rs.Tests.{toy, proof_of}

abbrev first : Bytes → Option ℕ
first [] = none
first (b ∷ bs) = some b

abbrev pub toy_wasmtime : Wasmtime
toy_wasmtime = record {
  compile = first;
  defines_abi = true;
  instantiate = λ m input fuel memory. some m;
  fuel_after_instantiate = λ m input fuel memory. some fuel;
  run_export = λ m. some m;
  start_export = λ m. none;
  call = λ m. record { returned = true; spent = false; output = m ∷ []; fail_code = none };
  fuel_after_call = λ m. some m;
  borsh_failure = λ kind. 0 ∷ [];
}

abbrev pub toy_benchmark : Benchmark
toy_benchmark = record {
  version = 1;
  fuel_cost_table_hash = 5;
  fuel_per_ucu = 1_000;
  e_baseline = 137;
  t_std_millikelvin = 300_000;
}

abbrev limits : Limits
limits = record { max_ucu = 2_000_000_000; max_memory_bytes = 65_536 }

execute_bounds_example :
    let outcome = execute toy_wasmtime toy (9 ∷ []) (1 ∷ 2 ∷ []) limits toy_benchmark in
    (outcome.ucu_count ≤ 2_000_000_000)
    × ((kind : FailureKind) → outcome.status ≡ failure kind → outcome.output ≡ [])
    × (outcome.status ≡ failure out_of_fuel → outcome.ucu_count ≡ 2_000_000_000)
execute_bounds_example =
    execute_bounds toy_wasmtime toy (9 ∷ []) (1 ∷ 2 ∷ []) limits toy_benchmark (omega arith)
      (omega arith)

check-execute_example :
    let outcome = execute toy_wasmtime toy (9 ∷ []) (1 ∷ 2 ∷ []) limits toy_benchmark in
    let convicted =
      is_fraud (
        check (proof_of 5) (9 ∷ []) (1 ∷ 2 ∷ []) limits toy_benchmark (execute toy_wasmtime toy)) in
    (limits.max_ucu < 800_000 → convicted ≡ true)
    × (toy_wasmtime.compile (9 ∷ []) ≡ none → 0 < 800_000 → convicted ≡ true)
    × (outcome.status ≡ failure out_of_fuel → 800_000 ≢ limits.max_ucu → convicted ≡ true)
    × (21 ≡ outcome.result_hash → 800_000 ≡ outcome.ucu_count → convicted ≡ false)
check-execute_example =
    check-execute toy_wasmtime toy (proof_of 5) (9 ∷ []) (1 ∷ 2 ∷ []) limits toy_benchmark
      (omega arith) (omega arith)

abbrev host : HostState
host = new_host (10 ∷ 20 ∷ 30 ∷ []) 65_536

abbrev memory : Bytes
memory = 0 ∷ 0 ∷ 0 ∷ 0 ∷ []

input_read_safe_example :
    (memory' : Bytes) × (n : ℤ) × (input_read host (some memory) (pos 1) (pos 2) (pos 5)
      ≡ some (some memory', n))
    × (length memory' ≡ 4)
input_read_safe_example =
    input_read_safe host memory (pos 1) (pos 2) (pos 5) (unfold as_usize in omega arith)

input_read_panics_example : input_read host (some memory) (pos 1) (negsuc 0) (pos 5) ≡ none
input_read_panics_example =
    input_read_panics host memory (pos 1) (negsuc 0) (pos 5) (unfold as_usize in omega arith)
      (unfold as_usize in omega arith) (omega arith)

is_sampled_rates_example :
    (is_sampled toy 3 4 0 ≡ false)
    × (is_sampled toy 3 4 100_000 ≡ true → is_sampled toy 3 4 1_000_000 ≡ true)
    × (ppm ≤ 1_000_000 → is_sampled toy 3 4 1_000_000 ≡ true)
is_sampled_rates_example = is_sampled_rates toy 3 4 100_000 1_000_000 (omega arith) (omega arith)

select_reexecutor_fair_example :
    ((e : ℕ)
      → select_reexecutor toy 3 4 (1 ∷ 2 ∷ 5 ∷ []) 2 ≡ some e
      → IsListed e (1 ∷ 2 ∷ 5 ∷ []) × (e ≢ 2))
    × (select_reexecutor toy 3 4 (1 ∷ 2 ∷ 5 ∷ []) 2 ≡ none
        → (e : ℕ) → IsListed e (1 ∷ 2 ∷ 5 ∷ [])
        → e ≡ 2)
select_reexecutor_fair_example = select_reexecutor_fair toy 3 4 (1 ∷ 2 ∷ 5 ∷ []) 2

abbrev pub seal : PowerSeal
seal = record {
  seal_grade = s2_locked;
  boundary = chip;
  power_cap_milliwatts = 1_000;
  window_millis = 10;
  t_max_millikelvin = 350_000;
  attestation_evidence = 77;
  benchmark = 1;
}

sealed_attest_floor_example :
    IsSound seal toy_benchmark
    × (11_742 ≡ 1 * 137 * 300_000 * micro_q_scale / (1_000 * 10 * 350_000))
sealed_attest_floor_example =
    sealed_attest_floor seal 800_000 toy_benchmark (record { micro_q = 11_742 }) (omega arith)
      (omega arith) (omega arith) (omega arith)
      (unfold sealed_attest evidence_valid plausible well_formed sealed_q_floor mul_u128 in refl)
