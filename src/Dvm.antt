-- ===== src/Dvm.antt =====
-- The virtual machine, crates/dvm/src/lib.rs: the benchmark, the run of a module, and its meter.
-- What wasmtime does is the parameter `Wasmtime`.
pub mod Abi
pub mod Meter
pub mod Calibrated
use ducp_node_rs.Common.{
  ℕ, ◌-◌, ◌*◌, ◌/◌, ◌^◌, Bool, true, false, Option, none, some, [], ◌∷◌, ◌++◌, min, max,
}
use ducp_node_rs.Common.Int.{ℤ}
use ducp_node_rs.Common.Words.{u64_mod, mul_u128, saturating_sub}
use ducp_node_rs.Common.BTreeMap.{unwrap_or, is_some}
use ducp_node_rs.Types.Bytes.{Bytes, Hash, Ucu, ucu_scale}
use ducp_node_rs.Types.Reject.{Result, ok, err, unsupported_feature}
use ducp_node_rs.Types.Task.{Limits, IrId, wasm}
use ducp_node_rs.Types.Primitives.{Primitives, hash_bytes}

pub record Benchmark : Type 0 where
  pub version : ℕ
  pub fuel_cost_table_hash : Hash
  pub fuel_per_ucu : ℕ
  pub e_baseline : ℕ
  pub t_std_millikelvin : ℕ

unfoldable pub fuel_to_ucu : Benchmark → ℕ → Ucu
fuel_to_ucu benchmark fuel = mul_u128 fuel ucu_scale / benchmark.fuel_per_ucu

unfoldable pub ucu_to_fuel_ceiling : Benchmark → Ucu → ℕ
ucu_to_fuel_ceiling benchmark max_ucu =
    min (mul_u128 max_ucu benchmark.fuel_per_ucu / ucu_scale) (u64_mod - 1)

pub data FailureKind : Type 0 where
  out_of_fuel : FailureKind
  user_abort : ℤ → FailureKind
  trap invalid_module instantiation no_entry_point : FailureKind

pub data ExecStatus : Type 0 where
  succeeded : ExecStatus
  failure : FailureKind → ExecStatus

pub record ExecOutcome : Type 0 where
  pub result_hash : Hash
  pub output : Bytes
  pub ucu_count : Ucu
  pub status : ExecStatus

-- What a call of the entry point leaves behind: whether it returned, whether its error is the trap
-- for spent fuel, and the host's state.
pub record Call : Type 0 where
  pub returned : Bool
  pub spent : Bool
  pub output : Bytes
  pub fail_code : Option ℤ

-- wasmtime, with the engine's configuration. A module, an instance and a function are handles;
-- `get_fuel` is asked after instantiation and after the call.
pub record Wasmtime : Type 0 where
  pub compile : Bytes → Option ℕ
  pub defines_abi : Bool
  -- module, input, fuel, memory
  pub instantiate : ℕ → Bytes → ℕ → ℕ → Option ℕ
  pub fuel_after_instantiate : ℕ → Bytes → ℕ → ℕ → Option ℕ
  pub run_export : ℕ → Option ℕ
  pub start_export : ℕ → Option ℕ
  pub call : ℕ → Call
  pub fuel_after_call : ℕ → Option ℕ
  pub borsh_failure : FailureKind → Bytes

-- `b"ducp.fail.v0"`
abbrev pub fail_domain : Bytes
fail_domain = 100 ∷ 117 ∷ 99 ∷ 112 ∷ 46 ∷ 102 ∷ 97 ∷ 105 ∷ 108 ∷ 46 ∷ 118 ∷ 48 ∷ []

abbrev pub meter_fuel_ceiling : ℕ
meter_fuel_ceiling = 2 ^ 40

abbrev pub default_max_mem : ℕ
default_max_mem = 16 * 1024 * 1024

-- `consumed`, of the answer of `get_fuel`.
unfoldable pub consumed : Option ℕ → ℕ → ℕ
consumed fuel ceiling = saturating_sub ceiling (unwrap_or fuel 0)

-- `get_typed_func("run").or_else("_start")`
abbrev or_else : Option ℕ → Option ℕ → Option ℕ
or_else none other = other
or_else (some f) other = some f

-- Why a call that did not return failed.
unfoldable pub failure_of : Call → FailureKind
failure_of call = elim call.fail_code [
  | some code ↦ user_abort code
  | none ↦ elim call.spent [ true ↦ out_of_fuel | false ↦ trap ]
]

abbrev pub Ran : Type 0
Ran = ExecStatus × Bytes × ℕ

-- The end of a run, by how the call of the entry point ended.
unfoldable pub finish : Call → ℕ → Ran
unfolding failure_of
finish call fuel = elim call.returned [
  | true ↦ (succeeded, call.output, fuel)
  | false ↦ (failure (failure_of call), [], fuel)
]

module _ (w : Wasmtime) where
  unfoldable pub run : Bytes → Bytes → ℕ → ℕ → Ran
  unfolding finish consumed
  run module_bytes input fuel_ceiling max_memory_bytes = elim (w.compile module_bytes) [
    | none ↦ (failure invalid_module, [], 0)
    | some m ↦ elim w.defines_abi [
      | false ↦ (failure instantiation, [], 0)
      | true ↦
          let left = w.fuel_after_instantiate m input fuel_ceiling max_memory_bytes in
          elim (w.instantiate m input fuel_ceiling max_memory_bytes) [
            | none ↦ (failure instantiation, [], consumed left fuel_ceiling)
            | some instance' ↦ elim (or_else (w.run_export instance') (w.start_export instance')) [
              | none ↦ (failure no_entry_point, [], consumed left fuel_ceiling)
              | some entry ↦ finish (w.call entry) (consumed (w.fuel_after_call entry) fuel_ceiling)
            ]
          ]
    ]
  ]

  unfoldable pub measure_fuel : Bytes → Bytes → Option ℕ
  unfolding run
  measure_fuel module_bytes input =
      let (status, out, fuel) = run module_bytes input meter_fuel_ceiling default_max_mem in
      elim status [ succeeded ↦ some fuel | failure kind ↦ none ]

  -- `Benchmark::devnet`, whose `expect` refuses a reference workload that fails.
  unfoldable pub calibrate : Primitives → Bytes → Bytes → Bytes → Option Benchmark
  unfolding measure_fuel
  calibrate p cost_model reference reference_input = elim (measure_fuel reference reference_input) [
    | none ↦ none
    | some fuel_ref ↦ some (record {
      version = 0;
      fuel_cost_table_hash = hash_bytes p cost_model;
      fuel_per_ucu = max fuel_ref 1;
      e_baseline = 137;
      t_std_millikelvin = 300_000;
    })
  ]

  unfoldable pub validate : Bytes → Result (Unit {0})
  validate module_bytes = elim (w.compile module_bytes) [
    | none ↦ err unsupported_feature
    | some m ↦ ok tt
  ]

  unfoldable pub failure_result_hash : Primitives → FailureKind → Hash
  failure_result_hash p kind = hash_bytes p (fail_domain ++ w.borsh_failure kind)

  -- The hash and the 𝕌 of a run.
  unfoldable pub settle_run : Primitives → Limits → Benchmark → Ran → Hash × Ucu
  unfolding failure_result_hash
  settle_run p limits benchmark (succeeded, output, fuel) =
      (hash_bytes p output, fuel_to_ucu benchmark fuel)
  settle_run p limits benchmark (failure out_of_fuel, output, fuel) =
      (failure_result_hash p out_of_fuel, limits.max_ucu)
  settle_run p limits benchmark (failure kind, output, fuel) =
      (failure_result_hash p kind, fuel_to_ucu benchmark fuel)

  unfoldable pub execute : Primitives → Bytes → Bytes → Limits → Benchmark → ExecOutcome
  unfolding run settle_run
  execute p module_bytes input limits benchmark =
      let ceiling = ucu_to_fuel_ceiling benchmark limits.max_ucu in
      let ran = run module_bytes input ceiling limits.max_memory_bytes in
      let (result_hash, ucu_count) = settle_run p limits benchmark ran in
      record { result_hash = result_hash; output = ran.1; ucu_count = ucu_count; status = ran.0 }

  unfoldable pub meter : Bytes → Bytes → Benchmark → Ucu
  unfolding run
  meter module_bytes input benchmark =
      fuel_to_ucu benchmark (run module_bytes input meter_fuel_ceiling default_max_mem).2
