-- ===== src/Conformance/Metering.antt =====
-- The metering vectors: the fuel, the 𝕌 and the hash of three canonical runs.
use ducp_node_rs.Common.{ℕ, ◌*◌, Option, some, List, [], ◌∷◌}
use ducp_node_rs.Types.Bytes.{Bytes, ucu_scale, be_bytes}
use ducp_node_rs.Types.Text.{Text, Hex, codes, to_string}
use ducp_node_rs.Types.Task.{Limits}
use ducp_node_rs.Types.Primitives.{Primitives}
use ducp_node_rs.Dvm.{Benchmark, Wasmtime, calibrate, measure_fuel, execute}
use ducp_node_rs.Conformance.{◌>>=◌}

pub record MeteringRecord : Type 0 where
  pub name : Text
  pub input_hex : Text
  pub total_fuel : ℕ
  pub ucu_count : Text
  pub result_hash : Text

-- The modules that the wat package makes of the two canonical workloads.
pub record Workloads : Type 0 where
  pub reference_module : Bytes
  pub echo_module : Bytes

abbrev metering_limits : Limits
metering_limits = record { max_ucu = 1_000 * ucu_scale; max_memory_bytes = 16 * 1024 * 1024 }

-- `Benchmark::devnet`, with the id of the fuel cost model.
abbrev pub devnet_benchmark : Wasmtime → Primitives → Workloads → Option Benchmark
devnet_benchmark w p loads =
    calibrate w p (codes "ducp.fuel.wasmtime.v46.profile0") loads.reference_module []

module _ (w : Wasmtime) (p : Primitives) (h : Hex) where
  -- The record of one case.
  unfoldable pub metering_record : Benchmark → Text → Bytes → Bytes → Option MeteringRecord
  metering_record bench name module_bytes input = do
    fuel ← measure_fuel w module_bytes input
    let outcome = execute w p module_bytes input metering_limits bench
    some (record {
      name = name;
      input_hex = h.encode input;
      total_fuel = fuel;
      ucu_count = to_string outcome.ucu_count;
      result_hash = h.encode (be_bytes 32 outcome.result_hash);
    })

  unfoldable pub metering_records : Workloads → Option (List MeteringRecord)
  unfolding metering_record
  metering_records loads = do
    bench ← devnet_benchmark w p loads
    reference ← metering_record bench (codes "reference") loads.reference_module []
    echo_empty ← metering_record bench (codes "echo_empty") loads.echo_module []
    echo_hello ←
        metering_record bench (codes "echo_hello_world") loads.echo_module (codes "hello world")
    some (reference ∷ echo_empty ∷ echo_hello ∷ [])
