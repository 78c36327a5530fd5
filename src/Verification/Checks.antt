-- ===== src/Verification/Checks.antt =====
-- What a check by re-execution on the virtual machine tells.
use ducp_node_rs.Common.{
  ◌*◌, ◌<◌, ◌≡◌, ◌↔◌, ◌≢◌, ◌∙◌, sym, arith, refl, none, true, false, [], ==_iff, ==_self,
}
use ducp_node_rs.Common.Words.{u128_mod, mul_u128}
use ducp_node_rs.Types.Bytes.{Bytes}
use ducp_node_rs.Types.Task.{Limits}
use ducp_node_rs.Types.Records.{ComputeProof}
use ducp_node_rs.Types.Primitives.{Primitives}
use ducp_node_rs.Dvm.{
  Benchmark, Wasmtime, execute, failure, out_of_fuel, invalid_module, ucu_to_fuel_ceiling, run,
  settle_run, fuel_to_ucu,
}
use ducp_node_rs.Dvm.Meter.{execute_bounds}
use ducp_node_rs.Verification.{check, accept, is_fraud}

check-accept :
    (w : Wasmtime) (p : Primitives) (proof : ComputeProof) (program input : Bytes) (limits : Limits)
    (benchmark : Benchmark)
    → let outcome = execute w p program input limits benchmark in
      check proof program input limits benchmark (execute w p) ≡ accept
      ↔ (outcome.result_hash ≡ proof.result_hash) × (outcome.ucu_count ≡ proof.ucu_count)
unfolding check
check-accept w p proof program input limits benchmark =
    let outcome = execute w p program input limits benchmark in
    (
      λ h. ground (
        arith,
        ==_iff outcome.result_hash proof.result_hash,
        ==_iff outcome.ucu_count proof.ucu_count,
      ),
      λ (same_hash, same_count).
          rw (same_hash, same_count, ==_self proof.result_hash, ==_self proof.ucu_count) refl,
    )

module _ (w : Wasmtime) (p : Primitives) (proof : ComputeProof) (program input : Bytes)
    (limits : Limits) (benchmark : Benchmark) where
  check-convicts :
      (proof.ucu_count ≡ (execute w p program input limits benchmark).ucu_count → ⊥)
      → is_fraud (check proof program input limits benchmark (execute w p)) ≡ true
  unfolding check is_fraud
  check-convicts other =
      ground (
        arith,
        other,
        ==_iff (execute w p program input limits benchmark).ucu_count proof.ucu_count,
      )

  execute-unmetered :
      w.compile program ≡ none → (execute w p program input limits benchmark).ucu_count ≡ 0
  unfolding execute settle_run fuel_to_ucu mul_u128
  execute-unmetered broken =
      let ceiling = ucu_to_fuel_ceiling benchmark limits.max_ucu in
      let stopped : run w program input ceiling limits.max_memory_bytes
          ≡ (failure invalid_module, [], 0) =
        rw (broken, run) refl in
      rw stopped (ground arith)

  -- With a benchmark of a positive rate, when the product of the ceiling and the rate fits a u128,
  -- running a task again on the virtual machine convicts every Provider who charges more than the
  -- ceiling, every one who charges for a program that does not compile, and every one who charges
  -- anything but the ceiling for a run that is out of fuel; and it acquits every one who hands in
  -- the hash and the count of the run.
  pub check-execute :
      0 < benchmark.fuel_per_ucu
      → limits.max_ucu * benchmark.fuel_per_ucu < u128_mod
      → let outcome = execute w p program input limits benchmark in
        let convicted = is_fraud (check proof program input limits benchmark (execute w p)) in
        (limits.max_ucu < proof.ucu_count → convicted ≡ true)
        × (w.compile program ≡ none → 0 < proof.ucu_count → convicted ≡ true)
        × (outcome.status ≡ failure out_of_fuel
            → proof.ucu_count ≢ limits.max_ucu
            → convicted ≡ true)
        × (proof.result_hash ≡ outcome.result_hash
            → proof.ucu_count ≡ outcome.ucu_count
            → convicted ≡ false)
  unfolding is_fraud
  check-execute positive fits =
      let (bound, silent, spent) =
        execute_bounds w p program input limits benchmark positive fits in
      (
        λ over. check-convicts (omega (arith, over, bound)),
        λ broken charged. check-convicts (omega (arith, charged, execute-unmetered broken)),
        λ out other. check-convicts (λ same. other (same ∙ spent out)),
        λ same_hash same_count.
            rw
              ((check-accept w p proof program input limits benchmark).1
                (sym same_hash, sym same_count))
              refl,
      )
