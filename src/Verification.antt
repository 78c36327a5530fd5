-- ===== src/Verification.antt =====
-- Verification, crates/verification/src/lib.rs: re-execution, the sampling of audits, and the
-- attestors of energy.
pub mod Checks
pub mod Sampling
pub mod Seals
use ducp_node_rs.Common.{
  ℕ, ◌*◌, ◌/◌, ◌%◌, ◌^◌, Bool, true, false, not, ◌&&◌, ◌||◌, Option, none, some, List, [], ◌∷◌,
  ◌++◌, ◌==◌, ltb, max, if◌then◌else◌,
}
use ducp_node_rs.Common.Lists.{length, get_elem?}
use ducp_node_rs.Common.Words.{u64_mod, mul_u128, saturating_mul_u128}
use ducp_node_rs.Types.Bytes.{
  Hash, Identity, TaskId, Ucu, Bytes, be_bytes, from_le_bytes, ucu_scale, micro_q_scale,
}
use ducp_node_rs.Types.Task.{Limits}
use ducp_node_rs.Types.Quant.{PowerSeal, Quant}
use ducp_node_rs.Types.Records.{ComputeProof}
use ducp_node_rs.Types.Primitives.{Primitives, hash_bytes}
use ducp_node_rs.Governance.{ppm}
use ducp_node_rs.Dvm.{Benchmark, ExecOutcome}
use ducp_node_rs.Dvm.Abi.{take, drop}

pub data VerifyOutcome : Type 0 where
  accept : VerifyOutcome
  fraud : Hash → Hash → VerifyOutcome

unfoldable pub is_fraud : VerifyOutcome → Bool
is_fraud accept = false
is_fraud (fraud expected got) = true

-- `execute` of a `dyn Dvm`.
abbrev pub Executor : Type 0
Executor = Bytes → Bytes → Limits → Benchmark → ExecOutcome

-- `SampledReexecVerifier::check`
unfoldable pub check : ComputeProof → Bytes → Bytes → Limits → Benchmark → Executor → VerifyOutcome
check proof program input limits benchmark execute =
    let reexec = execute program input limits benchmark in
    if (reexec.result_hash == proof.result_hash) && (reexec.ucu_count == proof.ucu_count)
    then accept
    else fraud reexec.result_hash proof.result_hash

-- The `k` bytes of a hash from `from` on, as the little-endian integer that they spell.
unfoldable pub draw_of : ℕ → ℕ → Hash → ℕ
draw_of from k h = from_le_bytes (take k (drop from (be_bytes 32 h)))

-- `eligible.filter(|e| e != exclude)`
unfoldable pub without : Identity → List Identity → List Identity
without exclude [] = []
without exclude (e ∷ eligible) =
    let rest = without exclude eligible in if not (e == exclude) then e ∷ rest else rest

module _ (p : Primitives) where
  -- The seed of the draws: the hash of block and task.
  unfoldable pub seed_of : Hash → TaskId → Hash
  seed_of block_hash task = hash_bytes p (be_bytes 32 block_hash ++ be_bytes 32 task)

  unfoldable pub is_sampled : Hash → TaskId → ℕ → Bool
  unfolding seed_of draw_of
  is_sampled block_hash task audit_prob_ppm =
      let draw = draw_of 0 8 (seed_of block_hash task) in
      let threshold = saturating_mul_u128 audit_prob_ppm u64_mod / ppm in ltb draw threshold

  unfoldable pub select_reexecutor : Hash → TaskId → List Identity → Identity → Option Identity
  unfolding without
  select_reexecutor block_hash task eligible exclude =
      let filtered = without exclude eligible in
      if length filtered == 0
      then none
      else get_elem? filtered (draw_of 8 8 (seed_of block_hash task) % length filtered)

-- `impl EnergyAttestor for NullAttestor`
unfoldable pub null_attest : PowerSeal → Ucu → Benchmark → Option Quant
null_attest seal ucu_count benchmark = none

unfoldable pub evidence_valid : PowerSeal → Bool
evidence_valid seal = not (seal.attestation_evidence == 0)

unfoldable pub plausible : PowerSeal → Bool
plausible seal =
    ltb 0 seal.power_cap_milliwatts && ltb 0 seal.window_millis && ltb 0 seal.t_max_millikelvin

unfoldable pub well_formed : PowerSeal → Benchmark → Bool
well_formed seal benchmark = seal.benchmark == benchmark.version

-- `checked_div(d).unwrap_or(0)`
abbrev div_or_zero : ℕ → ℕ → ℕ
div_or_zero n d = if d == 0 then 0 else n / d

unfoldable pub sealed_q_floor : PowerSeal → Ucu → Benchmark → Quant
sealed_q_floor seal ucu_count benchmark =
    let c_ucu = max (ucu_count / ucu_scale) 1 in
    let numerator =
      mul_u128 (mul_u128 (mul_u128 c_ucu benchmark.e_baseline) benchmark.t_std_millikelvin)
        micro_q_scale in
    let e_consumed = mul_u128 seal.power_cap_milliwatts seal.window_millis in
    let denom = mul_u128 e_consumed seal.t_max_millikelvin in
    record { micro_q = div_or_zero numerator denom % u64_mod }

-- `impl EnergyAttestor for SealedAttestor`
unfoldable pub sealed_attest : PowerSeal → Ucu → Benchmark → Option Quant
unfolding evidence_valid plausible well_formed sealed_q_floor
sealed_attest seal ucu_count benchmark =
    if not (evidence_valid seal) || not (plausible seal) || not (well_formed seal benchmark)
    then none
    else some (sealed_q_floor seal ucu_count benchmark)
