-- ===== src/Types/Task.antt =====
-- Tasks: what a Requester asks for.
use ducp_node_rs.Common.{ℕ, Bool, true, false}
use ducp_node_rs.Types.Bytes.{ContentId, Ucu, Epoch, BenchmarkVersion}

pub data IrId : Type 0 where
  wasm : IrId

pub record Limits : Type 0 where
  pub max_ucu : Ucu
  pub max_memory_bytes : ℕ

pub data VerificationTier : Type 0 where
  sampled_reexec tee zk : VerificationTier

pub data FailurePolicy : Type 0 where
  auto_requeue return_on_failure : FailurePolicy
  retry_then_return : ℕ → FailurePolicy

pub record TaskBody : Type 0 where
  pub ir : IrId
  pub program : ContentId
  pub input : ContentId
  pub limits : Limits
  pub tier : VerificationTier
  pub benchmark : BenchmarkVersion
  pub deadline : Epoch
  pub failure_policy : FailurePolicy
  pub nonce : ℕ

pub data TaskStatus : Type 0 where
  submitted matched executing verified settled failed : TaskStatus

-- The derived `==` of the two enums.
abbrev pub eq_ir : IrId → IrId → Bool
eq_ir wasm wasm = true

abbrev pub eq_tier : VerificationTier → VerificationTier → Bool
eq_tier sampled_reexec sampled_reexec = true
eq_tier tee tee = true
eq_tier zk zk = true
eq_tier _ _ = false

abbrev pub eq_status : TaskStatus → TaskStatus → Bool
eq_status submitted submitted = true
eq_status matched matched = true
eq_status executing executing = true
eq_status verified verified = true
eq_status settled settled = true
eq_status failed failed = true
eq_status _ _ = false
