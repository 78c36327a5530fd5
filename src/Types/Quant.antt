-- ===== src/Types/Quant.antt =====
-- The efficiency observable: power seals and the entries of the ledger of pairs.
use ducp_node_rs.Common.{ℕ, Option, none}
use ducp_node_rs.Types.Bytes.{ContentId, TaskId, Ucu, BenchmarkVersion, micro_q_scale}

pub data SealGrade : Type 0 where
  s0_identity s1_witnessed s2_locked : SealGrade

pub data Boundary : Type 0 where
  chip node facility : Boundary

pub record Quant : Type 0 where
  pub micro_q : ℕ

-- `Quant::ONE`
abbrev pub one : Quant
one = record { micro_q = micro_q_scale }

abbrev pub from_micro : ℕ → Quant
from_micro micro_q = record { micro_q = micro_q }

pub record PowerSeal : Type 0 where
  pub seal_grade : SealGrade
  pub boundary : Boundary
  pub power_cap_milliwatts : ℕ
  pub window_millis : ℕ
  pub t_max_millikelvin : ℕ
  pub attestation_evidence : ContentId
  pub benchmark : BenchmarkVersion

pub record QLedgerEntry : Type 0 where
  pub task : TaskId
  pub ucu : Ucu
  pub q : Option Quant
  pub seal_grade : Option SealGrade
  pub boundary : Option Boundary
  pub benchmark : BenchmarkVersion

unfoldable pub unmeasured : TaskId → Ucu → BenchmarkVersion → QLedgerEntry
unmeasured task ucu benchmark = record {
  task = task;
  ucu = ucu;
  q = none;
  seal_grade = none;
  boundary = none;
  benchmark = benchmark;
}
