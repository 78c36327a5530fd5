-- ===== src/Types/Records.antt =====
-- What the ledger records: submissions, proofs, receipts, accounts and Standing.
use ducp_node_rs.Common.{ℕ, Option}
use ducp_node_rs.Common.Int.{ℤ, pos}
use ducp_node_rs.Types.Bytes.{
  Hash, Identity, ContentId, TaskId, Ucu, Epoch, BenchmarkVersion, Bytes,
}
use ducp_node_rs.Types.Task.{TaskStatus}
use ducp_node_rs.Types.Quant.{PowerSeal}

-- An i128 of Standing points.
abbrev pub Sp : Type 0
Sp = ℤ

pub record Submission : Type 0 where
  pub task : TaskId
  pub requester : Identity
  pub ucu_count : Ucu
  pub fee : Ucu
  pub status : TaskStatus
  pub provider : Option Identity
  pub claim_stake : Ucu

pub data TierData : Type 0 where
  sampled_reexec : TierData
  tee : Bytes → TierData
  zk : Bytes → TierData

pub record ComputeProof : Type 0 where
  pub task : TaskId
  pub provider : Identity
  pub output : ContentId
  pub result_hash : Hash
  pub ucu_count : Ucu
  pub benchmark : BenchmarkVersion
  pub tier_data : TierData
  pub power_seal : Option PowerSeal

pub record Receipt : Type 0 where
  pub task : TaskId
  pub paid_to_provider : Ucu
  pub work_issuance : Ucu
  pub validator_fee : Ucu
  pub standing_delta : Sp
  pub settled_epoch : Epoch
  pub clawback_until : Epoch

pub record Account : Type 0 where
  pub id : Identity
  pub balance : Ucu
  pub escrowed : Ucu
  pub bonded : Ucu

-- `Account::new`
abbrev pub new_account : Identity → Account
new_account id = record { id = id; balance = 0; escrowed = 0; bonded = 0 }

pub record StandingRecord : Type 0 where
  pub id : Identity
  pub sp : Sp
  pub last_decay_epoch : Epoch
  pub strikes : ℕ

-- `StandingRecord::new`
abbrev pub new_standing : Identity → Epoch → StandingRecord
new_standing id epoch = record { id = id; sp = pos 0; last_decay_epoch = epoch; strikes = 0 }
