-- ===== src/Types/Tx.antt =====
-- Transactions and blocks.
use ducp_node_rs.Common.{ℕ, List}
use ducp_node_rs.Types.Bytes.{Hash, Identity, Signature, TaskId, TxId, Ucu, Epoch}
use ducp_node_rs.Types.Task.{TaskBody}
use ducp_node_rs.Types.Records.{ComputeProof}

pub data Tx : Type 0 where
  submit_task : TaskBody → Tx
  claim_task : TaskId → Tx
  submit_proof : ComputeProof → Tx
  challenge : TaskId → Ucu → Tx
  transfer : Identity → Ucu → Tx

pub record SignedTx : Type 0 where
  pub author : Identity
  pub tx : Tx
  pub nonce : ℕ
  pub sig : Signature

pub record Block : Type 0 where
  pub height : ℕ
  pub parent : Hash
  pub epoch : Epoch
  pub txs : List TxId
  pub state_root : Hash
  pub proposer : Identity
