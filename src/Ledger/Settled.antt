-- ===== src/Ledger/Settled.antt =====
-- The state after a proof is accepted and settled, table by table.
use ducp_node_rs.Common.{◌≡◌, arith, some}
use ducp_node_rs.Common.Int.{add_i128}
use ducp_node_rs.Common.BTreeMap.{get, insert}
use ducp_node_rs.Common.BTreeMap.Laws.{get-insert_self}
use ducp_node_rs.Types.Task.{TaskBody, verified, settled}
use ducp_node_rs.Types.Records.{Submission, ComputeProof}
use ducp_node_rs.Types.Quant.{unmeasured}
use ducp_node_rs.Governance.{Params}
use ducp_node_rs.Ledger.State.{State, update_task, update_standing}
use ducp_node_rs.Ledger.Handlers.{settle, settle_money, settle_records, record_proof, receipt_of}

-- The submission while it is verified, and in the end.
abbrev pub verified_sub : Submission → ComputeProof → Submission
verified_sub sub proof = record sub { status = verified; ucu_count = proof.ucu_count }

abbrev pub settled_sub : Submission → ComputeProof → Submission
settled_sub sub proof = record sub { status = settled; ucu_count = proof.ucu_count }

pub record IsSettled (s : State) (body : TaskBody) (sub : Submission) (proof : ComputeProof)
    (params : Params) (after : State) : Type 0 where
  pub accounts : after.accounts ≡ (settle_money s body sub proof params).accounts
  pub supply : after.supply ≡ (settle_money s body sub proof params).supply
  pub fee_pool : after.fee_pool ≡ (settle_money s body sub proof params).fee_pool
  pub bodies : after.bodies ≡ s.bodies
  pub tasks :
      after.tasks
      ≡ insert proof.task
          (settled_sub sub proof)
          (insert proof.task (verified_sub sub proof) s.tasks)
  pub proofs : after.proofs ≡ insert proof.task proof s.proofs
  pub receipts : after.receipts ≡ insert proof.task (receipt_of s sub proof params) s.receipts
  pub standing :
      after.standing
      ≡ (update_standing s proof.provider (λ r. record r {
        sp = add_i128 r.sp (receipt_of s sub proof params).standing_delta;
      })).standing
  pub q_ledger :
      after.q_ledger
      ≡ insert proof.task (unmeasured proof.task proof.ucu_count body.benchmark) s.q_ledger
  pub pending : after.pending_challenges ≡ s.pending_challenges
  pub slashed : after.slashed ≡ s.slashed
  pub released : after.released ≡ s.released
  pub nonces : after.nonces ≡ s.nonces
  pub epoch : after.epoch ≡ s.epoch

pub settle-IsSettled :
    (s : State) (body : TaskBody) (sub : Submission) (proof : ComputeProof) (params : Params)
    → get proof.task s.tasks ≡ some sub
    → IsSettled s body sub proof params (settle (record_proof s proof) body sub proof params)
unfolding settle settle_records settle_money record_proof update_task update_standing receipt_of
settle-IsSettled s body sub proof params found =
    ground (arith, get-insert_self proof.task (verified_sub sub proof) s.tasks)
