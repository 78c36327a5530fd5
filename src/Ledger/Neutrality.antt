-- ===== src/Ledger/Neutrality.antt =====
-- The energy observable has no say in what a proof earns.
use ducp_node_rs.Common.{◌≡◌, arith, Option, inl, inr, Option-cases, []}
use ducp_node_rs.Common.BTreeMap.{get}
use ducp_node_rs.Types.Bytes.{Identity}
use ducp_node_rs.Types.Reject.{Result, ok, ◌>>=◌}
use ducp_node_rs.Types.Task.{TaskBody}
use ducp_node_rs.Types.Quant.{PowerSeal}
use ducp_node_rs.Types.Records.{Submission, ComputeProof}
use ducp_node_rs.Governance.{Params}
use ducp_node_rs.Ledger.State.{State, update_task, update_standing}
use ducp_node_rs.Ledger.Handlers.{
  submit_proof, settle, settle_money, settle_records, record_proof, receipt_of,
}

-- The state but for the recorded proofs.
abbrev pub without_proofs : Result State → Result State
without_proofs r = r >>= λ s. ok (record s { proofs = [] })

settle_neutral :
    (s : State) (body : TaskBody) (sub : Submission) (proof : ComputeProof)
    (seal : Option PowerSeal) (params : Params)
    → let sealed = record proof { power_seal = seal } in
      without_proofs (ok (settle (record_proof s sealed) body sub sealed params))
      ≡ without_proofs (ok (settle (record_proof s proof) body sub proof params))
unfolding settle settle_money settle_records record_proof receipt_of update_task update_standing
settle_neutral s body sub proof seal params = ground arith

-- Whatever power seal a proof carries, `submit_proof` accepts or refuses it alike, and all of the
-- state but the table of proofs comes out the same: balances, supply, receipts, Standing and
-- the ledger of pairs.
pub submit_proof_neutral :
    (s : State) (author : Identity) (proof : ComputeProof) (seal : Option PowerSeal)
    (params : Params)
    → without_proofs (submit_proof s author (record proof { power_seal = seal }) params)
      ≡ without_proofs (submit_proof s author proof params)
unfolding submit_proof
submit_proof_neutral s author proof seal params = elim (Option-cases (get proof.task s.bodies)) [
  | inl missing ↦ ground (arith, missing)
  | inr (body, found) ↦ elim (Option-cases (get proof.task s.tasks)) [
    | inl missing ↦ ground (arith, found, missing)
    | inr (sub, recorded) ↦
        ground (arith, found, recorded, settle_neutral s body sub proof seal params)
  ]
]
