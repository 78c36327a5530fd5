-- ===== src/Ledger/Slashing.antt =====
-- Penalties happen once.
use ducp_node_rs.Common.{◌≡◌, arith, Option, true, inl, inr, Bool-cases, Option-cases}
use ducp_node_rs.Common.BTreeMap.{get, contains_key}
use ducp_node_rs.Common.BTreeMap.Laws.{get-insert_self}
use ducp_node_rs.Types.Bytes.{Identity, TaskId}
use ducp_node_rs.Types.Records.{Receipt}
use ducp_node_rs.Governance.{Params}
use ducp_node_rs.Ledger.State.{State, update_task, update_standing}
use ducp_node_rs.Ledger.Fraud.{
  penalise, claw_back, burn_issuance, levy_fine, mark_fraud, resolve_fraud,
}

pub penalise-slashed :
    (s : State) (task : TaskId) (receipt : Receipt) (provider requester : Identity)
    (to : Option Identity) (params : Params)
    → contains_key task (penalise s task receipt provider requester to params).slashed ≡ true
unfolding penalise mark_fraud update_standing update_task
penalise-slashed s task receipt provider requester to params =
    let clawed = claw_back s provider requester receipt.paid_to_provider in
    let burnt = burn_issuance clawed provider receipt.work_issuance in
    let fined = levy_fine burnt provider to receipt.paid_to_provider params in
    ground (arith, get-insert_self task tt fined.slashed)

-- A task is penalised at most once: whoever reports it again, right after the first resolution,
-- changes nothing.
pub resolve_fraud_once :
    (s : State) (task : TaskId) (to again : Option Identity) (params : Params)
    → resolve_fraud (resolve_fraud s task to params) task again params
      ≡ resolve_fraud s task to params
unfolding resolve_fraud
resolve_fraud_once s task to again params = elim (Bool-cases (contains_key task s.slashed)) [
  | inl slashed ↦ ground (arith, slashed)
  | inr fresh ↦ elim (Option-cases (get task s.receipts)) [
    | inl missing ↦ ground (arith, fresh, missing)
    | inr (receipt, found) ↦ elim (Option-cases (get task s.tasks)) [
      | inl missing ↦ ground (arith, fresh, found, missing)
      | inr (sub, recorded) ↦ elim (Option-cases sub.provider) [
        | inl missing ↦ ground (arith, fresh, found, recorded, missing)
        | inr (provider, named) ↦ ground (
          arith,
          fresh,
          found,
          recorded,
          named,
          penalise-slashed s task receipt provider sub.requester to params,
        )
      ]
    ]
  ]
]
