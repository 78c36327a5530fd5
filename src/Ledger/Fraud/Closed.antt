-- ===== src/Ledger/Fraud/Closed.antt =====
-- The end of a challenge: it is no longer pending, and the task can be challenged again only where
-- it has not been marked.
use ducp_node_rs.Common.{
  ◌≡◌, refl, arith, Option, Bool, none, some, inl, inr, Option-cases, ==_self,
}
use ducp_node_rs.Common.BTreeMap.{BTreeMap, get, remove}
use ducp_node_rs.Common.BTreeMap.Laws.{IsSorted, get-remove}
use ducp_node_rs.Types.Bytes.{Identity, TaskId}
use ducp_node_rs.Types.Records.{Receipt}
use ducp_node_rs.Governance.{Params}
use ducp_node_rs.Ledger.State.{State, ChallengeRecord, update_task, update_standing}
use ducp_node_rs.Ledger.Fraud.{
  penalise, claw_back, burn_issuance, levy_fine, pay_reward, mark_fraud, resolve_fraud, return_bond,
  forfeit_bond, resolve_challenge,
}
use ducp_node_rs.Ledger.Fraud.Cases.{resolve_fraud_cases}

penalise-pending :
    (s : State) (task : TaskId) (receipt : Receipt) (provider requester : Identity)
    (to : Option Identity) (params : Params)
    → (penalise s task receipt provider requester to params).pending_challenges
      ≡ s.pending_challenges
unfolding penalise claw_back burn_issuance levy_fine pay_reward mark_fraud update_standing
    update_task
penalise-pending s task receipt provider requester to params = ground arith

resolve_fraud-pending :
    (s : State) (task : TaskId) (to : Option Identity) (params : Params)
    → (resolve_fraud s task to params).pending_challenges ≡ s.pending_challenges
resolve_fraud-pending s task to params =
    resolve_fraud_cases (λ t. t.pending_challenges ≡ s.pending_challenges) s task params to refl
      (λ receipt sub provider fresh found task_found named.
        penalise-pending s task receipt provider sub.requester to params)

removed :
    (task : TaskId) (m : BTreeMap ChallengeRecord) → IsSorted m → get task (remove task m) ≡ none
removed task m sorted = ground (arith, get-remove task task m sorted, ==_self task)

pub resolve_challenge-closed :
    (s : State) (task : TaskId) (fraud : Bool) (params : Params)
    → IsSorted s.pending_challenges
    → get task (resolve_challenge s task fraud params).pending_challenges ≡ none
unfolding resolve_challenge return_bond forfeit_bond
resolve_challenge-closed s task fraud params sorted =
    elim (Option-cases (get task s.pending_challenges)) [
      | inl missing ↦ rw (missing, resolve_challenge) missing
      | inr (pc, found) ↦ ground (
        arith,
        found,
        removed task s.pending_challenges sorted,
        resolve_fraud-pending (record s { pending_challenges = remove task s.pending_challenges })
            task (some pc.challenger) params,
      )
    ]
