-- ===== src/Ledger/Fraud/Cases.antt =====
-- The branches of `resolve_fraud` and `resolve_challenge`, for any statement about the result.
use ducp_node_rs.Common.{◌≡◌, Option, some, Bool, true, false, inl, inr, Option-cases, Bool-cases}
use ducp_node_rs.Common.BTreeMap.{get, remove, contains_key}
use ducp_node_rs.Types.Bytes.{Identity, TaskId}
use ducp_node_rs.Types.Records.{Submission, Receipt}
use ducp_node_rs.Governance.{Params}
use ducp_node_rs.Ledger.State.{State, ChallengeRecord}
use ducp_node_rs.Ledger.Fraud.{
  penalise, resolve_fraud, return_bond, forfeit_bond, resolve_challenge,
}

module _ {ℓ} (P : State → Type ℓ) (s : State) (task : TaskId) (params : Params) where
  -- Nothing happens, or a recorded provider of an unslashed, settled task is penalised.
  pub resolve_fraud_cases :
      (to : Option Identity)
      → P s
      → ((receipt : Receipt) (sub : Submission) (provider : Identity)
          → contains_key task s.slashed ≡ false
          → get task s.receipts ≡ some receipt
          → get task s.tasks ≡ some sub
          → sub.provider ≡ some provider
          → P (penalise s task receipt provider sub.requester to params))
      → P (resolve_fraud s task to params)
  unfolding resolve_fraud
  resolve_fraud_cases to same guilty = elim (Bool-cases (contains_key task s.slashed)) [
    | inl slashed ↦ rw slashed same
    | inr fresh ↦ elim (Option-cases (get task s.receipts)) [
      | inl missing ↦ rw (fresh, missing) same
      | inr (receipt, found) ↦ elim (Option-cases (get task s.tasks)) [
        | inl missing ↦ rw (fresh, found, missing) same
        | inr (sub, task_found) ↦ elim (Option-cases sub.provider) [
          | inl missing ↦ rw (fresh, found, task_found, missing) same
          | inr (provider, named) ↦
              rw (fresh, found, task_found, named)
                (guilty receipt sub provider fresh found task_found named)
        ]
      ]
    ]
  ]

  abbrev closed : State
  closed = record s { pending_challenges = remove task s.pending_challenges }

  pub resolve_challenge_cases :
      (fraud : Bool)
      → P s
      → ((pc : ChallengeRecord)
          → get task s.pending_challenges ≡ some pc
          → P (return_bond (resolve_fraud closed task (some pc.challenger) params) pc))
      → ((pc : ChallengeRecord)
          → get task s.pending_challenges ≡ some pc
          → P (forfeit_bond closed pc))
      → P (resolve_challenge s task fraud params)
  unfolding resolve_challenge
  resolve_challenge_cases true same guilty honest =
      elim (Option-cases (get task s.pending_challenges)) [
        | inl missing ↦ rw (missing, resolve_challenge) same
        | inr (pc, found) ↦ rw (found, resolve_challenge) (guilty pc found)
      ]
  resolve_challenge_cases false same guilty honest =
      elim (Option-cases (get task s.pending_challenges)) [
        | inl missing ↦ rw (missing, resolve_challenge) same
        | inr (pc, found) ↦ rw (found, resolve_challenge) (honest pc found)
      ]
