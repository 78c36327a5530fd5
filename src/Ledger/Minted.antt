-- ===== src/Ledger/Minted.antt =====
-- What a history mints: the issuance of its accepted proofs, and no more.
use ducp_node_rs.Common.{◌≡◌, refl, ◌∙◌, arith, List, [], ◌∷◌, Option, none, some, Bool}
use ducp_node_rs.Common.BTreeMap.{remove}
use ducp_node_rs.Types.Bytes.{Identity, TaskId, Ucu}
use ducp_node_rs.Types.Records.{Submission, Receipt}
use ducp_node_rs.Governance.{Params}
use ducp_node_rs.Ledger.State.{State, update_task, update_standing}
use ducp_node_rs.Ledger.Epoch.{tick, matured, release, release_all, advance_epoch}
use ducp_node_rs.Ledger.Fraud.{
  claw_back, burn_issuance, pay_reward, levy_fine, mark_fraud, penalise, resolve_fraud, return_bond,
  forfeit_bond, resolve_challenge,
}
use ducp_node_rs.Ledger.Fraud.Cases.{resolve_fraud_cases, resolve_challenge_cases}

release_all-minted :
    (claims : List (TaskId × Identity × Ucu)) (s : State)
    → (release_all claims s).supply.minted ≡ s.supply.minted
unfolding release_all release
release_all-minted [] s = refl
release_all-minted (claim ∷ rest) s = release_all-minted rest (release s claim)

pub advance_epoch-minted :
    (s : State) (params : Params) → (advance_epoch s params).supply.minted ≡ s.supply.minted
unfolding advance_epoch tick
advance_epoch-minted s params =
    let ticked = tick s params in release_all-minted (matured ticked ticked.receipts) ticked

update_task-minted :
    (s : State) (task : TaskId) (change : Submission → Submission)
    → (update_task s task change).supply.minted ≡ s.supply.minted
unfolding update_task
update_task-minted s task change = ground arith

levy_fine-minted :
    (s : State) (provider : Identity) (to : Option Identity) (payment : Ucu) (params : Params)
    → (levy_fine s provider to payment params).supply.minted ≡ s.supply.minted
unfolding levy_fine pay_reward
levy_fine-minted s provider none payment params = refl
levy_fine-minted s provider (some id) payment params = refl

penalise-minted :
    (s : State) (task : TaskId) (receipt : Receipt) (provider requester : Identity)
    (to : Option Identity) (params : Params)
    → (penalise s task receipt provider requester to params).supply.minted ≡ s.supply.minted
unfolding penalise mark_fraud update_standing claw_back burn_issuance
penalise-minted s task receipt provider requester to params =
    update_task-minted _ task _ ∙ levy_fine-minted _ provider to receipt.paid_to_provider params

pub resolve_fraud-minted :
    (s : State) (task : TaskId) (to : Option Identity) (params : Params)
    → (resolve_fraud s task to params).supply.minted ≡ s.supply.minted
resolve_fraud-minted s task to params =
    resolve_fraud_cases (λ t. t.supply.minted ≡ s.supply.minted) s task params to refl
      λ receipt sub provider _ _ _ _.
        penalise-minted s task receipt provider sub.requester to params

pub resolve_challenge-minted :
    (s : State) (task : TaskId) (fraud : Bool) (params : Params)
    → (resolve_challenge s task fraud params).supply.minted ≡ s.supply.minted
unfolding return_bond forfeit_bond
resolve_challenge-minted s task fraud params =
    let closed = record s { pending_challenges = remove task s.pending_challenges } in
    resolve_challenge_cases (λ t. t.supply.minted ≡ s.supply.minted) s task params fraud refl
      (λ pc _. resolve_fraud-minted closed task (some pc.challenger) params) (λ pc _. refl)
