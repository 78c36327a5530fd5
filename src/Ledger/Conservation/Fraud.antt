-- ===== src/Ledger/Conservation/Fraud.antt =====
-- Fraud resolution and the end of a challenge keep the books balanced: what is slashed is paid to
-- somebody or burned.
use ducp_node_rs.Common.{
  ◌+◌, ◌-◌, ◌≤◌, ◌<◌, ◌≡◌, arith, min, min-le_right, Option, none, some, Bool,
}
use ducp_node_rs.Common.Words.{u128_mod, add_u128, sub_u128-exact}
use ducp_node_rs.Common.BTreeMap.{remove}
use ducp_node_rs.Types.Bytes.{Identity, TaskId, Ucu}
use ducp_node_rs.Types.Records.{Receipt}
use ducp_node_rs.Governance.{Params, fine, challenger_reward}
use ducp_node_rs.Ledger.Accounts.{account, update, slash_bond}
use ducp_node_rs.Ledger.Accounts.Held.{
  held, hold-le-held, held-credit, held-debit, held-slash_bond, held-release_bond,
}
use ducp_node_rs.Ledger.State.{State, ChallengeRecord, update_standing}
use ducp_node_rs.Ledger.Fraud.{
  claw_back, burn_issuance, pay_reward, levy_fine, mark_fraud, penalise, resolve_fraud, return_bond,
  forfeit_bond, resolve_challenge,
}
use ducp_node_rs.Ledger.Fraud.Cases.{resolve_fraud_cases, resolve_challenge_cases}
use ducp_node_rs.Ledger.Conservation.{IsConserved, update_task-IsConserved}

pub claw_back-IsConserved :
    (s : State) (provider requester : Identity) (payment : Ucu)
    → IsConserved s
    → IsConserved (claw_back s provider requester payment)
unfolding claw_back
claw_back-IsConserved s provider requester payment c =
    let recovered = min payment (account s.accounts provider).bonded in
    omega (
      arith,
      min-le_right payment (account s.accounts provider).bonded,
      held-slash_bond s.accounts provider recovered,
      held-credit (update s.accounts provider (slash_bond recovered)) requester recovered,
    )

pub burn_issuance-IsConserved :
    (s : State) (provider : Identity) (issued : Ucu)
    → IsConserved s
    → IsConserved (burn_issuance s provider issued)
unfolding burn_issuance add_u128
burn_issuance-IsConserved s provider issued c =
    let burned = min issued (account s.accounts provider).balance in
    omega (
      arith,
      min-le_right issued (account s.accounts provider).balance,
      hold-le-held s.accounts provider,
      held-debit s.accounts provider burned,
    )

-- Until the fine has been paid out, its reward and its rest are missing from the books.
pay_reward-IsConserved :
    (s : State) (to : Option Identity) (reward rest : Ucu)
    → held s.accounts + s.fee_pool + s.supply.burned + (reward + rest) ≡ s.supply.minted
    → s.supply.minted < u128_mod
    → let paid = pay_reward s to reward in
      IsConserved
        (record paid { supply = record paid.supply { burned = add_u128 paid.supply.burned rest } })
unfolding pay_reward add_u128
pay_reward-IsConserved s none reward rest e fits = omega arith
pay_reward-IsConserved s (some id) reward rest e fits =
    omega (arith, held-credit s.accounts id reward)

pub levy_fine-IsConserved :
    (s : State) (provider : Identity) (to : Option Identity) (payment : Ucu) (params : Params)
    → IsConserved s
    → IsConserved (levy_fine s provider to payment params)
unfolding levy_fine
levy_fine-IsConserved s provider to payment params c =
    let f = fine params payment in
    let bonded = (account s.accounts provider).bonded in
    let available = min f bonded in
    let reward = min (challenger_reward params f) available in
    let fits : available < u128_mod =
      omega (arith, min-le_right f bonded, hold-le-held s.accounts provider) in
    let share : reward ≤ available = min-le_right (challenger_reward params f) available in
    rw (sub_u128-exact available reward fits share) (
      pay_reward-IsConserved _ to reward (available - reward)
        (omega (arith, min-le_right f bonded, held-slash_bond s.accounts provider available))
        c.minted_fits)

pub mark_fraud-IsConserved :
    (s : State) (provider : Identity) (task : TaskId)
    → IsConserved s
    → IsConserved (mark_fraud s provider task)
unfolding mark_fraud update_standing
mark_fraud-IsConserved s provider task c =
    update_task-IsConserved _ task _ (record { balanced = c.balanced; minted_fits = c.minted_fits })

penalise-IsConserved :
    (s : State) (task : TaskId) (receipt : Receipt) (provider requester : Identity)
    (to : Option Identity) (params : Params)
    → IsConserved s
    → IsConserved (penalise s task receipt provider requester to params)
unfolding penalise
penalise-IsConserved s task receipt provider requester to params c =
    mark_fraud-IsConserved _ provider task (
      levy_fine-IsConserved _ provider to receipt.paid_to_provider params (
        burn_issuance-IsConserved _ provider receipt.work_issuance
          (claw_back-IsConserved s provider requester receipt.paid_to_provider c)))

-- Whatever the task and whoever is paid, resolving fraud keeps the books balanced.
pub resolve_fraud-IsConserved :
    (s : State) (task : TaskId) (to : Option Identity) (params : Params)
    → IsConserved s
    → IsConserved (resolve_fraud s task to params)
resolve_fraud-IsConserved s task to params c =
    resolve_fraud_cases IsConserved s task params to c λ receipt sub provider _ _ _ _.
      penalise-IsConserved s task receipt provider sub.requester to params c

pub return_bond-IsConserved :
    (s : State) (pc : ChallengeRecord) → IsConserved s → IsConserved (return_bond s pc)
unfolding return_bond
return_bond-IsConserved s pc c =
    let b = min pc.bond (account s.accounts pc.challenger).bonded in
    omega (
      arith,
      min-le_right pc.bond (account s.accounts pc.challenger).bonded,
      held-release_bond s.accounts pc.challenger b,
    )

pub forfeit_bond-IsConserved :
    (s : State) (pc : ChallengeRecord) → IsConserved s → IsConserved (forfeit_bond s pc)
unfolding forfeit_bond add_u128
forfeit_bond-IsConserved s pc c =
    let b = min pc.bond (account s.accounts pc.challenger).bonded in
    omega (
      arith,
      min-le_right pc.bond (account s.accounts pc.challenger).bonded,
      held-slash_bond s.accounts pc.challenger b,
    )

-- A challenge that ends, either way, keeps the books balanced.
pub resolve_challenge-IsConserved :
    (s : State) (task : TaskId) (fraud : Bool) (params : Params)
    → IsConserved s
    → IsConserved (resolve_challenge s task fraud params)
resolve_challenge-IsConserved s task fraud params c =
    let closed : IsConserved (record s { pending_challenges = remove task s.pending_challenges }) =
      record { balanced = c.balanced; minted_fits = c.minted_fits } in
    resolve_challenge_cases IsConserved s task params fraud c
      (λ pc _.
        return_bond-IsConserved _ pc
          (resolve_fraud-IsConserved _ task (some pc.challenger) params closed))
      (λ pc _. forfeit_bond-IsConserved _ pc closed)
