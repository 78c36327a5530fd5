-- ===== src/Ledger/Fraud.antt =====
-- Penalties for proven fraud, and the end of a challenge.
pub mod Cases
pub mod Closed
use ducp_node_rs.Common.{ℕ, ◌+◌, ◌%◌, ◌^◌, Bool, Option, none, some, min, if◌then◌else◌}
use ducp_node_rs.Common.Int.{pos}
use ducp_node_rs.Common.Words.{add_u128, sub_u128}
use ducp_node_rs.Common.BTreeMap.{get, insert, remove, contains_key}
use ducp_node_rs.Types.Bytes.{Identity, TaskId, Ucu}
use ducp_node_rs.Types.Task.{failed}
use ducp_node_rs.Types.Records.{Submission, Receipt}
use ducp_node_rs.Governance.{Params, fine, challenger_reward}
use ducp_node_rs.Ledger.Accounts.{
  Accounts, account, update, credit, debit, release_bond, slash_bond,
}
use ducp_node_rs.Ledger.State.{State, ChallengeRecord, update_standing, update_task}

-- Step 1: the payment comes back from the Provider's bond to the Requester.
unfoldable pub claw_back : State → Identity → Identity → Ucu → State
claw_back s provider requester payment =
    let recovered = min payment (account s.accounts provider).bonded in
    let slashed = update s.accounts provider (slash_bond recovered) in
    record s { accounts = update slashed requester (credit recovered) }

-- Step 2: the issuance is burned from what the Provider can spend.
unfoldable pub burn_issuance : State → Identity → Ucu → State
burn_issuance s provider issued =
    let burned = min issued (account s.accounts provider).balance in
    record s {
      accounts = update s.accounts provider (debit burned);
      supply = record s.supply { burned = add_u128 s.supply.burned burned };
    }

-- Who is paid the reward: the auditor, or the fee pool.
unfoldable pub pay_reward : State → Option Identity → Ucu → State
pay_reward s none reward = record s { fee_pool = add_u128 s.fee_pool reward }
pay_reward s (some id) reward = record s { accounts = update s.accounts id (credit reward) }

-- Step 3: the fine from the bond; the reward out of it; the rest burned.
unfoldable pub levy_fine : State → Identity → Option Identity → Ucu → Params → State
unfolding pay_reward
levy_fine s provider reward_to payment params =
    let f = fine params payment in
    let fine_avail = min f (account s.accounts provider).bonded in
    let reward = min (challenger_reward params f) fine_avail in
    let fined = record s { accounts = update s.accounts provider (slash_bond fine_avail) } in
    let paid = pay_reward fined reward_to reward in
    record paid {
      supply = record paid.supply {
        burned = add_u128 paid.supply.burned (sub_u128 fine_avail reward);
      };
    }

-- Step 4: the offender's Standing is floored, and the task marked.
unfoldable pub mark_fraud : State → Identity → TaskId → State
mark_fraud s provider task =
    let floored =
      update_standing s provider
        (λ r. record r { sp = pos 0; strikes = (r.strikes + 1) % 2 ^ 32 }) in
    update_task (record floored { slashed = insert task tt floored.slashed }) task
      (λ t. record t { status = failed })

unfoldable pub penalise :
    State → TaskId → Receipt → Identity → Identity → Option Identity → Params → State
penalise s task receipt provider requester reward_to params =
    let clawed = claw_back s provider requester receipt.paid_to_provider in
    let burnt = burn_issuance clawed provider receipt.work_issuance in
    let fined = levy_fine burnt provider reward_to receipt.paid_to_provider params in
    mark_fraud fined provider task

unfoldable pub resolve_fraud : State → TaskId → Option Identity → Params → State
resolve_fraud s task reward_to params =
    if contains_key task s.slashed then s else elim (get task s.receipts) [
      | none ↦ s
      | some receipt ↦ elim (get task s.tasks) [
        | none ↦ s
        | some sub ↦ elim sub.provider [
          | none ↦ s
          | some provider ↦ penalise s task receipt provider sub.requester reward_to params
        ]
      ]
    ]

-- The bond of a challenge that is over goes back to the challenger, or is burned.
unfoldable pub return_bond : State → ChallengeRecord → State
return_bond s pc =
    let b = min pc.bond (account s.accounts pc.challenger).bonded in
    record s { accounts = update s.accounts pc.challenger (release_bond b) }

unfoldable pub forfeit_bond : State → ChallengeRecord → State
forfeit_bond s pc =
    let b = min pc.bond (account s.accounts pc.challenger).bonded in
    record s {
      accounts = update s.accounts pc.challenger (slash_bond b);
      supply = record s.supply { burned = add_u128 s.supply.burned b };
    }

unfoldable pub resolve_challenge : State → TaskId → Bool → Params → State
resolve_challenge s task fraud params = elim (get task s.pending_challenges) [
  | none ↦ s
  | some pc ↦
      let closed = record s { pending_challenges = remove task s.pending_challenges } in
      if fraud
      then return_bond (resolve_fraud closed task (some pc.challenger) params) pc
      else forfeit_bond closed pc
]
