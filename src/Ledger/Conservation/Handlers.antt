-- ===== src/Ledger/Conservation/Handlers.antt =====
-- The states that the handlers commit keep the books balanced.
use ducp_node_rs.Common.{◌+◌, ◌-◌, ◌≤◌, ◌<◌, arith}
use ducp_node_rs.Common.Words.{u128_mod, add_u128-exact, sub_u128-exact}
use ducp_node_rs.Types.Bytes.{Identity, TaskId, Ucu}
use ducp_node_rs.Types.Task.{TaskBody}
use ducp_node_rs.Types.Records.{Submission, ComputeProof}
use ducp_node_rs.Governance.{Params, issuance}
use ducp_node_rs.Ledger.Accounts.{account, update, credit, debit, drain_escrow}
use ducp_node_rs.Ledger.Accounts.Held.{
  hold-le-held, held-credit, held-debit, held-lock_escrow, held-drain_escrow, held-lock_bond,
}
use ducp_node_rs.Ledger.State.{State}
use ducp_node_rs.Ledger.Handlers.{accept_submission, accept_claim, settle_money, accept_challenge}
use ducp_node_rs.Ledger.Settled.{IsSettled}
use ducp_node_rs.Ledger.Conservation.{IsConserved, update_task-IsConserved}

pub accept_submission-IsConserved :
    (s : State) (requester : Identity) (task : TaskId) (body : TaskBody) (task_fee need : Ucu)
    → IsConserved s
    → need ≤ (account s.accounts requester).balance
    → IsConserved (accept_submission s requester task body task_fee need)
unfolding accept_submission
accept_submission-IsConserved s requester task body task_fee need c h =
    omega (arith, held-lock_escrow s.accounts requester need)

pub accept_claim-IsConserved :
    (s : State) (provider : Identity) (task : TaskId) (stake : Ucu)
    → IsConserved s
    → stake ≤ (account s.accounts provider).balance
    → IsConserved (accept_claim s provider task stake)
unfolding accept_claim
accept_claim-IsConserved s provider task stake c h =
    update_task-IsConserved _ task _ (omega (arith, held-lock_bond s.accounts provider stake))

pub accept_challenge-IsConserved :
    (s : State) (challenger : Identity) (task : TaskId) (bond : Ucu)
    → IsConserved s
    → bond ≤ (account s.accounts challenger).balance
    → IsConserved (accept_challenge s challenger task bond)
unfolding accept_challenge
accept_challenge-IsConserved s challenger task bond c h =
    omega (arith, held-lock_bond s.accounts challenger bond)

pub transferred-IsConserved :
    (s : State) (from to : Identity) (amount : Ucu)
    → IsConserved s
    → amount ≤ (account s.accounts from).balance
    → IsConserved
        (record s { accounts = update (update s.accounts from (debit amount)) to (credit amount) })
transferred-IsConserved s from to amount c h =
    let paid = update s.accounts from (debit amount) in
    omega (arith, held-debit s.accounts from amount, held-credit paid to amount)

module _ (s : State) (body : TaskBody) (sub : Submission) (proof : ComputeProof) (params : Params)
    (c : IsConserved s)
    (escrowed : body.limits.max_ucu + sub.fee ≤ (account s.accounts sub.requester).escrowed)
    (within : proof.ucu_count ≤ body.limits.max_ucu)
    (mint_fits : s.supply.minted + issuance params proof.ucu_count < u128_mod) where
  ceiling_fits : body.limits.max_ucu + sub.fee + s.fee_pool < u128_mod
  ceiling_fits = omega (arith, hold-le-held s.accounts sub.requester)

  pub settle_money-IsConserved : IsConserved (settle_money s body sub proof params)
  unfolding settle_money
  settle_money-IsConserved =
      let max_ucu = body.limits.max_ucu in
      let u = proof.ucu_count in
      let w = issuance params u in
      let drained =
        update s.accounts sub.requester (drain_escrow (max_ucu + sub.fee) (max_ucu - u)) in
      let paid = update drained proof.provider (credit u) in
      rw
        (
          add_u128-exact max_ucu sub.fee (omega (arith, ceiling_fits)),
          sub_u128-exact max_ucu u (omega (arith, ceiling_fits)) within,
          add_u128-exact s.fee_pool sub.fee (omega (arith, ceiling_fits)),
          add_u128-exact s.supply.minted w mint_fits,
        )
        (omega (
          arith,
          ceiling_fits,
          hold-le-held s.accounts sub.requester,
          held-drain_escrow s.accounts sub.requester (max_ucu + sub.fee) (max_ucu - u),
          held-credit drained proof.provider u,
          held-credit paid proof.provider w,
        ))

  pub settled-IsConserved :
      (after : State) → IsSettled s body sub proof params after → IsConserved after
  settled-IsConserved after e = record {
    balanced = rw (e.accounts, e.fee_pool, e.supply) settle_money-IsConserved.balanced;
    minted_fits = rw e.supply settle_money-IsConserved.minted_fits;
  }
