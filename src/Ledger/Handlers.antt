-- ===== src/Ledger/Handlers.antt =====
-- The handlers of the five transactions. Each ends in the state that it commits, which is a
-- function of its own; the guards above it are those of the source, in order.
use ducp_node_rs.Common.{Bool, true, ◌||◌, not, Option, none, some, ◌==◌, ltb}
use ducp_node_rs.Common.Words.{add_u128, sub_u128, checked_add_u128, add_u64}
use ducp_node_rs.Common.Int.{add_i128}
use ducp_node_rs.Common.BTreeMap.{get, insert, contains_key}
use ducp_node_rs.Types.Reject.{
  Result, ok, invalid, insufficient_balance, unknown_task, bad_status, deadline_passed,
  wrong_provider, ucu_exceeds_limit, benchmark_mismatch, not_in_clawback_window, bond_too_small,
  ◌>>=◌, ◌>>◌, reject_if, ok_or,
}
use ducp_node_rs.Types.Bytes.{Identity, TaskId, Ucu}
use ducp_node_rs.Types.Task.{
  TaskBody, eq_ir, eq_tier, eq_status, wasm, sampled_reexec, submitted, executing, verified,
  settled,
}
use ducp_node_rs.Types.Quant.{unmeasured}
use ducp_node_rs.Types.Records.{Submission, ComputeProof, Receipt}
use ducp_node_rs.Types.Primitives.{Primitives, task_id}
use ducp_node_rs.Governance.{Params, fee, issuance, standing_accrual, claim_stake, bond_min}
use ducp_node_rs.Ledger.Accounts.{
  account, update, credit, debit, lock_escrow, drain_escrow, lock_bond,
}
use ducp_node_rs.Ledger.State.{State, standing_of, update_standing, update_task}

-- The state after a submission whose guards passed.
unfoldable pub accept_submission : State → Identity → TaskId → TaskBody → Ucu → Ucu → State
accept_submission s requester task body task_fee need = record s {
  accounts = update s.accounts requester (lock_escrow need);
  bodies = insert task body s.bodies;
  tasks =
      insert task
        (record {
          task = task;
          requester = requester;
          ucu_count = 0;
          fee = task_fee;
          status = submitted;
          provider = none;
          claim_stake = 0;
        })
        s.tasks;
}

unfoldable pub submit_task : Primitives → State → Identity → TaskBody → Params → Result State
submit_task p s requester body params = do
  reject_if (not (eq_ir body.ir wasm) || not (eq_tier body.tier sampled_reexec)) invalid
  let task = task_id p body
  reject_if (contains_key task s.tasks) invalid
  let max_ucu = body.limits.max_ucu
  let task_fee = fee params max_ucu
  need ← ok_or (checked_add_u128 max_ucu task_fee) invalid
  reject_if (ltb (account s.accounts requester).balance need) insufficient_balance
  ok (accept_submission s requester task body task_fee need)

unfoldable pub accept_claim : State → Identity → TaskId → Ucu → State
accept_claim s provider task stake =
    update_task (record s { accounts = update s.accounts provider (lock_bond stake) }) task
      (λ sub. record sub { provider = some provider; status = executing; claim_stake = stake })

unfoldable pub claim_task : State → Identity → TaskId → Params → Result State
claim_task s provider task params = do
  body ← ok_or (get task s.bodies) unknown_task
  sub ← ok_or (get task s.tasks) unknown_task
  reject_if (not (eq_status sub.status submitted)) bad_status
  reject_if (ltb body.deadline s.epoch) deadline_passed
  let stake = claim_stake params body.limits.max_ucu (standing_of s provider)
  reject_if (ltb (account s.accounts provider).balance stake) insufficient_balance
  ok (accept_claim s provider task stake)

-- Steps 1 to 4 of `settle`: the escrow is drained, the Provider is paid, and the issuance minted.
unfoldable pub settle_money : State → TaskBody → Submission → ComputeProof → Params → State
settle_money s body sub proof params =
    let max_ucu = body.limits.max_ucu in
    let u = proof.ucu_count in
    let w = issuance params u in
    let drained =
      update s.accounts sub.requester
        (drain_escrow (add_u128 max_ucu sub.fee) (sub_u128 max_ucu u)) in
    let paid = update drained proof.provider (credit u) in
    record s {
      accounts = update paid proof.provider (credit w);
      fee_pool = add_u128 s.fee_pool sub.fee;
      supply = record s.supply { minted = add_u128 s.supply.minted w };
    }

unfoldable pub receipt_of : State → Submission → ComputeProof → Params → Receipt
receipt_of s sub proof params =
    let u = proof.ucu_count in
    record {
      task = proof.task;
      paid_to_provider = u;
      work_issuance = issuance params u;
      validator_fee = sub.fee;
      standing_delta = standing_accrual params u params.efficiency_mult_ppm;
      settled_epoch = s.epoch;
      clawback_until = add_u64 s.epoch params.clawback_epochs;
    }

-- Steps 5 to 7 and the entry of the ledger of pairs.
unfoldable pub settle_records : State → TaskBody → Submission → ComputeProof → Params → State
settle_records s body sub proof params =
    let receipt = receipt_of s sub proof params in
    let accrued =
      update_standing s proof.provider
        (λ r. record r { sp = add_i128 r.sp receipt.standing_delta }) in
    let written = record accrued { receipts = insert proof.task receipt s.receipts } in
    let final = update_task written proof.task (λ t. record t { status = settled }) in
    record final {
      q_ledger =
          insert proof.task (unmeasured proof.task proof.ucu_count body.benchmark) s.q_ledger;
    }

unfoldable pub settle : State → TaskBody → Submission → ComputeProof → Params → State
settle s body sub proof params =
    settle_records (settle_money s body sub proof params) body sub proof params

-- The state after a proof whose guards passed: recorded, marked verified, then settled.
unfoldable pub record_proof : State → ComputeProof → State
record_proof s proof =
    update_task (record s { proofs = insert proof.task proof s.proofs }) proof.task
      (λ t. record t { status = verified; ucu_count = proof.ucu_count })

-- `a != Some(b)` on an optional identity
abbrev pub is_not : Option Identity → Identity → Bool
is_not none b = true
is_not (some a) b = not (a == b)

unfoldable pub submit_proof : State → Identity → ComputeProof → Params → Result State
submit_proof s author proof params = do
  body ← ok_or (get proof.task s.bodies) unknown_task
  sub ← ok_or (get proof.task s.tasks) unknown_task
  reject_if (not (eq_status sub.status executing)) bad_status
  reject_if (is_not sub.provider author || not (proof.provider == author)) wrong_provider
  reject_if (ltb body.limits.max_ucu proof.ucu_count) ucu_exceeds_limit
  reject_if (not (proof.benchmark == body.benchmark)) benchmark_mismatch
  ok (settle (record_proof s proof) body sub proof params)

unfoldable pub accept_challenge : State → Identity → TaskId → Ucu → State
accept_challenge s challenger task bond = record s {
  accounts = update s.accounts challenger (lock_bond bond);
  pending_challenges =
      insert task (record { challenger = challenger; bond = bond }) s.pending_challenges;
}

unfoldable pub open_challenge : State → Identity → TaskId → Ucu → Params → Result State
open_challenge s challenger task bond params = do
  receipt ← ok_or (get task s.receipts) unknown_task
  sub ← ok_or (get task s.tasks) unknown_task
  reject_if (not (eq_status sub.status settled)) bad_status
  reject_if (ltb receipt.clawback_until s.epoch) not_in_clawback_window
  reject_if (contains_key task s.slashed || contains_key task s.pending_challenges) invalid
  reject_if (ltb bond (bond_min params receipt.paid_to_provider)) bond_too_small
  reject_if (ltb (account s.accounts challenger).balance bond) insufficient_balance
  ok (accept_challenge s challenger task bond)

unfoldable pub transfer : State → Identity → Identity → Ucu → Result State
transfer s from to amount = do
  reject_if (ltb (account s.accounts from).balance amount) insufficient_balance
  let paid = update s.accounts from (debit amount)
  ok (record s { accounts = update paid to (credit amount) })
