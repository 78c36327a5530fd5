-- ===== src/Tests/History.antt =====
-- The history: a task is submitted, claimed, proved, challenged and audited.
use ducp_node_rs.Common.{true, false, ◌≡◌, refl, some}
use ducp_node_rs.Types.Task.{executing, settled}
use ducp_node_rs.Types.Records.{Submission}
use ducp_node_rs.Types.Quant.{unmeasured}
use ducp_node_rs.Types.Bytes.{TaskId, be_bytes, le_bytes}
use ducp_node_rs.Common.BTreeMap.{get, insert, contains_key}
use ducp_node_rs.Common.BTreeMap.Laws.{IsSorted}
use ducp_node_rs.Common.Words.{add_u128, sub_u128, mul_u128, add_u64, checked_add_u128}
use ducp_node_rs.Common.Int.{to_i128, add_i128}
use ducp_node_rs.Types.Reject.{ok}
use ducp_node_rs.Types.Tx
use ducp_node_rs.Types.Tx.{SignedTx}
use ducp_node_rs.Types.Primitives.{
  task_id, sign, hash_canonical, hash_bytes, verify_sig, verify, signing_payload,
}
use ducp_node_rs.Governance.{
  devnet, fee, issuance, standing_accrual, claim_stake, stake_base, discount_reduction_ppm,
  bond_min,
}
use ducp_node_rs.Ledger.Accounts.{account, update, credit, lock_escrow, drain_escrow, lock_bond}
use ducp_node_rs.Ledger.Handlers.{
  submit_task, accept_submission, claim_task, accept_claim, submit_proof, settle, settle_money,
  settle_records, receipt_of, record_proof, open_challenge, accept_challenge,
}
use ducp_node_rs.Ledger.State.{
  State, genesis, allocate, check_and_bump_nonce, update_task, update_standing, standing_of,
}
use ducp_node_rs.Ledger.Apply.{apply, dispatch}
use ducp_node_rs.Tests.{toy, allocations, body, proof_of, state_or}

abbrev pub task : TaskId
task = task_id toy body

abbrev pub submission : SignedTx
submission = sign toy 1 (Tx.submit_task body) 0

abbrev pub claim : SignedTx
claim = sign toy 2 (Tx.claim_task task) 0

abbrev pub proof : SignedTx
proof = sign toy 2 (Tx.submit_proof (proof_of task)) 1

abbrev pub dispute : SignedTx
dispute = sign toy 3 (Tx.challenge task 200_000) 0

abbrev pub s0 : State
s0 = genesis allocations 0

abbrev pub s1 : State
s1 = state_or s0 (apply toy s0 submission devnet)

abbrev pub s2 : State
s2 = state_or s1 (apply toy s1 claim devnet)

abbrev pub s3 : State
s3 = state_or s2 (apply toy s2 proof devnet)

abbrev pub s4 : State
s4 = state_or s3 (apply toy s3 dispute devnet)

-- The history runs: every transaction is accepted, and what the proof mints fits.
pub runs :
    (apply toy s0 submission devnet ≡ ok s1)
    × (apply toy s1 claim devnet ≡ ok s2)
    × (apply toy s2 proof devnet ≡ ok s3)
    × (apply toy s3 dispute devnet ≡ ok s4)
unfolding apply dispatch submit_task accept_submission check_and_bump_nonce update_task update
    account genesis allocate get insert sign task_id hash_canonical hash_bytes verify_sig verify
    signing_payload be_bytes le_bytes add_u128 sub_u128 mul_u128 add_u64 checked_add_u128 fee
    lock_escrow credit claim_task accept_claim claim_stake standing_of stake_base
    discount_reduction_ppm lock_bond submit_proof settle settle_money settle_records receipt_of
    record_proof issuance standing_accrual drain_escrow update_standing to_i128 add_i128 unmeasured
    open_challenge accept_challenge bond_min
runs = (refl, refl, refl, refl)

-- What the supply holds, and what a proof of this work mints.
pub supplies :
    (s0.supply.minted ≡ 20_000_000)
    × (s1.supply.minted ≡ 20_000_000)
    × (s2.supply.minted ≡ 20_000_000)
    × (s3.supply.minted ≡ 20_008_000)
    × (issuance devnet 800_000 ≡ 8_000)
unfolding apply dispatch submit_task accept_submission check_and_bump_nonce update_task update
    account genesis allocate get insert sign task_id hash_canonical hash_bytes verify_sig verify
    signing_payload be_bytes le_bytes add_u128 sub_u128 mul_u128 add_u64 checked_add_u128 fee
    lock_escrow credit claim_task accept_claim claim_stake standing_of stake_base
    discount_reduction_ppm lock_bond submit_proof settle settle_money settle_records receipt_of
    record_proof issuance standing_accrual drain_escrow update_standing to_i128 add_i128 unmeasured
supplies = (refl, refl, refl, refl, refl)

-- The task as it is executing, and the state that its proof settles.
abbrev pub executing_sub : Submission
executing_sub = record {
  task = task;
  requester = 1;
  ucu_count = 0;
  fee = 1_000;
  status = executing;
  provider = some 2;
  claim_stake = 500_000;
}

abbrev pub settled_s2 : State
settled_s2 = state_or s2 (submit_proof s2 2 (proof_of task) devnet)

pub tables :
    (get task s2.bodies ≡ some body)
    × (get task s2.tasks ≡ some executing_sub)
    × (submit_proof s2 2 (proof_of task) devnet ≡ ok settled_s2)
unfolding apply dispatch submit_task accept_submission check_and_bump_nonce update_task update
    account genesis allocate get insert sign task_id hash_canonical hash_bytes verify_sig verify
    signing_payload be_bytes le_bytes add_u128 sub_u128 mul_u128 add_u64 checked_add_u128 fee
    lock_escrow credit claim_task accept_claim claim_stake standing_of stake_base
    discount_reduction_ppm lock_bond submit_proof settle settle_money settle_records receipt_of
    record_proof issuance standing_accrual drain_escrow update_standing to_i128 add_i128 unmeasured
    open_challenge accept_challenge bond_min
tables = (refl, refl, refl)

pub paid : get task s3.receipts ≡ some (receipt_of s2 executing_sub (proof_of task) devnet)
unfolding apply dispatch submit_task accept_submission check_and_bump_nonce update_task update
    account genesis allocate get insert sign task_id hash_canonical hash_bytes verify_sig verify
    signing_payload be_bytes le_bytes add_u128 sub_u128 mul_u128 add_u64 checked_add_u128 fee
    lock_escrow credit claim_task accept_claim claim_stake standing_of stake_base
    discount_reduction_ppm lock_bond submit_proof settle settle_money settle_records receipt_of
    record_proof issuance standing_accrual drain_escrow update_standing to_i128 add_i128 unmeasured
    open_challenge accept_challenge bond_min
paid = refl

-- The state with the challenge open.
pub open_after :
    (s4.epoch ≡ 0)
    × (get task s4.bodies ≡ some body)
    × (contains_key task s4.pending_challenges ≡ true)
unfolding apply dispatch submit_task accept_submission check_and_bump_nonce update_task update
    account genesis allocate get insert sign task_id hash_canonical hash_bytes verify_sig verify
    signing_payload be_bytes le_bytes add_u128 sub_u128 mul_u128 add_u64 checked_add_u128 fee
    lock_escrow credit claim_task accept_claim claim_stake standing_of stake_base
    discount_reduction_ppm lock_bond submit_proof settle settle_money settle_records receipt_of
    record_proof issuance standing_accrual drain_escrow update_standing to_i128 add_i128 unmeasured
    open_challenge accept_challenge bond_min
open_after = (refl, refl, refl)

-- The task is listed there, and the open challenges are in order.
pub listed_s4 : (contains_key task s4.tasks ≡ true) × IsSorted s4.pending_challenges
unfolding apply dispatch submit_task accept_submission check_and_bump_nonce update_task update
    account genesis allocate get insert sign task_id hash_canonical hash_bytes verify_sig verify
    signing_payload be_bytes le_bytes add_u128 sub_u128 mul_u128 add_u64 checked_add_u128 fee
    lock_escrow credit claim_task accept_claim claim_stake standing_of stake_base
    discount_reduction_ppm lock_bond submit_proof settle settle_money settle_records receipt_of
    record_proof issuance standing_accrual drain_escrow update_standing to_i128 add_i128 unmeasured
    open_challenge accept_challenge bond_min
listed_s4 = (refl, tt)

-- No challenge is open before the dispute.
pub ordered_s3 : IsSorted s3.pending_challenges
unfolding apply dispatch submit_task accept_submission check_and_bump_nonce update_task update
    account genesis allocate get insert sign task_id hash_canonical hash_bytes verify_sig verify
    signing_payload be_bytes le_bytes add_u128 sub_u128 mul_u128 add_u64 checked_add_u128 fee
    lock_escrow credit claim_task accept_claim claim_stake standing_of stake_base
    discount_reduction_ppm lock_bond submit_proof settle settle_money settle_records receipt_of
    record_proof issuance standing_accrual drain_escrow update_standing to_i128 add_i128 unmeasured
    open_challenge accept_challenge bond_min
ordered_s3 = tt

-- The task once it is settled.
abbrev pub settled_task : Submission
settled_task = record executing_sub { ucu_count = 800_000; status = settled }

pub settled_after :
    (contains_key task s4.slashed ≡ false)
    × (get task s4.receipts ≡ some (receipt_of s2 executing_sub (proof_of task) devnet))
    × (get task s4.tasks ≡ some settled_task)
unfolding apply dispatch submit_task accept_submission check_and_bump_nonce update_task update
    account genesis allocate get insert sign task_id hash_canonical hash_bytes verify_sig verify
    signing_payload be_bytes le_bytes add_u128 sub_u128 mul_u128 add_u64 checked_add_u128 fee
    lock_escrow credit claim_task accept_claim claim_stake standing_of stake_base
    discount_reduction_ppm lock_bond submit_proof settle settle_money settle_records receipt_of
    record_proof issuance standing_accrual drain_escrow update_standing to_i128 add_i128 unmeasured
    open_challenge accept_challenge bond_min
settled_after = (refl, refl, refl)

-- The settled state: the task's entry, no mark, the epoch, and the epoch at which it was claimed.
pub settled_s3 :
    (get task s3.tasks ≡ some settled_task)
    × (contains_key task s3.slashed ≡ false)
    × (s3.epoch ≡ 0)
    × (s2.epoch ≡ 0)
    × (contains_key task s3.released ≡ false)
unfolding apply dispatch submit_task accept_submission check_and_bump_nonce update_task update
    account genesis allocate get insert sign task_id hash_canonical hash_bytes verify_sig verify
    signing_payload be_bytes le_bytes add_u128 sub_u128 mul_u128 add_u64 checked_add_u128 fee
    lock_escrow credit claim_task accept_claim claim_stake standing_of stake_base
    discount_reduction_ppm lock_bond submit_proof settle settle_money settle_records receipt_of
    record_proof issuance standing_accrual drain_escrow update_standing to_i128 add_i128 unmeasured
    open_challenge accept_challenge bond_min
settled_s3 = (refl, refl, refl, refl, refl)
