-- ===== src/Node/Rpc.antt =====
-- What the JSON-RPC interface of a node answers with, ducp-node/src/lib.rs: the error objects, the
-- views of the state, and the parsing of hexadecimal arguments. The calls are in Rpc.Calls.
pub mod Published
pub mod Calls
pub mod Answers
pub mod Disputes
pub mod Reads
use ducp_node_rs.Common.{ℕ, Bool, Option, none, some, ◌++◌}
use ducp_node_rs.Common.Int.{ℤ, negsuc}
use ducp_node_rs.Common.BTreeMap.{get}
use ducp_node_rs.Types.Bytes.{Bytes, Hash, Identity, TaskId, to_array, be_bytes}
use ducp_node_rs.Types.Reject.{
  Reject, bad_signature, bad_nonce, unknown_account, unknown_task, insufficient_balance, bad_status,
  deadline_passed, already_claimed, wrong_provider, ucu_exceeds_limit, benchmark_mismatch,
  not_in_clawback_window, bond_too_small, unsupported_feature, conservation_violated, invalid,
}
use ducp_node_rs.Types.Task.{TaskStatus, submitted, matched, executing, verified, settled, failed}
use ducp_node_rs.Types.Quant.{QLedgerEntry}
use ducp_node_rs.Types.Records.{Receipt, Submission}
use ducp_node_rs.Types.Text.{Text, Hex, codes, to_string, to_string_i128, strip_0x}
use ducp_node_rs.Ledger.State.{state_root}
use ducp_node_rs.Node.{NodeInner, Config, account_of, reject_code}

-- `ErrorObjectOwned`, without data.
pub record ErrorObject : Type 0 where
  pub code : ℤ
  pub message : Text

pub data RpcResult {ℓ} (T : Type ℓ) : Type ℓ where
  answer : T → RpcResult T
  refusal : ErrorObject → RpcResult T

-- `to_string` of a reason.
unfoldable pub reject_message : Reject → Text
reject_message bad_signature = codes "bad signature"
reject_message bad_nonce = codes "bad nonce"
reject_message unknown_account = codes "unknown account"
reject_message unknown_task = codes "unknown task"
reject_message insufficient_balance = codes "insufficient balance"
reject_message bad_status = codes "task not in required status"
reject_message deadline_passed = codes "deadline passed"
reject_message already_claimed = codes "task already claimed"
reject_message wrong_provider = codes "wrong provider"
reject_message ucu_exceeds_limit = codes "ucu_count exceeds declared limit"
reject_message benchmark_mismatch = codes "benchmark mismatch"
reject_message not_in_clawback_window = codes "not within clawback window"
reject_message bond_too_small = codes "challenge bond below minimum"
reject_message unsupported_feature = codes "unsupported wasm feature"
reject_message conservation_violated = codes "ledger conservation violated"
reject_message invalid = codes "invalid transaction"

unfoldable pub reject_err : Reject → ErrorObject
reject_err r = record { code = reject_code r; message = reject_message r }

-- `invalid`, with the code -32602.
unfoldable pub invalid_params : Text → ErrorObject
invalid_params msg = record { code = negsuc 32_601; message = msg }

-- The code is -32004.
unfoldable pub not_found : Text → ErrorObject
not_found what = record { code = negsuc 32_003; message = what ++ codes " not found" }

-- `.ok_or_else(|| not_found(what))`
unfoldable pub found_or {ℓ} : {T : Type ℓ} → Option T → Text → RpcResult T
unfolding not_found
found_or none what = refusal (not_found what)
found_or (some v) what = answer v

module _ (h : Hex) where
  unfoldable pub parse_hex : Text → RpcResult Bytes
  unfolding invalid_params
  parse_hex s = elim (h.decode (strip_0x s)) [
    | none ↦ refusal (invalid_params (codes "bad hex: " ++ h.decode_error (strip_0x s)))
    | some bytes ↦ answer bytes
  ]

  unfoldable pub parse_hash : Text → RpcResult Hash
  unfolding parse_hex invalid_params
  parse_hash s = elim (parse_hex s) [
    | refusal e ↦ refusal e
    | answer v ↦ elim (to_array 32 v) [
      | none ↦ refusal (invalid_params (codes "expected 32-byte hex"))
      | some hash ↦ answer hash
    ]
  ]

pub record SubmitTaskResp : Type 0 where
  pub task_id : Text
  pub escrowed : Text

pub record ClaimResp : Type 0 where
  pub ok : Bool
  pub claim_stake : Text

pub record OkResp : Type 0 where
  pub ok : Bool

pub record EstimateResp : Type 0 where
  pub ucu : Text

pub record PutBlobResp : Type 0 where
  pub content_id : Text

pub record GetBlobResp : Type 0 where
  pub data' : Text

pub record AccountView : Type 0 where
  pub balance : Text
  pub escrowed : Text
  pub bonded : Text

pub record StandingView : Type 0 where
  pub sp : Text
  pub strikes : ℕ

pub record HeadView : Type 0 where
  pub height : ℕ
  pub state_root : Text
  pub epoch : ℕ

pub record TaskView : Type 0 where
  pub submission : Submission
  pub status : Text
  pub receipt : Option Receipt
  pub q_entry : Option QLedgerEntry

-- `format!("{:?}", status)`
unfoldable pub status_name : TaskStatus → Text
status_name submitted = codes "Submitted"
status_name matched = codes "Matched"
status_name executing = codes "Executing"
status_name verified = codes "Verified"
status_name settled = codes "Settled"
status_name failed = codes "Failed"

unfoldable pub account_view : NodeInner → Identity → AccountView
account_view inner id =
    let a = account_of inner id in
    record {
      balance = to_string a.balance;
      escrowed = to_string a.escrowed;
      bonded = to_string a.bonded;
    }

unfoldable pub standing_view : NodeInner → Identity → StandingView
standing_view inner id = elim (get id inner.state.standing) [
  | some s ↦ record { sp = to_string_i128 s.sp; strikes = s.strikes }
  | none ↦ record { sp = codes "0"; strikes = 0 }
]

unfoldable pub head : Config → Hex → NodeInner → HeadView
head c h inner = record {
  height = inner.sequencer.height;
  state_root = h.encode (be_bytes 32 (state_root c.primitives c.borsh_state inner.state));
  epoch = inner.sequencer.epoch;
}

unfoldable pub task_view : NodeInner → TaskId → Option TaskView
unfolding status_name
task_view inner task = elim (get task inner.state.tasks) [
  | none ↦ none
  | some submission ↦ some (record {
    submission = submission;
    status = status_name submission.status;
    receipt = get task inner.state.receipts;
    q_entry = get task inner.state.q_ledger;
  })
]
