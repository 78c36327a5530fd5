-- ===== src/Node/Rpc/Published.antt =====
-- The errors that clients of the JSON-RPC interface meet, by number and text.
use ducp_node_rs.Common.{◌≡◌, refl}
use ducp_node_rs.Common.Int.{ℤ, negsuc}
use ducp_node_rs.Types.Reject.{
  Reject, bad_signature, bad_nonce, unknown_account, unknown_task, insufficient_balance, bad_status,
  deadline_passed, already_claimed, wrong_provider, ucu_exceeds_limit, benchmark_mismatch,
  not_in_clawback_window, bond_too_small, unsupported_feature, conservation_violated, invalid,
}
use ducp_node_rs.Types.Text.{Text, codes}
use ducp_node_rs.Node.{code_offset, reject_code}
use ducp_node_rs.Node.Rpc.{ErrorObject, reject_message, reject_err, invalid_params}

-- An error of this code and this text.
abbrev numbered : ℤ → Text → ErrorObject
numbered code text = record { code = code; message = text }

-- The table of the ledger's reasons: -32001 for a bad signature, and so on down to -32016.
abbrev pub published : Reject → ErrorObject
published bad_signature = numbered (negsuc 32_000) (codes "bad signature")
published bad_nonce = numbered (negsuc 32_001) (codes "bad nonce")
published unknown_account = numbered (negsuc 32_002) (codes "unknown account")
published unknown_task = numbered (negsuc 32_003) (codes "unknown task")
published insufficient_balance = numbered (negsuc 32_004) (codes "insufficient balance")
published bad_status = numbered (negsuc 32_005) (codes "task not in required status")
published deadline_passed = numbered (negsuc 32_006) (codes "deadline passed")
published already_claimed = numbered (negsuc 32_007) (codes "task already claimed")
published wrong_provider = numbered (negsuc 32_008) (codes "wrong provider")
published ucu_exceeds_limit = numbered (negsuc 32_009) (codes "ucu_count exceeds declared limit")
published benchmark_mismatch = numbered (negsuc 32_010) (codes "benchmark mismatch")
published not_in_clawback_window = numbered (negsuc 32_011) (codes "not within clawback window")
published bond_too_small = numbered (negsuc 32_012) (codes "challenge bond below minimum")
published unsupported_feature = numbered (negsuc 32_013) (codes "unsupported wasm feature")
published conservation_violated = numbered (negsuc 32_014) (codes "ledger conservation violated")
published invalid = numbered (negsuc 32_015) (codes "invalid transaction")

-- A call with a transaction of the wrong kind: the code -32602 of JSON-RPC's invalid parameters.
abbrev pub published_invalid : Text → ErrorObject
published_invalid text = numbered (negsuc 32_601) text

-- The node's errors are those of the table.
pub reject_err-published : (r : Reject) → reject_err r ≡ published r
unfolding reject_err reject_code code_offset reject_message
reject_err-published bad_signature = refl
reject_err-published bad_nonce = refl
reject_err-published unknown_account = refl
reject_err-published unknown_task = refl
reject_err-published insufficient_balance = refl
reject_err-published bad_status = refl
reject_err-published deadline_passed = refl
reject_err-published already_claimed = refl
reject_err-published wrong_provider = refl
reject_err-published ucu_exceeds_limit = refl
reject_err-published benchmark_mismatch = refl
reject_err-published not_in_clawback_window = refl
reject_err-published bond_too_small = refl
reject_err-published unsupported_feature = refl
reject_err-published conservation_violated = refl
reject_err-published invalid = refl

pub invalid_params-published : (text : Text) → invalid_params text ≡ published_invalid text
unfolding invalid_params
invalid_params-published text = refl
