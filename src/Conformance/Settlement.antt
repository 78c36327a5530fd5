-- ===== src/Conformance/Settlement.antt =====
-- The settlement and the finality vectors.
pub mod HappyPath
pub mod Vector
pub mod Final
use ducp_node_rs.Common.{
  ℕ, ◌*◌, ◌^◌, Bool, true, false, ◌&&◌, ◌==◌, Option, none, some, List, [], ◌∷◌,
}
use ducp_node_rs.Common.Int.{ℤ, pos, negsuc}
use ducp_node_rs.Common.BTreeMap.{get, contains_key}
use ducp_node_rs.Types.Bytes.{Bytes, TaskId, Epoch, ucu_scale, be_bytes}
use ducp_node_rs.Types.Text.{Text, Hex, codes, to_string}
use ducp_node_rs.Types.Task.{TaskBody}
use ducp_node_rs.Types.Records.{Account, StandingRecord, Receipt, ComputeProof}
use ducp_node_rs.Types.Quant.{QLedgerEntry}
use ducp_node_rs.Types.Primitives.{Primitives, task_id, identity, content_id, hash_bytes}
use ducp_node_rs.Governance.{devnet}
use ducp_node_rs.Ledger.State.{State, genesis, state_root, check_conservation}
use ducp_node_rs.Ledger.Epoch.{advance_to_epoch}
use ducp_node_rs.Conformance.{
  ◌>>=◌, seed_1, seed_2, grant, scenario_body, scenario_proof, settle_task,
}

pub record SettlementRecord : Type 0 where
  pub state_root : Text
  pub requester : Account
  pub provider : Account
  pub provider_standing : StandingRecord
  pub receipt : Receipt
  pub q_entry : QLedgerEntry
  pub minted : Text
  pub fee_pool : Text

pub record FinalityRecord : Type 0 where
  pub epoch : Epoch
  pub provider : Account
  pub receipt : Receipt
  pub released : Bool
  pub receipt_unchanged : Bool
  pub conserved : Bool
  pub state_root : Text

module _ (p : Primitives) where
  -- The genesis, the body and the proof that the two scenarios share; `output` is what was computed.
  abbrev pub two_accounts : State
  two_accounts = genesis ((identity p seed_1, grant) ∷ (identity p seed_2, grant) ∷ []) 0

  abbrev pub happy_body : TaskBody
  happy_body =
      scenario_body (content_id p (codes "program")) (content_id p (codes "input")) (2 ^ 20)

  abbrev pub happy_proof : Bytes → ComputeProof
  happy_proof output =
      scenario_proof p (task_id p happy_body) (content_id p output) (hash_bytes p output)
        (4 * ucu_scale)

-- The text of a state's root.
abbrev pub root_text : Primitives → (State → Bytes) → Hex → State → Text
root_text p borsh h s = h.encode (be_bytes 32 (state_root p borsh s))

unfoldable pub settlement_record : Primitives → (State → Bytes) → Hex → Option SettlementRecord
unfolding settle_task
settlement_record p borsh h = do
  s ← settle_task p (two_accounts p) (happy_body p) (happy_proof p (codes "the-output"))
  requester ← get (identity p seed_1) s.accounts
  provider ← get (identity p seed_2) s.accounts
  standing ← get (identity p seed_2) s.standing
  receipt ← get (task_id p (happy_body p)) s.receipts
  q_entry ← get (task_id p (happy_body p)) s.q_ledger
  some (record {
    state_root = root_text p borsh h s;
    requester = requester;
    provider = provider;
    provider_standing = standing;
    receipt = receipt;
    q_entry = q_entry;
    minted = to_string s.supply.minted;
    fee_pool = to_string s.fee_pool;
  })

-- The derived `==` of receipts.
abbrev pub eq_int : ℤ → ℤ → Bool
eq_int (pos m) (pos n) = m == n
eq_int (negsuc m) (negsuc n) = m == n
eq_int _ _ = false

unfoldable pub eq_receipt : Receipt → Receipt → Bool
eq_receipt a b =
    (a.task == b.task)
    && (a.paid_to_provider == b.paid_to_provider)
    && (a.work_issuance == b.work_issuance)
    && (a.validator_fee == b.validator_fee)
    && eq_int a.standing_delta b.standing_delta
    && (a.settled_epoch == b.settled_epoch)
    && (a.clawback_until == b.clawback_until)

unfoldable pub finality_record : Primitives → (State → Bytes) → Hex → Option FinalityRecord
unfolding settle_task eq_receipt
finality_record p borsh h = do
  settled ← settle_task p (two_accounts p) (happy_body p) (happy_proof p (codes "out"))
  before ← get (task_id p (happy_body p)) settled.receipts
  let s = advance_to_epoch settled devnet.clawback_epochs devnet
  provider ← get (identity p seed_2) s.accounts
  receipt ← get (task_id p (happy_body p)) s.receipts
  some (record {
    epoch = s.epoch;
    provider = provider;
    receipt = receipt;
    released = contains_key (task_id p (happy_body p)) s.released;
    receipt_unchanged = eq_receipt receipt before;
    conserved = check_conservation s;
    state_root = root_text p borsh h s;
  })
