-- ===== src/Conformance/Settlement/Vector.antt =====
-- The amounts of the settlement vector, as they are published in
-- test-vectors/settlement/happy_path.json.
use ducp_node_rs.Common.{◌*◌, ◌≡◌, ◌≢◌, refl, ap, ◌∙◌, arith, some}
use ducp_node_rs.Common.Int.{pos, add_i128}
use ducp_node_rs.Common.Words.{add_u64}
use ducp_node_rs.Common.BTreeMap.{get}
use ducp_node_rs.Types.Bytes.{Bytes, ucu_scale}
use ducp_node_rs.Types.Text.{Hex, codes, to_string, digits}
use ducp_node_rs.Types.Quant.{unmeasured}
use ducp_node_rs.Types.Records.{Receipt}
use ducp_node_rs.Types.Primitives.{Primitives, SignsCorrectly, identity, task_id}
use ducp_node_rs.Governance.{devnet, claim_stake}
use ducp_node_rs.Ledger.Accounts.{account}
use ducp_node_rs.Ledger.State.{State, genesis, standing_of}
use ducp_node_rs.Ledger.Handlers.{receipt_of}
use ducp_node_rs.Ledger.Lifecycle.{taken}
use ducp_node_rs.Ledger.Lifecycle.Entries.{s3-entries, accrued}
use ducp_node_rs.Conformance.{seed_1, seed_2}
use ducp_node_rs.Conformance.Settlement.{
  SettlementRecord, two_accounts, happy_body, happy_proof, root_text, settlement_record,
}
use ducp_node_rs.Conformance.Settlement.HappyPath.{
  rates, granted, happy_end, happy-IsHonest, happy-settle_task, happy-Completes,
  two_accounts-supply,
}

-- The published receipt.
abbrev pub published_receipt : Primitives → Receipt
published_receipt p = record {
  task = task_id p (happy_body p);
  paid_to_provider = 4_000_000_000;
  work_issuance = 40_000_000;
  validator_fee = 10_000_000;
  standing_delta = pos 4_000_000_000;
  settled_epoch = 0;
  clawback_until = 32;
}

-- The amounts of the vector.
pub record IsPublished (p : Primitives) (r : SettlementRecord) : Type 0 where
  pub spent : r.requester.balance ≡ 95_990_000_000
  pub unlocked : r.requester.escrowed ≡ 0
  pub earned : r.provider.balance ≡ 99_040_000_000
  pub bonded : r.provider.bonded ≡ 5_000_000_000
  pub accrued : r.provider_standing.sp ≡ pos 4_000_000_000
  pub receipt : r.receipt ≡ published_receipt p
  pub q_entry : r.q_entry ≡ unmeasured (task_id p (happy_body p)) 4_000_000_000 0
  pub minted : r.minted ≡ codes "200040000000"
  pub fee_pool : r.fee_pool ≡ codes "10000000"

pub staked :
    (p : Primitives)
    → claim_stake devnet (10 * ucu_scale) (standing_of (two_accounts p) (identity p seed_2))
      ≡ 5_000_000_000
unfolding standing_of genesis get
staked p = rates.2

pooled : (p : Primitives) → (two_accounts p).fee_pool ≡ 0
unfolding genesis
pooled p = refl

decimals :
    (to_string 200_040_000_000 ≡ codes "200040000000") × (to_string 10_000_000 ≡ codes "10000000")
unfolding to_string digits
decimals = (refl, refl)

pub receipt_lem :
    (p : Primitives) (output : Bytes)
    → receipt_of
        (two_accounts p)
        (taken p devnet (two_accounts p) seed_1 seed_2 (happy_body p) (happy_proof p output))
        (happy_proof p output)
        devnet
      ≡ published_receipt p
unfolding receipt_of genesis add_u64
receipt_lem p output = rw (rates.0, rates.1, rates.3) refl

-- The settlement vector is made with the published amounts, receipt and pair, whatever the hashes
-- and the encodings are, when signatures verify and the two seeds have different public keys.
pub settlement-IsPublished :
    (p : Primitives) (borsh : State → Bytes) (h : Hex)
    → SignsCorrectly p
    → identity p seed_1 ≢ identity p seed_2
    → (r : SettlementRecord) × (settlement_record p borsh h ≡ some r) × IsPublished p r
unfolding settlement_record
settlement-IsPublished p borsh h law differ =
    let output = codes "the-output" in
    let end = happy_end p output law differ in
    let s = two_accounts p in
    let sub = taken p devnet s seed_1 seed_2 (happy_body p) (happy_proof p output) in
    let c = happy-Completes p output law differ in
    let (requester, provider, standing) =
      s3-entries p devnet s seed_1 seed_2 (happy_body p) (happy_proof p output)
        (happy-IsHonest p output law differ) in
    let (before_1, before_2) = granted p output law differ in
    (
      record {
        state_root = root_text p borsh h end;
        requester = account end.accounts (identity p seed_1);
        provider = account end.accounts (identity p seed_2);
        provider_standing = accrued s (identity p seed_2) (happy_proof p output) devnet;
        receipt = receipt_of s sub (happy_proof p output) devnet;
        q_entry = unmeasured (task_id p (happy_body p)) (4 * ucu_scale) 0;
        minted = to_string end.supply.minted;
        fee_pool = to_string end.fee_pool;
      },
      rw (happy-settle_task p output law differ, requester, provider, standing, c.receipt, c.pair)
          refl,
      record {
        spent = omega (arith, c.spent, rates.0, ap (λ a. a.balance) before_1);
        unlocked = omega (arith, c.unlocked, ap (λ a. a.escrowed) before_1);
        earned = omega (arith, c.earned, rates.1, staked p, ap (λ a. a.balance) before_2);
        bonded = omega (arith, c.bonded, staked p, ap (λ a. a.bonded) before_2);
        accrued = rw rates.3 (unfold get genesis add_i128 in refl);
        receipt = receipt_lem p output;
        q_entry = refl;
        minted =
            ap to_string (omega (arith, c.minted, two_accounts-supply p output law differ, rates.1))
            ∙ decimals.0;
        fee_pool = ap to_string (omega (arith, c.pooled, pooled p, rates.0)) ∙ decimals.1;
      },
    )
