-- ===== src/Ledger/Guards.antt =====
-- What an accepted transaction says: its guards held, and the state is the one that its handler
-- commits.
use ducp_node_rs.Common.{
  ℕ, ◌+◌, ◌≤◌, ◌<◌, ◌≡◌, arith, none, some, true, false, inl, inr, Option-cases,
}
use ducp_node_rs.Common.Words.{u128_mod, add_u64, checked_add_u128}
use ducp_node_rs.Common.BTreeMap.{get, insert, contains_key, unwrap_or}
use ducp_node_rs.Types.Reject.{ok}
use ducp_node_rs.Types.Bytes.{Identity, TaskId, Ucu}
use ducp_node_rs.Types.Task.{TaskBody, submitted, executing, settled}
use ducp_node_rs.Types.Records.{Submission, ComputeProof, Receipt}
use ducp_node_rs.Types.Tx.{SignedTx}
use ducp_node_rs.Types.Primitives.{Primitives, task_id, verify_sig}
use ducp_node_rs.Governance.{Params, fee, claim_stake, bond_min}
use ducp_node_rs.Ledger.Accounts.{account, update, credit, debit}
use ducp_node_rs.Ledger.State.{State, standing_of, check_and_bump_nonce}
use ducp_node_rs.Ledger.Apply.{dispatch, apply}
use ducp_node_rs.Ledger.Handlers.{
  submit_task, accept_submission, claim_task, accept_claim, submit_proof, settle, record_proof,
  open_challenge, accept_challenge, transfer,
}

module _ (s s' : State) (params : Params) where
  pub record Submits (p : Primitives) (requester : Identity) (body : TaskBody) : Type 0 where
    pub fresh : get (task_id p body) s.tasks ≡ none
    pub fits : body.limits.max_ucu + fee params body.limits.max_ucu < u128_mod
    pub covered :
        body.limits.max_ucu + fee params body.limits.max_ucu
        ≤ (account s.accounts requester).balance
    pub committed :
        s'
        ≡ accept_submission s requester
            (task_id p body)
            body
            (fee params body.limits.max_ucu)
            (body.limits.max_ucu + fee params body.limits.max_ucu)

  pub submit_task-Submits :
      (p : Primitives) (requester : Identity) (body : TaskBody)
      → submit_task p s requester body params ≡ ok s'
      → Submits p requester body
  unfolding submit_task checked_add_u128
  submit_task-Submits p requester body h = ground arith

  pub record Claims (provider : Identity) (task : TaskId) (body : TaskBody) (sub : Submission)
      : Type 0 where
    pub body_found : get task s.bodies ≡ some body
    pub sub_found : get task s.tasks ≡ some sub
    pub was_submitted : sub.status ≡ submitted
    pub in_time : s.epoch ≤ body.deadline
    pub covered :
        claim_stake params body.limits.max_ucu (standing_of s provider)
        ≤ (account s.accounts provider).balance
    pub committed :
        s'
        ≡ accept_claim s provider task
            (claim_stake params body.limits.max_ucu (standing_of s provider))

  pub claim_task-Claims :
      (provider : Identity) (task : TaskId)
      → claim_task s provider task params ≡ ok s'
      → (body : TaskBody) × (sub : Submission) × Claims provider task body sub
  unfolding claim_task
  claim_task-Claims provider task h = ground arith

  pub record Proves (author : Identity) (proof : ComputeProof) (body : TaskBody) (sub : Submission)
      : Type 0 where
    pub body_found : get proof.task s.bodies ≡ some body
    pub sub_found : get proof.task s.tasks ≡ some sub
    pub was_executing : sub.status ≡ executing
    pub is_provider : sub.provider ≡ some author
    pub same_provider : proof.provider ≡ author
    pub within_limit : proof.ucu_count ≤ body.limits.max_ucu
    pub same_benchmark : proof.benchmark ≡ body.benchmark
    pub committed : s' ≡ settle (record_proof s proof) body sub proof params

  pub submit_proof-Proves :
      (author : Identity) (proof : ComputeProof)
      → submit_proof s author proof params ≡ ok s'
      → (body : TaskBody) × (sub : Submission) × Proves author proof body sub
  unfolding submit_proof
  submit_proof-Proves author proof h = ground arith

  pub record Challenges (challenger : Identity) (task : TaskId) (bond : Ucu) (receipt : Receipt)
      (sub : Submission) : Type 0 where
    pub receipt_found : get task s.receipts ≡ some receipt
    pub sub_found : get task s.tasks ≡ some sub
    pub was_settled : sub.status ≡ settled
    pub in_window : s.epoch ≤ receipt.clawback_until
    pub not_slashed : contains_key task s.slashed ≡ false
    pub not_pending : contains_key task s.pending_challenges ≡ false
    pub large_enough : bond_min params receipt.paid_to_provider ≤ bond
    pub covered : bond ≤ (account s.accounts challenger).balance
    pub committed : s' ≡ accept_challenge s challenger task bond

  pub open_challenge-Challenges :
      (challenger : Identity) (task : TaskId) (bond : Ucu)
      → open_challenge s challenger task bond params ≡ ok s'
      → (receipt : Receipt) × (sub : Submission) × Challenges challenger task bond receipt sub
  unfolding open_challenge
  open_challenge-Challenges challenger task bond h = elim (Option-cases (get task s.receipts)) [
    | inl missing ↦ absurd (ground arith)
    | inr (receipt, found) ↦ elim (Option-cases (get task s.tasks)) [
      | inl missing ↦ absurd (ground arith)
      | inr (sub, task_found) ↦ (receipt, sub, ground arith)
    ]
  ]

module _ (s s' : State) where
  pub record Transfers (from to : Identity) (amount : Ucu) : Type 0 where
    pub covered : amount ≤ (account s.accounts from).balance
    pub committed :
        s'
        ≡ record s { accounts = update (update s.accounts from (debit amount)) to (credit amount) }

  pub transfer-Transfers :
      (from to : Identity) (amount : Ucu)
      → transfer s from to amount ≡ ok s'
      → Transfers from to amount
  unfolding transfer
  transfer-Transfers from to amount h = ground arith

-- The nonce that the ledger expects of an account next, and the state once it is used.
abbrev pub next_nonce : State → Identity → ℕ
next_nonce s author = unwrap_or (get author s.nonces) 0

abbrev pub bumped : State → Identity → State
bumped s author = record s { nonces = insert author (add_u64 (next_nonce s author) 1) s.nonces }

pub record Accepts (p : Primitives) (s s' : State) (stx : SignedTx) (params : Params) : Type 0 where
  pub signed : verify_sig p stx ≡ true
  pub in_order : stx.nonce ≡ next_nonce s stx.author
  pub handled : dispatch p (bumped s stx.author) stx.author stx.tx params ≡ ok s'

pub apply-Accepts :
    (p : Primitives) (s s' : State) (stx : SignedTx) (params : Params)
    → apply p s stx params ≡ ok s'
    → Accepts p s s' stx params
unfolding apply check_and_bump_nonce
apply-Accepts p s s' stx params h = ground arith
