-- ===== src/Ledger/Lifecycle.antt =====
-- A task from its submission to its settlement: an honest Requester and an honest Provider get it
-- settled and paid, whatever the ledger holds besides.
pub mod Accepted
pub mod Completed
pub mod Entries
use ducp_node_rs.Common.{
  ℕ, ◌+◌, ◌-◌, ◌≤◌, ◌<◌, ◌≡◌, ◌≢◌, refl, arith, none, some, true, false, not, ◌==◌, ==_self,
}
use ducp_node_rs.Common.Words.{u128_mod, add_u64, add_u128, add_u128-exact, checked_add_u128}
use ducp_node_rs.Common.BTreeMap.{get, insert, unwrap_or}
use ducp_node_rs.Common.BTreeMap.Laws.{get-insert, get-insert_self}
use ducp_node_rs.Types.Bytes.{Identity, TaskId, Ucu}
use ducp_node_rs.Types.Reject.{ok}
use ducp_node_rs.Types.Task.{TaskBody, VerificationTier, sampled_reexec, submitted, executing}
use ducp_node_rs.Types.Records.{Submission, ComputeProof}
use ducp_node_rs.Types.Tx
use ducp_node_rs.Types.Tx.{Tx}
use ducp_node_rs.Types.Primitives.{
  Primitives, SignsCorrectly, verify_sig-sign, sign, task_id, verify_sig,
}
use ducp_node_rs.Governance.{Params, fee, claim_stake, issuance}
use ducp_node_rs.Ledger.Accounts.{account, update, lock_escrow, lock_bond}
use ducp_node_rs.Ledger.Accounts.Held.{account-update}
use ducp_node_rs.Ledger.State.{State, check_and_bump_nonce, update_task, standing_of}
use ducp_node_rs.Ledger.Apply.{apply, dispatch}
use ducp_node_rs.Ledger.Handlers.{
  submit_task, accept_submission, claim_task, accept_claim, submit_proof, settle, record_proof,
}
use ducp_node_rs.Ledger.Guards.{bumped, next_nonce}

-- A transaction signed with the nonce that is due reaches its handler.
pub apply-sign :
    (p : Primitives) (params : Params) (s : State) (seed : ℕ) (tx : Tx)
    → SignsCorrectly p
    → let author = p.public_key seed in
      apply p s (sign p seed tx (next_nonce s author)) params
      ≡ dispatch p (bumped s author) author tx params
unfolding apply check_and_bump_nonce sign
apply-sign p params s seed tx law =
    let nonce = next_nonce s (p.public_key seed) in
    ground (arith, verify_sig-sign p seed tx nonce law, ==_self nonce)

-- The submission of a body by a Requester with the funds, in a tier that the node supports.
module _ (p : Primitives) (params : Params) (s : State) (requester : Identity)
    (body : TaskBody) where
  abbrev pub need : Ucu
  need = body.limits.max_ucu + fee params body.limits.max_ucu

  pub submit_task-accepts :
      body.tier ≡ sampled_reexec
      → get (task_id p body) s.tasks ≡ none
      → need < u128_mod
      → need ≤ (account s.accounts requester).balance
      → submit_task p s requester body params
        ≡ ok (
            accept_submission s requester
              (task_id p body)
              body
              (fee params body.limits.max_ucu)
              need)
  unfolding submit_task checked_add_u128
  submit_task-accepts tier fresh fits covered = ground (arith, tier, fresh)

module _ (params : Params) (s : State) (provider : Identity) (task : TaskId) (body : TaskBody)
    (sub : Submission) where
  abbrev pub stake : Ucu
  stake = claim_stake params body.limits.max_ucu (standing_of s provider)

  pub claim_task-accepts :
      get task s.bodies ≡ some body
      → get task s.tasks ≡ some sub
      → sub.status ≡ submitted
      → s.epoch ≤ body.deadline
      → stake ≤ (account s.accounts provider).balance
      → claim_task s provider task params ≡ ok (accept_claim s provider task stake)
  unfolding claim_task
  claim_task-accepts found listed status in_time covered = ground (arith, found, listed, status)

pub submit_proof-accepts :
    (params : Params) (s : State) (author : Identity) (proof : ComputeProof) (body : TaskBody)
    (sub : Submission)
    → get proof.task s.bodies ≡ some body
    → get proof.task s.tasks ≡ some sub
    → sub.status ≡ executing
    → sub.provider ≡ some author
    → proof.provider ≡ author
    → proof.ucu_count ≤ body.limits.max_ucu
    → proof.benchmark ≡ body.benchmark
    → submit_proof s author proof params ≡ ok (settle (record_proof s proof) body sub proof params)
unfolding submit_proof
submit_proof-accepts params s author proof body sub found listed status named by within same =
    ground (arith, found, listed, status, named, by, same, ==_self author, ==_self body.benchmark)

-- The three transactions of a task, each on the state that the one before it leads to.
module _ (p : Primitives) (params : Params) (s : State) (r v : ℕ) (body : TaskBody)
    (proof : ComputeProof) where
  abbrev pub requester : Identity
  requester = p.public_key r

  abbrev pub provider : Identity
  provider = p.public_key v

  abbrev pub task : TaskId
  task = task_id p body

  abbrev pub s1 : State
  s1 =
      accept_submission (bumped s requester) requester task body (fee params body.limits.max_ucu)
        (need p params s requester body)

  abbrev pub claimed : Ucu
  claimed = claim_stake params body.limits.max_ucu (standing_of s provider)

  abbrev pub s2 : State
  s2 = accept_claim (bumped s1 provider) provider task claimed

  -- The submission as it is recorded, and as it is claimed.
  abbrev pub listed : Submission
  listed = record {
    task = task;
    requester = requester;
    ucu_count = 0;
    fee = fee params body.limits.max_ucu;
    status = submitted;
    provider = none;
    claim_stake = 0;
  }

  abbrev pub taken : Submission
  taken = record listed { provider = some provider; status = executing; claim_stake = claimed }

  module _ (differ : requester ≢ provider) where
    -- What the Provider meets in the second state is what it met in the first.
    pub s1-provider :
        (account s1.accounts provider ≡ account s.accounts provider)
        × (next_nonce s1 provider ≡ next_nonce s provider)
        × (standing_of s1 provider ≡ standing_of s provider)
        × (s1.epoch ≡ s.epoch)
        × (get task s1.bodies ≡ some body)
        × (get task s1.tasks ≡ some listed)
    unfolding accept_submission standing_of
    s1-provider = (
      ground (
        arith,
        account-update s.accounts requester provider (lock_escrow (need p params s requester body)),
      ),
      ground (arith, get-insert provider requester (add_u64 (next_nonce s requester) 1) s.nonces),
      refl,
      refl,
      get-insert_self task body s.bodies,
      get-insert_self task listed s.tasks,
    )

    pub s2-provider :
        (next_nonce s2 provider ≡ add_u64 (next_nonce s provider) 1)
        × (get task s2.bodies ≡ some body)
        × (get task s2.tasks ≡ some taken)
    unfolding accept_claim update_task
    s2-provider =
        let (same, nonce, standing, epoch, found, listed') = s1-provider in
        (
          ground (
            arith,
            nonce,
            listed',
            get-insert_self provider (add_u64 (next_nonce s1 provider) 1) s1.nonces,
          ),
          ground (arith, found, listed'),
          ground (arith, listed', get-insert_self task taken s1.tasks),
        )
