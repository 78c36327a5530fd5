-- ===== src/Ledger/Pending.antt =====
-- An open challenge stays open in the ledger, whatever happens to other tasks.
use ducp_node_rs.Common.{
  ℕ, Bool, Option, List, [], ◌∷◌, ◌≡◌, ◌≢◌, refl, ◌∙◌, arith, true, some, none, inl, inr,
  Bool-cases, Option-cases, ◌==◌, ==_iff,
}
use ducp_node_rs.Common.BTreeMap.{BTreeMap, get, insert, remove, contains_key}
use ducp_node_rs.Common.BTreeMap.Laws.{
  IsSorted, insert-IsSorted, remove-IsSorted, get-insert, get-remove,
}
use ducp_node_rs.Types.Bytes.{Identity, TaskId, Ucu}
use ducp_node_rs.Types.Reject.{ok}
use ducp_node_rs.Types.Task.{TaskBody}
use ducp_node_rs.Types.Records.{Submission, Receipt}
use ducp_node_rs.Types.Tx.{Tx, SignedTx}
use ducp_node_rs.Types.Primitives.{Primitives, task_id}
use ducp_node_rs.Governance.{Params}
use ducp_node_rs.Ledger.State.{State, ChallengeRecord, update_task, update_standing}
use ducp_node_rs.Ledger.Apply.{apply, dispatch}
use ducp_node_rs.Ledger.Handlers.{accept_submission, accept_claim, accept_challenge}
use ducp_node_rs.Ledger.Guards.{
  apply-Accepts, bumped, submit_task-Submits, claim_task-Claims, submit_proof-Proves,
  open_challenge-Challenges, transfer-Transfers,
}
use ducp_node_rs.Ledger.Settled.{settle-IsSettled}
use ducp_node_rs.Ledger.Epoch.{advance_epoch, tick, matured, release, release_all}
use ducp_node_rs.Ledger.Escrow.Frame.{advance_epoch-SameEscrow}
use ducp_node_rs.Ledger.Status.Steps.{penalise-tasks}
use ducp_node_rs.Ledger.Fraud.Cases.{resolve_fraud_cases, resolve_challenge_cases}
use ducp_node_rs.Ledger.Fraud.{
  penalise, claw_back, burn_issuance, levy_fine, pay_reward, mark_fraud, return_bond, forfeit_bond,
  resolve_challenge,
}

-- A task of the ledger, with this body and an open challenge; the open challenges are in key order.
pub record IsOpen (task : TaskId) (body : TaskBody) (s : State) : Type 0 where
  pub listed : contains_key task s.tasks ≡ true
  pub known : get task s.bodies ≡ some body
  pub pending : contains_key task s.pending_challenges ≡ true
  pub sorted : IsSorted s.pending_challenges

contains_key-insert {ℓ} :
    {V : Type ℓ} (j k : ℕ) (v : V) (m : BTreeMap V)
    → contains_key j m ≡ true
    → contains_key j (insert k v m) ≡ true
contains_key-insert j k v m there = ground (arith, there, get-insert j k v m)

insert-other {ℓ κ} :
    {V : Type ℓ} {W : Type κ} (j k : ℕ) (v : V) (m : BTreeMap V) (tasks : BTreeMap W)
    → contains_key j tasks ≡ true
    → get k tasks ≡ none
    → get j (insert k v m) ≡ get j m
insert-other j k v m tasks listed fresh = elim (Bool-cases (j == k)) [
  | inl same ↦
      let gone : get j tasks ≡ none = rw ((==_iff j k).0 same) fresh in
      absurd (ground (arith, listed, gone))
  | inr other ↦ get-insert j k v m ∙ rw other refl
]

module _ (task : TaskId) (body : TaskBody) where
  update_task-rest :
      (s : State) (id : TaskId) (change : Submission → Submission)
      → ((update_task s id change).bodies ≡ s.bodies)
        × ((update_task s id change).pending_challenges ≡ s.pending_challenges)
  unfolding update_task
  update_task-rest s id change = ground arith

  update_task-listed :
      (s : State) (id : TaskId) (change : Submission → Submission)
      → contains_key task s.tasks ≡ true
      → contains_key task (update_task s id change).tasks ≡ true
  unfolding update_task
  update_task-listed s id change there = elim (Option-cases (get id s.tasks)) [
    | inl missing ↦ rw (missing, update_task) there
    | inr (sub, found) ↦
        rw (found, update_task) (contains_key-insert task id (change sub) s.tasks there)
  ]

  update_task-IsOpen :
      (s : State) (id : TaskId) (change : Submission → Submission)
      → IsOpen task body s
      → IsOpen task body (update_task s id change)
  update_task-IsOpen s id change o =
      let same = update_task-rest s id change in
      record {
        listed = update_task-listed s id change o.listed;
        known = rw same.0 o.known;
        pending = rw same.1 o.pending;
        sorted = rw same.1 o.sorted;
      }

  dispatch-IsOpen :
      (p : Primitives) (s t : State) (author : Identity) (tx : Tx) (params : Params)
      → dispatch p s author tx params ≡ ok t
      → IsOpen task body s
      → IsOpen task body t
  unfolding dispatch accept_claim
  dispatch-IsOpen p s t author (Tx.submit_task b) params h o =
      let a = submit_task-Submits s t params p author b h in
      rw a.committed (
        unfold accept_submission in
        record {
          listed = contains_key-insert task (task_id p b) _ s.tasks o.listed;
          known = insert-other task (task_id p b) b s.bodies s.tasks o.listed a.fresh ∙ o.known;
          pending = o.pending;
          sorted = o.sorted;
        })
  dispatch-IsOpen p s t author (Tx.claim_task id) params h o =
      let (b, sub, a) = claim_task-Claims s t params author id h in
      rw a.committed (
        update_task-IsOpen _ id _
          (record { listed = o.listed; known = o.known; pending = o.pending; sorted = o.sorted }))
  dispatch-IsOpen p s t author (Tx.submit_proof proof) params h o =
      let (b, sub, a) = submit_proof-Proves s t params author proof h in
      let e = settle-IsSettled s b sub proof params a.sub_found in
      rw a.committed (record {
        listed = rw e.tasks (
            contains_key-insert task proof.task _ _
              (contains_key-insert task proof.task _ s.tasks o.listed));
        known = rw e.bodies o.known;
        pending = rw e.pending o.pending;
        sorted = rw e.pending o.sorted;
      })
  dispatch-IsOpen p s t author (Tx.transfer to amount) params h o =
      let a = transfer-Transfers s t author to amount h in
      rw a.committed
        (record { listed = o.listed; known = o.known; pending = o.pending; sorted = o.sorted })
  dispatch-IsOpen p s t author (Tx.challenge id bond) params h o =
      let (receipt, sub, a) = open_challenge-Challenges s t params author id bond h in
      let entry : ChallengeRecord = record { challenger = author; bond = bond } in
      rw a.committed (
        unfold accept_challenge in
        record {
          listed = o.listed;
          known = o.known;
          pending = ground (arith, o.pending, get-insert task id entry s.pending_challenges);
          sorted = insert-IsSorted id entry s.pending_challenges o.sorted;
        })

  pub apply-IsOpen :
      (p : Primitives) (s t : State) (stx : SignedTx) (params : Params)
      → apply p s stx params ≡ ok t
      → IsOpen task body s
      → IsOpen task body t
  apply-IsOpen p s t stx params h o =
      let a = apply-Accepts p s t stx params h in
      dispatch-IsOpen p (bumped s stx.author) t stx.author stx.tx params a.handled
        (record { listed = o.listed; known = o.known; pending = o.pending; sorted = o.sorted })

  penalise-rest :
      (s : State) (id : TaskId) (receipt : Receipt) (provider requester : Identity)
      (to : Option Identity) (params : Params)
      → ((penalise s id receipt provider requester to params).bodies ≡ s.bodies)
        × ((penalise s id receipt provider requester to params).pending_challenges
            ≡ s.pending_challenges)
  unfolding penalise claw_back burn_issuance levy_fine pay_reward mark_fraud update_standing
      update_task
  penalise-rest s id receipt provider requester to params = ground arith

  penalise-IsOpen :
      (s : State) (id : TaskId) (receipt : Receipt) (provider requester : Identity)
      (to : Option Identity) (params : Params) (sub : Submission)
      → get id s.tasks ≡ some sub
      → IsOpen task body s
      → IsOpen task body (penalise s id receipt provider requester to params)
  penalise-IsOpen s id receipt provider requester to params sub found o =
      let (bodies, pending) = penalise-rest s id receipt provider requester to params in
      record {
        listed =
            rw (penalise-tasks s id receipt provider requester to params sub found)
              (contains_key-insert task id _ s.tasks o.listed);
        known = rw bodies o.known;
        pending = rw pending o.pending;
        sorted = rw pending o.sorted;
      }

  pub resolve_challenge-IsOpen :
      (s : State) (ended : TaskId) (fraud : Bool) (params : Params)
      → ended ≢ task
      → IsOpen task body s
      → IsOpen task body (resolve_challenge s ended fraud params)
  unfolding return_bond forfeit_bond
  resolve_challenge-IsOpen s ended fraud params other o =
      let closed = record s { pending_challenges = remove ended s.pending_challenges } in
      let still : IsOpen task body closed = record {
        listed = o.listed;
        known = o.known;
        pending =
            ground (arith, other, o.pending, get-remove task ended s.pending_challenges o.sorted);
        sorted = remove-IsSorted ended s.pending_challenges o.sorted;
      } in
      resolve_challenge_cases (IsOpen task body) s ended params fraud o
        (λ pc _.
          let i =
            resolve_fraud_cases (IsOpen task body) closed ended params (some pc.challenger) still
              (λ receipt sub provider fresh found task_found named.
                penalise-IsOpen closed ended receipt provider sub.requester (some pc.challenger)
                  params sub task_found still) in
          record { listed = i.listed; known = i.known; pending = i.pending; sorted = i.sorted })
        (λ pc _. record {
          listed = still.listed;
          known = still.known;
          pending = still.pending;
          sorted = still.sorted;
        })

  release_all-pending :
      (claims : List (TaskId × Identity × Ucu)) (s : State)
      → (release_all claims s).pending_challenges ≡ s.pending_challenges
  unfolding release_all release
  release_all-pending [] s = refl
  release_all-pending (claim ∷ rest) s = release_all-pending rest (release s claim)

  advance_epoch-pending :
      (s : State) (params : Params)
      → (advance_epoch s params).pending_challenges ≡ s.pending_challenges
  unfolding advance_epoch tick
  advance_epoch-pending s params =
      let ticked = tick s params in release_all-pending (matured ticked ticked.receipts) ticked

  pub advance_epoch-IsOpen :
      (s : State) (params : Params) → IsOpen task body s → IsOpen task body (advance_epoch s params)
  advance_epoch-IsOpen s params o =
      let same = advance_epoch-SameEscrow s params in
      let pending = advance_epoch-pending s params in
      record {
        listed = rw same.tasks o.listed;
        known = rw same.bodies o.known;
        pending = rw pending o.pending;
        sorted = rw pending o.sorted;
      }
