-- ===== src/Ledger/State.antt =====
-- The ledger's state, its queries, and the mutators that the transitions share.
use ducp_node_rs.Common.{ℕ, Bool, ◌==◌, none, some, List, [], ◌∷◌, not, if◌then◌else◌}
use ducp_node_rs.Common.Int.{pos}
use ducp_node_rs.Common.Words.{add_u128, add_u64, saturating_sub}
use mathlib.Core.Option
use ducp_node_rs.Common.BTreeMap.{BTreeMap, BTreeSet, get, insert, unwrap_or}
use ducp_node_rs.Types.Reject.{Result, ok, err, bad_nonce}
use ducp_node_rs.Types.Bytes.{Hash, Identity, TaskId, Ucu, Epoch, Bytes}
use ducp_node_rs.Types.Task.{TaskBody}
use ducp_node_rs.Types.Quant.{QLedgerEntry}
use ducp_node_rs.Types.Records.{Sp, Submission, ComputeProof, Receipt, StandingRecord, new_standing}
use ducp_node_rs.Types.Primitives.{Primitives, hash_canonical}
use ducp_node_rs.Ledger.Accounts.{Accounts, account, update, credit}

pub record Supply : Type 0 where
  pub minted : Ucu
  pub burned : Ucu

pub record ChallengeRecord : Type 0 where
  pub challenger : Identity
  pub bond : Ucu

pub record State : Type 0 where
  pub accounts : Accounts
  pub standing : BTreeMap StandingRecord
  pub bodies : BTreeMap TaskBody
  pub tasks : BTreeMap Submission
  pub proofs : BTreeMap ComputeProof
  pub receipts : BTreeMap Receipt
  pub q_ledger : BTreeMap QLedgerEntry
  pub pending_challenges : BTreeMap ChallengeRecord
  pub slashed : BTreeSet
  pub released : BTreeSet
  pub nonces : BTreeMap ℕ
  pub supply : Supply
  pub fee_pool : Ucu
  pub epoch : Epoch

-- `State { epoch, ..Default::default() }`
abbrev pub empty_state : Epoch → State
empty_state epoch = record {
  accounts = [];
  standing = [];
  bodies = [];
  tasks = [];
  proofs = [];
  receipts = [];
  q_ledger = [];
  pending_challenges = [];
  slashed = [];
  released = [];
  nonces = [];
  supply = record { minted = 0; burned = 0 };
  fee_pool = 0;
  epoch = epoch;
}

-- The loop of `genesis` over the accounts and the running `minted`.
unfoldable pub allocate : List (Identity × Ucu) → Accounts × Ucu → Accounts × Ucu
allocate [] (m, minted) = (m, minted)
allocate ((id, amount) ∷ rest) (m, minted) =
    allocate rest (update m id (credit amount), add_u128 minted amount)

unfoldable pub genesis : List (Identity × Ucu) → Epoch → State
unfolding allocate
genesis allocations epoch =
    let (m, minted) = allocate allocations ([], 0) in
    record (empty_state epoch) { accounts = m; supply = record { minted = minted; burned = 0 } }

-- `borsh` is the encoding of a state by the borsh package.
unfoldable pub state_root : Primitives → (State → Bytes) → State → Hash
unfolding hash_canonical
state_root p borsh s = hash_canonical p borsh s

unfoldable pub balance : State → Identity → Ucu
unfolding account
balance s id = unwrap_or (Option.map (λ a. a.balance) (get id s.accounts)) 0

unfoldable pub standing_of : State → Identity → Sp
standing_of s id = unwrap_or (Option.map (λ r. r.sp) (get id s.standing)) (pos 0)

-- The loop of `check_conservation` over the accounts.
unfoldable pub held_from : Ucu → Accounts → Ucu
held_from held [] = held
held_from held ((id, a) ∷ m) =
    held_from (add_u128 held (add_u128 (add_u128 a.balance a.escrowed) a.bonded)) m

unfoldable pub check_conservation : State → Bool
unfolding held_from
check_conservation s =
    held_from s.fee_pool s.accounts == saturating_sub s.supply.minted s.supply.burned

-- A change made through `standing_mut`.
unfoldable pub update_standing : State → Identity → (StandingRecord → StandingRecord) → State
update_standing s id change = record s {
  standing =
      insert id (change (unwrap_or (get id s.standing) (new_standing id s.epoch))) s.standing;
}

unfoldable pub check_and_bump_nonce : State → Identity → ℕ → Result State
check_and_bump_nonce s author nonce =
    let expected = unwrap_or (get author s.nonces) 0 in
    if not (nonce == expected)
    then err bad_nonce
    else ok (record s { nonces = insert author (add_u64 expected 1) s.nonces })

-- A change made through `tasks.get_mut`.
unfoldable pub update_task : State → TaskId → (Submission → Submission) → State
update_task s task change = elim (get task s.tasks) [
  | none ↦ s
  | some sub ↦ record s { tasks = insert task (change sub) s.tasks }
]
