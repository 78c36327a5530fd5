-- ===== src/Ledger/Release.antt =====
-- Claim stakes come free: when the window of a settled task closes, its claim is released.
pub mod Returned
use ducp_node_rs.Common.{
  ℕ, zero, suc, ◌+◌, ◌-◌, ◌<◌, ◌≤◌, ◌≡◌, refl, arith, true, false, some, List, [], ◌∷◌, inl, inr,
  Bool-cases, ◌⊎◌,
}
use ducp_node_rs.Common.Words.{u64_mod, add_u64}
use ducp_node_rs.Common.BTreeMap.{BTreeMap, get, contains_key}
use ducp_node_rs.Common.BTreeMap.Laws.{get-insert}
use ducp_node_rs.Types.Bytes.{Identity, TaskId, Ucu, Epoch}
use ducp_node_rs.Types.Records.{Submission, Receipt}
use ducp_node_rs.Governance.{Params}
use ducp_node_rs.Ledger.State.{State}
use ducp_node_rs.Ledger.Epoch.{
  tick, claim_of, is_mature, matured, release, release_all, advance_epoch, advance_loop,
  advance_to_epoch,
}
use ducp_node_rs.Ledger.Escrow.Frame.{advance_epoch-SameEscrow}
use ducp_node_rs.Ledger.Clock.{advance_epoch-suc}

abbrev Claims : Type 0
Claims = List (TaskId × Identity × Ucu)

abbrev Lists : TaskId → Claims → Type 0
Lists task [] = ⊥
Lists task ((t, who, stake) ∷ rest) = (t ≡ task) ⊎ Lists task rest

matured-Lists :
    (s : State) (task : TaskId) (receipt : Receipt) (claim : Identity × Ucu) (m : BTreeMap Receipt)
    → get task m ≡ some receipt
    → is_mature s task receipt ≡ true
    → claim_of s task ≡ some claim
    → Lists task (matured s m)
unfolding matured get
matured-Lists s task receipt claim [] found mature known = absurd (cc)
matured-Lists s task receipt claim ((t, r) ∷ m) found mature known =
    ground (arith, mature, known, matured-Lists s task receipt claim m)

release_all-keeps :
    (claims : Claims) (s : State) (task : TaskId)
    → contains_key task s.released ≡ true
    → contains_key task (release_all claims s).released ≡ true
unfolding release_all release
release_all-keeps [] s task there = there
release_all-keeps ((t, who, stake) ∷ rest) s task there =
    release_all-keeps rest (release s (t, who, stake)) task
      (ground (arith, there, get-insert task t tt s.released))

release_all-releases :
    (claims : Claims) (s : State) (task : TaskId)
    → Lists task claims
    → contains_key task (release_all claims s).released ≡ true
unfolding release_all release
release_all-releases [] s task listed = absurd listed
release_all-releases ((t, who, stake) ∷ rest) s task (inl same) =
    release_all-keeps rest (release s (t, who, stake)) task
      (ground (arith, same, get-insert task t tt s.released))
release_all-releases ((t, who, stake) ∷ rest) s task (inr later) =
    release_all-releases rest (release s (t, who, stake)) task later

release_all-slashed : (claims : Claims) (s : State) → (release_all claims s).slashed ≡ s.slashed
unfolding release_all release
release_all-slashed [] s = refl
release_all-slashed (claim ∷ rest) s = release_all-slashed rest (release s claim)

advance_loop-stays :
    (fuel : ℕ) (s : State) (target : Epoch) (params : Params)
    → target ≤ s.epoch
    → advance_loop fuel s target params ≡ s
unfolding advance_loop
advance_loop-stays zero s target params h = refl
advance_loop-stays (suc fuel) s target params h = ground arith

order-cases : (m n : ℕ) → (m < n) ⊎ (n ≤ m)
order-cases m n = ground arith

-- A settled task with a known Provider that has not been marked.
pub record IsClaimed (s : State) (task : TaskId) (receipt : Receipt) (sub : Submission)
    (provider : Identity) : Type 0 where
  pub paid : get task s.receipts ≡ some receipt
  pub listed : get task s.tasks ≡ some sub
  pub named : sub.provider ≡ some provider
  pub unmarked : contains_key task s.slashed ≡ false

module _ (task : TaskId) (receipt : Receipt) (sub : Submission) (provider : Identity)
    (params : Params) where
  pub advance_epoch-IsClaimed :
      (s : State)
      → IsClaimed s task receipt sub provider
      → IsClaimed (advance_epoch s params) task receipt sub provider
  advance_epoch-IsClaimed s c =
      let same = advance_epoch-SameEscrow s params in
      let ticked = tick s params in
      record {
        paid = rw same.receipts c.paid;
        listed = rw same.tasks c.listed;
        named = c.named;
        unmarked =
            unfold advance_epoch tick in
            rw (release_all-slashed (matured ticked ticked.receipts) ticked) c.unmarked;
      }

  advance_epoch-releases :
      (s : State)
      → IsClaimed s task receipt sub provider
      → s.epoch + 1 < u64_mod
      → receipt.clawback_until ≤ s.epoch + 1
      → contains_key task (advance_epoch s params).released ≡ true
  unfolding advance_epoch tick
  advance_epoch-releases s c fits closed =
      let ticked = tick s params in
      let claims = matured ticked ticked.receipts in
      elim (Bool-cases (contains_key task s.released)) [
        | inl before ↦ release_all-keeps claims ticked task before
        | inr new ↦ release_all-releases claims ticked task (
            matured-Lists ticked task receipt (provider, sub.claim_stake) s.receipts c.paid
              (unfold is_mature add_u64 in ground (arith, new, c.unmarked))
              (unfold claim_of in ground (arith, c.listed, c.named)))
      ]

  advance_loop-IsClaimed :
      (fuel : ℕ) (s : State) (target : Epoch)
      → IsClaimed s task receipt sub provider
      → IsClaimed (advance_loop fuel s target params) task receipt sub provider
  unfolding advance_loop
  advance_loop-IsClaimed zero s target c = c
  advance_loop-IsClaimed (suc fuel) s target c = ground (
    arith,
    c,
    advance_loop-IsClaimed fuel (advance_epoch s params) target (advance_epoch-IsClaimed s c),
  )

  advance_loop-releases :
      (fuel : ℕ) (s : State) (target : Epoch)
      → IsClaimed s task receipt sub provider
      → target < u64_mod
      → s.epoch < target
      → receipt.clawback_until ≤ target
      → target - s.epoch ≤ fuel
      → contains_key task (advance_loop fuel s target params).released ≡ true
  unfolding advance_loop
  advance_loop-releases zero s target c fits ahead closed enough = absurd (omega arith)
  advance_loop-releases (suc fuel) s target c fits ahead closed enough =
      let next = advance_epoch s params in
      let now = advance_epoch-suc s params (omega arith) in
      let still = advance_epoch-IsClaimed s c in
      elim (order-cases next.epoch target) [
        | inl more ↦ ground (
          arith,
          advance_loop-releases fuel next target still fits more closed (omega (arith, now)),
        )
        | inr reached ↦ ground (
          arith,
          advance_loop-stays fuel next target params reached,
          advance_epoch-releases s c (omega arith) (omega (arith, now, reached)),
        )
      ]

-- Advancing the ledger to an epoch ahead, at which the window of a settled task with a known Provider
-- is closed, releases the claim of the task, unless it has been marked for fraud.
pub advance_to_epoch-releases :
    (s : State) (task : TaskId) (receipt : Receipt) (sub : Submission) (provider : Identity)
    (params : Params) (target : Epoch)
    → IsClaimed s task receipt sub provider
    → target < u64_mod
    → s.epoch < target
    → receipt.clawback_until ≤ target
    → (contains_key task (advance_to_epoch s target params).released ≡ true)
      × (get task (advance_to_epoch s target params).receipts ≡ some receipt)
unfolding advance_to_epoch
advance_to_epoch-releases s task receipt sub provider params target c fits ahead closed = (
  advance_loop-releases task receipt sub provider params (target - s.epoch) s target c fits ahead
      closed (omega arith),
  (advance_loop-IsClaimed task receipt sub provider params (target - s.epoch) s target c).paid,
)
