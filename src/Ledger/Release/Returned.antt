-- ===== src/Ledger/Release/Returned.antt =====
-- The 𝕌 of a released claim: it leaves the Provider's bond and arrives in its balance.
use ducp_node_rs.Common.{
  ℕ, zero, suc, ◌+◌, ◌-◌, ◌<◌, ◌≤◌, ◌≡◌, refl, arith, true, false, some, min, List, [], ◌∷◌, inl,
  inr, Bool-cases, Option-cases, ◌⊎◌, ◌==◌, ==_iff, sym, ap, ◌∙◌,
}
use ducp_node_rs.Common.Words.{u64_mod, add_u128, sub_u128}
use ducp_node_rs.Common.BTreeMap.{BTreeMap, get, contains_key}
use ducp_node_rs.Common.BTreeMap.Laws.{get-insert}
use ducp_node_rs.Types.Bytes.{Identity, TaskId, Ucu, Epoch}
use ducp_node_rs.Types.Records.{Submission, Receipt}
use ducp_node_rs.Governance.{Params}
use ducp_node_rs.Ledger.Accounts.{Accounts, account, release_bond}
use ducp_node_rs.Ledger.Accounts.Held.{account-update, hold-le-held}
use ducp_node_rs.Ledger.State.{State}
use ducp_node_rs.Ledger.Epoch.{
  tick, claim_of, is_mature, matured, release, release_all, advance_epoch, advance_loop,
  advance_to_epoch,
}
use ducp_node_rs.Ledger.Conservation.{IsConserved}
use ducp_node_rs.Ledger.Conservation.Epoch.{
  release-IsConserved, tick-IsConserved, advance_epoch-IsConserved,
}
use ducp_node_rs.Ledger.Release.{IsClaimed, advance_epoch-IsClaimed, advance_to_epoch-releases}

abbrev Claims : Type 0
Claims = List (TaskId × Identity × Ucu)

-- Only 𝕌 of its own bond reaches an account's balance.
record Keeps (m m' : Accounts) (j : Identity) : Type 0 where
  pub total :
      (account m' j).balance + (account m' j).bonded ≡ (account m j).balance + (account m j).bonded
  pub locked : (account m' j).escrowed ≡ (account m j).escrowed
  pub less : (account m' j).bonded ≤ (account m j).bonded

release-Keeps :
    (s : State) (task : TaskId) (who j : Identity) (stake : Ucu)
    → IsConserved s
    → Keeps s.accounts (release s (task, who, stake)).accounts j
unfolding release release_bond add_u128 sub_u128
release-Keeps s task who j stake c =
    let amount = min stake (account s.accounts who).bonded in
    let at_j = account-update s.accounts who j (release_bond amount) in
    let small = hold-le-held s.accounts who in
    record {
      total = ground (arith, at_j, small, c.balanced, c.minted_fits);
      locked = ground (arith, at_j);
      less = ground (arith, at_j, small, c.balanced, c.minted_fits);
    }

release-bonded :
    (s : State) (task : TaskId) (who : Identity) (stake : Ucu)
    → IsConserved s
    → (account (release s (task, who, stake)).accounts who).bonded
      ≡ (account s.accounts who).bonded - stake
unfolding release release_bond add_u128 sub_u128
release-bonded s task who stake c =
    let amount = min stake (account s.accounts who).bonded in
    ground (
      arith,
      account-update s.accounts who who (release_bond amount),
      hold-le-held s.accounts who,
      c.balanced,
      c.minted_fits,
    )

module _ (j : Identity) where
  release_all-Keeps :
      (claims : Claims) (s : State)
      → IsConserved s
      → Keeps s.accounts (release_all claims s).accounts j
  unfolding release_all
  release_all-Keeps [] s c = record { total = refl; locked = refl; less = omega arith }
  release_all-Keeps ((task, who, stake) ∷ rest) s c =
      let one = release-Keeps s task who j stake c in
      let more =
        release_all-Keeps rest (release s (task, who, stake))
          (release-IsConserved s (task, who, stake) c) in
      record {
        total = omega (arith, one.total, more.total);
        locked = omega (arith, one.locked, more.locked);
        less = omega (arith, one.less, more.less);
      }

  advance_epoch-Keeps :
      (s : State) (params : Params)
      → IsConserved s
      → Keeps s.accounts (advance_epoch s params).accounts j
  unfolding advance_epoch tick
  advance_epoch-Keeps s params c =
      let ticked = tick s params in
      release_all-Keeps (matured ticked ticked.receipts) ticked (tick-IsConserved s params c)

-- The claims of a list that are of one task are all of this Provider and this stake, and there is one.
abbrev Holds : TaskId → Identity → Ucu → Claims → Type 0
Holds task provider stake [] = ⊥
Holds task provider stake ((t, who, x) ∷ rest) =
    ((t ≡ task) × (who ≡ provider) × (x ≡ stake)) ⊎ Holds task provider stake rest

module _ (task : TaskId) (provider : Identity) (stake : Ucu) where
  release_all-unbonds :
      (claims : Claims) (s : State)
      → IsConserved s
      → Holds task provider stake claims
      → (account (release_all claims s).accounts provider).bonded
        ≤ (account s.accounts provider).bonded - stake
  unfolding release_all
  release_all-unbonds [] s c listed = absurd listed
  release_all-unbonds ((t, who, x) ∷ rest) s c (inl (same, by, of)) =
      let next = release s (t, who, x) in
      let more = release_all-Keeps provider rest next (release-IsConserved s (t, who, x) c) in
      let now : (account next.accounts provider).bonded
          ≡ (account s.accounts provider).bonded - stake =
        rw (← by, ← of) (release-bonded s t who x c) in
      omega (arith, more.less, now)
  release_all-unbonds ((t, who, x) ∷ rest) s c (inr later) =
      let one = release-Keeps s t who provider x c in
      omega (
        arith,
        one.less,
        release_all-unbonds rest (release s (t, who, x)) (release-IsConserved s (t, who, x) c)
            later,
      )

  -- A task that becomes released in a list whose claims are its own is held by it.
  matured-Holds :
      (s t : State) (m : BTreeMap Receipt)
      → claim_of s task ≡ some (provider, stake)
      → contains_key task t.released ≡ false
      → contains_key task (release_all (matured s m) t).released ≡ true
      → Holds task provider stake (matured s m)
  unfolding matured release_all release
  matured-Holds s t [] known before after = absurd (cc)
  matured-Holds s t ((t', r) ∷ m) known before after =
      let later = matured-Holds s t m known before in
      elim (Bool-cases (is_mature s t' r)) [
        | inr open' ↦ ground (arith, open', later)
        | inl closed ↦ elim (Option-cases (claim_of s t')) [
          | inl unknown ↦ ground (arith, closed, unknown, later)
          | inr ((who, x), found) ↦ elim (Bool-cases (t' == task)) [
            | inl same ↦
                let here : t' ≡ task = (==_iff t' task).0 same in
                let agree : some (who, x) ≡ some (provider, stake) =
                  sym found ∙ ap (claim_of s) here ∙ known in
                rw (closed, found) (inl (here, cc, cc))
            | inr other ↦
                rw (closed, found)
                  (inr (
                    matured-Holds s (release t (t', who, x)) m known
                      (ground (arith, other, before, get-insert task t' tt t.released))
                      (ground (arith, closed, found, after))))
          ]
        ]
      ]

module _ (task : TaskId) (receipt : Receipt) (sub : Submission) (provider : Identity)
    (params : Params) where
  advance_epoch-unbonds :
      (s : State)
      → IsConserved s
      → IsClaimed s task receipt sub provider
      → contains_key task s.released ≡ false
      → contains_key task (advance_epoch s params).released ≡ true
      → (account (advance_epoch s params).accounts provider).bonded
        ≤ (account s.accounts provider).bonded - sub.claim_stake
  unfolding advance_epoch tick
  advance_epoch-unbonds s c claimed before after =
      let ticked = tick s params in
      let known : claim_of ticked task ≡ some (provider, sub.claim_stake) =
        unfold claim_of in ground (arith, claimed.listed, claimed.named) in
      release_all-unbonds task provider sub.claim_stake (matured ticked ticked.receipts) ticked
        (tick-IsConserved s params c)
        (matured-Holds task provider sub.claim_stake ticked ticked s.receipts known before after)

  advance_loop-Keeps :
      (j : Identity) (fuel : ℕ) (s : State) (target : Epoch)
      → IsConserved s
      → Keeps s.accounts (advance_loop fuel s target params).accounts j
  unfolding advance_loop
  advance_loop-Keeps j zero s target c = record { total = refl; locked = refl; less = omega arith }
  advance_loop-Keeps j (suc fuel) s target c =
      let one = advance_epoch-Keeps j s params c in
      let more =
        advance_loop-Keeps j fuel (advance_epoch s params) target
          (advance_epoch-IsConserved s params c) in
      record {
        total = ground (arith, one.total, more.total);
        locked = ground (arith, one.locked, more.locked);
        less = ground (arith, one.less, more.less);
      }

  advance_loop-unbonds :
      (fuel : ℕ) (s : State) (target : Epoch)
      → IsConserved s
      → IsClaimed s task receipt sub provider
      → contains_key task s.released ≡ false
      → contains_key task (advance_loop fuel s target params).released ≡ true
      → (account (advance_loop fuel s target params).accounts provider).bonded
        ≤ (account s.accounts provider).bonded - sub.claim_stake
  unfolding advance_loop
  advance_loop-unbonds zero s target c claimed before after = absurd (cc)
  advance_loop-unbonds (suc fuel) s target c claimed before after =
      let next = advance_epoch s params in
      let c' = advance_epoch-IsConserved s params c in
      let one = advance_epoch-Keeps provider s params c in
      let more = advance_loop-Keeps provider fuel next target c' in
      elim (Bool-cases (contains_key task next.released)) [
        | inl now ↦
            ground (arith, before, after, more.less, advance_epoch-unbonds s c claimed before now)
        | inr later ↦ ground (
          arith,
          before,
          after,
          one.less,
          advance_loop-unbonds fuel next target c'
              (advance_epoch-IsClaimed task receipt sub provider params s claimed) later,
        )
      ]

-- What the release of a claim makes of the Provider's account.
pub record Returns (m m' : Accounts) (provider : Identity) (stake : Ucu) : Type 0 where
  pub unbonded : (account m' provider).bonded ≤ (account m provider).bonded - stake
  pub total :
      (account m' provider).balance + (account m' provider).bonded
      ≡ (account m provider).balance + (account m provider).bonded
  pub locked : (account m' provider).escrowed ≡ (account m provider).escrowed

-- Advancing a ledger whose books balance to an epoch ahead, at which the window of a settled task with
-- a known Provider is closed, releases the claim of the task, unless it has been marked for fraud or
-- been released before: the Provider's bond falls by at least the stake of the claim, or to nothing,
-- and all that leaves the bond is in the Provider's balance, whose escrow and receipt stay as they
-- are.
pub advance_to_epoch-Returns :
    (s : State) (task : TaskId) (receipt : Receipt) (sub : Submission) (provider : Identity)
    (params : Params) (target : Epoch)
    → IsConserved s
    → IsClaimed s task receipt sub provider
    → contains_key task s.released ≡ false
    → target < u64_mod
    → s.epoch < target
    → receipt.clawback_until ≤ target
    → let t = advance_to_epoch s target params in
      (contains_key task t.released ≡ true)
      × (get task t.receipts ≡ some receipt)
      × Returns s.accounts t.accounts provider sub.claim_stake
unfolding advance_to_epoch
advance_to_epoch-Returns s task receipt sub provider params target c claimed before fits ahead
      closed =
    let (released, stands) =
      advance_to_epoch-releases s task receipt sub provider params target claimed fits ahead
        closed in
    let keeps =
      advance_loop-Keeps task receipt sub provider params provider (target - s.epoch) s target c in
    (
      released,
      stands,
      record {
        unbonded =
            advance_loop-unbonds task receipt sub provider params (target - s.epoch) s target c
              claimed before released;
        total = keeps.total;
        locked = keeps.locked;
      },
    )
