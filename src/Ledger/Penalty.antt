-- ===== src/Ledger/Penalty.antt =====
-- What a proven fraud costs, and who is paid.
use ducp_node_rs.Common.{ℕ, ◌+◌, ◌-◌, ◌≡◌, ◌≢◌, sym, arith, some, true, false, min}
use ducp_node_rs.Common.Words.{add_u128, sub_u128}
use ducp_node_rs.Common.BTreeMap.{get, contains_key}
use ducp_node_rs.Types.Bytes.{Identity, TaskId, Ucu}
use ducp_node_rs.Types.Records.{Submission, Receipt}
use ducp_node_rs.Governance.{Params, fine, challenger_reward}
use ducp_node_rs.Ledger.Accounts.{Accounts, account, update, credit, debit, slash_bond}
use ducp_node_rs.Ledger.Accounts.Held.{account-update, hold-le-held, held-slash_bond}
use ducp_node_rs.Ledger.State.{State, update_task, update_standing}
use ducp_node_rs.Ledger.Fraud.{
  claw_back, burn_issuance, pay_reward, levy_fine, mark_fraud, penalise, resolve_fraud,
}
use ducp_node_rs.Ledger.Conservation.{IsConserved}
use ducp_node_rs.Ledger.Conservation.Fraud.{claw_back-IsConserved, burn_issuance-IsConserved}
use ducp_node_rs.Ledger.Slashing.{penalise-slashed}

module _ (s : State) (task : TaskId) (receipt : Receipt) (provider requester challenger : Identity)
    (params : Params) where
  abbrev recovered : Ucu
  recovered = min receipt.paid_to_provider (account s.accounts provider).bonded

  abbrev burnt : Ucu
  burnt = min receipt.work_issuance (account s.accounts provider).balance

  abbrev fined : Ucu
  fined =
      min (fine params receipt.paid_to_provider) ((account s.accounts provider).bonded - recovered)

  abbrev reward : Ucu
  reward = min (challenger_reward params (fine params receipt.paid_to_provider)) fined

  pub record Punishes (t : State) : Type 0 where
    pub returned :
        (account t.accounts requester).balance ≡ (account s.accounts requester).balance + recovered
    pub bond :
        (account t.accounts provider).bonded + recovered + fined
        ≡ (account s.accounts provider).bonded
    pub spendable :
        (account t.accounts provider).balance + burnt ≡ (account s.accounts provider).balance
    pub rewarded :
        (account t.accounts challenger).balance ≡ (account s.accounts challenger).balance + reward
    pub marked : contains_key task t.slashed ≡ true

  pub penalise-accounts :
      (penalise s task receipt provider requester (some challenger) params).accounts
      ≡ (levy_fine
          (burn_issuance
            (claw_back s provider requester receipt.paid_to_provider)
            provider
            receipt.work_issuance)
          provider
          (some challenger)
          receipt.paid_to_provider
          params).accounts
  unfolding penalise mark_fraud update_standing update_task
  penalise-accounts = ground arith

-- What a step does to the balance and the bond of one account.
abbrev Moves : Accounts → Accounts → Identity → ℕ → ℕ → ℕ → Type 0
Moves m m' id gain loss bond_loss =
    ((account m' id).balance + loss ≡ (account m id).balance + gain)
    × ((account m' id).bonded + bond_loss ≡ (account m id).bonded)

module _ (s : State) (c : IsConserved s) (provider requester : Identity) (payment : Ucu) where
  claw_back-Moves :
      requester ≢ provider
      → let r = min payment (account s.accounts provider).bonded in
        let t = claw_back s provider requester payment in
        Moves s.accounts t.accounts requester r 0 0
        × Moves s.accounts t.accounts provider 0 0 r
        × ((j : Identity) → j ≢ requester → j ≢ provider → Moves s.accounts t.accounts j 0 0 0)
  unfolding claw_back
  claw_back-Moves apart =
      let r = min payment (account s.accounts provider).bonded in
      let slashed = update s.accounts provider (slash_bond r) in
      let less = held-slash_bond s.accounts provider r in
      let big = hold-le-held slashed requester in
      let own = hold-le-held s.accounts provider in
      let at_1 = λ (j : Identity). account-update s.accounts provider j (slash_bond r) in
      let at_2 = λ (j : Identity). account-update slashed requester j (credit r) in
      unfold slash_bond credit add_u128 sub_u128 in
      (
        ground (arith, less, big, own, at_1 requester, at_2 requester),
        ground (arith, less, big, own, at_1 provider, at_2 provider),
        λ j out off. ground (arith, at_1 j, at_2 j),
      )

module _ (s : State) (c : IsConserved s) (provider : Identity) where
  burn_issuance-Moves :
      (issued : Ucu)
      → let b = min issued (account s.accounts provider).balance in
        let t = burn_issuance s provider issued in
        Moves s.accounts t.accounts provider 0 b 0
        × ((j : Identity) → j ≢ provider → Moves s.accounts t.accounts j 0 0 0)
  unfolding burn_issuance
  burn_issuance-Moves issued =
      let b = min issued (account s.accounts provider).balance in
      let own = hold-le-held s.accounts provider in
      let at_1 = λ (j : Identity). account-update s.accounts provider j (debit b) in
      unfold debit sub_u128 in (ground (arith, own, at_1 provider), λ j off. ground (arith, at_1 j))

  levy_fine-Moves :
      (challenger : Identity) (payment : Ucu) (params : Params)
      → challenger ≢ provider
      → let f = fine params payment in
        let taken = min f (account s.accounts provider).bonded in
        let r = min (challenger_reward params f) taken in
        let t = levy_fine s provider (some challenger) payment params in
        Moves s.accounts t.accounts challenger r 0 0
        × Moves s.accounts t.accounts provider 0 0 taken
        × ((j : Identity) → j ≢ challenger → j ≢ provider → Moves s.accounts t.accounts j 0 0 0)
  unfolding levy_fine pay_reward
  levy_fine-Moves challenger payment params apart =
      let f = fine params payment in
      let taken = min f (account s.accounts provider).bonded in
      let r = min (challenger_reward params f) taken in
      let slashed = update s.accounts provider (slash_bond taken) in
      let less = held-slash_bond s.accounts provider taken in
      let big = hold-le-held slashed challenger in
      let own = hold-le-held s.accounts provider in
      let at_1 = λ (j : Identity). account-update s.accounts provider j (slash_bond taken) in
      let at_2 = λ (j : Identity). account-update slashed challenger j (credit r) in
      unfold slash_bond credit add_u128 sub_u128 in
      (
        ground (arith, less, big, own, at_1 challenger, at_2 challenger),
        ground (arith, less, big, own, at_1 provider, at_2 provider),
        λ j out off. ground (arith, at_1 j, at_2 j),
      )

module _ (s : State) (task : TaskId) (receipt : Receipt) (sub : Submission)
    (provider challenger : Identity) (params : Params) (c : IsConserved s)
    (apart : sub.requester ≢ provider) (outside : challenger ≢ provider)
    (third : challenger ≢ sub.requester) where
  penalise-Punishes :
      Punishes s task receipt provider sub.requester challenger params
        (penalise s task receipt provider sub.requester (some challenger) params)
  penalise-Punishes =
      let s1 = claw_back s provider sub.requester receipt.paid_to_provider in
      let s2 = burn_issuance s1 provider receipt.work_issuance in
      let c1 = claw_back-IsConserved s provider sub.requester receipt.paid_to_provider c in
      let c2 = burn_issuance-IsConserved s1 provider receipt.work_issuance c1 in
      let (req1, prov1, rest1) =
        claw_back-Moves s c provider sub.requester receipt.paid_to_provider apart in
      let (prov2, rest2) = burn_issuance-Moves s1 c1 provider receipt.work_issuance in
      let (chal3, prov3, rest3) =
        levy_fine-Moves s2 c2 provider challenger receipt.paid_to_provider params outside in
      let same = penalise-accounts s task receipt provider sub.requester challenger params in
      let req2 = rest2 sub.requester apart in
      let req3 = rest3 sub.requester (λ e. third (sym e)) apart in
      let chal1 = rest1 challenger third outside in
      let chal2 = rest2 challenger outside in
      record {
        returned = rw same (omega (arith, req1, req2, req3));
        bond = rw same (ground (arith, prov1, prov2, prov3));
        spendable = rw same (ground (arith, prov1, prov2, prov3));
        rewarded = rw same (ground (arith, chal1, chal2, chal3, prov1, prov2));
        marked = penalise-slashed s task receipt provider sub.requester (some challenger) params;
      }

  -- Fraud that a challenger proves against a task with a receipt and a recorded provider, not yet
  -- slashed, in a ledger whose books balance and where requester, provider and challenger are three
  -- accounts: the requester gets back what the provider's bond holds of the payment; the provider
  -- loses that and the fine, as far as the bond goes, and the issuance, as far as its balance goes;
  -- the challenger gets its reward, at most the fine that was taken; and the task is marked.
  pub resolve_fraud-Punishes :
      contains_key task s.slashed ≡ false
      → get task s.receipts ≡ some receipt
      → get task s.tasks ≡ some sub
      → sub.provider ≡ some provider
      → Punishes s task receipt provider sub.requester challenger params
          (resolve_fraud s task (some challenger) params)
  unfolding resolve_fraud
  resolve_fraud-Punishes fresh paid recorded named =
      rw (fresh, paid, recorded, named) penalise-Punishes
