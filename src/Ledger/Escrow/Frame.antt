-- ===== src/Ledger/Escrow/Frame.antt =====
-- Transitions that touch no escrow: the tables stand, and so does every `escrowed`.
use ducp_node_rs.Common.{◌≡◌, refl, ◌∙◌, min, Option, none, some, List, [], ◌∷◌}
use ducp_node_rs.Types.Bytes.{Identity, TaskId, Ucu}
use ducp_node_rs.Governance.{Params, fine, challenger_reward}
use ducp_node_rs.Ledger.Accounts.{
  account, update, credit, debit, lock_bond, release_bond, slash_bond,
}
use ducp_node_rs.Ledger.State.{State, ChallengeRecord}
use ducp_node_rs.Ledger.Handlers.{accept_challenge}
use ducp_node_rs.Ledger.Epoch.{release, release_all, tick, matured, advance_epoch}
use ducp_node_rs.Ledger.Fraud.{
  claw_back, burn_issuance, pay_reward, levy_fine, return_bond, forfeit_bond,
}
use ducp_node_rs.Ledger.Escrow.{IsBacked, HasClosedReceipts}
use ducp_node_rs.Ledger.Escrow.Tables.{escrowed-update}

pub record SameEscrow (s t : State) : Type 0 where
  pub tasks : t.tasks ≡ s.tasks
  pub bodies : t.bodies ≡ s.bodies
  pub receipts : t.receipts ≡ s.receipts
  pub escrowed :
      (id : Identity) → (account t.accounts id).escrowed ≡ (account s.accounts id).escrowed

pub SameEscrow-trans : {s t u : State} → SameEscrow s t → SameEscrow t u → SameEscrow s u
SameEscrow-trans f g = record {
  tasks = g.tasks ∙ f.tasks;
  bodies = g.bodies ∙ f.bodies;
  receipts = g.receipts ∙ f.receipts;
  escrowed = λ id. g.escrowed id ∙ f.escrowed id;
}

pub SameEscrow-IsBacked : (s t : State) → SameEscrow s t → IsBacked s → IsBacked t
SameEscrow-IsBacked s t f b = record {
  sorted = rw f.tasks b.sorted;
  backed = λ id. rw (f.tasks, f.bodies) (f.escrowed id ∙ b.backed id);
}

pub SameEscrow-HasClosedReceipts :
    (s t : State) → SameEscrow s t → HasClosedReceipts s → HasClosedReceipts t
SameEscrow-HasClosedReceipts s t f h = record { closed = rw (f.tasks, f.receipts) h.closed }

pub accept_challenge-SameEscrow :
    (s : State) (challenger : Identity) (task : TaskId) (bond : Ucu)
    → SameEscrow s (accept_challenge s challenger task bond)
unfolding accept_challenge lock_bond
accept_challenge-SameEscrow s challenger task bond = record {
  tasks = refl;
  bodies = refl;
  receipts = refl;
  escrowed = λ id. escrowed-update s.accounts challenger (lock_bond bond) id refl;
}

pub transferred-SameEscrow :
    (s : State) (from to : Identity) (amount : Ucu)
    → SameEscrow s
        (record s { accounts = update (update s.accounts from (debit amount)) to (credit amount) })
unfolding debit credit
transferred-SameEscrow s from to amount = record {
  tasks = refl;
  bodies = refl;
  receipts = refl;
  escrowed = λ id.
      escrowed-update (update s.accounts from (debit amount)) to (credit amount) id refl
      ∙ escrowed-update s.accounts from (debit amount) id refl;
}

release-SameEscrow : (s : State) (claim : TaskId × Identity × Ucu) → SameEscrow s (release s claim)
unfolding release release_bond
release-SameEscrow s (task, provider, stake) = record {
  tasks = refl;
  bodies = refl;
  receipts = refl;
  escrowed = λ id.
      let amount = min stake (account s.accounts provider).bonded in
      escrowed-update s.accounts provider (release_bond amount) id refl;
}

release_all-SameEscrow :
    (claims : List (TaskId × Identity × Ucu)) (s : State) → SameEscrow s (release_all claims s)
unfolding release_all
release_all-SameEscrow [] s = record {
  tasks = refl;
  bodies = refl;
  receipts = refl;
  escrowed = λ id. refl;
}
release_all-SameEscrow (claim ∷ rest) s =
    SameEscrow-trans (release-SameEscrow s claim) (release_all-SameEscrow rest (release s claim))

tick-SameEscrow : (s : State) (params : Params) → SameEscrow s (tick s params)
unfolding tick
tick-SameEscrow s params = record {
  tasks = refl;
  bodies = refl;
  receipts = refl;
  escrowed = λ id. refl;
}

pub advance_epoch-SameEscrow : (s : State) (params : Params) → SameEscrow s (advance_epoch s params)
unfolding advance_epoch
advance_epoch-SameEscrow s params =
    let ticked = tick s params in
    SameEscrow-trans (tick-SameEscrow s params)
      (release_all-SameEscrow (matured ticked ticked.receipts) ticked)

pub claw_back-SameEscrow :
    (s : State) (provider requester : Identity) (payment : Ucu)
    → SameEscrow s (claw_back s provider requester payment)
unfolding claw_back slash_bond credit
claw_back-SameEscrow s provider requester payment = record {
  tasks = refl;
  bodies = refl;
  receipts = refl;
  escrowed = λ id.
      let recovered = min payment (account s.accounts provider).bonded in
      escrowed-update (update s.accounts provider (slash_bond recovered)) requester
        (credit recovered) id refl
      ∙ escrowed-update s.accounts provider (slash_bond recovered) id refl;
}

pub burn_issuance-SameEscrow :
    (s : State) (provider : Identity) (issued : Ucu)
    → SameEscrow s (burn_issuance s provider issued)
unfolding burn_issuance debit
burn_issuance-SameEscrow s provider issued = record {
  tasks = refl;
  bodies = refl;
  receipts = refl;
  escrowed = λ id.
      let burned = min issued (account s.accounts provider).balance in
      escrowed-update s.accounts provider (debit burned) id refl;
}

pay_reward-SameEscrow :
    (s : State) (to : Option Identity) (reward : Ucu) → SameEscrow s (pay_reward s to reward)
unfolding pay_reward credit
pay_reward-SameEscrow s none reward = record {
  tasks = refl;
  bodies = refl;
  receipts = refl;
  escrowed = λ id. refl;
}
pay_reward-SameEscrow s (some to) reward = record {
  tasks = refl;
  bodies = refl;
  receipts = refl;
  escrowed = λ id. escrowed-update s.accounts to (credit reward) id refl;
}

pub levy_fine-SameEscrow :
    (s : State) (provider : Identity) (to : Option Identity) (payment : Ucu) (params : Params)
    → SameEscrow s (levy_fine s provider to payment params)
unfolding levy_fine slash_bond
levy_fine-SameEscrow s provider to payment params =
    let f = fine params payment in
    let available = min f (account s.accounts provider).bonded in
    let reward = min (challenger_reward params f) available in
    let fined = record s { accounts = update s.accounts provider (slash_bond available) } in
    let paid = pay_reward-SameEscrow fined to reward in
    record {
      tasks = paid.tasks;
      bodies = paid.bodies;
      receipts = paid.receipts;
      escrowed = λ id.
          paid.escrowed id ∙ escrowed-update s.accounts provider (slash_bond available) id refl;
    }

pub return_bond-SameEscrow : (s : State) (pc : ChallengeRecord) → SameEscrow s (return_bond s pc)
unfolding return_bond release_bond
return_bond-SameEscrow s pc = record {
  tasks = refl;
  bodies = refl;
  receipts = refl;
  escrowed = λ id.
      let b = min pc.bond (account s.accounts pc.challenger).bonded in
      escrowed-update s.accounts pc.challenger (release_bond b) id refl;
}

pub forfeit_bond-SameEscrow : (s : State) (pc : ChallengeRecord) → SameEscrow s (forfeit_bond s pc)
unfolding forfeit_bond slash_bond
forfeit_bond-SameEscrow s pc = record {
  tasks = refl;
  bodies = refl;
  receipts = refl;
  escrowed = λ id.
      let b = min pc.bond (account s.accounts pc.challenger).bonded in
      escrowed-update s.accounts pc.challenger (slash_bond b) id refl;
}
