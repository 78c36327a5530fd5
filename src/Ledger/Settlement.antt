-- ===== src/Ledger/Settlement.antt =====
-- What a settlement pays, and to whom.
use ducp_node_rs.Common.{◌+◌, ◌-◌, ◌<◌, ◌≤◌, ◌≡◌, ◌≢◌, ◌∙◌, arith, some}
use ducp_node_rs.Common.Words.{u128_mod, add_u128, sub_u128, add_u128-exact, sub_u128-exact}
use ducp_node_rs.Common.BTreeMap.{get}
use ducp_node_rs.Common.BTreeMap.Laws.{get-insert_self}
use ducp_node_rs.Types.Bytes.{Identity}
use ducp_node_rs.Types.Task.{TaskBody, executing}
use ducp_node_rs.Types.Reject.{ok}
use ducp_node_rs.Types.Quant.{unmeasured}
use ducp_node_rs.Types.Records.{Submission, ComputeProof}
use ducp_node_rs.Governance.{Params, issuance}
use ducp_node_rs.Ledger.Accounts.{Accounts, account, update, credit, drain_escrow}
use ducp_node_rs.Ledger.Accounts.Held.{account-update, hold-le-held, held-drain_escrow}
use ducp_node_rs.Ledger.State.{State}
use ducp_node_rs.Ledger.Handlers.{submit_proof, settle_money, receipt_of}
use ducp_node_rs.Ledger.Settled.{IsSettled, settle-IsSettled, settled_sub}
use ducp_node_rs.Ledger.Conservation.{IsConserved}
use ducp_node_rs.Ledger.Escrow.Settle.{executing_covered}
use ducp_node_rs.Ledger.Guards.{submit_proof-Proves}
use ducp_node_rs.Ledger.Consistent.{IsConsistent}

-- What a settlement between two accounts does to them and to the supply.
pub record Pays (s s' : State) (body : TaskBody) (sub : Submission) (proof : ComputeProof)
    (params : Params) : Type 0 where
  pub refunded :
      (account s'.accounts sub.requester).balance
      ≡ (account s.accounts sub.requester).balance + (body.limits.max_ucu - proof.ucu_count)
  pub drained :
      (account s'.accounts sub.requester).escrowed + (body.limits.max_ucu + sub.fee)
      ≡ (account s.accounts sub.requester).escrowed
  pub paid :
      (account s'.accounts proof.provider).balance
      ≡ (account s.accounts proof.provider).balance
        + proof.ucu_count
        + issuance params proof.ucu_count
  pub still_bonded :
      (account s'.accounts proof.provider).bonded ≡ (account s.accounts proof.provider).bonded
  pub fee_paid : s'.fee_pool ≡ s.fee_pool + sub.fee
  pub minted : s'.supply.minted ≡ s.supply.minted + issuance params proof.ucu_count
  pub receipt : get proof.task s'.receipts ≡ some (receipt_of s sub proof params)
  pub pair :
      get proof.task s'.q_ledger ≡ some (unmeasured proof.task proof.ucu_count body.benchmark)
  pub marked : get proof.task s'.tasks ≡ some (settled_sub sub proof)

module _ (s : State) (body : TaskBody) (sub : Submission) (proof : ComputeProof) (params : Params)
    (c : IsConserved s)
    (covered : body.limits.max_ucu + sub.fee ≤ (account s.accounts sub.requester).escrowed)
    (within : proof.ucu_count ≤ body.limits.max_ucu)
    (fits : s.supply.minted + issuance params proof.ucu_count < u128_mod)
    (differ : sub.requester ≢ proof.provider) where
  abbrev RequesterAfter : Accounts → Type 0
  RequesterAfter m =
      ((account m sub.requester).balance
        ≡ (account s.accounts sub.requester).balance + (body.limits.max_ucu - proof.ucu_count))
      × ((account m sub.requester).escrowed + (body.limits.max_ucu + sub.fee)
          ≡ (account s.accounts sub.requester).escrowed)

  abbrev ProviderAfter : Accounts → Type 0
  ProviderAfter m =
      ((account m proof.provider).balance
        ≡ (account s.accounts proof.provider).balance
          + proof.ucu_count
          + issuance params proof.ucu_count)
      × ((account m proof.provider).bonded ≡ (account s.accounts proof.provider).bonded)

  settle_money-amounts :
      RequesterAfter (settle_money s body sub proof params).accounts
      × ProviderAfter (settle_money s body sub proof params).accounts
  unfolding settle_money
  settle_money-amounts =
      let max_ucu = body.limits.max_ucu in
      let u = proof.ucu_count in
      let w = issuance params u in
      let x = max_ucu + sub.fee in
      let refund = max_ucu - u in
      let drained = update s.accounts sub.requester (drain_escrow x refund) in
      let paid = update drained proof.provider (credit u) in
      let small : x < u128_mod = omega (arith, hold-le-held s.accounts sub.requester) in
      let total = held-drain_escrow s.accounts sub.requester x refund in
      rw (add_u128-exact max_ucu sub.fee small, sub_u128-exact max_ucu u (omega arith) within)
        (unfold credit drain_escrow add_u128 sub_u128 in
          ground (
            arith,
            total,
            hold-le-held s.accounts sub.requester,
            hold-le-held drained proof.provider,
            account-update s.accounts sub.requester sub.requester (drain_escrow x refund),
            account-update s.accounts sub.requester proof.provider (drain_escrow x refund),
            account-update drained proof.provider sub.requester (credit u),
            account-update drained proof.provider proof.provider (credit u),
            account-update paid proof.provider sub.requester (credit w),
            account-update paid proof.provider proof.provider (credit w),
          ))

module _ (s s' : State) (author : Identity) (proof : ComputeProof) (params : Params)
    (body : TaskBody) (sub : Submission) where
  -- An accepted proof of a task between two different accounts, in a consistent ledger whose supply
  -- has room for the issuance: the requester gets back the ceiling less the metered work and its
  -- escrow falls by ceiling and fee; the provider gets the work and the issuance on it and keeps its
  -- bond; the fee goes to the pool and the issuance is what is minted; the receipt, the pair of 𝕌
  -- and a null ℚ, and the settled submission are recorded.
  pub submit_proof-Pays :
      IsConsistent s
      → s.supply.minted + issuance params proof.ucu_count < u128_mod
      → get proof.task s.bodies ≡ some body
      → get proof.task s.tasks ≡ some sub
      → sub.requester ≢ author
      → submit_proof s author proof params ≡ ok s'
      → Pays s s' body sub proof params
  submit_proof-Pays i fits body_found sub_found differ h =
      let (body', sub', a) = submit_proof-Proves s s' params author proof h in
      let eb : body' ≡ body = cc (a.body_found, body_found) in
      let es : sub' ≡ sub = cc (a.sub_found, sub_found) in
      let was : sub.status ≡ executing = rw (← es) a.was_executing in
      let within : proof.ucu_count ≤ body.limits.max_ucu = rw (← eb) a.within_limit in
      let e : IsSettled s body sub proof params s' =
        rw (← eb, ← es, a.committed) (settle-IsSettled s body' sub' proof params a.sub_found) in
      let covered =
        executing_covered s body sub proof i.conserved i.backed body_found sub_found was in
      let amounts =
        settle_money-amounts s body sub proof params i.conserved covered within fits
          (λ q. differ (q ∙ a.same_provider)) in
      let pooled : s.fee_pool + sub.fee < u128_mod = omega (
        arith,
        hold-le-held s.accounts sub.requester,
        i.conserved.balanced,
        i.conserved.minted_fits,
      ) in
      record {
        refunded = rw e.accounts amounts.0.0;
        drained = rw e.accounts amounts.0.1;
        paid = rw e.accounts amounts.1.0;
        still_bonded = rw e.accounts amounts.1.1;
        fee_paid = rw e.fee_pool (unfold settle_money in add_u128-exact s.fee_pool sub.fee pooled);
        minted = rw e.supply (unfold settle_money in add_u128-exact _ _ fits);
        receipt = rw e.receipts (get-insert_self proof.task _ s.receipts);
        pair = rw e.q_ledger (get-insert_self proof.task _ s.q_ledger);
        marked = rw e.tasks (get-insert_self proof.task _ _);
      }
