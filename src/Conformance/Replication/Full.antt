-- ===== src/Conformance/Replication/Full.antt =====
-- All four transactions of the replication scenario make a block, and the replica follows.
use ducp_node_rs.Common.{
  ℕ, suc, ◌≤◌, ◌≡◌, ◌≢◌, refl, ap, ◌∙◌, arith, true, some, List, [], ◌∷◌, ==_self,
}
use ducp_node_rs.Common.Lists.{length}
use ducp_node_rs.Common.Words.{add_u64}
use ducp_node_rs.Types.Bytes.{Bytes, Identity, Ucu, filled, ucu_scale}
use ducp_node_rs.Types.Text.{Hex, codes}
use ducp_node_rs.Types.Reject.{ok}
use ducp_node_rs.Types.Tx
use ducp_node_rs.Types.Tx.{SignedTx}
use ducp_node_rs.Types.Primitives.{Primitives, SignsCorrectly, identity, sign, task_id}
use ducp_node_rs.Governance.{devnet}
use ducp_node_rs.Ledger.Accounts.{account, update, credit, debit}
use ducp_node_rs.Ledger.State.{State}
use ducp_node_rs.Ledger.Apply.{apply, dispatch}
use ducp_node_rs.Ledger.Handlers.{transfer}
use ducp_node_rs.Ledger.Guards.{bumped, next_nonce}
use ducp_node_rs.Ledger.Replay.{apply-next_nonce}
use ducp_node_rs.Ledger.Lifecycle.{apply-sign}
use ducp_node_rs.Consensus.{SingleSequencer, sequencer, produce, adopt, order}
use ducp_node_rs.Conformance.{seed_1, seed_2}
use ducp_node_rs.Conformance.Settlement.{two_accounts, happy_body, happy_proof}
use ducp_node_rs.Conformance.Settlement.HappyPath.{
  rates, granted, happy_2, happy_end, happy-applies, happy-Completes,
}
use ducp_node_rs.Conformance.Settlement.Vector.{staked}
use ducp_node_rs.Conformance.Replication.{
  ReplicationRecord, produce_all, replication_record, scenario_txs,
}
use ducp_node_rs.Conformance.Replication.Replica.{replication_follows}

module _ (p : Primitives) (borsh : State → Bytes) where
  -- An accepted transaction makes one more block.
  produce_all-accepted :
      (seq : SingleSequencer) (s ns : State) (tx : SignedTx) (txs : List SignedTx) (n : ℕ)
      → apply p s tx devnet ≡ ok ns
      → ((seq' : SingleSequencer) → length (produce_all p borsh seq' ns txs).0 ≡ n)
      → length (produce_all p borsh seq s (tx ∷ txs)).0 ≡ suc n
  unfolding produce_all produce order
  produce_all-accepted seq s ns tx txs n accepted rest =
      let block = (produce p borsh seq (tx ∷ []) s devnet).block in
      ground (arith, accepted, rest (adopt p seq block))

transfer-accepts :
    (s : State) (from to : Identity) (amount : Ucu)
    → amount ≤ (account s.accounts from).balance
    → (t : State) × (transfer s from to amount ≡ ok t)
unfolding transfer
transfer-accepts s from to amount covered =
    let paid = update s.accounts from (debit amount) in
    (record s { accounts = update paid to (credit amount) }, ground arith)

module _ (p : Primitives) (borsh : State → Bytes) (law : SignsCorrectly p)
    (differ : identity p seed_1 ≢ identity p seed_2) where
  abbrev output : Bytes
  output = codes "out"

  abbrev end : State
  end = happy_end p output law differ

  -- The Provider has the funds for the transfer, and 2 is the nonce that it is due.
  due : next_nonce end (identity p seed_2) ≡ 2
  unfolding sign
  due =
      let third = (happy-applies p output law differ).2 in
      let stx = sign p seed_2 (Tx.submit_proof (happy_proof p output)) 1 in
      let v = identity p seed_2 in
      (apply-next_nonce p (happy_2 p output law differ) end stx devnet v third).1
      ∙ rw (==_self v) (unfold add_u64 in refl)

  last :
      (t : State) × (apply p end
          (sign p seed_2 (Tx.transfer (identity p seed_1) ucu_scale) 2)
          devnet
        ≡ ok t)
  unfolding dispatch
  last =
      let v = identity p seed_2 in
      let c = happy-Completes p output law differ in
      let (before_1, before_2) = granted p output law differ in
      let (t, accepted) =
        transfer-accepts (bumped end v) v (identity p seed_1) ucu_scale
          (omega (arith, c.earned, rates.1, staked p, ap (λ a. a.balance) before_2)) in
      (
        t,
        rw (← due) (
            apply-sign p devnet end seed_2 (Tx.transfer (identity p seed_1) ucu_scale) law
            ∙ accepted),
      )

  four_blocks :
      length
        (produce_all p borsh
          (sequencer (identity p (filled 32 0)))
          (two_accounts p)
          (scenario_txs p)).0
      ≡ 4
  unfolding scenario_txs produce_all
  four_blocks =
      let (first, second, third) = happy-applies p output law differ in
      let (t, fourth) = last in
      let pays = sign p seed_2 (Tx.transfer (identity p seed_1) ucu_scale) 2 in
      let proves = sign p seed_2 (Tx.submit_proof (happy_proof p output)) 1 in
      let claims = sign p seed_2 (Tx.claim_task (task_id p (happy_body p))) 0 in
      produce_all-accepted p borsh _ _ _ _ (claims ∷ proves ∷ pays ∷ []) 3 first (λ a.
        produce_all-accepted p borsh a _ _ _ (proves ∷ pays ∷ []) 2 second (λ b.
          produce_all-accepted p borsh b _ _ _ (pays ∷ []) 1 third
            (λ c. produce_all-accepted p borsh c _ _ _ [] 0 fourth (λ d. refl))))

-- The replication vector is made, whatever the hashes and the encodings are, when signatures verify
-- and the two seeds have different public keys: the producer makes a block of each of the four
-- transactions, the replica commits all of them, one root is recorded for each block, and the
-- replica's root at the end matches the producer's.
pub replication_matches :
    (p : Primitives) (borsh : State → Bytes) (h : Hex)
    → SignsCorrectly p
    → identity p seed_1 ≢ identity p seed_2
    → (r : ReplicationRecord) × (replication_record p borsh h ≡ some r)
      × (r.replica_matches ≡ true)
      × (r.blocks ≡ 4)
      × (length r.block_state_roots ≡ 4)
replication_matches p borsh h law differ =
    let (r, made, matches, paired, made_of) = replication_follows p borsh h in
    let four = made_of ∙ four_blocks p borsh law differ in (r, made, matches, four, paired ∙ four)
