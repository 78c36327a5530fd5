-- ===== src/Node/Rpc/Calls.antt =====
-- The calls of the JSON-RPC interface, `impl DucpApiServer for RpcServerImpl` in
-- ducp-node/src/lib.rs. A call that takes the lock several times is modelled as it runs when no
-- other call comes in between.
use ducp_node_rs.Common.{ℕ, true, none, some, List}
use ducp_node_rs.Common.BTreeMap.{unwrap_or}
use ducp_node_rs.Common.Words.{add_u128}
use ducp_node_rs.Types.Bytes.{Hash, be_bytes}
use ducp_node_rs.Types.Reject.{Result, ok, err}
use ducp_node_rs.Types.Quant.{QLedgerEntry}
use ducp_node_rs.Types.Text.{Text, Hex, codes, to_string}
use ducp_node_rs.Types.Tx.{Tx, SignedTx, Block}
use ducp_node_rs.Types.Primitives.{task_id}
use ducp_node_rs.Governance.{fee}
use ducp_node_rs.Node.{
  NodeInner, Config, submit, resolve_pending_challenge, task_claim_stake, block_at, block_txs_at,
  estimate, metered, refused, missing_program, missing_input,
}
use ducp_node_rs.Node
use ducp_node_rs.Node.Rpc.{
  RpcResult, answer, refusal, SubmitTaskResp, ClaimResp, OkResp, EstimateResp, PutBlobResp,
  GetBlobResp, AccountView, StandingView, HeadView, TaskView, reject_err, invalid_params, not_found,
  found_or, parse_hex, parse_hash, task_view, account_view, standing_view, head,
}

-- `.map_err(reject_err)?`, then the answer, which reads the node after the call.
unfoldable pub answer_of {ℓ κ} :
    {A : Type ℓ} {T : Type κ} → NodeInner × Result A → (NodeInner → T) → NodeInner × RpcResult T
unfolding reject_err
answer_of (inner, err e) reply = (inner, refusal (reject_err e))
answer_of (inner, ok a) reply = (inner, answer (reply inner))

module _ (c : Config) (h : Hex) where
  -- `Err(invalid("expected a … transaction"))`
  abbrev wrong_kind {ℓ} : {T : Type ℓ} → NodeInner → Text → NodeInner × RpcResult T
  wrong_kind inner msg = (inner, refusal (invalid_params msg))

  unfoldable pub submit_task : NodeInner → SignedTx → NodeInner × RpcResult SubmitTaskResp
  unfolding answer_of
  submit_task inner stx = elim stx.tx [
    | Tx.submit_task body ↦
        let id = task_id c.primitives body in
        let escrowed = add_u128 body.limits.max_ucu (fee c.params body.limits.max_ucu) in
        answer_of (submit c inner stx)
          (λ after. record { task_id = h.encode (be_bytes 32 id); escrowed = to_string escrowed })
    | _ ↦ wrong_kind inner (codes "expected a SubmitTask transaction")
  ]

  unfoldable pub claim_task : NodeInner → SignedTx → NodeInner × RpcResult ClaimResp
  unfolding answer_of
  claim_task inner stx = elim stx.tx [
    | Tx.claim_task task ↦ answer_of (submit c inner stx) (λ after. record {
      ok = true;
      claim_stake = to_string (unwrap_or (task_claim_stake after task) 0);
    })
    | _ ↦ wrong_kind inner (codes "expected a ClaimTask transaction")
  ]

  unfoldable pub submit_proof : NodeInner → SignedTx → NodeInner × RpcResult OkResp
  unfolding answer_of
  submit_proof inner stx = elim stx.tx [
    | Tx.submit_proof proof ↦ answer_of (submit c inner stx) (λ after. record { ok = true })
    | _ ↦ wrong_kind inner (codes "expected a SubmitProof transaction")
  ]

  unfoldable pub transfer : NodeInner → SignedTx → NodeInner × RpcResult OkResp
  unfolding answer_of
  transfer inner stx = elim stx.tx [
    | Tx.transfer to amount ↦ answer_of (submit c inner stx) (λ after. record { ok = true })
    | _ ↦ wrong_kind inner (codes "expected a Transfer transaction")
  ]

  unfoldable pub challenge : NodeInner → SignedTx → NodeInner × RpcResult OkResp
  unfolding answer_of reject_err
  challenge inner stx = elim stx.tx [
    | Tx.challenge task bond ↦
        let (after, reply) = submit c inner stx in
        elim reply [
          | err e ↦ (after, refusal (reject_err e))
          | ok id ↦
              answer_of (resolve_pending_challenge c after task) (λ last. record { ok = true })
        ]
    | _ ↦ wrong_kind inner (codes "expected a Challenge transaction")
  ]

  unfoldable pub put_blob : NodeInner → Text → NodeInner × RpcResult PutBlobResp
  put_blob inner data' = elim (parse_hex h data') [
    | refusal e ↦ (inner, refusal e)
    | answer bytes ↦
        let (after, id) = Node.put_blob c inner bytes in
        (after, answer (record { content_id = h.encode (be_bytes 32 id) }))
  ]

  unfoldable pub get_head : NodeInner → RpcResult HeadView
  get_head inner = answer (head c h inner)

  unfoldable pub estimate_ucu : NodeInner → Text → Text → ℕ → RpcResult EstimateResp
  unfolding not_found
  estimate_ucu inner program input benchmark = elim (parse_hash h program) [
    | refusal e ↦ refusal e
    | answer program' ↦ elim (parse_hash h input) [
      | refusal e ↦ refusal e
      | answer input' ↦ elim (estimate c inner program' input') [
        | metered ucu ↦ answer (record { ucu = to_string ucu })
        | refused missing_program ↦ refusal (not_found (codes "program blob"))
        | refused missing_input ↦ refusal (not_found (codes "input blob"))
      ]
    ]
  ]

-- `let id = parse_hash(&s)?;`, then the lookup.
unfoldable pub with_hash {ℓ} : {T : Type ℓ} → Hex → Text → (Hash → RpcResult T) → RpcResult T
with_hash h s lookup = elim (parse_hash h s) [ refusal e ↦ refusal e | answer id ↦ lookup id ]

module _ (h : Hex) where
  unfoldable pub get_task : NodeInner → Text → RpcResult TaskView
  unfolding with_hash
  get_task inner s = with_hash h s (λ task. found_or (task_view inner task) (codes "task"))

  unfoldable pub get_account : NodeInner → Text → RpcResult AccountView
  unfolding with_hash
  get_account inner s = with_hash h s (λ id. answer (account_view inner id))

  unfoldable pub get_standing : NodeInner → Text → RpcResult StandingView
  unfolding with_hash
  get_standing inner s = with_hash h s (λ id. answer (standing_view inner id))

  unfoldable pub get_q_entry : NodeInner → Text → RpcResult QLedgerEntry
  unfolding with_hash
  get_q_entry inner s = with_hash h s (λ task. found_or (Node.q_entry inner task) (codes "q-entry"))

  unfoldable pub get_blob : NodeInner → Text → RpcResult GetBlobResp
  unfolding with_hash
  get_blob inner s = with_hash h s (λ id. elim (Node.get_blob inner id) [
    | none ↦ refusal (not_found (codes "blob"))
    | some bytes ↦ answer (record { data' = h.encode bytes })
  ])

unfoldable pub get_block : NodeInner → ℕ → RpcResult Block
get_block inner height = found_or (block_at inner height) (codes "block")

unfoldable pub get_block_txs : NodeInner → ℕ → RpcResult (List SignedTx)
get_block_txs inner height = found_or (block_txs_at inner height) (codes "block")
