-- ===== src/Node/Rpc/Reads.antt =====
-- What the reading calls answer after the calls that write: a stored blob, and a submitted task.
use ducp_node_rs.Common.{◌+◌, ◌<◌, ◌≡◌, ◌≢◌, ap, ◌∙◌, arith, none, some, []}
use ducp_node_rs.Common.Words.{add_u128, add_u128-exact}
use ducp_node_rs.Common.BTreeMap.{get}
use ducp_node_rs.Common.BTreeMap.Laws.{get-insert, get-insert_self}
use ducp_node_rs.Types.Bytes.{
  Bytes, Hash, AreBytes, span, be_bytes, be_bytes-AreBytes, to_array-be_bytes,
}
use ducp_node_rs.Types.Reject.{ok}
use ducp_node_rs.Types.Task.{TaskBody, submitted}
use ducp_node_rs.Types.Text.{Text, codes, Hex, HexLaws, to_string, parse_u128}
use ducp_node_rs.Types.Text.Decimal.{parse_u128-to_string}
use ducp_node_rs.Types.Wire.RoundTrip.{decode-encode}
use ducp_node_rs.Types.Primitives.{Primitives, task_id, hash_bytes, hash_canonical}
use ducp_node_rs.Types.Tx
use ducp_node_rs.Types.Tx.{SignedTx}
use ducp_node_rs.Governance.{fee}
use ducp_node_rs.Ledger.Accounts.{update, lock_escrow}
use ducp_node_rs.Ledger.State.{State}
use ducp_node_rs.Ledger.Apply.{apply, dispatch}
use ducp_node_rs.Ledger.Handlers.{accept_submission}
use ducp_node_rs.Ledger.Guards.{apply-Accepts, submit_task-Submits, bumped}
use ducp_node_rs.Node.{NodeInner, Config, submit}
use ducp_node_rs.Node
use ducp_node_rs.Node.Replies.{submit_reply}
use ducp_node_rs.Node.Rpc.{answer, parse_hex, parse_hash, found_or, task_view, status_name}
use ducp_node_rs.Node.Rpc.Calls.{submit_task, put_blob, get_blob, get_task, with_hash, answer_of}

-- A hash is an array of 32 bytes.
abbrev pub HashesFit : Primitives → Type 0
HashesFit p = (bytes : Bytes) → p.blake3 bytes < span 32

task_id-fits : (p : Primitives) (body : TaskBody) → HashesFit p → task_id p body < span 32
unfolding task_id hash_canonical hash_bytes
task_id-fits p body fits = fits (p.borsh_body body)

module _ (h : Hex) (laws : HexLaws h) where
  parse_hex-encode : (bs : Bytes) → AreBytes bs → parse_hex h (h.encode bs) ≡ answer bs
  unfolding parse_hex
  parse_hex-encode bs bytes = ground (arith, decode-encode h laws bs bytes)

  parse_hash-encode : (v : Hash) → v < span 32 → parse_hash h (h.encode (be_bytes 32 v)) ≡ answer v
  unfolding parse_hash
  parse_hash-encode v fits = ground (
    arith,
    parse_hex-encode (be_bytes 32 v) (be_bytes-AreBytes 32 v),
    to_array-be_bytes 32 v fits,
  )

-- With a hex package that keeps its promises and hashes of 32 bytes, the data of `putBlob` comes
-- back from `getBlob` at the id that was answered, and no other id answers otherwise than before.
pub get_blob-put_blob :
    (c : Config) (h : Hex) (inner : NodeInner) (bs : Bytes)
    → HexLaws h
    → HashesFit c.primitives
    → AreBytes bs
    → let after = (put_blob c h inner (h.encode bs)).0 in
      ((id : Text) × ((put_blob c h inner (h.encode bs)).1 ≡ answer (record { content_id = id }))
        × (get_blob h after id ≡ answer (record { data' = h.encode bs })))
      × ((other : Hash)
          → other < span 32
          → other ≢ hash_bytes c.primitives bs
          → get_blob h after (h.encode (be_bytes 32 other))
            ≡ get_blob h inner (h.encode (be_bytes 32 other)))
unfolding put_blob get_blob with_hash Node.put_blob Node.get_blob hash_bytes
get_blob-put_blob c h inner bs laws fits bytes =
    let id = c.primitives.blake3 bs in
    (
      (
        h.encode (be_bytes 32 id),
        ground (arith, parse_hex-encode h laws bs bytes),
        ground (
          arith,
          parse_hex-encode h laws bs bytes,
          parse_hash-encode h laws id (fits bs),
          get-insert_self id bs inner.blobs,
        ),
      ),
      λ other small different. ground (
        arith,
        parse_hex-encode h laws bs bytes,
        parse_hash-encode h laws other small,
        get-insert other id bs inner.blobs,
      ),
    )

-- Where the ledger accepts a submission, on an empty mempool, with a hex package that keeps its
-- promises and hashes of 32 bytes: the answer of `submitTask` names the amount that the Requester
-- has in escrow for the task, its ceiling and its fee without overflow, and `getTask` at the
-- answered id answers the submission with the status `Submitted` and no Provider.
pub get_task-submit_task :
    (c : Config) (h : Hex) (inner : NodeInner) (stx : SignedTx) (body : TaskBody) (ns : State)
    → HexLaws h
    → HashesFit c.primitives
    → inner.mempool ≡ []
    → stx.tx ≡ Tx.submit_task body
    → apply c.primitives inner.state stx c.params ≡ ok ns
    → let id = task_id c.primitives body in
      let need = body.limits.max_ucu + fee c.params body.limits.max_ucu in
      let after = (submit_task c h inner stx).0 in
      (name amount : Text) × ((submit_task c h inner stx).1
        ≡ answer (record { task_id = name; escrowed = amount }))
      × (parse_u128 amount ≡ some need)
      × (after.state.accounts ≡ update inner.state.accounts stx.author (lock_escrow need))
      × (get_task h after name
          ≡ answer (record {
            submission = record {
              task = id;
              requester = stx.author;
              ucu_count = 0;
              fee = fee c.params body.limits.max_ucu;
              status = submitted;
              provider = none;
              claim_stake = 0;
            };
            status = codes "Submitted";
            receipt = get id inner.state.receipts;
            q_entry = get id inner.state.q_ledger;
          }))
unfolding submit_task answer_of get_task with_hash found_or task_view status_name accept_submission
    dispatch
get_task-submit_task c h inner stx body ns laws fits idle kind accepted =
    let (taken, reply) = (submit_reply c inner stx idle).0 ns accepted in
    let a = apply-Accepts c.primitives inner.state ns stx c.params accepted in
    let submits =
      submit_task-Submits (bumped inner.state stx.author) ns c.params c.primitives stx.author body
        (ground (arith, kind, a.handled)) in
    let max_ucu = body.limits.max_ucu in
    let id = task_id c.primitives body in
    let amount = add_u128 max_ucu (fee c.params max_ucu) in
    (
      h.encode (be_bytes 32 id),
      to_string amount,
      ground (arith, kind, reply),
      parse_u128-to_string amount
            (ground (arith, add_u128-exact max_ucu (fee c.params max_ucu) submits.fits))
          ∙ ap some (add_u128-exact max_ucu (fee c.params max_ucu) submits.fits),
      ground (arith, kind, reply, taken, submits.committed),
      ground (
        arith,
        kind,
        reply,
        taken,
        submits.committed,
        parse_hash-encode h laws id (task_id-fits c.primitives body fits),
        get-insert_self id
            (record {
              task = id;
              requester = stx.author;
              ucu_count = 0;
              fee = fee c.params max_ucu;
              status = submitted;
              provider = none;
              claim_stake = 0;
            })
            inner.state.tasks,
      ),
    )
