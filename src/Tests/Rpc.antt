-- ===== src/Tests/Rpc.antt =====
-- The theorems on the JSON form, the calls and the node program, applied to the worked history.
use ducp_node_rs.Common.{◌+◌, ◌<◌, ◌≡◌, ◌≢◌, refl, arith, true, false, none, some, [], ◌∷◌, map}
use ducp_node_rs.Common.Int.{negsuc}
use ducp_node_rs.Common.BTreeMap.{get, contains_key}
use ducp_node_rs.Types.Bytes.{Bytes, Hash, span, be_bytes}
use ducp_node_rs.Types.Task.{TaskBody, submitted}
use ducp_node_rs.Types.Records.{ComputeProof}
use ducp_node_rs.Types.Text.{Text, codes, parse_u128}
use ducp_node_rs.Types.Wire.{
  serialize_array, deserialize_array, serialize_opt, deserialize_opt, serialize_vec,
  deserialize_vec, serialize_bytes, deserialize_bytes, serialize_u128, deserialize_u128,
  serialize_i128, deserialize_i128,
}
use ducp_node_rs.Types.Wire.RoundTrip.{deserialize-serialize}
use ducp_node_rs.Types.Primitives.{task_id, identity, hash_bytes, sign}
use ducp_node_rs.Governance.{devnet, fee}
use ducp_node_rs.Ledger.Accounts.{update, lock_escrow}
use ducp_node_rs.Ledger.State.{State, check_conservation}
use ducp_node_rs.Ledger.Fraud.{resolve_challenge}
use ducp_node_rs.Node.{NodeInner, new_node}
use ducp_node_rs.Node.Rpc.{answer, refusal}
use ducp_node_rs.Node.Rpc.Calls.{submit_task, challenge, put_blob, get_blob, get_task}
use ducp_node_rs.Node.Rpc.Disputes.{Confirms, Lacks, challenge_answer}
use ducp_node_rs.Node.Rpc.Reads.{HashesFit, get_blob-put_blob, get_task-submit_task}
use ducp_node_rs.Node.Program.{Cli, start}
use ducp_node_rs.Node.Program.Arguments.{print_alloc, funded, start-print_alloc}
use ducp_node_rs.Tests.{toy, digest, body}
use ducp_node_rs.Tests.Hex.{hex, hex-HexLaws}
use ducp_node_rs.Tests.History.{task, submission, dispute, s0, s1, s3, s4, runs, ordered_s3}
use ducp_node_rs.Tests.Nodes.{config, node_at}

digest_small : (bytes : Bytes) → digest bytes < 65_537
digest_small [] = omega arith
digest_small (b ∷ bs) = omega arith

fits : HashesFit toy
fits bytes = omega (arith, digest_small bytes)

deserialize-serialize_example :
    (deserialize_array hex 32 (serialize_array hex 32 77) ≡ some 77)
    × (deserialize_opt hex (serialize_opt hex (some 78)) ≡ some (some 78))
    × (deserialize_vec hex (serialize_vec hex (1 ∷ 2 ∷ [])) ≡ some (1 ∷ 2 ∷ []))
    × (deserialize_bytes hex (serialize_bytes hex (9 ∷ 255 ∷ [])) ≡ some (9 ∷ 255 ∷ []))
    × (deserialize_u128 (serialize_u128 1_000_000) ≡ some 1_000_000)
    × (deserialize_i128 (serialize_i128 (negsuc 41)) ≡ some (negsuc 41))
deserialize-serialize_example =
    deserialize-serialize hex 32 77 (some 78) (1 ∷ 2 ∷ []) (9 ∷ 255 ∷ []) 1_000_000 (negsuc 41)
      hex-HexLaws (omega arith) (omega arith) (omega arith, (omega arith, tt))
      (omega arith, (omega arith, tt)) (omega arith) (omega arith) (omega arith)

-- The node at the settled state, with the program and the input of the task.
abbrev stocked : NodeInner
stocked = record (node_at s3) { blobs = (11, 9 ∷ []) ∷ (12, 1 ∷ []) ∷ [] }

challenge_answer_example :
    let (last, reply) = challenge config hex stocked dispute in
    ((b : TaskBody) (proof : ComputeProof) (program input : Bytes)
      → get task s4.bodies ≡ some b
      → get task s4.proofs ≡ some proof
      → get b.program stocked.blobs ≡ some program
      → get b.input stocked.blobs ≡ some input
      → (Confirms config b proof program input
          → last.state ≡ resolve_challenge s4 task false devnet)
        × (¬ Confirms config b proof program input
            → last.state ≡ resolve_challenge s4 task true devnet)
        × (get task last.state.pending_challenges ≡ none)
        × (reply ≡ answer (record { ok = true })))
    × (Lacks s4 stocked.blobs task
        → (last.state ≡ s4)
          × (contains_key task s4.pending_challenges ≡ true)
          × (reply ≡ refusal (record { code = negsuc 32_003; message = codes "unknown task" })))
challenge_answer_example =
    challenge_answer config hex stocked dispute task 200_000 s4 (unfold new_node in refl) ordered_s3
      (unfold sign in refl) runs.3

get_blob-put_blob_example :
    let after = (put_blob config hex (node_at s3) (hex.encode (9 ∷ 8 ∷ []))).0 in
    ((id : Text) × ((put_blob config hex (node_at s3) (hex.encode (9 ∷ 8 ∷ []))).1
        ≡ answer (record { content_id = id }))
      × (get_blob hex after id ≡ answer (record { data' = hex.encode (9 ∷ 8 ∷ []) })))
    × ((other : Hash)
        → other < span 32
        → other ≢ hash_bytes toy (9 ∷ 8 ∷ [])
        → get_blob hex after (hex.encode (be_bytes 32 other))
          ≡ get_blob hex (node_at s3) (hex.encode (be_bytes 32 other)))
get_blob-put_blob_example =
    get_blob-put_blob config hex (node_at s3) (9 ∷ 8 ∷ []) hex-HexLaws fits
      (omega arith, (omega arith, tt))

get_task-submit_task_example :
    let id = task_id toy body in
    let need = 1_000_000 + fee devnet 1_000_000 in
    let after = (submit_task config hex (node_at s0) submission).0 in
    (name amount : Text) × ((submit_task config hex (node_at s0) submission).1
      ≡ answer (record { task_id = name; escrowed = amount }))
    × (parse_u128 amount ≡ some need)
    × (after.state.accounts ≡ update s0.accounts 1 (lock_escrow need))
    × (get_task hex after name
        ≡ answer (record {
          submission = record {
            task = id;
            requester = 1;
            ucu_count = 0;
            fee = fee devnet 1_000_000;
            status = submitted;
            provider = none;
            claim_stake = 0;
          };
          status = codes "Submitted";
          receipt = get id s0.receipts;
          q_entry = get id s0.q_ledger;
        }))
unfolding sign
get_task-submit_task_example =
    get_task-submit_task config hex (node_at s0) submission body s1 hex-HexLaws fits
      (unfold new_node in refl) (unfold sign in refl) runs.0

start-print_alloc_example :
    let cli : Cli = record {
      seed = hex.encode (be_bytes 32 5);
      alloc = map (print_alloc hex) ((1, 1_000) ∷ (2, 7) ∷ []);
    } in
    (start toy hex cli ≡ some (new_node (identity toy 5) (funded toy ((1, 1_000) ∷ (2, 7) ∷ []))))
    × (check_conservation (new_node (identity toy 5) (funded toy ((1, 1_000) ∷ (2, 7) ∷ []))).state
        ≡ true)
start-print_alloc_example =
    start-print_alloc toy hex 5 ((1, 1_000) ∷ (2, 7) ∷ []) hex-HexLaws (omega arith)
      (omega arith, omega arith, (omega arith, omega arith, tt)) (omega arith)
