-- ===== src/Conformance/Samples.antt =====
-- The sample values of the codec vectors, module `samples` of crates/conformance/src/lib.rs.
use ducp_node_rs.Common.{◌*◌, ◌/◌, ◌^◌, some, none, [], ◌∷◌}
use ducp_node_rs.Common.Int.{pos}
use ducp_node_rs.Types.Bytes.{ucu_scale, filled}
use ducp_node_rs.Types.Text.{codes}
use ducp_node_rs.Types.Task
use ducp_node_rs.Types.Task.{TaskBody, wasm, return_on_failure}
use ducp_node_rs.Types.Quant
use ducp_node_rs.Types.Quant.{
  PowerSeal, QLedgerEntry, unmeasured, from_micro, s1_witnessed, s2_locked,
}
use ducp_node_rs.Types.Records
use ducp_node_rs.Types.Records.{Submission, ComputeProof, Receipt, Account, StandingRecord}
use ducp_node_rs.Types.Tx
use ducp_node_rs.Types.Tx.{SignedTx, Block}
use ducp_node_rs.Types.Primitives.{
  Primitives, task_id, tx_id, sign, identity, content_id, hash_bytes,
}

abbrev pub task_body : TaskBody
task_body = record {
  ir = wasm;
  program = filled 32 0x11;
  input = filled 32 0x22;
  limits = record { max_ucu = 10 * ucu_scale; max_memory_bytes = 2 ^ 20 };
  tier = Task.sampled_reexec;
  benchmark = 0;
  deadline = 100;
  failure_policy = return_on_failure;
  nonce = 7;
}

module _ (p : Primitives) where
  abbrev pub submission : Submission
  submission = record {
    task = task_id p task_body;
    requester = identity p (filled 32 1);
    ucu_count = 0;
    fee = ucu_scale / 100;
    status = Task.submitted;
    provider = none;
    claim_stake = 0;
  }

  abbrev pub proof_no_seal : ComputeProof
  proof_no_seal = record {
    task = task_id p task_body;
    provider = identity p (filled 32 2);
    output = content_id p (codes "result-bytes");
    result_hash = hash_bytes p (codes "result-bytes");
    ucu_count = 4 * ucu_scale;
    benchmark = 0;
    tier_data = Records.sampled_reexec;
    power_seal = none;
  }

  abbrev pub power_seal : PowerSeal
  power_seal = record {
    seal_grade = s1_witnessed;
    boundary = Quant.node;
    power_cap_milliwatts = 300_000;
    window_millis = 1_000;
    t_max_millikelvin = 350_000;
    attestation_evidence = content_id p (codes "attestation-quote");
    benchmark = 0;
  }

  abbrev pub proof_with_seal : ComputeProof
  proof_with_seal = record proof_no_seal { power_seal = some power_seal }

  abbrev pub receipt : Receipt
  receipt = record {
    task = task_id p task_body;
    paid_to_provider = 4 * ucu_scale;
    work_issuance = 4 * ucu_scale / 100;
    validator_fee = ucu_scale / 100;
    standing_delta = pos (4 * ucu_scale);
    settled_epoch = 12;
    clawback_until = 44;
  }

  abbrev pub account : Account
  account = record {
    id = identity p (filled 32 2);
    balance = 1_000 * ucu_scale;
    escrowed = 0;
    bonded = 2 * ucu_scale;
  }

  abbrev pub standing : StandingRecord
  standing = record {
    id = identity p (filled 32 2);
    sp = pos (123 * ucu_scale);
    last_decay_epoch = 12;
    strikes = 0;
  }

  abbrev pub signed_transfer : SignedTx
  signed_transfer = sign p (filled 32 7) (Tx.transfer (identity p (filled 32 9)) (5 * ucu_scale)) 1

  abbrev pub q_entry_null : QLedgerEntry
  q_entry_null = unmeasured (task_id p task_body) (4 * ucu_scale) 0

  abbrev pub q_entry_valued : QLedgerEntry
  q_entry_valued = record {
    task = task_id p task_body;
    ucu = 4 * ucu_scale;
    q = some (from_micro 1_640_000);
    seal_grade = some s2_locked;
    boundary = some Quant.chip;
    benchmark = 0;
  }

  abbrev pub block : Block
  block = record {
    height = 1;
    parent = 0;
    epoch = 0;
    txs = tx_id p signed_transfer ∷ [];
    state_root = hash_bytes p (codes "state-root-placeholder");
    proposer = identity p (filled 32 0xAA);
  }
