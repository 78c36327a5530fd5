-- ===== src/Tests/Rates.antt =====
-- The theorems on rates and signatures, applied to the development network's parameters.
use ducp_node_rs.Common.{◌-◌, ◌*◌, ◌/◌, ◌≤◌, ◌<◌, ◌^◌, ◌+◌, arith, ==_self}
use ducp_node_rs.Common.Int.{pos}
use ducp_node_rs.Common.Words.{mul_u128}
use ducp_node_rs.Types.Primitives.{verify, SignsCorrectly}
use ducp_node_rs.Governance.{devnet, stake_base, claim_stake}
use ducp_node_rs.Governance.Stake.{claim_stake_bounds, claim_stake_antitone}
use ducp_node_rs.Tests.{toy, digest}

base_room : stake_base devnet 1_000_000 * 1_000_000 < 2 ^ 128
unfolding stake_base mul_u128
base_room = omega arith

claim_stake_bounds_example :
    let base = stake_base devnet 1_000_000 in
    (base * (1_000_000 - 800_000) / 1_000_000 ≤ claim_stake devnet 1_000_000 (pos 5_000))
    × (claim_stake devnet 1_000_000 (pos 5_000) ≤ base)
claim_stake_bounds_example = claim_stake_bounds devnet 1_000_000 (pos 5_000) (omega arith) base_room

claim_stake_antitone_example :
    claim_stake devnet 1_000_000 (pos 600_000_000_000) ≤ claim_stake devnet 1_000_000 (pos 5_000)
claim_stake_antitone_example =
    claim_stake_antitone devnet 1_000_000 (pos 5_000) (pos 600_000_000_000) (omega arith) base_room
      (omega arith) (omega arith)

pub toy-SignsCorrectly : SignsCorrectly toy
toy-SignsCorrectly = record {
  verifies = unfold verify in λ seed message. ==_self (seed + digest message);
}
