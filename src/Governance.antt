-- ===== src/Governance.antt =====
-- The static parameter set and the rates, crates/governance/src/lib.rs. All rates are in parts per
-- million; products wrap as a release build's u128 does.
pub mod Stake
pub mod Rates
use ducp_node_rs.Common.{ℕ, ◌*◌, ◌/◌, Bool, leb, min, if◌then◌else◌}
use ducp_node_rs.Common.Int.{ℤ, pos, pos_part, quot, to_i128, mul_i128, sub_i128}
use ducp_node_rs.Common.Words.{mul_u128, sub_u128}
use ducp_node_rs.Types.Bytes.{Ucu, ucu_scale}
use ducp_node_rs.Types.Records.{Sp}

abbrev pub ppm : ℕ
ppm = 1_000_000

pub record Params : Type 0 where
  pub issuance_rate_ppm : ℕ
  pub fee_ppm : ℕ
  pub sp_rate_ppm : ℕ
  pub efficiency_mult_ppm : ℕ
  pub decay_rate_ppm : ℕ
  pub stake_base_ppm : ℕ
  pub discount_max_ppm : ℕ
  pub sp_ref : Sp
  pub clawback_epochs : ℕ
  pub audit_prob_ppm : ℕ
  pub fine_mult_ppm : ℕ
  pub challenger_reward_ppm : ℕ
  pub bond_min_ppm : ℕ

abbrev pub devnet : Params
devnet = record {
  issuance_rate_ppm = 10_000;
  fee_ppm = 1_000;
  sp_rate_ppm = 1_000_000;
  efficiency_mult_ppm = 1_000_000;
  decay_rate_ppm = 20_000;
  stake_base_ppm = 500_000;
  discount_max_ppm = 800_000;
  sp_ref = pos (1_000 * ucu_scale);
  clawback_epochs = 32;
  audit_prob_ppm = 100_000;
  fine_mult_ppm = 2_000_000;
  challenger_reward_ppm = 500_000;
  bond_min_ppm = 250_000;
}

-- `x * rate / PPM`
abbrev pub rate_of : ℕ → ℕ → ℕ
rate_of x rate = mul_u128 x rate / ppm

unfoldable pub fee : Params → Ucu → Ucu
fee p max_ucu = rate_of max_ucu p.fee_ppm

unfoldable pub issuance : Params → Ucu → Ucu
issuance p u = rate_of u p.issuance_rate_ppm

unfoldable pub standing_accrual : Params → Ucu → ℕ → Sp
standing_accrual p u efficiency_mult = to_i128 (rate_of (rate_of u p.sp_rate_ppm) efficiency_mult)

unfoldable pub stake_base : Params → Ucu → Ucu
stake_base p max_ucu = rate_of max_ucu p.stake_base_ppm

-- `sp_ref <= 0`
abbrev is_nonpositive : ℤ → Bool
is_nonpositive z = leb (pos_part z) 0

unfoldable pub discount_reduction_ppm : Params → Sp → ℕ
discount_reduction_ppm p provider_sp =
    if is_nonpositive p.sp_ref
    then 0
    else min (mul_u128 (pos_part provider_sp) ppm / pos_part p.sp_ref) p.discount_max_ppm

unfoldable pub claim_stake : Params → Ucu → Sp → Ucu
unfolding stake_base discount_reduction_ppm
claim_stake p max_ucu provider_sp =
    rate_of (stake_base p max_ucu) (sub_u128 ppm (discount_reduction_ppm p provider_sp))

unfoldable pub fine : Params → Ucu → Ucu
fine p payment = rate_of payment p.fine_mult_ppm

unfoldable pub challenger_reward : Params → Ucu → Ucu
challenger_reward p f = rate_of f p.challenger_reward_ppm

unfoldable pub bond_min : Params → Ucu → Ucu
bond_min p payment = rate_of payment p.bond_min_ppm

-- `sp * (PPM - decay_rate) / PPM` on i128, which rounds towards zero.
unfoldable pub decay : Params → Sp → Sp
decay p sp = quot (mul_i128 sp (sub_i128 (pos ppm) (to_i128 p.decay_rate_ppm))) ppm

-- `impl ParamSource for StaticParams`
pub record StaticParams : Type 0 where
  pub inner : Params

unfoldable pub params : StaticParams → Params
params source = source.inner
