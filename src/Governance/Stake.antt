-- ===== src/Governance/Stake.antt =====
-- The claim stake: how Standing discounts it.
use native.Mathlib.Nat.{
  le_trans, div-le_of_le-mul, mul-le-mul_left, div-mul-le_self, le-div_iff_mul-le,
}
use ducp_node_rs.Common.{ℕ, zero, suc, ◌-◌, ◌*◌, ◌/◌, ◌≤◌, ◌<◌, ◌≡◌, refl, arith}
use ducp_node_rs.Common.Int.{pos_part, ◌≤ℤ◌}
use ducp_node_rs.Common.Words.{u128_mod, mul_u128-exact, sub_u128, sub_u128-exact}
use ducp_node_rs.Types.Bytes.{Ucu}
use ducp_node_rs.Types.Records.{Sp}
use ducp_node_rs.Governance.{Params, ppm, rate_of, stake_base, discount_reduction_ppm, claim_stake}

-- The discount never passes its cap.
pub discount-le-max : (p : Params) (sp : Sp) → discount_reduction_ppm p sp ≤ p.discount_max_ppm
unfolding discount_reduction_ppm
discount-le-max p sp = ground arith

div_mono : (a b d : ℕ) → a ≤ b → a / d ≤ b / d
div_mono a b zero h = omega arith
div_mono a b (suc d) h =
    (le-div_iff_mul-le (omega arith)).1 (le_trans (div-mul-le_self a (suc d)) h)

-- More Standing never means a smaller discount, as long as the products fit.
pub discount_mono :
    (p : Params) (a b : Sp)
    → pos_part b * ppm < u128_mod
    → a ≤ℤ b
    → discount_reduction_ppm p a ≤ discount_reduction_ppm p b
unfolding discount_reduction_ppm
discount_mono p a b fits h =
    let le : pos_part a ≤ pos_part b = ground arith in
    ground (
      arith,
      mul_u128-exact (pos_part a) ppm,
      mul_u128-exact (pos_part b) ppm,
      div_mono (pos_part a * ppm) (pos_part b * ppm) (pos_part p.sp_ref),
    )

-- What is left of a base after a reduction of at most the whole.
reduced-eq :
    (base r : ℕ)
    → base * ppm < u128_mod
    → r ≤ ppm
    → rate_of base (sub_u128 ppm r) ≡ base * (ppm - r) / ppm
reduced-eq base r fits h =
    let product : base * (ppm - r) ≤ base * ppm = mul-le-mul_left base (omega arith) in
    rw (sub_u128-exact ppm r (omega arith) h, mul_u128-exact base (ppm - r) (omega arith)) refl

reduced_mono :
    (base r s : ℕ)
    → base * ppm < u128_mod
    → r ≤ s
    → s ≤ ppm
    → rate_of base (sub_u128 ppm s) ≤ rate_of base (sub_u128 ppm r)
reduced_mono base r s fits h k =
    rw (reduced-eq base s fits k, reduced-eq base r fits (omega arith))
      (div_mono _ _ ppm (mul-le-mul_left base (omega arith)))

-- The stake that a Provider posts is at most the undiscounted base, and at least the part of it
-- that the largest discount leaves, when the cap is at most the whole and the base leaves room for
-- a product in parts per million.
pub claim_stake_bounds :
    (p : Params) (max_ucu : Ucu) (sp : Sp)
    → p.discount_max_ppm ≤ ppm
    → stake_base p max_ucu * ppm < u128_mod
    → let base = stake_base p max_ucu in
      (base * (ppm - p.discount_max_ppm) / ppm ≤ claim_stake p max_ucu sp)
      × (claim_stake p max_ucu sp ≤ base)
unfolding claim_stake
claim_stake_bounds p max_ucu sp cap fits =
    let base = stake_base p max_ucu in
    let r = discount_reduction_ppm p sp in
    let small : r ≤ p.discount_max_ppm = discount-le-max p sp in
    (
      rw (← reduced-eq base p.discount_max_ppm fits cap)
          (reduced_mono base r p.discount_max_ppm fits small cap),
      rw (reduced-eq base r fits (omega arith)) (div-le_of_le-mul ppm (grind arith)),
    )

-- More Standing never means a larger stake, when the cap is at most the whole and the products fit.
pub claim_stake_antitone :
    (p : Params) (max_ucu : Ucu) (a b : Sp)
    → p.discount_max_ppm ≤ ppm
    → stake_base p max_ucu * ppm < u128_mod
    → pos_part b * ppm < u128_mod
    → a ≤ℤ b
    → claim_stake p max_ucu b ≤ claim_stake p max_ucu a
unfolding claim_stake
claim_stake_antitone p max_ucu a b cap fits small h =
    reduced_mono (stake_base p max_ucu) (discount_reduction_ppm p a) (discount_reduction_ppm p b)
      fits (discount_mono p a b small h) (le_trans (discount-le-max p b) cap)
