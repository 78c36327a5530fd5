-- ===== src/Governance/Rates.antt =====
-- Bounds on fees, mints, fines and decay.
use ducp_node_rs.Common.{ℕ, ◌-◌, ◌*◌, ◌/◌, ◌≤◌, ◌<◌, ◌^◌, ◌≡◌, refl, arith}
use native.Mathlib.Nat.{mul-le-mul_left}
use ducp_node_rs.Common.Int.{pos, mul_i128-pos, sub_i128-pos, to_i128-pos}
use ducp_node_rs.Common.Words.{u128_mod, mul_u128-exact}
use ducp_node_rs.Governance.{Params, ppm, rate_of, decay}

-- A rate of at most one takes at most the whole, when the product fits.
pub rate_of-le : (x rate : ℕ) → x * rate < u128_mod → rate ≤ ppm → rate_of x rate ≤ x
rate_of-le x rate fits small =
    let bound : x * rate ≤ x * ppm = grind arith in omega (arith, mul_u128-exact x rate fits)

pub decay-pos :
    (p : Params) (n : ℕ)
    → p.decay_rate_ppm ≤ ppm
    → n * ppm < 2 ^ 127
    → decay p (pos n) ≡ pos (n * (ppm - p.decay_rate_ppm) / ppm)
unfolding decay
decay-pos p n r fits =
    let product : n * (ppm - p.decay_rate_ppm) ≤ n * ppm = mul-le-mul_left n (omega arith) in
    rw
      (
        to_i128-pos p.decay_rate_ppm (omega arith),
        sub_i128-pos ppm p.decay_rate_ppm (omega arith) r,
        mul_i128-pos n (ppm - p.decay_rate_ppm) (omega arith),
      )
      refl
