-- ===== src/Verification/Seals.antt =====
-- Power seals: when one yields a ℚ, and which.
use ducp_node_rs.Common.{ℕ, ◌*◌, ◌/◌, ◌<◌, ◌≤◌, ◌≡◌, ◌≢◌, refl, arith, some, ==_iff, max}
use ducp_node_rs.Common.Words.{u64_mod, u128_mod, mul_u128, mul_u128-exact}
use ducp_node_rs.Types.Bytes.{Ucu, ucu_scale, micro_q_scale}
use ducp_node_rs.Types.Quant.{PowerSeal, Quant}
use ducp_node_rs.Dvm.{Benchmark}
use ducp_node_rs.Verification.{
  sealed_attest, sealed_q_floor, evidence_valid, plausible, well_formed,
}

-- What the three checks ask of a seal.
pub record IsSound (seal : PowerSeal) (b : Benchmark) : Type 0 where
  pub evidence : seal.attestation_evidence ≢ 0
  pub power : 0 < seal.power_cap_milliwatts
  pub window : 0 < seal.window_millis
  pub temperature : 0 < seal.t_max_millikelvin
  pub version : seal.benchmark ≡ b.version

factor-lt : (x y m : ℕ) → 0 < y → x * y < m → x < m
factor-lt x y m positive small = let le : x ≤ x * y = grind arith in omega arith

-- Products of which the last fits are computed exactly.
mul_u128-three : (a b c : ℕ) → 0 < c → a * b * c < u128_mod → mul_u128 (mul_u128 a b) c ≡ a * b * c
mul_u128-three a b c positive small =
    rw
      (
        mul_u128-exact a b (factor-lt (a * b) c u128_mod positive small),
        mul_u128-exact (a * b) c small,
      )
      refl

mul_u128-four :
    (a b c d : ℕ)
    → 0 < c
    → 0 < d
    → a * b * c * d < u128_mod
    → mul_u128 (mul_u128 (mul_u128 a b) c) d ≡ a * b * c * d
mul_u128-four a b c d c_positive d_positive small =
    rw
      (
        mul_u128-three a b c c_positive (factor-lt (a * b * c) d u128_mod d_positive small),
        mul_u128-exact (a * b * c) d small,
      )
      refl

-- The floor, when nothing overflows.
sealed_q_floor-exact :
    (seal : PowerSeal) (u : Ucu) (b : Benchmark)
    → let work = max (u / ucu_scale) 1 in
      let numerator = work * b.e_baseline * b.t_std_millikelvin * micro_q_scale in
      let denom = seal.power_cap_milliwatts * seal.window_millis * seal.t_max_millikelvin in
      0 < b.t_std_millikelvin
      → 0 < seal.t_max_millikelvin
      → 0 < denom
      → numerator < u128_mod
      → denom < u128_mod
      → numerator / denom < u64_mod
      → (sealed_q_floor seal u b).micro_q ≡ numerator / denom
unfolding sealed_q_floor
sealed_q_floor-exact seal u b std_positive max_positive positive small_n small_d small =
    let work = max (u / ucu_scale) 1 in
    rw
      (
        mul_u128-four work b.e_baseline b.t_std_millikelvin micro_q_scale std_positive (omega arith)
            small_n,
        mul_u128-three seal.power_cap_milliwatts seal.window_millis seal.t_max_millikelvin
            max_positive small_d,
      )
      (ground arith)

product-positive : (x y : ℕ) → 0 < x → 0 < y → 0 < x * y
product-positive x y h k = let le : x ≤ x * y = grind arith in omega arith

-- A seal yields a ℚ only if it has evidence, positive power, window and temperature, and the
-- benchmark's version. The ℚ is then the floor of work times baselines over energy times
-- temperature, in millionths, when the standard temperature is positive, the products fit a u128 and
-- the quotient a u64.
pub sealed_attest_floor :
    (seal : PowerSeal) (u : Ucu) (b : Benchmark) (q : Quant)
    → let work = max (u / ucu_scale) 1 in
      let numerator = work * b.e_baseline * b.t_std_millikelvin * micro_q_scale in
      let denom = seal.power_cap_milliwatts * seal.window_millis * seal.t_max_millikelvin in
      0 < b.t_std_millikelvin
      → numerator < u128_mod
      → denom < u128_mod
      → numerator / denom < u64_mod
      → sealed_attest seal u b ≡ some q
      → IsSound seal b × (q.micro_q ≡ numerator / denom)
unfolding sealed_attest evidence_valid plausible well_formed
sealed_attest_floor seal u b q std_positive small_n small_d small h =
    let sound : IsSound seal b = record {
      evidence = ground (arith, ==_iff seal.attestation_evidence 0);
      power = ground arith;
      window = ground arith;
      temperature = ground arith;
      version = ground (arith, ==_iff seal.benchmark b.version);
    } in
    let energy : 0 < seal.power_cap_milliwatts * seal.window_millis =
      product-positive _ _ sound.power sound.window in
    let positive = product-positive _ _ energy sound.temperature in
    let floor : sealed_q_floor seal u b ≡ q = ground arith in
    (
      sound,
      rw (← floor) (
          sealed_q_floor-exact seal u b std_positive sound.temperature positive small_n small_d
            small),
    )
