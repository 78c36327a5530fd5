-- ===== src/Conformance/Observable.antt =====
-- The ℚ-observable vector: four Providers of the same work, under different seals.
use ducp_node_rs.Common.{
  ℕ, ◌*◌, Bool, true, false, ◌&&◌, Option, none, some, List, [], ◌∷◌, map, ◌==◌,
}
use ducp_node_rs.Types.Bytes.{Ucu, ucu_scale}
use ducp_node_rs.Types.Text.{Text, codes, to_string}
use ducp_node_rs.Types.Quant.{SealGrade, Boundary, PowerSeal, s1_witnessed, s2_locked, chip, node}
use ducp_node_rs.Types.Primitives.{Primitives, content_id}
use ducp_node_rs.Dvm.{Benchmark}
use ducp_node_rs.Verification.{sealed_attest}
use mathlib.Core.Option

pub record QProviderRow : Type 0 where
  pub label : Text
  pub micro_q : Option ℕ
  pub seal_grade : Option SealGrade
  pub boundary : Option Boundary
  pub paid_ucu : Text

pub record QObservableRecord : Type 0 where
  pub ucu : Text
  pub providers : List QProviderRow
  pub all_payments_equal : Bool

abbrev pub observable_bench : Benchmark
observable_bench = record {
  version = 0;
  fuel_cost_table_hash = 0;
  fuel_per_ucu = 1;
  e_baseline = 137;
  t_std_millikelvin = 300_000;
}

abbrev pub observable_ucu : Ucu
observable_ucu = 50_000 * ucu_scale

-- The cap, the temperature, the grade and the boundary of a Provider's seal.
abbrev pub Offer : Type 0
Offer = ℕ × ℕ × SealGrade × Boundary

-- The derived `==` of strings.
abbrev pub eq_text : Text → Text → Bool
eq_text [] [] = true
eq_text (c ∷ s) (d ∷ t) = (c == d) && eq_text s t
eq_text _ _ = false

unfoldable pub mk_seal : Primitives → Offer → PowerSeal
mk_seal p (power_cap, t_max, grade, boundary) = record {
  seal_grade = grade;
  boundary = boundary;
  power_cap_milliwatts = power_cap;
  window_millis = 50_000;
  t_max_millikelvin = t_max;
  attestation_evidence = content_id p (codes "root-of-trust-quote");
  benchmark = 0;
}

unfoldable pub provider_row : Primitives → Text × Option Offer → QProviderRow
unfolding mk_seal
provider_row p (label, none) = record {
  label = label;
  micro_q = none;
  seal_grade = none;
  boundary = none;
  paid_ucu = to_string observable_ucu;
}
provider_row p (label, some (cap, t, g, b)) = record {
  label = label;
  micro_q =
      Option.map (λ q. q.micro_q)
        (sealed_attest (mk_seal p (cap, t, g, b)) observable_ucu observable_bench);
  seal_grade = some g;
  boundary = some b;
  paid_ucu = to_string observable_ucu;
}

abbrev pub offers : List (Text × Option Offer)
offers =
    (codes "A", some (274, 350_000, s1_witnessed, node))
    ∷ (codes "B", some (137, 300_000, s2_locked, chip))
    ∷ (codes "C", some (100, 250_000, s2_locked, chip))
    ∷ (codes "D", none)
    ∷ []

-- `providers.iter().all(|p| p.paid_ucu == ucu.to_string())`
unfoldable pub all_paid : Text → List QProviderRow → Bool
all_paid paid [] = true
all_paid paid (row ∷ rows) = eq_text row.paid_ucu paid && all_paid paid rows

unfoldable pub q_observable_record : Primitives → QObservableRecord
unfolding provider_row all_paid
q_observable_record p =
    let providers = map (provider_row p) offers in
    record {
      ucu = to_string observable_ucu;
      providers = providers;
      all_payments_equal = all_paid (to_string observable_ucu) providers;
    }
