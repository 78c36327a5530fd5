-- ===== src/Types/Reject.antt =====
-- Why a transaction is refused, and the `Result` that carries the reason.
use ducp_node_rs.Common.{Bool, true, false, Option, none, some, ◌≡◌, refl, inl, inr, ◌⊎◌}

pub data Reject : Type 0 where
  bad_signature bad_nonce unknown_account unknown_task insufficient_balance bad_status : Reject
  deadline_passed already_claimed wrong_provider ucu_exceeds_limit benchmark_mismatch : Reject
  not_in_clawback_window bond_too_small unsupported_feature conservation_violated invalid : Reject

pub data Result {ℓ} (A : Type ℓ) : Type ℓ where
  ok : A → Result A
  err : Reject → Result A

-- The operator `?`.
infixl 5 ◌>>=◌
abbrev pub ◌>>=◌ {ℓ κ} : {A : Type ℓ} {B : Type κ} → Result A → (A → Result B) → Result B
ok a >>= f = f a
err e >>= f = err e

infixl 5 ◌>>◌
abbrev pub ◌>>◌ {ℓ} : {A : Type ℓ} → Result (Unit {0}) → Result A → Result A
m >> k = m >>= λ _. k

-- `if c { return Err(e) }`
abbrev pub reject_if : Bool → Reject → Result (Unit {0})
reject_if true e = err e
reject_if false e = ok tt

-- `.ok_or(e)`
abbrev pub ok_or {ℓ} : {A : Type ℓ} → Option A → Reject → Result A
ok_or none e = err e
ok_or (some a) e = ok a

pub Result-cases {ℓ} :
    {A : Type ℓ} (r : Result A) → ((a : A) × (r ≡ ok a)) ⊎ ((e : Reject) × (r ≡ err e))
Result-cases (ok a) = inl (a, refl)
Result-cases (err e) = inr (e, refl)
