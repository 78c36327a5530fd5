-- ===== src/Ledger/Accounts/Held.antt =====
-- How each movement changes the total that the accounts hold, and what it leaves alone.
use ducp_node_rs.Common.{ℕ, ◌+◌, ◌≤◌, ◌<◌, ◌≡◌, arith, ◌==◌, if◌then◌else◌}
use ducp_node_rs.Common.Words.{u128_mod, add_u128, sub_u128}
use ducp_node_rs.Common.BTreeMap.Laws.{get-insert}
use ducp_node_rs.Common.BTreeMap.Sum.{sum, sum-insert, share-le-sum}
use ducp_node_rs.Types.Bytes.{Identity, Ucu}
use ducp_node_rs.Types.Records.{Account}
use ducp_node_rs.Ledger.Accounts.{
  Accounts, account, update, credit, debit, lock_escrow, drain_escrow, lock_bond, release_bond,
  slash_bond,
}

-- What one account holds, and what all of them do.
abbrev pub hold : Account → ℕ
hold a = a.balance + a.escrowed + a.bonded

unfoldable pub held : Accounts → ℕ
held m = sum (λ id a. hold a) m

pub account-update :
    (m : Accounts) (id j : Identity) (change : Account → Account)
    → account (update m id change) j ≡ (if j == id then change (account m id) else account m j)
unfolding account update
account-update m id j change = ground (arith, get-insert j id (change (account m id)) m)

held-update :
    (m : Accounts) (id : Identity) (change : Account → Account)
    → held (update m id change) + hold (account m id) ≡ held m + hold (change (account m id))
unfolding held update account
held-update m id change =
    ground (arith, sum-insert (λ (k : ℕ) a. hold a) id (change (account m id)) m)

pub hold-le-held : (m : Accounts) (id : Identity) → hold (account m id) ≤ held m
unfolding held account
hold-le-held m id = ground (arith, share-le-sum (λ (k : ℕ) (a : Account). hold a) id m)

module _ (m : Accounts) (id : Identity) (x : Ucu) where
  pub held-credit : held m + x < u128_mod → held (update m id (credit x)) ≡ held m + x
  unfolding credit add_u128
  held-credit fits = omega (arith, held-update m id (credit x), hold-le-held m id)

  pub held-debit :
      x ≤ (account m id).balance → held m < u128_mod → held (update m id (debit x)) + x ≡ held m
  unfolding debit sub_u128
  held-debit h fits = omega (arith, held-update m id (debit x), hold-le-held m id)

  pub held-lock_escrow :
      x ≤ (account m id).balance → held m < u128_mod → held (update m id (lock_escrow x)) ≡ held m
  unfolding lock_escrow sub_u128 add_u128
  held-lock_escrow h fits = omega (arith, held-update m id (lock_escrow x), hold-le-held m id)

  pub held-drain_escrow :
      (refund : Ucu)
      → x ≤ (account m id).escrowed
      → refund ≤ x
      → held m < u128_mod
      → held (update m id (drain_escrow x refund)) + x ≡ held m + refund
  unfolding drain_escrow sub_u128 add_u128
  held-drain_escrow refund h k fits =
      omega (arith, held-update m id (drain_escrow x refund), hold-le-held m id)

  pub held-lock_bond :
      x ≤ (account m id).balance → held m < u128_mod → held (update m id (lock_bond x)) ≡ held m
  unfolding lock_bond sub_u128 add_u128
  held-lock_bond h fits = omega (arith, held-update m id (lock_bond x), hold-le-held m id)

  pub held-release_bond :
      x ≤ (account m id).bonded → held m < u128_mod → held (update m id (release_bond x)) ≡ held m
  unfolding release_bond sub_u128 add_u128
  held-release_bond h fits = omega (arith, held-update m id (release_bond x), hold-le-held m id)

  pub held-slash_bond :
      x ≤ (account m id).bonded → held m < u128_mod → held (update m id (slash_bond x)) + x ≡ held m
  unfolding slash_bond sub_u128
  held-slash_bond h fits = omega (arith, held-update m id (slash_bond x), hold-le-held m id)
