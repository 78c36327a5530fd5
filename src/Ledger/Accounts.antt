-- ===== src/Ledger/Accounts.antt =====
-- The account table and the movements of 𝕌 on one account that the transitions make.
pub mod Held
use ducp_node_rs.Common.{ℕ}
use ducp_node_rs.Common.Words.{add_u128, sub_u128}
use ducp_node_rs.Common.BTreeMap.{BTreeMap, get, insert, unwrap_or}
use ducp_node_rs.Types.Bytes.{Identity, Ucu}
use ducp_node_rs.Types.Records.{Account, new_account}

abbrev pub Accounts : Type 0
Accounts = BTreeMap Account

-- What `acct_mut` finds, or creates.
unfoldable pub account : Accounts → Identity → Account
account m id = unwrap_or (get id m) (new_account id)

-- A change made through `acct_mut`.
unfoldable pub update : Accounts → Identity → (Account → Account) → Accounts
update m id change = insert id (change (account m id)) m

-- `balance += x`
unfoldable pub credit : Ucu → Account → Account
credit x a = record a { balance = add_u128 a.balance x }

-- `balance -= x`
unfoldable pub debit : Ucu → Account → Account
debit x a = record a { balance = sub_u128 a.balance x }

-- `balance -= x; escrowed += x`
unfoldable pub lock_escrow : Ucu → Account → Account
lock_escrow x a = record a { balance = sub_u128 a.balance x; escrowed = add_u128 a.escrowed x }

-- `escrowed -= x; balance += refund`
unfoldable pub drain_escrow : Ucu → Ucu → Account → Account
drain_escrow x refund a = record a {
  escrowed = sub_u128 a.escrowed x;
  balance = add_u128 a.balance refund;
}

-- `balance -= x; bonded += x`
unfoldable pub lock_bond : Ucu → Account → Account
lock_bond x a = record a { balance = sub_u128 a.balance x; bonded = add_u128 a.bonded x }

-- `bonded -= x; balance += x`
unfoldable pub release_bond : Ucu → Account → Account
release_bond x a = record a { bonded = sub_u128 a.bonded x; balance = add_u128 a.balance x }

-- `bonded -= x`
unfoldable pub slash_bond : Ucu → Account → Account
slash_bond x a = record a { bonded = sub_u128 a.bonded x }
