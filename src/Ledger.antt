-- ===== src/Ledger.antt =====
-- The deterministic ledger, crates/ledger/src/lib.rs: `State × SignedTx → State`.
pub mod Pending
pub mod State
pub mod Accounts
pub mod Handlers
pub mod Apply
pub mod Epoch
pub mod Fraud
pub mod Guards
pub mod Conservation
pub mod Escrow
pub mod Settled
pub mod Consistent
pub mod Reach
pub mod Lifecycle
pub mod Status
pub mod Release
pub mod Replay
pub mod Finality
pub mod Settlement
pub mod Supply
pub mod Minted
pub mod Slashing
pub mod Penalty
pub mod Clock
pub mod Neutrality
