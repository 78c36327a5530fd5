-- ===== src/Types.antt =====
-- The canonical data model, crates/ducp-types/src/lib.rs.
pub mod Reject
pub mod Bytes
pub mod Text
pub mod Wire
pub mod Task
pub mod Quant
pub mod Records
pub mod Tx
pub mod Primitives
