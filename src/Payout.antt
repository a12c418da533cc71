-- ===== src/Payout.antt =====
-- crates/pool-dashboard/src/main.rs and reconciler.rs: the payout loop, and the sweep that resolves what
-- the loop leaves behind.
pub mod Attempts
pub mod Rpc
pub mod Reconciler
pub mod Address
pub mod Selection
pub mod Round
pub mod Waiting
pub mod Crash
pub mod Maturity
