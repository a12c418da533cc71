-- ===== src/Share.antt =====
-- crates/pool-core/src/share.rs: the share validator.
pub mod Reward
pub mod Target
pub mod Session
pub mod Dedup
pub mod Validate
pub mod Sound
pub mod Counters
pub mod Handler
pub mod Blocks
