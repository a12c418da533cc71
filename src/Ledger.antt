-- ===== src/Ledger.antt =====
-- crates/pool-db: the tables of the accounting database and the operations on them.
pub mod Tables
pub mod Transactions
pub mod Payouts
pub mod Credits
pub mod Costs
pub mod Blocks
pub mod Cycle
