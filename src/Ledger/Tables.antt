-- ===== src/Ledger/Tables.antt =====
-- The tables of crates/pool-db/migrations that hold money, and SQLite's transactions. Row ids and
-- times (seconds) are numbers, amounts (i64 zatoshis) are integers. A value of `Db` is a committed
-- state; the `next_*` fields are the AUTOINCREMENT sequences.
use zcash_mining_pool.Prelude.{ℕ, String, Option, Bool, List, ℤ, Result, ok, err, if◌then◌else◌}

-- balances, with the column of 012_payout_reservation.sql
pub record Balance : Type 0 where
  pub miner_id : ℕ
  pub pending : ℤ
  pub paying : ℤ
  pub paid : ℤ

-- payout_items
pub record PayoutItem : Type 0 where
  pub attempt_id : ℕ
  pub miner_id : ℕ
  pub amount : ℤ

-- payouts
pub record Payout : Type 0 where
  pub id : ℕ
  pub miner_id : ℕ
  pub txid : String
  pub amount : ℤ
  pub created_at : ℕ

pub data AttemptStatus : Type 0 where
  queued submitting sent confirmed failed : AttemptStatus

-- payout_attempts
pub record Attempt : Type 0 where
  pub id : ℕ
  pub status : AttemptStatus
  pub opid : Option String
  pub txid : Option String
  pub total_zatoshis : ℤ
  pub created_at : ℕ

-- block_credits
pub record Credit : Type 0 where
  pub block_id : ℕ
  pub miner_id : ℕ
  pub amount : ℤ

-- orphan_clawbacks
pub record Clawback : Type 0 where
  pub block_id : ℕ
  pub miner_id : ℕ
  pub amount : ℤ
  pub acknowledged : Bool

-- pool_tx_costs; `kind` and `ref` are for the audit trail only.
pub record Cost : Type 0 where
  pub id : ℕ
  pub fee : ℤ
  pub recovered : Bool

pub data BlockStatus : Type 0 where
  pending confirmed orphaned : BlockStatus

-- blocks
pub record Block : Type 0 where
  pub id : ℕ
  pub height : ℤ
  pub hash : String
  pub reward : ℤ
  pub actual_reward : Option ℤ
  pub status : BlockStatus
  pub found_by : ℕ
  pub costs_recovered : ℤ
  pub created_at : ℕ

-- block_submissions
pub record Submission : Type 0 where
  pub id : ℕ
  pub height : ℤ
  pub hash : String
  pub worker_id : ℕ
  pub reward : ℤ
  pub actual_reward : Option ℤ
  pub resolved : Bool
  pub outcome : Option String

-- `miners` has the ids of the rows of that table. Of the foreign keys, those of block_credits are
-- checked where a credit is inserted; a row of payouts or payout_items is only inserted for a miner
-- that has a row of balances, which refers to miners already.
pub record Db : Type 0 where
  pub miners : List ℕ
  pub balances : List Balance
  pub items : List PayoutItem
  pub payouts : List Payout
  pub attempts : List Attempt
  pub credits : List Credit
  pub clawbacks : List Clawback
  pub costs : List Cost
  pub blocks : List Block
  pub submissions : List Submission
  pub next_payout : ℕ
  pub next_attempt : ℕ
  pub next_cost : ℕ
  pub next_block : ℕ
  pub next_submission : ℕ

-- `DbError`; `sqlx` stands for every error of the database library.
pub data DbError : Type 0 where
  insufficient_pending : ℕ → ℤ → DbError
  sqlx : DbError

-- A transaction: the body runs on the snapshot that BEGIN IMMEDIATE holds. An error of the body,
-- or of a statement or the COMMIT (`commits` false), rolls everything back.
unfoldable pub transact :
    {A : Type 0} → Bool → (Db → Result DbError (A × Db)) → Db → Result DbError A × Db
transact commits body db = elim (body db) [
  | ok r ↦ if commits then (ok r.0, r.1) else (err sqlx, db)
  | err e ↦ (err e, db)
]
