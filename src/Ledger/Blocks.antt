-- ===== src/Ledger/Blocks.antt =====
-- Blocks and block submissions of crates/pool-db/src/queries.rs, and the sums that are read off
-- the tables.
use zcash_mining_pool.Prelude.{
  ℕ, suc, ◌+◌, String, Bool, true, false, not, ◌&&◌, ◌||◌, List, [], ◌∷◌, ◌++◌, ◌==◌, ltb, str_eq,
  if◌then◌else◌, Option, some, none, ℤ, pos, ◌+ℤ◌, ◌-ℤ◌, leb_ℤ, Result, ok, err, sum_by,
}
use zcash_mining_pool.Sql.{select, update, affected}
use zcash_mining_pool.Ledger.Tables.{
  Balance, Credit, Block, BlockStatus, Payout, Submission, Db, DbError, sqlx,
}
use zcash_mining_pool.Ledger.Costs.{is_block}

abbrev pub is_pending : BlockStatus → Bool
is_pending BlockStatus.pending = true
is_pending _ = false

abbrev pub is_orphaned : BlockStatus → Bool
is_orphaned BlockStatus.orphaned = true
is_orphaned _ = false

-- `record_block`; `blocks.hash` is UNIQUE. `writes` is false where the database refuses the row for
-- another reason, a finder that is not in the table of workers included.
unfoldable pub record_block : Bool → ℤ → String → ℤ → Option ℤ → ℕ → ℕ → Db → Result DbError ℕ × Db
record_block writes height hash reward actual found_by now db =
    if writes && (affected (λ (b : Block). str_eq b.hash hash) db.blocks == 0)
    then (
      ok db.next_block,
      record db {
        blocks =
            db.blocks
            ++ (record {
              id = db.next_block;
              height = height;
              hash = hash;
              reward = reward;
              actual_reward = actual;
              status = BlockStatus.pending;
              found_by = found_by;
              costs_recovered = pos 0;
              created_at = now;
            }
                ∷ []);
        next_block = suc db.next_block;
      },
    )
    else (err sqlx, db)

-- `update_block_status`
unfoldable pub update_block_status : ℕ → BlockStatus → Db → Db
update_block_status block status db = record db {
  blocks = update (is_block block) (λ b. record b { status = status }) db.blocks;
}

-- `record_block_submission`
unfoldable pub record_block_submission : ℤ → String → ℕ → ℤ → Option ℤ → Db → ℕ × Db
record_block_submission height hash worker reward actual db = (
  db.next_submission,
  record db {
    submissions =
        db.submissions
        ++ (record {
          id = db.next_submission;
          height = height;
          hash = hash;
          worker_id = worker;
          reward = reward;
          actual_reward = actual;
          resolved = false;
          outcome = none;
        }
            ∷ []);
    next_submission = suc db.next_submission;
  },
)

-- `resolve_block_submission`; its callers ignore an error (`writes` false).
unfoldable pub resolve_block_submission : Bool → ℕ → String → Db → Db
resolve_block_submission false id outcome db = db
resolve_block_submission true id outcome db = record db {
  submissions =
      update (λ (s : Submission). s.id == id)
        (λ s. record s { resolved = true; outcome = some outcome }) db.submissions;
}

-- `get_open_block_submissions`
unfoldable pub get_open_block_submissions : Db → List Submission
get_open_block_submissions db = select (λ s. not s.resolved) db.submissions

-- `get_block_id_by_hash`
unfoldable pub first_id : List Block → Option ℕ
first_id [] = none
first_id (b ∷ bs) = some b.id

-- `reads` is false where the query fails.
unfoldable pub get_block_id_by_hash : Bool → String → Db → Result DbError (Option ℕ)
unfolding first_id
get_block_id_by_hash false hash db = err sqlx
get_block_id_by_hash true hash db = ok (first_id (select (λ b. str_eq b.hash hash) db.blocks))

abbrev pub basis : Block → ℤ
basis b = elim b.actual_reward [ none ↦ b.reward | some a ↦ a ]

-- `get_recent_blocks_missing_credits`, over the last `window` seconds
unfoldable pub get_recent_blocks_missing_credits : ℕ → ℕ → Db → List Block
get_recent_blocks_missing_credits window now db =
    select
      (λ b.
        not (is_orphaned b.status)
        && ltb now (b.created_at + window)
        && (affected (λ (c : Credit). c.block_id == b.id) db.credits == 0))
      db.blocks

-- Whether a credit stands on a block that has not matured. A block id names at most one row.
unfoldable pub is_immature : List Block → Credit → Bool
is_immature blocks c =
    not (affected (λ (b : Block). (b.id == c.block_id) && is_pending b.status) blocks == 0)

-- `get_immature_exposure`
unfoldable pub get_immature_exposure : Db → ℤ
unfolding is_immature
get_immature_exposure db = sum_by (λ c. c.amount) (select (is_immature db.blocks) db.credits)

-- `get_accounting_invariant`: credited rewards, balances, clawbacks
unfoldable pub get_accounting_invariant : Db → ℤ × ℤ × ℤ
get_accounting_invariant db = (
  sum_by (λ b. basis b -ℤ b.costs_recovered) (select (λ b. not (is_orphaned b.status)) db.blocks),
  sum_by (λ b. b.pending) db.balances
      +ℤ sum_by (λ b. b.paying) db.balances
      +ℤ sum_by (λ b. b.paid) db.balances,
  sum_by (λ c. c.amount) db.clawbacks,
)

-- The payable amount of a row in `get_pending_payouts`.
unfoldable pub payable : Bool → Db → Balance → ℤ
unfolding is_immature
payable include_immature db b =
    if include_immature
    then b.pending
    else b.pending
      -ℤ sum_by (λ c. c.amount)
          (select (λ c. (c.miner_id == b.miner_id) && is_immature db.blocks c) db.credits)

-- Whether a miner was paid in the last `cooldown` seconds.
abbrev pub paid_lately : ℕ → ℕ → ℕ → Payout → Bool
paid_lately cooldown now m p = (p.miner_id == m) && not (ltb (p.created_at + cooldown) now)

-- The rows that `get_pending_payouts` selects, with their amounts, before the ORDER BY. A cooldown
-- of zero stands for every value that is not positive.
unfoldable pub payout_rows : ℤ → Bool → ℕ → ℤ → ℕ → Db → List Balance → List (ℕ × ℤ)
unfolding payable
payout_rows min_amount include_immature cooldown override now db [] = []
payout_rows min_amount include_immature cooldown override now db (b ∷ bs) =
    let rest = payout_rows min_amount include_immature cooldown override now db bs in
    let amount = payable include_immature db b in
    if leb_ℤ min_amount amount
      && ((cooldown == 0)
          || leb_ℤ override amount
          || (affected (paid_lately cooldown now b.miner_id) db.payouts == 0))
    then (b.miner_id, amount) ∷ rest
    else rest
