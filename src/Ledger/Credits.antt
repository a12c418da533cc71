-- ===== src/Ledger/Credits.antt =====
-- Block credits of crates/pool-db/src/queries.rs: crediting a block's miners, and reversing the
-- credits of an orphaned block.
pub mod Rows
pub mod Distribution
pub mod Reversing
pub mod Reversal
use zcash_mining_pool.Prelude.{
  ℕ, suc, ◌+◌, Bool, true, false, not, ◌&&◌, ◌||◌, List, [], ◌∷◌, ◌++◌, ◌==◌, ltb, length,
  if◌then◌else◌, Option, some, none, ℤ, pos, ◌+ℤ◌, ◌-ℤ◌, ltb_ℤ, min_ℤ, max_ℤ, Result, ok, err,
  ◌>>=◌, sum_by,
}
use zcash_mining_pool.Sql.{select, delete, update, affected}
use zcash_mining_pool.Ledger.Tables.{
  Balance, Credit, Clawback, Block, BlockStatus, Db, DbError, sqlx, transact,
}
use zcash_mining_pool.Ledger.Payouts.{at_miner}
use zcash_mining_pool.Ledger.Costs.{record_tx_cost, is_block, stamp}

-- INSERT OR IGNORE INTO balances (miner_id)
unfoldable pub ensure_row : ℕ → List Balance → List Balance
ensure_row m bs =
    if affected (at_miner m) bs == 0
    then bs ++ (record { miner_id = m; pending = pos 0; paying = pos 0; paid = pos 0 } ∷ [])
    else bs

abbrev pub earn : ℤ → Balance → Balance
earn a b = record b { pending = b.pending +ℤ a }

abbrev pub is_credit : ℕ → ℕ → Credit → Bool
is_credit block m c = (c.block_id == block) && (c.miner_id == m)

-- The foreign keys of a credit: the block and the miner are there. `balances` refers to the miner too.
abbrev pub has_keys : ℕ → ℕ → Db → Bool
has_keys block m db =
    not (affected (is_block block) db.blocks == 0) && not (affected (λ x. x == m) db.miners == 0)

-- One round of the loop of `distribute_block_credits`; (block_id, miner_id) is the primary key.
unfoldable pub distribute_credit : ℕ → ℕ × ℤ → Db → Result DbError Db
distribute_credit block (m, a) db =
    if has_keys block m db && (affected (is_credit block m) db.credits == 0)
    then ok (record db {
      balances = update (at_miner m) (earn a) (ensure_row m db.balances);
      credits = db.credits ++ (record { block_id = block; miner_id = m; amount = a } ∷ []);
    })
    else err sqlx

unfoldable pub distribute_credits : ℕ → List (ℕ × ℤ) → Db → Result DbError Db
distribute_credits block [] db = ok db
distribute_credits block (x ∷ xs) db = distribute_credit block x db >>= distribute_credits block xs

-- `distribute_block_credits`
unfoldable pub distribute_block_credits :
    Bool → ℕ → List (ℕ × ℤ) → Db → Result DbError (Unit {0}) × Db
unfolding transact
distribute_block_credits commits block xs =
    transact commits (λ db. distribute_credits block xs db >>= λ db'. ok (tt, db'))

-- Where there is no row of balances yet, the insertion refers to the miner.
abbrev pub can_have_row : ℕ → Db → Bool
can_have_row m db =
    not (affected (at_miner m) db.balances == 0) || not (affected (λ x. x == m) db.miners == 0)

-- `credit_balance`
unfoldable pub credit_balance : ℕ → ℤ → Db → Result DbError (Unit {0}) × Db
credit_balance m a db =
    if can_have_row m db
    then (ok tt, record db { balances = update (at_miner m) (earn a) (ensure_row m db.balances) })
    else (err sqlx, db)

-- SELECT pending FROM balances WHERE miner_id = m, or zero where there is no row.
unfoldable pub pending_of : ℕ → List Balance → ℤ
pending_of m [] = pos 0
pending_of m (b ∷ bs) = if at_miner m b then b.pending else pending_of m bs

-- `adjust_miner_balance`: the new pending balance.
unfoldable pub adjust_miner_balance : ℕ → ℤ → Db → Result DbError ℤ × Db
adjust_miner_balance m delta db =
    let bs =
      update (at_miner m) (λ b. record b { pending = max_ℤ (pos 0) (b.pending +ℤ delta) })
        (ensure_row m db.balances) in
    if can_have_row m db
    then (ok (pending_of m bs), record db { balances = bs })
    else (err sqlx, db)

abbrev pub of_block : ℕ → Credit → Bool
of_block block c = c.block_id == block

abbrev pub debit : ℤ → Balance → Balance
debit a b = record b { pending = b.pending -ℤ a }

-- What can be taken back from `pending`.
unfoldable pub recoverable : ℤ → ℤ → ℤ
recoverable amount pending = max_ℤ (min_ℤ amount pending) (pos 0)

-- One round of the loop of `reverse_block_credits_precise_txn`, on (reversed, clawback).
unfoldable pub reverse_credit : ℕ → Credit → ℤ × ℤ × Db → ℤ × ℤ × Db
reverse_credit block c (reversed, clawback, db) =
    let back = recoverable c.amount (pending_of c.miner_id db.balances) in
    let shortfall = c.amount -ℤ back in
    let row : Clawback = record {
      block_id = block;
      miner_id = c.miner_id;
      amount = shortfall;
      acknowledged = false;
    } in
    (
      if ltb_ℤ (pos 0) back then reversed +ℤ back else reversed,
      if ltb_ℤ (pos 0) shortfall then clawback +ℤ shortfall else clawback,
      record db {
        balances =
            if ltb_ℤ (pos 0) back
            then update (at_miner c.miner_id) (debit back) db.balances
            else db.balances;
        clawbacks = if ltb_ℤ (pos 0) shortfall then db.clawbacks ++ (row ∷ []) else db.clawbacks;
      },
    )

unfoldable pub reverse_credits : ℕ → List Credit → ℤ × ℤ × Db → ℤ × ℤ × Db
reverse_credits block [] acc = acc
reverse_credits block (c ∷ cs) acc = reverse_credits block cs (reverse_credit block c acc)

-- SELECT costs_recovered FROM blocks WHERE id = block; `fetch_one` fails without a row.
unfoldable pub costs_of : ℕ → List Block → Option ℤ
costs_of block [] = none
costs_of block (b ∷ bs) = if is_block block b then some b.costs_recovered else costs_of block bs

-- The costs that the block's distribution had absorbed are queued again.
unfoldable pub requeue_costs : ℕ → Option ℤ → Db → Result DbError Db
requeue_costs block none db = err sqlx
requeue_costs block (some recovered) db =
    if ltb_ℤ (pos 0) recovered
    then ok (record (record_tx_cost recovered db) {
      blocks = update (is_block block) (stamp (pos 0)) db.blocks;
    })
    else ok db

unfoldable pub reverse_block_credits_precise_txn : ℕ → Db → Result DbError (Option (ℤ × ℤ) × Db)
reverse_block_credits_precise_txn block db =
    let rows = select (of_block block) db.credits in
    let (reversed, clawback, db') = reverse_credits block rows (pos 0, pos 0, db) in
    let db'' = record db' { credits = delete (of_block block) db'.credits } in
    if length rows == 0
    then ok (none, db)
    else requeue_costs block (costs_of block db''.blocks) db'' >>= λ last.
        ok (some (reversed, clawback), last)

-- `reverse_block_credits_precise`
unfoldable pub reverse_block_credits_precise : Bool → ℕ → Db → Result DbError (Option (ℤ × ℤ)) × Db
unfolding transact
reverse_block_credits_precise commits block =
    transact commits (reverse_block_credits_precise_txn block)

abbrev pub has_pending : Balance → Bool
has_pending b = ltb_ℤ (pos 0) b.pending

-- The proportional reversal of blocks without credit rows. `portion pending reversal total` is
-- SQLite's CAST(pending * 1.0 * reversal / total AS INTEGER), in floating point.
unfoldable pub reverse_proportionally : (ℤ → ℤ → ℤ → ℤ) → ℤ → List Balance → List Balance
reverse_proportionally portion block_reward bs =
    let total = sum_by (λ b. b.pending) (select has_pending bs) in
    let reversal = min_ℤ block_reward total in
    if ltb_ℤ (pos 0) total
    then update has_pending
        (λ b. record b { pending = max_ℤ (pos 0) (b.pending -ℤ portion b.pending reversal total) })
        bs
    else bs

abbrev pub orphan : Block → Block
orphan b = record b { status = BlockStatus.orphaned }

-- What `orphan_block_txn` does after the precise reversal.
unfoldable pub finish_orphan : (ℤ → ℤ → ℤ → ℤ) → ℕ → ℤ → Option (ℤ × ℤ) × Db → Option (ℤ × ℤ) × Db
finish_orphan portion block reward (none, db) = (
  none,
  record db {
    balances = reverse_proportionally portion reward db.balances;
    blocks = update (is_block block) orphan db.blocks;
  },
)
finish_orphan portion block reward (some r, db) =
    (some r, record db { blocks = update (is_block block) orphan db.blocks })

unfoldable pub orphan_block_txn :
    (ℤ → ℤ → ℤ → ℤ) → ℕ → ℤ → Db → Result DbError (Option (ℤ × ℤ) × Db)
orphan_block_txn portion block reward db =
    reverse_block_credits_precise_txn block db >>= λ r. ok (finish_orphan portion block reward r)

-- `orphan_block`
unfoldable pub orphan_block :
    (ℤ → ℤ → ℤ → ℤ) → Bool → ℕ → ℤ → Db → Result DbError (Option (ℤ × ℤ)) × Db
unfolding transact
orphan_block portion commits block reward = transact commits (orphan_block_txn portion block reward)

-- `reverse_block_credits`, the same reversal outside a transaction.
unfoldable pub reverse_block_credits : (ℤ → ℤ → ℤ → ℤ) → ℤ → Db → Db
reverse_block_credits portion reward db = record db {
  balances = reverse_proportionally portion reward db.balances;
}

-- `acknowledge_clawbacks`, and `acknowledge_clawbacks_for_block`: the rows affected.
unfoldable pub acknowledge : (Clawback → Bool) → Db → ℕ × Db
acknowledge chosen db =
    let open_row = λ (c : Clawback). not c.acknowledged && chosen c in
    (
      affected open_row db.clawbacks,
      record db {
        clawbacks = update open_row (λ c. record c { acknowledged = true }) db.clawbacks;
      },
    )

unfoldable pub acknowledge_clawbacks : Db → ℕ × Db
unfolding acknowledge
acknowledge_clawbacks = acknowledge (λ c. true)

unfoldable pub acknowledge_clawbacks_for_block : ℕ → Db → ℕ × Db
unfolding acknowledge
acknowledge_clawbacks_for_block block = acknowledge (λ c. c.block_id == block)
