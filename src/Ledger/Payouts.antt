-- ===== src/Ledger/Payouts.antt =====
-- The payouts of crates/pool-db/src/queries.rs: the saga of reserve, then confirm or refund, and
-- the direct payout and its reversal.
pub mod Backing
pub mod Sound
pub mod Reserve
pub mod Settling
pub mod Refund
pub mod Confirm
pub mod Saga
pub mod Voiding
pub mod Void
use zcash_mining_pool.Prelude.{
  ℕ, suc, ◌+◌, ◌*◌, String, Bool, true, false, ◌&&◌, List, [], ◌∷◌, ◌++◌, ltb, leb, ◌==◌, str_eq,
  Option, some, none, length, if◌then◌else◌, ℤ, pos, ◌+ℤ◌, ◌-ℤ◌, leb_ℤ, Result, ok, err, ◌>>=◌,
  sum_by,
}
use zcash_mining_pool.Sql.{select, delete, update, affected}
use zcash_mining_pool.Ledger.Tables.{
  Balance, PayoutItem, Payout, Attempt, AttemptStatus, Db, DbError, insufficient_pending, sqlx,
  transact,
}

abbrev pub at_miner : ℕ → Balance → Bool
at_miner m b = b.miner_id == m

-- The guards in the WHERE clauses of the four kinds of move.
abbrev pub pending_covers : ℕ → ℤ → Balance → Bool
pending_covers m a b = at_miner m b && leb_ℤ a b.pending

abbrev pub paying_covers : ℕ → ℤ → Balance → Bool
paying_covers m a b = at_miner m b && leb_ℤ a b.paying

abbrev pub paid_covers : ℕ → ℤ → Balance → Bool
paid_covers m a b = at_miner m b && leb_ℤ a b.paid

-- What the moves do to a row.
abbrev pub hold : ℤ → Balance → Balance
hold a b = record b { pending = b.pending -ℤ a; paying = b.paying +ℤ a }

abbrev pub settle : ℤ → Balance → Balance
settle a b = record b { paying = b.paying -ℤ a; paid = b.paid +ℤ a }

abbrev pub release : ℤ → Balance → Balance
release a b = record b { pending = b.pending +ℤ a; paying = b.paying -ℤ a }

abbrev pub pay : ℤ → Balance → Balance
pay a b = record b { pending = b.pending -ℤ a; paid = b.paid +ℤ a }

abbrev pub unpay : ℤ → Balance → Balance
unpay a b = record b { pending = b.pending +ℤ a; paid = b.paid -ℤ a }

abbrev pub of_attempt : ℕ → PayoutItem → Bool
of_attempt attempt i = i.attempt_id == attempt

-- One round of the loop of `reserve_payout_txn`: whether the pair was reserved.
unfoldable pub reserve_item : ℕ → ℕ × ℤ → Db → Bool × Db
reserve_item attempt (m, a) db =
    if leb_ℤ a (pos 0)
    then (false, db)
    else if affected (pending_covers m a) db.balances == 0
    then (false, db)
    else (
      true,
      record db {
        balances = update (pending_covers m a) (hold a) db.balances;
        items = db.items ++ (record { attempt_id = attempt; miner_id = m; amount = a } ∷ []);
      },
    )

unfoldable pub reserve_items : ℕ → List (ℕ × ℤ) → Db → List (ℕ × ℤ) × Db
reserve_items attempt [] db = ([], db)
reserve_items attempt (x ∷ xs) db =
    let (done, db') = reserve_item attempt x db in
    let (rest, db'') = reserve_items attempt xs db' in (if done then x ∷ rest else rest, db'')

-- `reserve_payout`
unfoldable pub reserve_payout : Bool → ℕ → List (ℕ × ℤ) → Db → Result DbError (List (ℕ × ℤ)) × Db
unfolding transact
reserve_payout commits attempt xs = transact commits (λ db. ok (reserve_items attempt xs db))

-- One round of the loop of `confirm_payout_txn`.
unfoldable pub confirm_item : String → ℕ → PayoutItem → Db → Result DbError Db
confirm_item txid now i db =
    if affected (paying_covers i.miner_id i.amount) db.balances == 0
    then err sqlx
    else ok (record db {
      balances = update (paying_covers i.miner_id i.amount) (settle i.amount) db.balances;
      payouts =
          db.payouts
          ++ (record {
            id = db.next_payout;
            miner_id = i.miner_id;
            txid = txid;
            amount = i.amount;
            created_at = now;
          }
              ∷ []);
      next_payout = suc db.next_payout;
    })

unfoldable pub confirm_items : String → ℕ → List PayoutItem → Db → Result DbError Db
confirm_items txid now [] db = ok db
confirm_items txid now (i ∷ is) db = confirm_item txid now i db >>= confirm_items txid now is

unfoldable pub drop_items : ℕ → Db → Db
drop_items attempt db = record db { items = delete (of_attempt attempt) db.items }

unfoldable pub confirm_payout_txn : ℕ → String → ℕ → Db → Result DbError (ℕ × Db)
unfolding drop_items
confirm_payout_txn attempt txid now db =
    let rows = select (of_attempt attempt) db.items in
    confirm_items txid now rows db >>= λ db'. ok (length rows, drop_items attempt db')

-- `confirm_payout`
unfoldable pub confirm_payout : Bool → ℕ → String → ℕ → Db → Result DbError ℕ × Db
unfolding transact
confirm_payout commits attempt txid now = transact commits (confirm_payout_txn attempt txid now)

-- One round of the loop of `refund_payout_txn`.
unfoldable pub refund_item : PayoutItem → Db → Result DbError Db
refund_item i db =
    if affected (paying_covers i.miner_id i.amount) db.balances == 0
    then err sqlx
    else ok (record db {
      balances = update (paying_covers i.miner_id i.amount) (release i.amount) db.balances;
    })

unfoldable pub refund_items : List PayoutItem → Db → Result DbError Db
refund_items [] db = ok db
refund_items (i ∷ is) db = refund_item i db >>= refund_items is

unfoldable pub refund_payout_txn : ℕ → Db → Result DbError (ℕ × Db)
unfolding drop_items
refund_payout_txn attempt db =
    let rows = select (of_attempt attempt) db.items in
    refund_items rows db >>= λ db'. ok (length rows, drop_items attempt db')

-- `refund_payout`
unfoldable pub refund_payout : Bool → ℕ → Db → Result DbError ℕ × Db
unfolding transact
refund_payout commits attempt = transact commits (refund_payout_txn attempt)

-- `create_payout`: debit under the guard, then record, in one transaction.
unfoldable pub create_payout_txn : ℕ → ℤ → String → ℕ → Db → Result DbError (ℕ × Db)
create_payout_txn m a txid now db =
    if affected (pending_covers m a) db.balances == 0
    then err (insufficient_pending m a)
    else ok (
      db.next_payout,
      record db {
        balances = update (pending_covers m a) (pay a) db.balances;
        payouts =
            db.payouts
            ++ (record {
              id = db.next_payout;
              miner_id = m;
              txid = txid;
              amount = a;
              created_at = now;
            }
                ∷ []);
        next_payout = suc db.next_payout;
      },
    )

unfoldable pub create_payout : Bool → ℕ → ℤ → String → ℕ → Db → Result DbError ℕ × Db
unfolding transact
create_payout commits m a txid now = transact commits (create_payout_txn m a txid now)

abbrev pub of_txid : String → Payout → Bool
of_txid txid p = str_eq p.txid txid

-- Younger than sixty minutes.
abbrev pub is_fresh : String → ℕ → Payout → Bool
is_fresh txid now p = of_txid txid p && ltb now (p.created_at + 3600)

unfoldable pub void_row : Payout → Db → Result DbError Db
void_row p db =
    if affected (paid_covers p.miner_id p.amount) db.balances == 0
    then err sqlx
    else ok (record db {
      balances = update (paid_covers p.miner_id p.amount) (unpay p.amount) db.balances;
    })

unfoldable pub void_rows : List Payout → Db → Result DbError Db
void_rows [] db = ok db
void_rows (p ∷ ps) db = void_row p db >>= void_rows ps

abbrev pub is_confirmed : AttemptStatus → Bool
is_confirmed AttemptStatus.confirmed = true
is_confirmed _ = false

abbrev pub has_txid : String → Option String → Bool
has_txid txid none = false
has_txid txid (some t) = str_eq t txid

abbrev pub fail_attempt : String → Attempt → Attempt
fail_attempt txid a = record a {
  status = if has_txid txid a.txid && is_confirmed a.status then AttemptStatus.failed else a.status;
}

-- `void_reorged_payout`: rows and zatoshis given back to pending.
unfoldable pub void_reorged_payout_txn : String → ℕ → Db → Result DbError ((ℕ × ℤ) × Db)
void_reorged_payout_txn txid now db =
    if leb 1 (affected (is_fresh txid now) db.payouts)
    then ok ((0, pos 0), db)
    else let rows = select (of_txid txid) db.payouts in
      if length rows == 0
      then ok ((0, pos 0), db)
      else void_rows rows db >>= λ db'. ok (
        (length rows, sum_by (λ p. p.amount) rows),
        record db' {
          payouts = delete (of_txid txid) db'.payouts;
          attempts = update (λ a. true) (fail_attempt txid) db'.attempts;
        },
      )

unfoldable pub void_reorged_payout : Bool → String → ℕ → Db → Result DbError (ℕ × ℤ) × Db
unfolding transact
void_reorged_payout commits txid now = transact commits (void_reorged_payout_txn txid now)
