-- ===== src/Payout/Attempts.antt =====
-- The payout attempts of crates/pool-db/src/queries.rs. The rows of a table stand in the order of their
-- ids; the columns for display (miner_count, source, error_message, updated_at) are left out.
use zcash_mining_pool.Prelude.{
  ℕ, suc, ◌+◌, ◌*◌, String, Bool, true, false, not, ◌&&◌, List, [], ◌∷◌, ◌++◌, map, reverse, ◌==◌,
  ltb, Option, none, some, ℤ, Result, ok, sum_by,
}
use zcash_mining_pool.Sql.{select, update, affected}
use zcash_mining_pool.Ledger.Tables.{Attempt, AttemptStatus, PayoutItem, Db, DbError, transact}
use zcash_mining_pool.Ledger.Payouts.{of_attempt}

abbrev pub has_attempt_id : ℕ → Attempt → Bool
has_attempt_id k a = a.id == k

-- status IN ('queued', 'submitting', 'sent')
abbrev pub is_in_flight : AttemptStatus → Bool
is_in_flight AttemptStatus.queued = true
is_in_flight AttemptStatus.submitting = true
is_in_flight AttemptStatus.sent = true
is_in_flight AttemptStatus.confirmed = false
is_in_flight AttemptStatus.failed = false

-- COALESCE(new, old)
abbrev pub coalesce : Option String → Option String → Option String
coalesce none old = old
coalesce (some new) old = some new

-- `create_payout_attempt`; a single statement is a transaction of its own.
unfoldable pub create_payout_attempt : Bool → ℤ → ℕ → Db → Result DbError ℕ × Db
unfolding transact
create_payout_attempt stores total now = transact stores (λ db. ok (
  db.next_attempt,
  record db {
    attempts =
        db.attempts
        ++ (record {
          id = db.next_attempt;
          status = AttemptStatus.queued;
          opid = none;
          txid = none;
          total_zatoshis = total;
          created_at = now;
        }
            ∷ []);
    next_attempt = suc db.next_attempt;
  },
))

abbrev pub revise : AttemptStatus → Option String → Option String → Attempt → Attempt
revise status opid txid a = record a {
  status = status;
  opid = coalesce opid a.opid;
  txid = coalesce txid a.txid;
}

-- `update_payout_attempt`
unfoldable pub update_payout_attempt :
    Bool → ℕ → AttemptStatus → Option String → Option String → Db → Result DbError (Unit {0}) × Db
unfolding transact
update_payout_attempt stores k status opid txid = transact stores (λ db.
    ok (
      tt,
      record db { attempts = update (has_attempt_id k) (revise status opid txid) db.attempts },
    ))

-- created_at < datetime('now', '-minutes minutes'); no `minutes` is no condition.
abbrev pub is_aged : Option ℕ → ℕ → Attempt → Bool
is_aged none now a = true
is_aged (some minutes) now a = ltb (a.created_at + 60 * minutes) now

abbrev pub holds_items : Db → Attempt → Bool
holds_items db a = not (affected (of_attempt a.id) db.items == 0)

-- SUM(pi.amount)
abbrev pub with_total : Db → Attempt → Attempt
with_total db a = record a {
  total_zatoshis = sum_by (λ (i : PayoutItem). i.amount) (select (of_attempt a.id) db.items);
}

-- `get_reserved_attempts`, whose columns are those of `Attempt`
unfoldable pub get_reserved_attempts : Option ℕ → ℕ → Db → List Attempt
get_reserved_attempts minutes now db =
    map (with_total db) (select (λ a. is_aged minutes now a && holds_items db a) db.attempts)

-- `get_stale_payout_attempts`
unfoldable pub get_stale_payout_attempts : ℕ → ℕ → Db → List Attempt
get_stale_payout_attempts minutes now db =
    select (λ a. is_in_flight a.status && is_aged (some minutes) now a && not (holds_items db a))
      db.attempts

abbrev first : List Attempt → Option Attempt
first [] = none
first (a ∷ rest) = some a

-- `get_inflight_payout_attempt`: the last one of the last five minutes
unfoldable pub get_inflight_payout_attempt : ℕ → Db → Option Attempt
get_inflight_payout_attempt now db =
    first
      (reverse (select (λ a. is_in_flight a.status && ltb now (a.created_at + 300)) db.attempts))
