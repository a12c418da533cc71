-- ===== src/Payout/Round/Safe.antt =====
-- The payout round of crates/pool-dashboard/src/main.rs, crashed at any point.
use zcash_mining_pool.Prelude.{
  ℕ, ◌≡◌, refl, ap, ◌∙◌, Bool, true, false, List, [], ◌∷◌, map, none, ℤ, Result, ok, err, length,
  sum_by,
}
use zcash_mining_pool.Float.{Float}
use zcash_mining_pool.Ledger.Tables.{AttemptStatus, Db, DbError, transact}
use zcash_mining_pool.Ledger.Payouts.{reserve_payout}
use zcash_mining_pool.Ledger.Payouts.Sound.{IsSound, IsSound-money, owed}
use zcash_mining_pool.Ledger.Payouts.Reserve.{reserve_payout-IsSound, reserve_items-owed}
use zcash_mining_pool.Ledger.Payouts.Saga.{reserve_items-only}
use zcash_mining_pool.Payout.Attempts.{create_payout_attempt, update_payout_attempt}
use zcash_mining_pool.Payout.Reconciler.Books.{Books, view, payment_of, mark_keeps}
use zcash_mining_pool.Payout.Selection.{Transfer}
use zcash_mining_pool.Payout.Round.{
  Effect, Surroundings, keep_reserved, outputs, refunded, give_up, on_submit, on_reserve, wanted,
  reserve_and_send, on_create, pay_round,
}
use zcash_mining_pool.Payout.Round.Trace.{Always, IsHeld, IsQuiet, IsSafe}
use zcash_mining_pool.Payout.Round.Marks.{mark-IsQuiet, refund-IsQuiet, parked_rows}
use zcash_mining_pool.Payout.Round.Sent.{send-Sent}

module _ (R : Float) where
  open R use {F}

  module _ (w : Surroundings F) (k : ℕ) (start base : Books) where
    abbrev Before : Db → List (Effect F) → Type 0
    Before db es = Always (IsSafe R w k start base) none db es

    give_up-Before :
        (r : Result (Unit {0}) ℕ) (db : Db)
        → IsQuiet start db
        → Before db (give_up R w k r db).effects
    give_up-Before r db h =
        let quiet = refund-IsQuiet k start w.refunds db h in
        let quiet' =
          mark-IsQuiet k start (w.marks AttemptStatus.failed) AttemptStatus.failed none none
            (refunded R w k db) quiet in
        (h, (quiet, quiet'))

    submit-Before :
        (ts : List Transfer) (c : Bool) (db : Db)
        → IsQuiet start db
        → view db ≡ base
        → let (r, db') = update_payout_attempt c k AttemptStatus.submitting none none db in
          Before db (on_submit R w k ts r db').effects
    unfolding update_payout_attempt transact
    submit-Before ts true db h seen_ =
        let sums = outputs R ts in
        let db' = (update_payout_attempt true k AttemptStatus.submitting none none db).1 in
        let quiet = mark-IsQuiet k start true AttemptStatus.submitting none none db h in
        let (sound, same) = mark_keeps true k AttemptStatus.submitting none none db h.sound in
        let stands : IsHeld k base db' = record {
          sound = sound;
          parked = parked_rows k base AttemptStatus.submitting none none db.attempts refl;
          seen = same ∙ seen_;
        } in
        (
          h,
          (
            quiet,
            send-Sent R w k start base sums (length sums) (w.z_sendmany sums) db' refl stands,
          ),
        )
    submit-Before ts false db h seen_ = (h, give_up-Before (err tt) db h)

    reserve-Before :
        (ts : List Transfer) (r : Result DbError (List (ℕ × ℤ))) (prev db : Db)
        → IsQuiet start prev
        → IsQuiet start db
        → view db ≡ base
        → Before prev (on_reserve R w k ts r db).effects
    reserve-Before ts (err e) prev db p h seen_ = (
      p,
      (h, mark-IsQuiet k start (w.marks AttemptStatus.failed) AttemptStatus.failed none none db h),
    )
    reserve-Before ts (ok []) prev db p h seen_ = (
      p,
      (h, mark-IsQuiet k start (w.marks AttemptStatus.failed) AttemptStatus.failed none none db h),
    )
    reserve-Before ts (ok (x ∷ xs)) prev db p h seen_ =
        (p, submit-Before (keep_reserved (x ∷ xs) ts) w.submits db h seen_)

  reserve-IsQuiet :
      (commits : Bool) (k : ℕ) (xs : List (ℕ × ℤ)) (db : Db)
      → IsSound db
      → IsQuiet (view db) (reserve_payout commits k xs db).1
  unfolding reserve_payout transact view owed
  reserve-IsQuiet true k xs db h = record {
    sound = reserve_payout-IsSound true k xs db h;
    payments = ap (λ (d : Db). map payment_of d.payouts) (reserve_items-only k xs db).0;
    entitled = reserve_items-owed k xs db;
  }
  reserve-IsQuiet false k xs db h = record { sound = h; payments = refl; entitled = refl }

  -- The database that the round's reservation leaves, under the id that the attempt gets.
  abbrev pub reserved_state : Surroundings F → List Transfer → Db → Db
  reserved_state w ts db =
      let (_, db') =
        create_payout_attempt w.creates (sum_by (λ (t : Transfer). t.amount) ts) w.now db in
      (reserve_payout w.reserves db.next_attempt (map (wanted R w db.next_attempt) ts) db').1

  create-Before :
      (w : Surroundings F) (ts : List Transfer) (c : Bool) (total : ℤ) (db : Db)
      → IsSound db
      → let k = db.next_attempt in
        let (r, db') = create_payout_attempt c total w.now db in
        let base = view (reserve_payout w.reserves k (map (wanted R w k) ts) db').1 in
        Always (IsSafe R w k (view db) base) none db (on_create R w ts r db').effects
  unfolding create_payout_attempt transact reserve_and_send view owed
  create-Before w ts true total db h =
      let k = db.next_attempt in
      let db' = (create_payout_attempt true total w.now db).1 in
      let sound = IsSound-money db db' refl h in
      let (r, db'') = reserve_payout w.reserves k (map (wanted R w k) ts) db' in
      (
        record { sound = h; payments = refl; entitled = refl },
        reserve-Before w k (view db) (view db'') ts r db' db''
            (record { sound = sound; payments = refl; entitled = refl })
            (reserve-IsQuiet w.reserves k (map (wanted R w k) ts) db' sound) refl,
      )
  create-Before w ts false total db h =
      let quiet : IsQuiet (view db) db = record { sound = h; payments = refl; entitled = refl } in
      (quiet, quiet)

  -- Wherever a payout round on a sound database crashes, and whatever the wallet, the node and the
  -- database do: before the request is handed to the wallet, the payments and the sum of the
  -- balances are those of the start; from then on the reservation stands and every row of its
  -- attempt is marked as submitted, or it was turned into payments under a transaction that the
  -- wallet named for the request and the node has, or the wallet rejected the request and nothing
  -- was paid. The database is sound throughout.
  pub pay_round-IsSafe :
      (w : Surroundings F) (ts : List Transfer) (db : Db)
      → IsSound db
      → Always
          (IsSafe R w db.next_attempt (view db) (view (reserved_state w ts db)))
          none
          db
          (pay_round R w ts db).effects
  unfolding pay_round
  pay_round-IsSafe w ts db h =
      create-Before w ts w.creates (sum_by (λ (t : Transfer). t.amount) ts) db h
