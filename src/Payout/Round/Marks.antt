-- ===== src/Payout/Round/Marks.antt =====
-- What single writes of a payout round (crates/pool-dashboard/src/main.rs) keep.
use zcash_mining_pool.Prelude.{
  ℕ, ◌≡◌, ap, ◌∙◌, String, Bool, true, false, Bool-cases, inl, inr, List, [], ◌∷◌, ◌==◌, Option,
  All, arith,
}
use zcash_mining_pool.Sql.{update}
use zcash_mining_pool.Ledger.Tables.{Attempt, AttemptStatus, Db, transact}
use zcash_mining_pool.Ledger.Payouts.{refund_payout, refund_payout_txn}
use zcash_mining_pool.Ledger.Payouts.Refund.{refund_payout-IsReturn}
use zcash_mining_pool.Payout.Attempts.{update_payout_attempt, has_attempt_id, revise}
use zcash_mining_pool.Payout.Reconciler.{is_submitted}
use zcash_mining_pool.Ledger.Transactions.{rolls_back}
use zcash_mining_pool.Payout.Reconciler.Books.{Books, mark_keeps, released_view}
use zcash_mining_pool.Payout.Round.Trace.{IsParkedRow, IsHeld, IsQuiet}

module _ (k : ℕ) (base : Books) where
  pub mark-IsQuiet :
      (stores : Bool) (status : AttemptStatus) (opid txid : Option String) (db : Db)
      → IsQuiet base db
      → IsQuiet base (update_payout_attempt stores k status opid txid db).1
  mark-IsQuiet stores status opid txid db h =
      let (sound, same) = mark_keeps stores k status opid txid db h.sound in
      record {
        sound = sound;
        payments = ap (λ (b : Books). b.payments) same ∙ h.payments;
        entitled = ap (λ (b : Books). b.entitled) same ∙ h.entitled;
      }

  pub refund-IsQuiet :
      (commits : Bool) (db : Db) → IsQuiet base db → IsQuiet base (refund_payout commits k db).1
  unfolding refund_payout
  refund-IsQuiet true db h =
      let (db', c) = refund_payout-IsReturn k db h.sound in
      let same = released_view k db db' c in
      rw c.runs (record {
        sound = c.sound;
        payments = ap (λ (b : Books). b.payments) same ∙ h.payments;
        entitled = ap (λ (b : Books). b.entitled) same ∙ h.entitled;
      })
  refund-IsQuiet false db h = let (e, back) = rolls_back (refund_payout_txn k) db in rw back h

  pub parked_rows :
      (status : AttemptStatus) (opid txid : Option String) (rows : List Attempt)
      → is_submitted status ≡ true
      → All (IsParkedRow k) (update (has_attempt_id k) (revise status opid txid) rows)
  unfolding update
  parked_rows status opid txid [] h = tt
  parked_rows status opid txid (a ∷ rows) h = elim (Bool-cases (has_attempt_id k a)) [
    | inl e ↦ rw e ((λ _. h), parked_rows status opid txid rows h)
    | inr e ↦ rw e (
      (λ same. (let h' : (a.id == k) ≡ false = e in ground arith)),
      parked_rows status opid txid rows h,
    )
  ]

  pub mark-IsHeld :
      (stores : Bool) (status : AttemptStatus) (opid txid : Option String) (db : Db)
      → is_submitted status ≡ true
      → IsHeld k base db
      → IsHeld k base (update_payout_attempt stores k status opid txid db).1
  unfolding update_payout_attempt transact
  mark-IsHeld true status opid txid db s h =
      let (sound, same) = mark_keeps true k status opid txid db h.sound in
      record {
        sound = sound;
        parked = parked_rows status opid txid db.attempts s;
        seen = same ∙ h.seen;
      }
  mark-IsHeld false status opid txid db s h = h

  pub IsHeld-IsQuiet : (db : Db) → IsHeld k base db → IsQuiet base db
  IsHeld-IsQuiet db h = record {
    sound = h.sound;
    payments = ap (λ (b : Books). b.payments) h.seen;
    entitled = ap (λ (b : Books). b.entitled) h.seen;
  }
