-- ===== src/Payout/Round/Sent.antt =====
-- The payout round of crates/pool-dashboard/src/main.rs from the call of `z_sendmany` on.
use zcash_mining_pool.Prelude.{
  ℕ, ◌≡◌, refl, ap, ◌∙◌, String, Bool, true, false, if-cases, List, if◌then◌else◌, Option, none,
  some, Result, ok, err,
}
use zcash_mining_pool.Float.{Float}
use zcash_mining_pool.Ledger.Tables.{AttemptStatus, Db}
use zcash_mining_pool.Ledger.Payouts.{confirm_payout, confirm_payout_txn}
use zcash_mining_pool.Ledger.Payouts.Sound.{IsSound-money, owed}
use zcash_mining_pool.Ledger.Payouts.Confirm.{confirm_payout-IsSettlement}
use zcash_mining_pool.Ledger.Costs.{record_tx_cost}
use zcash_mining_pool.Payout.Rpc.{RpcError, OpResult}
use zcash_mining_pool.Ledger.Transactions.{rolls_back}
use zcash_mining_pool.Payout.Reconciler.Books.{Books, view, settle_books, mark_keeps, settled_view}
use zcash_mining_pool.Payout.Round.{
  Effect, Surroundings, Outcome, is_visible, is_json_rpc, is_deferred, estimate_payout_fee,
  set_status, refunded, give_up, park, on_confirm, costed, finish, on_look, on_wait, awaited,
  on_send,
}
use zcash_mining_pool.Payout.Round.Trace.{
  Always, IsHeld, IsRejected, refused, op_failed, IsSeen, seen, held, paid, rejected, IsSafe,
}
use zcash_mining_pool.Payout.Round.Marks.{mark-IsQuiet, refund-IsQuiet, mark-IsHeld, IsHeld-IsQuiet}

module _ (R : Float) where
  open R use {F}

  module _ (w : Surroundings F) (k : ℕ) (start base : Books) where
    module _ (sums : List (String × F)) where
      abbrev pub Sent : Db → List (Effect F) → Type 0
      Sent db es = Always (IsSafe R w k start base) (some sums) db es

      park-Sent :
          (opid txid : Option String) (r : Result (Unit {0}) ℕ) (db : Db)
          → IsHeld k base db
          → Sent db (park R w k opid txid r db).effects
      park-Sent opid txid r db h = (
        held h,
        held (
            mark-IsHeld k base (w.marks AttemptStatus.sent) AttemptStatus.sent opid txid db refl h),
      )

      give_up-Sent :
          (r : Result (Unit {0}) ℕ) (db : Db)
          → IsRejected R w k sums
          → IsHeld k base db
          → Sent db (give_up R w k r db).effects
      give_up-Sent r db why h =
          let quiet = refund-IsQuiet k base w.refunds db (IsHeld-IsQuiet k base db h) in
          let quiet' =
            mark-IsQuiet k base (w.marks AttemptStatus.failed) AttemptStatus.failed none none
              (refunded R w k db) quiet in
          (held h, (rejected why quiet, rejected why quiet'))

      costed-IsHeld :
          (records : Bool) (recipients : ℕ) (db : Db)
          → IsHeld k base db
          → IsHeld k base
              (if records then record_tx_cost (estimate_payout_fee recipients) db else db)
      unfolding record_tx_cost view owed
      costed-IsHeld true recipients db h = record {
        sound = IsSound-money db _ refl h.sound;
        parked = h.parked;
        seen = h.seen;
      }
      costed-IsHeld false recipients db h = h

      confirm-Sent :
          (t : String) (c : Bool) (db : Db)
          → IsSeen R w k sums t
          → IsHeld k base db
          → let (r, db') = confirm_payout c k t w.now db in
            Sent db (on_confirm R w k t r db').effects
      unfolding confirm_payout
      confirm-Sent t true db s h =
          let (db', c) = confirm_payout-IsSettlement t w.now k db h.sound in
          let now_ = settled_view t w.now k db db' c ∙ ap (settle_books k t) h.seen in
          let (sound, same) =
            mark_keeps (w.marks AttemptStatus.confirmed) k AttemptStatus.confirmed none (some t) db'
              c.sound in
          rw c.runs (held h, (paid s c.sound now_, paid s sound (same ∙ now_)))
      confirm-Sent t false db s h =
          let (e, back) = rolls_back (confirm_payout_txn k t w.now) db in
          rw back (held h, park-Sent none (some t) (ok 0) db h)

      finish-Sent :
          (t : String) (recipients : ℕ) (db : Db)
          → IsSeen R w k sums t
          → IsHeld k base db
          → Sent db (finish R w k t recipients db).effects
      unfolding finish
      finish-Sent t recipients db s h = (
        held h,
        confirm-Sent t w.confirms (costed R w k recipients db) s
            (costed-IsHeld w.records recipients db h),
      )

      look-Sent :
          (t op : String) (recipients : ℕ) (b : Bool) (db : Db)
          → w.z_sendmany sums ≡ ok op
          → awaited R w k op ≡ some (ok (OpResult.success t))
          → is_visible (w.raw_transaction t) 6 0 ≡ b
          → IsHeld k base db
          → Sent db (on_look R w k t recipients b db).effects
      look-Sent t op recipients true db s a v h = finish-Sent t recipients db (seen s a v) h
      look-Sent t op recipients false db s a v h = park-Sent none (some t) (ok 0) db h

      wait-Sent :
          (op : String) (recipients : ℕ) (answer : Option (Result (Unit {0}) OpResult)) (db : Db)
          → w.z_sendmany sums ≡ ok op
          → awaited R w k op ≡ answer
          → IsHeld k base db
          → Sent db (on_wait R w k op recipients answer db).effects
      wait-Sent op recipients (some (ok (OpResult.success t))) db s a h =
          look-Sent t op recipients (is_visible (w.raw_transaction t) 6 0) db s a refl h
      wait-Sent op recipients (some (ok OpResult.failed)) db s a h =
          give_up-Sent (err tt) db (op_failed s a) h
      wait-Sent op recipients (some (err e)) db s a h = park-Sent (some op) none (err tt) db h
      wait-Sent op recipients none db s a h = park-Sent (some op) none (err tt) db h

      pub send-Sent :
          (recipients : ℕ) (answer : Result RpcError String) (db : Db)
          → w.z_sendmany sums ≡ answer
          → IsHeld k base db
          → Sent db (on_send R w k recipients answer db).effects
      send-Sent recipients (ok op) db s h = (
        held h,
        wait-Sent op recipients (awaited R w k op)
            (set_status R w k AttemptStatus.sent (some op) none db) s refl
            (mark-IsHeld k base (w.marks AttemptStatus.sent) AttemptStatus.sent (some op) none db
              refl h),
      )
      send-Sent recipients (err e) db s h =
          if-cases (λ (o : Outcome F). Sent db o.effects) (is_json_rpc e)
            (λ said. give_up-Sent (if is_deferred e then ok 0 else err tt) db (refused s said) h)
            (λ _. park-Sent none none (err tt) db h)
