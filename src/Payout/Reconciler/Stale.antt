-- ===== src/Payout/Reconciler/Stale.antt =====
-- `resolve_stale_attempts` of crates/pool-dashboard/src/reconciler.rs: attempts without reservations that were
-- left in flight.
use zcash_mining_pool.Prelude.{
  ℕ, suc, String, List, [], ◌∷◌, none, some, if◌then◌else◌, Result, ok, err,
}
use zcash_mining_pool.Ledger.Tables.{Attempt, AttemptStatus, Db}
use zcash_mining_pool.Payout.Attempts.{get_stale_payout_attempts, update_payout_attempt}
use zcash_mining_pool.Payout.Rpc.{RpcError, is_definitely_not_found}
use zcash_mining_pool.Payout.Reconciler.{
  Answers, Alert, wallet_unreachable, node_unreachable, attempt_confirmed, attempt_absent,
  attempt_unresolvable, Summary, alerted, Learned, unreachable, in_flight, op_failed, unknown,
  learn,
}

abbrev pub stale_attempt_minutes : ℕ
stale_attempt_minutes = 10

module _ (w : Answers) (k : ℕ) where
  abbrev pub mark_failed : Summary × Db → Summary × Db
  mark_failed (s, db) = (
    record s { attempts_failed = suc s.attempts_failed },
    (update_payout_attempt (w.marks k) k AttemptStatus.failed none none db).1,
  )

  abbrev pub fail_with : Alert → Summary × Db → Summary × Db
  fail_with alert state = let (s, db) = mark_failed state in (alerted alert s, db)

  abbrev pub on_stale_lookup : String → Result RpcError (Unit {0}) → Summary × Db → Summary × Db
  on_stale_lookup t (ok _) (s, db) = (
    alerted (attempt_confirmed k) (record s {
      attempts_resolved = suc s.attempts_resolved;
      late_confirmed = suc s.late_confirmed;
    }),
    (update_payout_attempt (w.marks k) k AttemptStatus.confirmed none (some t) db).1,
  )
  on_stale_lookup t (err e) (s, db) =
      if is_definitely_not_found e
      then fail_with (attempt_absent k) (s, db)
      else (alerted (node_unreachable k) s, db)

  -- By what is learnt of the transaction: the same two steps as for a reservation.
  unfoldable pub resolve_stale : Learned → Summary × Db → Summary × Db
  resolve_stale unreachable (s, db) = (alerted (wallet_unreachable k) s, db)
  resolve_stale in_flight (s, db) = (s, db)
  resolve_stale op_failed (s, db) = mark_failed (s, db)
  resolve_stale unknown (s, db) = fail_with (attempt_unresolvable k) (s, db)
  resolve_stale (Learned.txid t) (s, db) = on_stale_lookup t (w.raw_transaction k t) (s, db)

unfoldable pub resolve_all : Answers → List Attempt → Summary × Db → Summary × Db
resolve_all w [] state = state
resolve_all w (a ∷ more) state = resolve_all w more (resolve_stale w a.id (learn w a) state)

unfoldable pub resolve_stale_attempts : Answers → ℕ → Summary × Db → Summary × Db
resolve_stale_attempts w now (s, db) =
    resolve_all w (get_stale_payout_attempts stale_attempt_minutes now db) (s, db)
