-- ===== src/Payout/Reconciler.antt =====
-- `reconcile_reserved_payouts` of crates/pool-dashboard/src/reconciler.rs: the open reservations, each
-- confirmed, refunded or held by what the wallet and the node answer.
pub mod Evidence
pub mod Books
pub mod Outcome
pub mod Stale
pub mod Phantoms
pub mod Outputs
use zcash_mining_pool.Prelude.{
  ℕ, suc, ◌+◌, ◌*◌, String, Bool, true, false, ◌||◌, List, [], ◌∷◌, ◌++◌, leb, str_eq,
  if◌then◌else◌, Option, none, some, Result, ok, err, ℤ,
}
use zcash_mining_pool.Ledger.Tables.{Attempt, AttemptStatus, Db, DbError}
use zcash_mining_pool.Ledger.Payouts.{confirm_payout, refund_payout}
use zcash_mining_pool.Payout.Attempts.{get_reserved_attempts, update_payout_attempt}
use zcash_mining_pool.Payout.Rpc.{RpcError, OpStatus, state_of, as_str, is_definitely_not_found}

abbrev pub reservation_refund_minutes : ℕ
reservation_refund_minutes = 60

-- The alerts of the sweep, without their text: each names the attempt or the transaction, those of a
-- resolved one the number of its items too.
pub data Alert : Type 0 where
  wallet_unreachable node_unreachable confirm_failed refund_failed : ℕ → Alert
  not_yet_on_chain fate_unknown not_submitted_yet op_lost : ℕ → Alert
  confirmed_late refunded : ℕ → ℕ → Alert
  attempt_confirmed attempt_absent attempt_unresolvable : ℕ → Alert
  payout_unreachable payout_voided void_failed phantom : String → Alert
  invariant_moved : ℤ → ℤ → Alert
  watermark_unread blocks_unread : Alert
  coinbase_mismatch coinbase_unread : ℤ → Alert

-- `SweepSummary`
pub record Summary : Type 0 where
  pub attempts_resolved : ℕ
  pub attempts_failed : ℕ
  pub late_confirmed : ℕ
  pub phantom_txids : List String
  pub invariant_drift : ℤ
  pub alerts : List Alert

-- What the outside answers while attempt `k` is handled: the wallet on an operation, the node on a
-- transaction, the clock, and whether the transaction and the status update of the attempt commit.
pub record Answers : Type 0 where
  pub op_status : ℕ → String → Result RpcError (List OpStatus)
  pub raw_transaction : ℕ → String → Result RpcError (Unit {0})
  pub now : ℕ → ℕ
  pub commits : ℕ → Bool
  pub marks : ℕ → Bool

-- `older_than`; every stored time parses.
abbrev pub is_older : ℕ → ℕ → ℕ → Bool
is_older created_at minutes now = leb (created_at + 60 * minutes) now

-- What is learnt of the transaction id: the first half of the loop's body.
pub data Learned : Type 0 where
  unreachable in_flight op_failed unknown : Learned
  txid : String → Learned

abbrev pub txid_or_unknown : Option String → Learned
txid_or_unknown none = unknown
txid_or_unknown (some t) = Learned.txid t

unfoldable pub read_status : Result RpcError (List OpStatus) → Learned
read_status (err e) = unreachable
read_status (ok []) = unknown
read_status (ok (st ∷ rest)) =
    if str_eq (state_of st) "success"
    then txid_or_unknown (as_str st.txid)
    else if str_eq (state_of st) "failed"
    then op_failed
    else in_flight

abbrev pub learn_op : Answers → ℕ → Option String → Learned
learn_op w k none = unknown
learn_op w k (some op) = read_status (w.op_status k op)

abbrev pub learn_from : Answers → Attempt → Option String → Learned
learn_from w a none = learn_op w a.id a.opid
learn_from w a (some t) = Learned.txid t

unfoldable pub learn : Answers → Attempt → Learned
learn w a = learn_from w a a.txid

-- What the second half does: nothing, an alert, a confirmation, or a refund.
pub data Verdict : Type 0 where
  pass refund : Verdict
  leave : Alert → Verdict
  confirm : String → Verdict

abbrev pub is_submitted : AttemptStatus → Bool
is_submitted AttemptStatus.sent = true
is_submitted AttemptStatus.submitting = true
is_submitted _ = false

-- Refund an attempt that has expired, and leave one that has not.
abbrev pub expire : Answers → Attempt → Alert → Verdict
expire w a alert =
    if is_older a.created_at reservation_refund_minutes (w.now a.id) then refund else leave alert

abbrev pub judge_lookup : Answers → Attempt → String → Result RpcError (Unit {0}) → Verdict
judge_lookup w a t (ok _) = confirm t
judge_lookup w a t (err e) =
    if is_definitely_not_found e
    then expire w a (not_yet_on_chain a.id)
    else leave (node_unreachable a.id)

abbrev pub judge_unknown : Answers → Attempt → Option String → Verdict
judge_unknown w a (some op) = leave (op_lost a.id)
judge_unknown w a none =
    if is_submitted a.status then leave (fate_unknown a.id) else expire w a (not_submitted_yet a.id)

abbrev pub judge_learned : Answers → Attempt → Learned → Verdict
judge_learned w a unreachable = leave (wallet_unreachable a.id)
judge_learned w a in_flight = pass
judge_learned w a op_failed = refund
judge_learned w a unknown = judge_unknown w a a.opid
judge_learned w a (Learned.txid t) = judge_lookup w a t (w.raw_transaction a.id t)

unfoldable pub judge : Answers → Attempt → Verdict
unfolding learn
judge w a = judge_learned w a (learn w a)

abbrev pub alerted : Alert → Summary → Summary
alerted alert s = record s { alerts = s.alerts ++ alert ∷ [] }

-- What follows a confirmation: its status update, counters and alert.
abbrev pub after_confirm : Answers → ℕ → String → Summary → Result DbError ℕ → Db → Summary × Db
after_confirm w k t s (err e) db = (alerted (confirm_failed k) s, db)
after_confirm w k t s (ok n) db = (
  alerted (confirmed_late k n) (record s {
    attempts_resolved = suc s.attempts_resolved;
    late_confirmed = suc s.late_confirmed;
  }),
  (update_payout_attempt (w.marks k) k AttemptStatus.confirmed none (some t) db).1,
)

unfoldable pub settle_reservation : Answers → ℕ → String → Summary × Db → Summary × Db
settle_reservation w k t (s, db) =
    let (r, db') = confirm_payout (w.commits k) k t (w.now k) db in after_confirm w k t s r db'

abbrev pub after_refund : Answers → ℕ → Summary → Result DbError ℕ → Db → Summary × Db
after_refund w k s (err e) db = (alerted (refund_failed k) s, db)
after_refund w k s (ok n) db = (
  alerted (refunded k n) (record s { attempts_failed = suc s.attempts_failed }),
  (update_payout_attempt (w.marks k) k AttemptStatus.failed none none db).1,
)

-- `refund_reservation`
unfoldable pub refund_reservation : Answers → ℕ → Summary × Db → Summary × Db
refund_reservation w k (s, db) =
    let (r, db') = refund_payout (w.commits k) k db in after_refund w k s r db'

unfoldable pub carry_out : Answers → ℕ → Verdict → Summary × Db → Summary × Db
carry_out w k pass (s, db) = (s, db)
carry_out w k (leave alert) (s, db) = (alerted alert s, db)
carry_out w k (confirm t) (s, db) = settle_reservation w k t (s, db)
carry_out w k refund (s, db) = refund_reservation w k (s, db)

-- The loop over the reserved attempts.
unfoldable pub reconcile_all : Answers → List Attempt → Summary × Db → Summary × Db
reconcile_all w [] state = state
reconcile_all w (a ∷ more) state = reconcile_all w more (carry_out w a.id (judge w a) state)

-- `reconcile_reserved_payouts`, where its query answers
unfoldable pub reconcile_reserved_payouts : Answers → Option ℕ → ℕ → Summary × Db → Summary × Db
reconcile_reserved_payouts w older_than_minutes now (s, db) =
    reconcile_all w (get_reserved_attempts older_than_minutes now db) (s, db)
