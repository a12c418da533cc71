-- ===== src/Payout/Reconciler/Phantoms.antt =====
-- `check_phantom_payouts` and `check_invariant` of crates/pool-dashboard/src/reconciler.rs: payments that are
-- not on the chain, and the drift of the books.
pub mod Voided
use zcash_mining_pool.Prelude.{
  ℕ, suc, ◌+◌, ◌*◌, String, Bool, true, false, ◌||◌, List, [], ◌∷◌, ◌++◌, map, reverse, ltb, leb,
  str_eq, if◌then◌else◌, Option, none, some, Result, ok, err, ℤ, pos, negsuc, ◌-ℤ◌, ltb_ℤ,
}
use zcash_mining_pool.Float.{Float}
use zcash_mining_pool.Sql.{select}
use zcash_mining_pool.Ledger.Tables.{Payout, Db, DbError}
use zcash_mining_pool.Ledger.Payouts.{void_reorged_payout}
use zcash_mining_pool.Ledger.Blocks.{get_accounting_invariant}
use zcash_mining_pool.Payout.Rpc.{RpcError, is_definitely_not_found}
use zcash_mining_pool.Payout.Reconciler.{
  Alert, payout_unreachable, payout_voided, void_failed, phantom, invariant_moved, Summary, alerted,
}

abbrev pub phantom_check_hours : ℕ
phantom_check_hours = 24

abbrev pub is_listed : String → List String → Bool
is_listed t [] = false
is_listed t (x ∷ xs) = str_eq t x || is_listed t xs

-- GROUP BY: each transaction once, here in the order of the rows.
unfoldable pub distinct : List String → List String → List String
distinct seen [] = reverse seen
distinct seen (t ∷ ts) = if is_listed t seen then distinct seen ts else distinct (t ∷ seen) ts

-- `get_recent_payout_txids`, without the sums, which only the alerts show
unfoldable pub get_recent_payout_txids : ℕ → ℕ → Db → List String
get_recent_payout_txids hours now db = distinct [] (
    map (λ (p : Payout). p.txid)
      (select (λ (p : Payout). ltb now (p.created_at + 3600 * hours)) db.payouts))

-- What the node answers on a transaction, when, and whether the void of its payment commits.
pub record Lookups : Type 0 where
  pub raw_transaction : String → Result RpcError (Unit {0})
  pub now : String → ℕ
  pub commits : String → Bool

abbrev pub add_phantom : String → Summary → Summary
add_phantom t s = alerted (phantom t) (record s { phantom_txids = s.phantom_txids ++ t ∷ [] })

abbrev pub on_void : String → Result DbError (ℕ × ℤ) → Summary × Db → Summary × Db
on_void t (err e) (s, db) = (alerted (void_failed t) s, db)
on_void t (ok (rows, zats)) (s, db) =
    if leb 1 rows then (alerted (payout_voided t) s, db) else (add_phantom t s, db)

module _ (w : Lookups) (auto_void_reorged : Bool) where
  abbrev pub void_or_alert : Bool → String → Summary × Db → Summary × Db
  void_or_alert false t (s, db) = (add_phantom t s, db)
  void_or_alert true t (s, db) =
      let (r, db') = void_reorged_payout (w.commits t) t (w.now t) db in on_void t r (s, db')

  abbrev pub on_payout_lookup : String → Result RpcError (Unit {0}) → Summary × Db → Summary × Db
  on_payout_lookup t (ok _) (s, db) = (s, db)
  on_payout_lookup t (err e) (s, db) =
      if is_definitely_not_found e
      then void_or_alert auto_void_reorged t (s, db)
      else (alerted (payout_unreachable t) s, db)

  unfoldable pub check_payout : String → Summary × Db → Summary × Db
  check_payout t state = on_payout_lookup t (w.raw_transaction t) state

  unfoldable pub check_payouts : List String → Summary × Db → Summary × Db
  check_payouts [] state = state
  check_payouts (t ∷ ts) state = check_payouts ts (check_payout t state)

  -- `check_phantom_payouts`
  unfoldable pub check_phantom_payouts : ℕ → Summary × Db → Summary × Db
  check_phantom_payouts now (s, db) =
      check_payouts (get_recent_payout_txids phantom_check_hours now db) (s, db)

abbrev pub invariant_drift_delta_alert : ℤ
invariant_drift_delta_alert = pos 10000000

abbrev pub abs_ℤ : ℤ → ℤ
abs_ℤ (pos n) = pos n
abs_ℤ (negsuc n) = pos (suc n)

module _ (R : Float) where
  open R use {F, of_ℤ, ratio, sub, mul, to_i64}

  -- balances - clawbacks - the distributable part of the rewards
  abbrev pub drift_of : F → ℤ × ℤ × ℤ → ℤ
  drift_of fee (reward, balances, clawbacks) =
      balances -ℤ clawbacks -ℤ to_i64 (mul (of_ℤ reward) (sub (ratio 1 1) fee))

  abbrev pub compare_drift : Option ℤ → ℤ → Summary → Summary
  compare_drift none drift s = s
  compare_drift (some previous) drift s =
      if ltb_ℤ invariant_drift_delta_alert (abs_ℤ (drift -ℤ previous))
      then alerted (invariant_moved (drift -ℤ previous) drift) s
      else s

  -- `check_invariant`; the drift of the sweep before is read from the status table.
  unfoldable pub check_invariant : F → Option ℤ → Db → Summary → Summary
  check_invariant fee previous db s =
      let drift = drift_of fee (get_accounting_invariant db) in
      compare_drift previous drift (record s { invariant_drift = drift })
