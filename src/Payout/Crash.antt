-- ===== src/Payout/Crash.antt =====
-- A payout round of crates/pool-dashboard/src/main.rs that crashed, and the sweep of reconciler.rs after it.
use zcash_mining_pool.Prelude.{
  ℕ, ◌≡◌, ap, ◌∙◌, String, true, ◌&&◌, ◌⊎◌, inl, inr, List, [], ◌∷◌, map, Option, none, some, All,
  ok, err,
}
use zcash_mining_pool.Float.{Float}
use zcash_mining_pool.Sql.{All-select}
use zcash_mining_pool.Ledger.Tables.{Attempt, Db}
use zcash_mining_pool.Ledger.Payouts.Sound.{IsSound}
use zcash_mining_pool.Payout.Attempts.{get_reserved_attempts, with_total, is_aged, holds_items}
use zcash_mining_pool.Payout.Rpc.{OpStatus, RpcError, state_of, is_definitely_not_found}
use zcash_mining_pool.Payout.Reconciler.{Answers, Summary, is_submitted, reconcile_reserved_payouts}
use zcash_mining_pool.Payout.Reconciler.Evidence.{
  IsNamed, IsReleasable, operation_failed, absent, never_submitted, IsExpired,
}
use zcash_mining_pool.Payout.Reconciler.Books.{Books, view, settle_books}
use zcash_mining_pool.Payout.Reconciler.Outcome.{Any, Pays, Resolves, reconcile_is_justified}
use zcash_mining_pool.Payout.Selection.{Transfer}
use zcash_mining_pool.Payout.Round.{Effect, wrote, submitted, Surroundings, pay_round}
use zcash_mining_pool.Payout.Round.Trace.{
  Always, IsParkedRow, IsHeld, IsRejected, IsSeen, held, paid, rejected, IsSafe,
}
use zcash_mining_pool.Payout.Round.Safe.{reserved_state, pay_round-IsSafe}

Always-weaken :
    {F : Type 0} (P Q : Option (List (String × F)) → Db → Type 0)
    → ((sent : Option (List (String × F))) (db : Db) → P sent db → Q sent db)
    → (sent : Option (List (String × F))) (db : Db) (es : List (Effect F)) → Always P sent db es
    → Always Q sent db es
Always-weaken P Q f sent db [] h = f sent db h
Always-weaken P Q f sent db (wrote db' ∷ es) h =
    (f sent db h.0, Always-weaken P Q f sent db' es h.1)
Always-weaken P Q f sent db (submitted sums ∷ es) h =
    (f sent db h.0, Always-weaken P Q f (some sums) db es h.1)

totals_parked :
    (k : ℕ) (db : Db) (rows : List Attempt)
    → All (IsParkedRow k) rows
    → All (IsParkedRow k) (map (with_total db) rows)
totals_parked k db [] h = tt
totals_parked k db (a ∷ rows) h = (h.0, totals_parked k db rows h.1)

module _ (w : Answers) where
  -- The wallet reports that the operation failed, or the node does not know its transaction sixty
  -- minutes after.
  pub data IsDead (a : Attempt) : Type 0 where
    op_failed :
        {op : String} {st : OpStatus} {rest : List OpStatus}
        → a.opid ≡ some op
        → w.op_status a.id op ≡ ok (st ∷ rest)
        → state_of st ≡ "failed"
        → IsDead a
    unknown_txid :
        {t : String} {e : RpcError}
        → IsNamed w a t
        → w.raw_transaction a.id t ≡ err e
        → is_definitely_not_found e ≡ true
        → IsExpired w a
        → IsDead a

  abbrev pub Decides : ℕ → Attempt → Type 0
  Decides k a = (a.id ≡ k) × (((t : String) × Pays w t a) ⊎ IsDead a)

  parked-IsDead : (a : Attempt) → is_submitted a.status ≡ true → IsReleasable w a → IsDead a
  parked-IsDead a h (operation_failed _ opid asked state) = op_failed opid asked state
  parked-IsDead a h (absent named asked gone late) = unknown_txid named asked gone late
  parked-IsDead a h (never_submitted _ _ quiet _) = cc

  parked-Decides : (k : ℕ) (a : Attempt) → IsParkedRow k a → Resolves w k a → Decides k a
  parked-Decides k a h (same, inl pays) = (same, inl pays)
  parked-Decides k a h (same, inr why) = (same, inr (parked-IsDead a (h same) why))

  Any-Decides :
      (k : ℕ) (todo : List Attempt)
      → All (IsParkedRow k) todo
      → Any (Resolves w k) todo
      → Any (Decides k) todo
  Any-Decides k [] h r = r
  Any-Decides k (a ∷ more) h (inl r) = inl (parked-Decides k a h.0 r)
  Any-Decides k (a ∷ more) h (inr r) = inr (Any-Decides k more h.1 r)

  -- Attempt `k` keeps the reservation that it has in `base`, or has none left because the node has
  -- its transaction or because it is dead.
  abbrev pub Survives : ℕ → Books → List Attempt → Db → Type 0
  Survives k base todo db =
      ((view db).reservations k ≡ base.reservations k)
      ⊎ (((view db).reservations k ≡ []) × Any (Decides k) todo)

  held-Survives :
      (minutes : Option ℕ) (now : ℕ) (s : Summary) (k : ℕ) (base : Books) (db : Db)
      → IsHeld k base db
      → Survives k base
          (get_reserved_attempts minutes now db)
          (reconcile_reserved_payouts w minutes now (s, db)).1
  unfolding get_reserved_attempts
  held-Survives minutes now s k base db h =
      let todo = get_reserved_attempts minutes now db in
      let parked : All (IsParkedRow k) todo = totals_parked k db _ (
        All-select (IsParkedRow k) (λ a. is_aged minutes now a && holds_items db a) db.attempts
          h.parked) in
      elim ((reconcile_is_justified w minutes now s db h.sound).0 k) [
        | inl same ↦ inl (same ∙ ap (λ (b : Books). b.reservations k) h.seen)
        | inr (gone, why) ↦ inr (gone, Any-Decides k todo parked why)
      ]

module _ (R : Float) (w : Surroundings R.F) (v : Answers) (minutes : Option ℕ) (now : ℕ)
    (s : Summary) where
  open R use {F}

  -- What a sweep makes of a state after `sent` was handed to the wallet.
  abbrev pub IsSwept : ℕ → Books → Option (List (String × F)) → Db → Type 0
  IsSwept k base none db = IsSound db
  IsSwept k base (some sums) db =
      IsRejected R w k sums
      ⊎ (((t : String) × IsSeen R w k sums t × (view db ≡ settle_books k t base))
          ⊎ Survives v k base (get_reserved_attempts minutes now db)
              (reconcile_reserved_payouts v minutes now (s, db)).1)

  swept :
      (k : ℕ) (start base : Books) (sent : Option (List (String × F))) (db : Db)
      → IsSafe R w k start base sent db
      → IsSwept k base sent db
  swept k start base none db h = h.sound
  swept k start base (some sums) db (held h) = inr (inr (held-Survives v minutes now s k base db h))
  swept k start base (some sums) db (paid {t} there _ same) = inr (inl (t, there, same))
  swept k start base (some sums) db (rejected why _) = inl why

  -- A crash of the payout round followed by a sweep never gives back money that the wallet may
  -- still send. In every state that a crash can leave once the request was handed to the wallet:
  -- the wallet rejected the request, or the payment is booked under the transaction that the node
  -- has, or a sweep, whatever it is answered, keeps the reservation or closes it because the node
  -- has the transaction, because the wallet reports the operation failed, or because the node does
  -- not know the transaction sixty minutes after.
  pub crash_then_sweep :
      (ts : List Transfer) (db : Db)
      → IsSound db
      → Always
          (IsSwept db.next_attempt (view (reserved_state R w ts db)))
          none
          db
          (pay_round R w ts db).effects
  crash_then_sweep ts db h =
      let k = db.next_attempt in
      let base = view (reserved_state R w ts db) in
      Always-weaken (IsSafe R w k (view db) base) (IsSwept k base) (swept k (view db) base) none db
        (pay_round R w ts db).effects (pay_round-IsSafe R w ts db h)
