-- ===== src/Payout/Round/Trace.antt =====
-- Crashes of the payout round of crates/pool-dashboard/src/main.rs: every state that a crash can leave, with
-- what was handed to the wallet before.
use zcash_mining_pool.Prelude.{
  ℕ, ◌≡◌, String, true, List, [], ◌∷◌, Option, none, some, ok, err, All,
}
use zcash_mining_pool.Float.{Float}
use zcash_mining_pool.Ledger.Tables.{Attempt, Db}
use zcash_mining_pool.Ledger.Payouts.Sound.{IsSound}
use zcash_mining_pool.Payout.Rpc.{RpcError, OpResult}
use zcash_mining_pool.Payout.Reconciler.{is_submitted}
use zcash_mining_pool.Payout.Reconciler.Books.{Books, view, settle_books}
use zcash_mining_pool.Payout.Round.{
  Effect, wrote, submitted, Surroundings, is_visible, is_json_rpc, awaited,
}

module _ {F : Type 0} where
  -- The predicate holds of each state in turn, from a state on, with what was submitted by then.
  abbrev pub Always :
      (Option (List (String × F)) → Db → Type 0)
      → Option (List (String × F))
      → Db
      → List (Effect F)
      → Type 0
  Always P sent db [] = P sent db
  Always P sent db (wrote db' ∷ es) = P sent db × Always P sent db' es
  Always P sent db (submitted sums ∷ es) = P sent db × Always P (some sums) db es

abbrev pub IsParkedRow : ℕ → Attempt → Type 0
IsParkedRow k a = a.id ≡ k → is_submitted a.status ≡ true

-- The reservation stands, and its attempt is marked as handed to the wallet.
pub record IsHeld (k : ℕ) (base : Books) (db : Db) : Type 0 where
  pub sound : IsSound db
  pub parked : All (IsParkedRow k) db.attempts
  pub seen : view db ≡ base

-- A sound database with the payments and the sum of the balances of `base`.
pub record IsQuiet (base : Books) (db : Db) : Type 0 where
  pub sound : IsSound db
  pub payments : (view db).payments ≡ base.payments
  pub entitled : (view db).entitled ≡ base.entitled

module _ (R : Float) where
  open R use {F}

  module _ (w : Surroundings F) (k : ℕ) (sums : List (String × F)) where
    -- The wallet said that no transaction will come of the request.
    pub data IsRejected : Type 0 where
      refused : {e : RpcError} → w.z_sendmany sums ≡ err e → is_json_rpc e ≡ true → IsRejected
      op_failed :
          {op : String}
          → w.z_sendmany sums ≡ ok op
          → awaited R w k op ≡ some (ok OpResult.failed)
          → IsRejected

    -- The wallet named the transaction, and the node has it.
    pub data IsSeen (t : String) : Type 0 where
      seen :
          {op : String}
          → w.z_sendmany sums ≡ ok op
          → awaited R w k op ≡ some (ok (OpResult.success t))
          → is_visible (w.raw_transaction t) 6 0 ≡ true
          → IsSeen t

    -- What can stand in the database once the request was handed to the wallet.
    pub data Stage (base : Books) (db : Db) : Type 0 where
      held : IsHeld k base db → Stage base db
      paid : {t : String} → IsSeen t → IsSound db → view db ≡ settle_books k t base → Stage base db
      rejected : IsRejected → IsQuiet base db → Stage base db

  module _ (w : Surroundings F) (k : ℕ) where
    abbrev pub IsSafe : Books → Books → Option (List (String × F)) → Db → Type 0
    IsSafe start base none db = IsQuiet start db
    IsSafe start base (some sums) db = Stage w k sums base db
