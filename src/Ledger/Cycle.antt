-- ===== src/Ledger/Cycle.antt =====
-- crates/pool-db/src/queries.rs: any interleaving of the operations on rewards and payouts, by whichever
-- task calls them, each with a transaction that commits or does not.
use zcash_mining_pool.Prelude.{
  ℕ, ◌≡◌, refl, ap, ◌∙◌, String, Bool, true, false, List, ℤ, pos, ◌+ℤ◌, ◌-ℤ◌, ◌≢◌, length, some,
  parts_of_eq, +ℤ_assoc, int_laws, ok, ◌>>=◌, All,
}
use zcash_mining_pool.Ledger.Tables.{Db, transact}
use zcash_mining_pool.Ledger.Transactions.{rolled_back}
use zcash_mining_pool.Ledger.Payouts.{
  void_reorged_payout, reserve_payout, confirm_payout, refund_payout, confirm_payout_txn,
  refund_payout_txn,
}
use zcash_mining_pool.Ledger.Payouts.Sound.{IsSound, owed}
use zcash_mining_pool.Ledger.Payouts.Reserve.{reserve_payout-IsSound, reserve_items-owed}
use zcash_mining_pool.Ledger.Payouts.Saga.{confirm_settles, refund_releases}
use zcash_mining_pool.Ledger.Credits.{
  distribute_block_credits, distribute_credits, reverse_block_credits_precise, of_block, costs_of,
}
use zcash_mining_pool.Sql.{select}
use zcash_mining_pool.Ledger.Payouts.Void.{void_reorged_payout-IsSound}
use zcash_mining_pool.Ledger.Credits.Reversing.{IsPositiveCredit}
use zcash_mining_pool.Ledger.Credits.Reversal.{reverse_accounts}
use zcash_mining_pool.Ledger.Credits.Distribution.{
  distribute_adds, amounts, IsCredit, IsDistinct, IsFresh, HasKeys,
}

-- One operation on the database, and the amount that it credits.
pub data Step : Db → ℤ → Db → Type 0 where
  reserve :
      (commits : Bool) (k : ℕ) (xs : List (ℕ × ℤ)) (db : Db)
      → Step db (pos 0) (reserve_payout commits k xs db).1
  confirm :
      (commits : Bool) (k : ℕ) (txid : String) (now : ℕ) (db : Db)
      → Step db (pos 0) (confirm_payout commits k txid now db).1
  refund : (commits : Bool) (k : ℕ) (db : Db) → Step db (pos 0) (refund_payout commits k db).1
  credit :
      (block : ℕ) (xs : List (ℕ × ℤ)) (db : Db)
      → All IsCredit xs
      → IsDistinct xs
      → All (IsFresh block db.credits) xs
      → All (HasKeys block db) xs
      → Step db (amounts xs) (distribute_block_credits true block xs db).1
  credit_lost :
      (block : ℕ) (xs : List (ℕ × ℤ)) (db : Db)
      → Step db (pos 0) (distribute_block_credits false block xs db).1
  void :
      (commits : Bool) (txid : String) (now : ℕ) (db : Db)
      → Step db (pos 0) (void_reorged_payout commits txid now db).1
  reverse :
      (block : ℕ) (stamped taken clawback : ℤ) (db : Db)
      → All IsPositiveCredit db.credits
      → length (select (of_block block) db.credits) ≢ 0
      → costs_of block db.blocks ≡ some stamped
      → (reverse_block_credits_precise true block db).0 ≡ ok (some (taken, clawback))
      → Step db (pos 0 -ℤ taken) (reverse_block_credits_precise true block db).1

-- What is reached from a database, with the sum of what was credited.
pub data Reach (start : Db) : ℤ → Db → Type 0 where
  here : Reach start (pos 0) start
  next :
      {total amount : ℤ} {db db' : Db}
      → Reach start total db
      → Step db amount db'
      → Reach start (total +ℤ amount) db'

-- What a step keeps.
abbrev Keeps : Db → ℤ → Db → Type 0
Keeps db amount db' = IsSound db' × (owed db' ≡ owed db +ℤ amount)

unchanged : (db db' : Db) → IsSound db → db' ≡ db → Keeps db (pos 0) db'
unchanged db db' h e = rw e (h, omega int_laws)

same_owed : (db db' : Db) → owed db' ≡ owed db → owed db' ≡ owed db +ℤ pos 0
same_owed db db' e = rw e (omega int_laws)

Step-Keeps : {db db' : Db} {amount : ℤ} → Step db amount db' → IsSound db → Keeps db amount db'
unfolding reserve_payout confirm_payout refund_payout distribute_block_credits transact
Step-Keeps (reserve true k xs db) h =
    (reserve_payout-IsSound true k xs db h, same_owed db _ (reserve_items-owed k xs db))
Step-Keeps (reserve false k xs db) h = unchanged db db h refl
Step-Keeps (confirm true k txid now db) h =
    let (_, sound, kept, _, _) = confirm_settles k txid now db h in (sound, same_owed db _ kept)
Step-Keeps (confirm false k txid now db) h =
    unchanged db _ h (rolled_back (confirm_payout_txn k txid now) db)
Step-Keeps (refund true k db) h =
    let (_, sound, kept, _, _) = refund_releases k db h in (sound, same_owed db _ kept)
Step-Keeps (refund false k db) h = unchanged db _ h (rolled_back (refund_payout_txn k) db)
Step-Keeps (credit block xs db c d f k) h =
    let (_, sound, grown, _) = distribute_adds block xs db h c d f k in (sound, grown)
Step-Keeps (credit_lost block xs db) h =
    unchanged db _ h
      (rolled_back {A = Unit {0}} (λ d. distribute_credits block xs d >>= λ db'. ok (tt, db')) db)
Step-Keeps (void commits txid now db) h =
    let (sound, kept) = void_reorged_payout-IsSound commits txid now db h in
    (sound, same_owed db _ kept)
Step-Keeps (reverse block stamped taken clawback db plus some_left found runs) h =
    let (taken', clawback', runs', _, debits, _, _, sound) =
      reverse_accounts block stamped db h plus some_left found in
    let same : taken' ≡ taken = cc in
    (sound, omega (int_laws, parts_of_eq debits, parts_of_eq same))

-- From a sound database every interleaving of reservations, confirmations and refunds of any attempts,
-- committed or rolled back, of voids of payments, of distributions of new credits and of reversals of
-- positive ones leads to a sound database, and the sum of all balances has changed by exactly the
-- sum of what was credited less what was taken back.
pub Reach-IsSound :
    {start db : Db} {total : ℤ}
    → IsSound start
    → Reach start total db
    → IsSound db × (owed db ≡ owed start +ℤ total)
Reach-IsSound {start} h here = (h, omega int_laws)
Reach-IsSound {start} h (next {total} {amount} {db} {db'} r s) =
    let (sound, so_far) = Reach-IsSound h r in
    let (sound', grown) = Step-Keeps s sound in
    (sound', grown ∙ ap (λ v. v +ℤ amount) so_far ∙ +ℤ_assoc (owed start) total amount)
