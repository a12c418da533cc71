-- ===== src/Ledger/Payouts/Settling.antt =====
-- The middle of a confirmation or a refund: the items still to do, and those of other attempts.
use zcash_mining_pool.Prelude.{
  ℕ, ◌≡◌, ◌≢◌, sym, subst, fun_ext, ◌∙◌, ◌&&◌, true, List, [], ◌∷◌, arith, ◌==◌, All, ℤ, ◌+ℤ◌, ◌-ℤ◌,
  ◌≤ℤ◌, leb_ℤ, int_laws, parts_of_eq, sum_by,
}
use zcash_mining_pool.Sql.{
  update, affected, select, delete, sum_by-select-delete, All-select, All-delete,
}
use zcash_mining_pool.Ledger.Tables.{Balance, PayoutItem, Db}
use zcash_mining_pool.Ledger.Payouts.{paying_covers, of_attempt, drop_items}
use zcash_mining_pool.Ledger.Payouts.Backing.{IsBacked, due, IsBacked-update, IsBacked-covers}
use zcash_mining_pool.Ledger.Payouts.Sound.{
  IsSound, IsPositive, IsHoused, IsSolvent, IsBooking, reserved, recorded, reserved_nonneg,
  for_miner_self, for_miner_ne,
}

pub record IsSettling (todo rest : List PayoutItem) (db : Db) : Type 0 where
  pub backed : IsBacked (λ b. b.paying) (λ m. reserved todo m +ℤ reserved rest m) db.balances
  pub audited : IsBacked (λ b. b.paid) (recorded db.payouts) db.balances
  pub positive : All IsPositive todo
  pub positive_rest : All IsPositive rest
  pub housed : All (IsHoused db.balances) todo
  pub housed_rest : All (IsHoused db.balances) rest
  pub solvent : All IsSolvent db.balances
  pub bookings : All (IsBooking db.balances) db.payouts

-- Where an attempt's items are selected, the rest is what will be left.
pub start-IsSettling :
    (k : ℕ) (db : Db)
    → IsSound db
    → IsSettling (select (of_attempt k) db.items) (delete (of_attempt k) db.items) db
start-IsSettling k db h = record {
  backed =
      subst (λ owe. IsBacked (λ b. b.paying) owe db.balances)
        (sym (fun_ext (λ m. sum_by-select-delete (due m) (of_attempt k) db.items))) h.backed;
  audited = h.audited;
  positive = All-select IsPositive (of_attempt k) db.items h.positive;
  positive_rest = All-delete IsPositive (of_attempt k) db.items h.positive;
  housed = All-select (IsHoused db.balances) (of_attempt k) db.items h.housed;
  housed_rest = All-delete (IsHoused db.balances) (of_attempt k) db.items h.housed;
  solvent = h.solvent;
  bookings = h.bookings;
}

nothing_to_do :
    (rest : List PayoutItem) (m : ℕ) → reserved [] m +ℤ reserved rest m ≡ reserved rest m
unfolding sum_by
nothing_to_do rest m = omega int_laws

-- When all is done, deleting the attempt's items gives a sound database again.
pub finish-IsSound :
    (k : ℕ) (db : Db)
    → IsSettling [] (delete (of_attempt k) db.items) db
    → IsSound (drop_items k db)
unfolding drop_items
finish-IsSound k db h = record {
  backed =
      subst (λ owe. IsBacked (λ b. b.paying) owe db.balances)
        (fun_ext (nothing_to_do (delete (of_attempt k) db.items))) h.backed;
  audited = h.audited;
  positive = h.positive_rest;
  housed = h.housed_rest;
  solvent = h.solvent;
  bookings = h.bookings;
}

module _ (i : PayoutItem) (todo rest : List PayoutItem) (db : Db)
    (h : IsSettling (i ∷ todo) rest db) where
  abbrev m : ℕ
  m = i.miner_id

  owe_at :
      reserved (i ∷ todo) m +ℤ reserved rest m ≡ i.amount +ℤ (reserved todo m +ℤ reserved rest m)
  unfolding sum_by
  owe_at = rw (for_miner_self m i.amount) (omega int_laws)

  enough : i.amount ≤ℤ reserved (i ∷ todo) m +ℤ reserved rest m
  enough = omega (
    int_laws,
    parts_of_eq owe_at,
    reserved_nonneg m todo h.positive.1,
    reserved_nonneg m rest h.positive_rest,
  )

  -- The guard of an item that is to be settled always passes.
  pub item_covered : affected (paying_covers m i.amount) db.balances ≢ 0
  item_covered =
      IsBacked-covers (λ b. b.paying) (λ j. reserved (i ∷ todo) j +ℤ reserved rest j) m i.amount
        db.balances h.backed h.housed.0 enough

  lowers :
      (p : ℤ)
      → p ≡ reserved (i ∷ todo) m +ℤ reserved rest m
      → p -ℤ i.amount ≡ reserved todo m +ℤ reserved rest m
  lowers p e = rw (e, owe_at) (omega int_laws)

  others_kept :
      (j : ℕ)
      → j ≢ m
      → reserved todo j +ℤ reserved rest j ≡ reserved (i ∷ todo) j +ℤ reserved rest j
  unfolding sum_by
  others_kept j ne = rw (for_miner_ne j m i.amount ne) (omega int_laws)

  pub item_lowered :
      (f : Balance → Balance)
      → ((b : Balance) → (f b).miner_id ≡ b.miner_id)
      → ((b : Balance) → (f b).paying ≡ b.paying -ℤ i.amount)
      → IsBacked
          (λ b. b.paying)
          (λ j. reserved todo j +ℤ reserved rest j)
          (update (paying_covers m i.amount) f db.balances)
  item_lowered f keeps low =
      IsBacked-update (λ b. b.paying) m others_kept (paying_covers m i.amount) f
        (λ b e. let e' : ((b.miner_id == m) && leb_ℤ i.amount b.paying) ≡ true = e in ground arith)
        keeps (λ b _ e. low b ∙ lowers b.paying e) db.balances item_covered h.backed
