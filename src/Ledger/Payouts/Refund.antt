-- ===== src/Ledger/Payouts/Refund.antt =====
-- Refunds of crates/pool-db/src/queries.rs, `refund_payout`, and reserving followed by refunding.
use zcash_mining_pool.Prelude.{
  ℕ, ◌≡◌, refl, ap, sym, subst, ◌∙◌, Bool, true, List, [], ◌∷◌, arith, length, int_laws, ok,
}
use zcash_mining_pool.Sql.{update, select, delete, sum_by-update, All-update}
use zcash_mining_pool.Ledger.Tables.{Balance, PayoutItem, Db}
use zcash_mining_pool.Ledger.Payouts.{
  paying_covers, release, of_attempt, drop_items, refund_item, refund_items, refund_payout_txn,
  refund_payout,
}
use zcash_mining_pool.Ledger.Payouts.Backing.{IsBacked-keep}
use zcash_mining_pool.Ledger.Payouts.Sound.{
  IsSound, IsSolvent, owed, wealth, IsHoused-update, bookings-update,
}
use zcash_mining_pool.Ledger.Payouts.Settling.{
  IsSettling, start-IsSettling, finish-IsSound, item_covered, item_lowered,
}

abbrev pub refunded : PayoutItem → Db → Db
refunded i db = record db {
  balances = update (paying_covers i.miner_id i.amount) (release i.amount) db.balances;
}

module _ (i : PayoutItem) (todo rest : List PayoutItem) (db : Db)
    (h : IsSettling (i ∷ todo) rest db) where
  abbrev p : Balance → Bool
  p = paying_covers i.miner_id i.amount

  refund_item_ok : refund_item i db ≡ ok (refunded i db)
  unfolding refund_item
  refund_item_ok = ground (arith, item_covered i todo rest db h)

  release-IsSolvent : (b : Balance) → IsSolvent b → p b ≡ true → IsSolvent (release i.amount b)
  release-IsSolvent b s e = omega (int_laws, h.positive.0)

  refunded-IsSettling : IsSettling todo rest (refunded i db)
  refunded-IsSettling = record {
    backed = item_lowered i todo rest db h (release i.amount) (λ b. refl) (λ b. refl);
    audited =
        IsBacked-keep (λ b. b.paid) _ p (release i.amount) (λ b. refl) (λ b. refl) db.balances
          h.audited;
    positive = h.positive.1;
    positive_rest = h.positive_rest;
    housed = IsHoused-update p (release i.amount) (λ b. refl) db.balances todo h.housed.1;
    housed_rest = IsHoused-update p (release i.amount) (λ b. refl) db.balances rest h.housed_rest;
    solvent = All-update IsSolvent p (release i.amount) db.balances release-IsSolvent h.solvent;
    bookings = bookings-update p (release i.amount) (λ b. refl) db.balances db.payouts h.bookings;
  }

  refunded-owed : owed (refunded i db) ≡ owed db
  unfolding owed
  refunded-owed = sum_by-update wealth p (release i.amount) db.balances (λ b _. omega int_laws)

-- The loop of a refund goes through, and only the balances change.
pub record Refunds (todo rest : List PayoutItem) (db db' : Db) : Type 0 where
  pub runs : refund_items todo db ≡ ok db'
  pub settles : IsSettling [] rest db'
  pub keeps : owed db' ≡ owed db
  pub only : db' ≡ record db { balances = db'.balances }

refund_items-Refunds :
    (todo rest : List PayoutItem) (db : Db)
    → IsSettling todo rest db
    → (db' : Db) × Refunds todo rest db db'
unfolding refund_items
refund_items-Refunds [] rest db h =
    (db, record { runs = refl; settles = h; keeps = refl; only = refl })
refund_items-Refunds (i ∷ todo) rest db h =
    let (db', r) =
      refund_items-Refunds todo rest (refunded i db) (refunded-IsSettling i todo rest db h) in
    (
      db',
      record {
        runs = rw (refund_item_ok i todo rest db h) r.runs;
        settles = r.settles;
        keeps = r.keeps ∙ refunded-owed i todo rest db h;
        only = r.only;
      },
    )

-- What a refund of a sound database comes to.
pub record IsReturn (k : ℕ) (db db' : Db) : Type 0 where
  pub runs : refund_payout true k db ≡ (ok (length (select (of_attempt k) db.items)), db')
  pub sound : IsSound db'
  pub keeps : owed db' ≡ owed db
  pub only : db' ≡ record db { balances = db'.balances; items = delete (of_attempt k) db.items }
  pub loop :
      (d : Db) × (refund_items (select (of_attempt k) db.items) db ≡ ok d)
      × (d.balances ≡ db'.balances)

finish-IsReturn :
    (k : ℕ) (db db' : Db)
    → Refunds (select (of_attempt k) db.items) (delete (of_attempt k) db.items) db db'
    → IsReturn k db (drop_items k db')
unfolding refund_payout refund_payout_txn drop_items owed
finish-IsReturn k db db' r =
    let same : db'.items ≡ db.items = ap (λ (d : Db). d.items) r.only in
    record {
      runs = ground (arith, r.runs);
      sound =
          finish-IsSound k db'
            (subst (λ is. IsSettling [] (delete (of_attempt k) is) db') (sym same) r.settles);
      keeps = r.keeps;
      only = ap (drop_items k) r.only;
      loop = (db', r.runs, refl);
    }

pub refund_payout-IsReturn : (k : ℕ) (db : Db) → IsSound db → (db' : Db) × IsReturn k db db'
refund_payout-IsReturn k db h =
    let (db', r) =
      refund_items-Refunds (select (of_attempt k) db.items) (delete (of_attempt k) db.items) db
        (start-IsSettling k db h) in
    (drop_items k db', finish-IsReturn k db db' r)
