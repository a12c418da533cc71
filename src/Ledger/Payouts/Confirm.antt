-- ===== src/Ledger/Payouts/Confirm.antt =====
-- Confirmations of crates/pool-db/src/queries.rs, `confirm_payout`.
use mathlib.Core.List.{append-nil, append_assoc}
use zcash_mining_pool.Prelude.{
  ℕ, suc, ◌+◌, ◌≡◌, ◌≢◌, refl, ap, sym, subst, ◌∙◌, String, Bool, true, List, [], ◌∷◌, ◌++◌, arith,
  length, ◌+ℤ◌, int_laws, ok,
}
use zcash_mining_pool.Sql.{update, select, delete, sum_by-update, All-update}
use zcash_mining_pool.Ledger.Tables.{Balance, PayoutItem, Payout, Db}
use zcash_mining_pool.Ledger.Payouts.{
  paying_covers, settle, of_attempt, drop_items, confirm_item, confirm_items, confirm_payout_txn,
  confirm_payout,
}
use zcash_mining_pool.Ledger.Payouts.Backing.{IsBacked-update}
use zcash_mining_pool.Ledger.Payouts.Sound.{
  IsSound, IsSolvent, IsBooking, owed, wealth, recorded, recorded-snoc, for_miner_self,
  for_miner_ne, IsHoused-update, bookings-update, ids-update, All-append,
}
use zcash_mining_pool.Ledger.Payouts.Settling.{
  IsSettling, start-IsSettling, finish-IsSound, item_covered, item_lowered,
}

-- The row that settles an item.
abbrev pub payout_for : String → ℕ → ℕ → PayoutItem → Payout
payout_for txid now n i = record {
  id = n;
  miner_id = i.miner_id;
  txid = txid;
  amount = i.amount;
  created_at = now;
}

-- The rows that settle a list of items, with the ids from `n` on.
abbrev pub issue : String → ℕ → ℕ → List PayoutItem → List Payout
issue txid now n [] = []
issue txid now n (i ∷ is) = payout_for txid now n i ∷ issue txid now (suc n) is

abbrev pub confirmed : String → ℕ → PayoutItem → Db → Db
confirmed txid now i db = record db {
  balances = update (paying_covers i.miner_id i.amount) (settle i.amount) db.balances;
  payouts = db.payouts ++ payout_for txid now db.next_payout i ∷ [];
  next_payout = suc db.next_payout;
}

module _ (txid : String) (now : ℕ) where
  module _ (i : PayoutItem) (todo rest : List PayoutItem) (db : Db)
      (h : IsSettling (i ∷ todo) rest db) where
    abbrev p : Balance → Bool
    p = paying_covers i.miner_id i.amount

    abbrev row : Payout
    row = payout_for txid now db.next_payout i

    confirm_item_ok : confirm_item txid now i db ≡ ok (confirmed txid now i db)
    unfolding confirm_item
    confirm_item_ok = ground (arith, item_covered i todo rest db h)

    only_at : (b : Balance) → p b ≡ true → b.miner_id ≡ i.miner_id
    only_at b e = ground arith

    books :
        (b : Balance)
        → b.paid ≡ recorded db.payouts i.miner_id
        → b.paid +ℤ i.amount ≡ recorded (db.payouts ++ row ∷ []) i.miner_id
    books b e =
        rw (recorded-snoc db.payouts row i.miner_id, for_miner_self i.miner_id i.amount, e) refl

    others_kept :
        (j : ℕ) → j ≢ i.miner_id → recorded (db.payouts ++ row ∷ []) j ≡ recorded db.payouts j
    others_kept j ne =
        rw (recorded-snoc db.payouts row j, for_miner_ne j i.miner_id i.amount ne) (omega int_laws)

    settle-IsSolvent : (b : Balance) → IsSolvent b → p b ≡ true → IsSolvent (settle i.amount b)
    settle-IsSolvent b s e = omega (int_laws, h.positive.0)

    confirmed-IsSettling : IsSettling todo rest (confirmed txid now i db)
    confirmed-IsSettling = record {
      backed = item_lowered i todo rest db h (settle i.amount) (λ b. refl) (λ b. refl);
      audited =
          IsBacked-update (λ b. b.paid) i.miner_id others_kept p (settle i.amount) only_at
            (λ b. refl) (λ b _ e. books b e) db.balances (item_covered i todo rest db h) h.audited;
      positive = h.positive.1;
      positive_rest = h.positive_rest;
      housed = IsHoused-update p (settle i.amount) (λ b. refl) db.balances todo h.housed.1;
      housed_rest = IsHoused-update p (settle i.amount) (λ b. refl) db.balances rest h.housed_rest;
      solvent = All-update IsSolvent p (settle i.amount) db.balances settle-IsSolvent h.solvent;
      bookings =
          All-append (IsBooking (update p (settle i.amount) db.balances)) db.payouts (row ∷ [])
            (bookings-update p (settle i.amount) (λ b. refl) db.balances db.payouts h.bookings)
            (
              (
                h.positive.0,
                rw (ids-update p (settle i.amount) (λ b. refl) db.balances i.miner_id) h.housed.0,
              ),
              tt,
            );
    }

    confirmed-owed : owed (confirmed txid now i db) ≡ owed db
    unfolding owed
    confirmed-owed = sum_by-update wealth p (settle i.amount) db.balances (λ b _. omega int_laws)

  -- The loop of a confirmation goes through, and issues one row for each item.
  pub record Confirms (todo rest : List PayoutItem) (db db' : Db) : Type 0 where
    pub runs : confirm_items txid now todo db ≡ ok db'
    pub settles : IsSettling [] rest db'
    pub keeps : owed db' ≡ owed db
    pub only : db' ≡ record db {
      balances = db'.balances;
      payouts = db.payouts ++ issue txid now db.next_payout todo;
      next_payout = db.next_payout + length todo;
    }

  issued_one :
      (i : PayoutItem) (todo : List PayoutItem) (db : Db) (bs : List Balance)
      → (record (confirmed txid now i db) {
        balances = bs;
        payouts = (confirmed txid now i db).payouts ++ issue txid now (suc db.next_payout) todo;
        next_payout = suc db.next_payout + length todo;
      })
        ≡ (record db {
          balances = bs;
          payouts = db.payouts ++ issue txid now db.next_payout (i ∷ todo);
          next_payout = db.next_payout + length (i ∷ todo);
        })
  issued_one i todo db bs =
      let e : (db.payouts ++ payout_for txid now db.next_payout i ∷ [])
            ++ issue txid now (suc db.next_payout) todo
          ≡ db.payouts ++ issue txid now db.next_payout (i ∷ todo) =
        append_assoc db.payouts (payout_for txid now db.next_payout i ∷ [])
          (issue txid now (suc db.next_payout) todo) in
      let n : suc db.next_payout + length todo ≡ db.next_payout + length (i ∷ todo) = omega arith in
      λ j. record db { balances = bs; payouts = e j; next_payout = n j }

  confirm_items-Confirms :
      (todo rest : List PayoutItem) (db : Db)
      → IsSettling todo rest db
      → (db' : Db) × Confirms todo rest db db'
  unfolding confirm_items
  confirm_items-Confirms [] rest db h = (
    db,
    record {
      runs = refl;
      settles = h;
      keeps = refl;
      only =
          let n : db.next_payout ≡ db.next_payout + 0 = omega arith in
          λ j. record db { payouts = sym (append-nil db.payouts) j; next_payout = n j };
    },
  )
  confirm_items-Confirms (i ∷ todo) rest db h =
      let (db', r) =
        confirm_items-Confirms todo rest (confirmed txid now i db)
          (confirmed-IsSettling i todo rest db h) in
      (
        db',
        record {
          runs = rw (confirm_item_ok i todo rest db h) r.runs;
          settles = r.settles;
          keeps = r.keeps ∙ confirmed-owed i todo rest db h;
          only = r.only ∙ issued_one i todo db db'.balances;
        },
      )

  -- What a confirmation of a sound database comes to.
  pub record IsSettlement (k : ℕ) (db db' : Db) : Type 0 where
    pub runs :
        confirm_payout true k txid now db ≡ (ok (length (select (of_attempt k) db.items)), db')
    pub sound : IsSound db'
    pub keeps : owed db' ≡ owed db
    pub only : db' ≡ record db {
      balances = db'.balances;
      items = delete (of_attempt k) db.items;
      payouts = db.payouts ++ issue txid now db.next_payout (select (of_attempt k) db.items);
      next_payout = db.next_payout + length (select (of_attempt k) db.items);
    }

  finish-IsSettlement :
      (k : ℕ) (db db' : Db)
      → Confirms (select (of_attempt k) db.items) (delete (of_attempt k) db.items) db db'
      → IsSettlement k db (drop_items k db')
  unfolding confirm_payout confirm_payout_txn drop_items owed
  finish-IsSettlement k db db' r =
      let same : db'.items ≡ db.items = ap (λ (d : Db). d.items) r.only in
      record {
        runs = ground (arith, r.runs);
        sound =
            finish-IsSound k db'
              (subst (λ is. IsSettling [] (delete (of_attempt k) is) db') (sym same) r.settles);
        keeps = r.keeps;
        only = ap (drop_items k) r.only;
      }

  pub confirm_payout-IsSettlement :
      (k : ℕ) (db : Db) → IsSound db → (db' : Db) × IsSettlement k db db'
  confirm_payout-IsSettlement k db h =
      let (db', r) =
        confirm_items-Confirms (select (of_attempt k) db.items) (delete (of_attempt k) db.items) db
          (start-IsSettling k db h) in
      (drop_items k db', finish-IsSettlement k db db' r)
