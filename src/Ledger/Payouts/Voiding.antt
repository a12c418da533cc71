-- ===== src/Ledger/Payouts/Voiding.antt =====
-- The rows of a voided payout given back one by one, in `void_reorged_payout` of
-- crates/pool-db/src/queries.rs.
use zcash_mining_pool.Prelude.{
  ℕ, ◌≡◌, ◌≢◌, refl, sym, subst, fun_ext, ◌∙◌, Bool, true, ◌&&◌, List, [], ◌∷◌, arith, ◌==◌, All, ℤ,
  ◌+ℤ◌, ◌-ℤ◌, ◌≤ℤ◌, leb_ℤ, int_laws, parts_of_eq, sum_by, ok,
}
use zcash_mining_pool.Sql.{
  update, affected, select, delete, sum_by-select-delete, sum_by-update, All-select, All-delete,
  All-update,
}
use zcash_mining_pool.Ledger.Tables.{Balance, Payout, Db}
use zcash_mining_pool.Ledger.Payouts.{paid_covers, unpay, void_row, void_rows}
use zcash_mining_pool.Ledger.Payouts.Backing.{
  IsBacked, booked, IsBacked-update, IsBacked-covers, IsBacked-keep,
}
use zcash_mining_pool.Ledger.Payouts.Sound.{
  IsSound, IsPositive, IsHoused, IsSolvent, IsBooking, owed, wealth, reserved, recorded,
  recorded_nonneg, for_miner_self, for_miner_ne, IsHoused-update, bookings-update,
}

-- `todo` is still to be given back, and `rest` stays.
pub record IsVoiding (todo rest : List Payout) (db : Db) : Type 0 where
  pub backed : IsBacked (λ b. b.paying) (reserved db.items) db.balances
  pub audited : IsBacked (λ b. b.paid) (λ m. recorded todo m +ℤ recorded rest m) db.balances
  pub positive : All IsPositive db.items
  pub housed : All (IsHoused db.balances) db.items
  pub solvent : All IsSolvent db.balances
  pub bookings : All (IsBooking db.balances) todo
  pub bookings_rest : All (IsBooking db.balances) rest

abbrev pub voided : Payout → Db → Db
voided p db = record db {
  balances = update (paid_covers p.miner_id p.amount) (unpay p.amount) db.balances;
}

module _ (p : Payout) (todo rest : List Payout) (db : Db) (h : IsVoiding (p ∷ todo) rest db) where
  abbrev m : ℕ
  m = p.miner_id

  abbrev guard_ : Balance → Bool
  guard_ = paid_covers m p.amount

  owe_at :
      recorded (p ∷ todo) m +ℤ recorded rest m ≡ p.amount +ℤ (recorded todo m +ℤ recorded rest m)
  unfolding sum_by
  owe_at = rw (for_miner_self m p.amount) (omega int_laws)

  enough : p.amount ≤ℤ recorded (p ∷ todo) m +ℤ recorded rest m
  enough = omega (
    int_laws,
    parts_of_eq owe_at,
    recorded_nonneg m db.balances todo h.bookings.1,
    recorded_nonneg m db.balances rest h.bookings_rest,
  )

  row_covered : affected guard_ db.balances ≢ 0
  row_covered =
      IsBacked-covers (λ b. b.paid) (λ j. recorded (p ∷ todo) j +ℤ recorded rest j) m p.amount
        db.balances h.audited h.bookings.0.1 enough

  pub void_row_ok : void_row p db ≡ ok (voided p db)
  unfolding void_row
  void_row_ok = ground (arith, row_covered)

  lowers :
      (z : ℤ)
      → z ≡ recorded (p ∷ todo) m +ℤ recorded rest m
      → z -ℤ p.amount ≡ recorded todo m +ℤ recorded rest m
  lowers z e = rw (e, owe_at) (omega int_laws)

  others_kept :
      (j : ℕ)
      → j ≢ m
      → recorded todo j +ℤ recorded rest j ≡ recorded (p ∷ todo) j +ℤ recorded rest j
  unfolding sum_by
  others_kept j ne = rw (for_miner_ne j m p.amount ne) (omega int_laws)

  unpay-IsSolvent : (b : Balance) → IsSolvent b → guard_ b ≡ true → IsSolvent (unpay p.amount b)
  unpay-IsSolvent b s e =
      let covered : ((b.miner_id == m) && leb_ℤ p.amount b.paid) ≡ true = e in
      let covers : p.amount ≤ℤ b.paid = ground arith in
      (omega (int_laws, h.bookings.0.0), omega int_laws)

  pub voided-IsVoiding : IsVoiding todo rest (voided p db)
  voided-IsVoiding = record {
    backed =
        IsBacked-keep (λ b. b.paying) _ guard_ (unpay p.amount) (λ b. refl) (λ b. refl) db.balances
          h.backed;
    audited =
        IsBacked-update (λ b. b.paid) m others_kept guard_ (unpay p.amount)
          (λ b e. let e' : ((b.miner_id == m) && leb_ℤ p.amount b.paid) ≡ true = e in ground arith)
          (λ b. refl) (λ b _ e. lowers b.paid e) db.balances row_covered h.audited;
    positive = h.positive;
    housed = IsHoused-update guard_ (unpay p.amount) (λ b. refl) db.balances db.items h.housed;
    solvent = All-update IsSolvent guard_ (unpay p.amount) db.balances unpay-IsSolvent h.solvent;
    bookings = bookings-update guard_ (unpay p.amount) (λ b. refl) db.balances todo h.bookings.1;
    bookings_rest =
        bookings-update guard_ (unpay p.amount) (λ b. refl) db.balances rest h.bookings_rest;
  }

  pub voided-owed : owed (voided p db) ≡ owed db
  unfolding owed
  voided-owed = sum_by-update wealth guard_ (unpay p.amount) db.balances (λ b _. omega int_laws)

-- The loop goes through, and only the balances change.
pub record Voids (todo rest : List Payout) (db db' : Db) : Type 0 where
  pub runs : void_rows todo db ≡ ok db'
  pub voids : IsVoiding [] rest db'
  pub keeps : owed db' ≡ owed db
  pub only : db' ≡ record db { balances = db'.balances }

pub void_rows-Voids :
    (todo rest : List Payout) (db : Db)
    → IsVoiding todo rest db
    → (db' : Db) × Voids todo rest db db'
unfolding void_rows
void_rows-Voids [] rest db h = (db, record { runs = refl; voids = h; keeps = refl; only = refl })
void_rows-Voids (p ∷ todo) rest db h =
    let (db', r) = void_rows-Voids todo rest (voided p db) (voided-IsVoiding p todo rest db h) in
    (
      db',
      record {
        runs = rw (void_row_ok p todo rest db h) r.runs;
        voids = r.voids;
        keeps = r.keeps ∙ voided-owed p todo rest db h;
        only = r.only;
      },
    )

pub start-IsVoiding :
    (p : Payout → Bool) (db : Db)
    → IsSound db
    → IsVoiding (select p db.payouts) (delete p db.payouts) db
start-IsVoiding p db h = record {
  backed = h.backed;
  audited =
      subst (λ owe. IsBacked (λ b. b.paid) owe db.balances)
        (sym (fun_ext (λ m. sum_by-select-delete (booked m) p db.payouts))) h.audited;
  positive = h.positive;
  housed = h.housed;
  solvent = h.solvent;
  bookings = All-select (IsBooking db.balances) p db.payouts h.bookings;
  bookings_rest = All-delete (IsBooking db.balances) p db.payouts h.bookings;
}

nothing_to_do : (rest : List Payout) (m : ℕ) → recorded [] m +ℤ recorded rest m ≡ recorded rest m
unfolding sum_by
nothing_to_do rest m = omega int_laws

-- With all given back, deleting the rows gives a sound database again.
pub finish-IsSound :
    (rest : List Payout) (db : Db) → IsVoiding [] rest db → IsSound (record db { payouts = rest })
finish-IsSound rest db h = record {
  backed = h.backed;
  audited =
      subst (λ owe. IsBacked (λ b. b.paid) owe db.balances) (fun_ext (nothing_to_do rest))
        h.audited;
  positive = h.positive;
  housed = h.housed;
  solvent = h.solvent;
  bookings = h.bookings_rest;
}
