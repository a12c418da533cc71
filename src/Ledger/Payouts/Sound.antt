-- ===== src/Ledger/Payouts/Sound.antt =====
-- When the payout tables of a database agree with one another, and what each move of one row keeps.
use zcash_mining_pool.Prelude.{
  ℕ, ◌≡◌, ◌≢◌, sym, ap, subst, Bool, List, [], ◌∷◌, ◌++◌, arith, ◌==◌, All, Bool-cases, inl, inr, ℤ,
  pos, ◌+ℤ◌, ◌≤ℤ◌, int_laws, sum_by, sum_by-append,
}
use zcash_mining_pool.Sql.{update, affected, affected-update}
use zcash_mining_pool.Ledger.Tables.{Balance, PayoutItem, Payout, Db}
use zcash_mining_pool.Ledger.Payouts.Backing.{IsBacked, has_id, due, booked, for_miner}

-- What the pool owes or has paid, over all miners.
abbrev pub wealth : Balance → ℤ
wealth b = b.pending +ℤ b.paying +ℤ b.paid

unfoldable pub owed : Db → ℤ
owed db = sum_by wealth db.balances

abbrev pub IsSolvent : Balance → Type 0
IsSolvent b = (pos 0 ≤ℤ b.pending) × (pos 0 ≤ℤ b.paid)

abbrev pub IsPositive : PayoutItem → Type 0
IsPositive i = pos 1 ≤ℤ i.amount

-- The item's miner has a row.
abbrev pub IsHoused : List Balance → PayoutItem → Type 0
IsHoused bs i = affected (has_id i.miner_id) bs ≢ 0

abbrev pub IsBooking : List Balance → Payout → Type 0
IsBooking bs p = (pos 1 ≤ℤ p.amount) × (affected (has_id p.miner_id) bs ≢ 0)

abbrev pub reserved : List PayoutItem → ℕ → ℤ
reserved is m = sum_by (due m) is

abbrev pub recorded : List Payout → ℕ → ℤ
recorded ps m = sum_by (booked m) ps

-- Every miner has one row; no `pending` or `paid` is negative; `paying` is the sum of the miner's
-- open reservations, all positive, and `paid` the sum of the miner's payout rows, all positive.
pub record IsSound (db : Db) : Type 0 where
  pub backed : IsBacked (λ b. b.paying) (reserved db.items) db.balances
  pub audited : IsBacked (λ b. b.paid) (recorded db.payouts) db.balances
  pub positive : All IsPositive db.items
  pub housed : All (IsHoused db.balances) db.items
  pub solvent : All IsSolvent db.balances
  pub bookings : All (IsBooking db.balances) db.payouts

pub reserved_nonneg : (m : ℕ) (is : List PayoutItem) → All IsPositive is → pos 0 ≤ℤ reserved is m
unfolding sum_by
reserved_nonneg m [] h = omega arith
reserved_nonneg m (i ∷ is) h = elim (Bool-cases (i.miner_id == m)) [
  | inl e ↦ rw e (omega (int_laws, reserved_nonneg m is h.1, h.0))
  | inr e ↦ rw e (omega (int_laws, reserved_nonneg m is h.1))
]

pub recorded_nonneg :
    (m : ℕ) (bs : List Balance) (ps : List Payout) → All (IsBooking bs) ps → pos 0 ≤ℤ recorded ps m
unfolding sum_by
recorded_nonneg m bs [] h = omega arith
recorded_nonneg m bs (p ∷ ps) h = elim (Bool-cases (p.miner_id == m)) [
  | inl e ↦ rw e (omega (int_laws, recorded_nonneg m bs ps h.1, h.0.0))
  | inr e ↦ rw e (omega (int_laws, recorded_nonneg m bs ps h.1))
]

-- Updates that keep the ids keep the rows that items and payouts point to.
module _ (p : Balance → Bool) (f : Balance → Balance)
    (keeps : (b : Balance) → (f b).miner_id ≡ b.miner_id) (bs : List Balance) where
  pub ids-update : (m : ℕ) → affected (has_id m) (update p f bs) ≡ affected (has_id m) bs
  ids-update m = affected-update (has_id m) p f bs (λ x. ap (λ k. k == m) (keeps x))

  pub IsHoused-update :
      (is : List PayoutItem) → All (IsHoused bs) is → All (IsHoused (update p f bs)) is
  IsHoused-update [] h = h
  IsHoused-update (i ∷ is) h = (rw (ids-update i.miner_id) h.0, IsHoused-update is h.1)

  pub bookings-update :
      (ps : List Payout) → All (IsBooking bs) ps → All (IsBooking (update p f bs)) ps
  bookings-update [] h = h
  bookings-update (q ∷ ps) h = ((h.0.0, rw (ids-update q.miner_id) h.0.1), bookings-update ps h.1)

pub All-append {ℓ κ} :
    {A : Type ℓ} (P : A → Type κ) (xs ys : List A) → All P xs → All P ys → All P (xs ++ ys)
All-append P [] ys h k = k
All-append P (x ∷ xs) ys h k = (h.0, All-append P xs ys h.1 k)

-- An amount more for one miner, at the end of the table.
pub reserved-snoc :
    (is : List PayoutItem) (i : PayoutItem) (m : ℕ)
    → reserved (is ++ i ∷ []) m ≡ reserved is m +ℤ due m i
unfolding sum_by
reserved-snoc is i m = rw (sum_by-append (due m) is (i ∷ [])) (omega int_laws)

pub recorded-snoc :
    (ps : List Payout) (p : Payout) (m : ℕ)
    → recorded (ps ++ p ∷ []) m ≡ recorded ps m +ℤ booked m p
unfolding sum_by
recorded-snoc ps p m = rw (sum_by-append (booked m) ps (p ∷ [])) (omega int_laws)

pub for_miner_self : (m : ℕ) (a : ℤ) → for_miner m m a ≡ a
for_miner_self m a = ground arith

pub for_miner_ne : (j m : ℕ) (a : ℤ) → j ≢ m → for_miner j m a ≡ pos 0
for_miner_ne j m a h = ground arith

-- Only the balances, the items and the payouts decide soundness.
pub IsSound-money :
    (db db' : Db)
    → db' ≡ record db' { balances = db.balances; items = db.items; payouts = db.payouts }
    → IsSound db
    → IsSound db'
IsSound-money db db' e h = subst IsSound (sym e) (record {
  backed = h.backed;
  audited = h.audited;
  positive = h.positive;
  housed = h.housed;
  solvent = h.solvent;
  bookings = h.bookings;
})
