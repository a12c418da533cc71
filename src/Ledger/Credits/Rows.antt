-- ===== src/Ledger/Credits/Rows.antt =====
-- The balance row of a miner that is credited.
use zcash_mining_pool.Prelude.{
  ℕ, ◌≤◌, ◌≡◌, ◌≢◌, refl, sym, List, [], ◌∷◌, ◌++◌, arith, ◌==◌, ==_iff, All, Bool-cases, inl, inr,
  ℤ, pos, int_laws, sum_by, sum_by-append,
}
use zcash_mining_pool.Sql.{affected, affected-append}
use zcash_mining_pool.Ledger.Tables.{Balance, PayoutItem, Payout, Db}
use zcash_mining_pool.Ledger.Payouts.{at_miner}
use zcash_mining_pool.Ledger.Payouts.Backing.{IsBacked, has_id, for_miner_absent}
use zcash_mining_pool.Ledger.Payouts.Sound.{
  IsSound, IsHoused, IsBooking, IsSolvent, wealth, reserved, recorded, All-append,
}
use zcash_mining_pool.Ledger.Credits.{ensure_row}

abbrev new_row : ℕ → Balance
new_row m = record { miner_id = m; pending = pos 0; paying = pos 0; paid = pos 0 }

-- Nothing is reserved for, or booked to, a miner without a row.
reserved_absent :
    (m : ℕ) (bs : List Balance) (is : List PayoutItem)
    → affected (has_id m) bs ≡ 0
    → All (IsHoused bs) is
    → reserved is m ≡ pos 0
unfolding sum_by
reserved_absent m bs [] gone h = refl
reserved_absent m bs (i ∷ is) gone h =
    rw (reserved_absent m bs is gone h.1, for_miner_absent m i.miner_id i.amount bs gone h.0)
      (omega int_laws)

recorded_absent :
    (m : ℕ) (bs : List Balance) (ps : List Payout)
    → affected (has_id m) bs ≡ 0
    → All (IsBooking bs) ps
    → recorded ps m ≡ pos 0
unfolding sum_by
recorded_absent m bs [] gone h = refl
recorded_absent m bs (p ∷ ps) gone h =
    rw (recorded_absent m bs ps gone h.1, for_miner_absent m p.miner_id p.amount bs gone h.0.1)
      (omega int_laws)

IsBacked-snoc :
    (col : Balance → ℤ) (owe : ℕ → ℤ) (row : Balance) (bs : List Balance)
    → affected (has_id row.miner_id) bs ≡ 0
    → col row ≡ owe row.miner_id
    → IsBacked col owe bs
    → IsBacked col owe (bs ++ row ∷ [])
unfolding affected
IsBacked-snoc col owe row [] gone e h = (e, refl, tt)
IsBacked-snoc col owe row (b ∷ bs) gone e h = (
  h.0,
  rw (affected-append (has_id b.miner_id) bs (row ∷ [])) (ground (arith, h.1)),
  IsBacked-snoc col owe row bs (ground arith) e h.2,
)

IsHoused-append :
    (bs cs : List Balance) (is : List PayoutItem)
    → All (IsHoused bs) is
    → All (IsHoused (bs ++ cs)) is
IsHoused-append bs cs [] h = tt
IsHoused-append bs cs (i ∷ is) h =
    (omega (arith, h.0, affected-append (has_id i.miner_id) bs cs), IsHoused-append bs cs is h.1)

bookings-append :
    (bs cs : List Balance) (ps : List Payout)
    → All (IsBooking bs) ps
    → All (IsBooking (bs ++ cs)) ps
bookings-append bs cs [] h = tt
bookings-append bs cs (p ∷ ps) h = (
  (h.0.0, omega (arith, h.0.1, affected-append (has_id p.miner_id) bs cs)),
  bookings-append bs cs ps h.1,
)

-- A row for a miner that has none changes no sum and keeps the tables sound.
pub ensure_row-IsSound :
    (m : ℕ) (db : Db) → IsSound db → IsSound (record db { balances = ensure_row m db.balances })
unfolding ensure_row
ensure_row-IsSound m db h = elim (Bool-cases (affected (at_miner m) db.balances == 0)) [
  | inr e ↦ rw e h
  | inl e ↦
      let gone : affected (has_id m) db.balances ≡ 0 = (==_iff _ _).0 e in
      rw e (record {
        backed =
            IsBacked-snoc (λ b. b.paying) (reserved db.items) (new_row m) db.balances gone
              (sym (reserved_absent m db.balances db.items gone h.housed)) h.backed;
        audited =
            IsBacked-snoc (λ b. b.paid) (recorded db.payouts) (new_row m) db.balances gone
              (sym (recorded_absent m db.balances db.payouts gone h.bookings)) h.audited;
        positive = h.positive;
        housed = IsHoused-append db.balances (new_row m ∷ []) db.items h.housed;
        solvent =
            All-append IsSolvent db.balances (new_row m ∷ []) h.solvent
              ((omega arith, omega arith), tt);
        bookings = bookings-append db.balances (new_row m ∷ []) db.payouts h.bookings;
      })
]

pub ensure_row-wealth :
    (m : ℕ) (bs : List Balance) → sum_by wealth (ensure_row m bs) ≡ sum_by wealth bs
unfolding ensure_row sum_by
ensure_row-wealth m bs = elim (Bool-cases (affected (at_miner m) bs == 0)) [
  | inr e ↦ rw e refl
  | inl e ↦ rw (e, sum_by-append wealth bs (new_row m ∷ [])) (omega int_laws)
]

pub ensure_row_has : (m : ℕ) (bs : List Balance) → affected (has_id m) (ensure_row m bs) ≢ 0
unfolding ensure_row affected
ensure_row_has m bs = elim (Bool-cases (affected (at_miner m) bs == 0)) [
  | inr e ↦ rw e (ground arith)
  | inl e ↦ rw (e, affected-append (has_id m) bs (new_row m ∷ [])) (ground arith)
]

-- The ids are unique, so a miner has at most one row.
pub at_most_one :
    (col : Balance → ℤ) (owe : ℕ → ℤ) (m : ℕ) (bs : List Balance)
    → IsBacked col owe bs
    → affected (has_id m) bs ≤ 1
unfolding affected
at_most_one col owe m [] h = omega arith
at_most_one col owe m (b ∷ bs) h = elim (Bool-cases (b.miner_id == m)) [
  | inl e ↦
      let same : b.miner_id ≡ m = (==_iff b.miner_id m).0 e in
      let gone : affected (has_id m) bs ≡ 0 = rw (← same) h.1 in rw e (omega arith)
  | inr e ↦ rw e (omega (arith, at_most_one col owe m bs h.2))
]
