-- ===== src/Ledger/Payouts/Reserve.antt =====
-- Reservations of crates/pool-db/src/queries.rs, `reserve_payout`.
use zcash_mining_pool.Prelude.{
  ℕ, ◌≡◌, ◌≢◌, refl, ◌∙◌, Bool, true, false, List, [], ◌∷◌, ◌++◌, arith, ◌==◌, ==_iff, Bool-cases,
  inl, inr, ℤ, pos, ◌+ℤ◌, leb_ℤ, int_laws,
}
use zcash_mining_pool.Sql.{update, affected, affected-le, sum_by-update, All-update}
use zcash_mining_pool.Ledger.Tables.{Balance, PayoutItem, Db}
use zcash_mining_pool.Ledger.Payouts.{
  pending_covers, hold, reserve_item, reserve_items, reserve_payout,
}
use zcash_mining_pool.Ledger.Payouts.Backing.{has_id, IsBacked-update, IsBacked-keep}
use zcash_mining_pool.Ledger.Payouts.Sound.{
  IsSound, IsPositive, IsHoused, IsSolvent, owed, wealth, reserved, reserved-snoc, for_miner_self,
  for_miner_ne, IsHoused-update, bookings-update, ids-update, All-append,
}

abbrev pub item_for : ℕ → ℕ → ℤ → PayoutItem
item_for k m a = record { attempt_id = k; miner_id = m; amount = a }

-- The state after one pair is reserved.
abbrev pub held : ℕ → ℕ → ℤ → Db → Db
held k m a db = record db {
  balances = update (pending_covers m a) (hold a) db.balances;
  items = db.items ++ item_for k m a ∷ [];
}

only_at : (m : ℕ) (a : ℤ) (b : Balance) → pending_covers m a b ≡ true → b.miner_id ≡ m
only_at m a b e = ground arith

module _ (k m : ℕ) (a : ℤ) (db : Db) (h : IsSound db) (more : leb_ℤ a (pos 0) ≡ false)
    (hit : affected (pending_covers m a) db.balances ≢ 0) where
  hold_backs :
      (b : Balance)
      → b.paying ≡ reserved db.items m
      → b.paying +ℤ a ≡ reserved (db.items ++ item_for k m a ∷ []) m
  hold_backs b e = rw (reserved-snoc db.items (item_for k m a) m, for_miner_self m a, e) refl

  others_kept : (j : ℕ) → j ≢ m → reserved (db.items ++ item_for k m a ∷ []) j ≡ reserved db.items j
  others_kept j ne =
      rw (reserved-snoc db.items (item_for k m a) j, for_miner_ne j m a ne) (omega int_laws)

  hold-IsSolvent : (b : Balance) → IsSolvent b → pending_covers m a b ≡ true → IsSolvent (hold a b)
  hold-IsSolvent b s e = grind (int_laws)

  has_row : affected (has_id m) db.balances ≢ 0
  has_row = omega (
    arith,
    affected-le (pending_covers m a) (has_id m) db.balances
        (λ b e. (==_iff b.miner_id m).1 (only_at m a b e)),
  )

  held-IsSound : IsSound (held k m a db)
  held-IsSound = record {
    backed =
        IsBacked-update (λ b. b.paying) m others_kept (pending_covers m a) (hold a) (only_at m a)
          (λ b. refl) (λ b _ e. hold_backs b e) db.balances hit h.backed;
    audited =
        IsBacked-keep (λ b. b.paid) _ (pending_covers m a) (hold a) (λ b. refl) (λ b. refl)
          db.balances h.audited;
    positive = All-append IsPositive db.items (item_for k m a ∷ []) h.positive (ground arith, tt);
    housed =
        All-append (IsHoused (update (pending_covers m a) (hold a) db.balances)) db.items
          (item_for k m a ∷ [])
          (IsHoused-update (pending_covers m a) (hold a) (λ b. refl) db.balances db.items h.housed)
          (rw (ids-update (pending_covers m a) (hold a) (λ b. refl) db.balances m) has_row, tt);
    solvent =
        All-update IsSolvent (pending_covers m a) (hold a) db.balances hold-IsSolvent h.solvent;
    bookings =
        bookings-update (pending_covers m a) (hold a) (λ b. refl) db.balances db.payouts h.bookings;
  }

reserve_item-IsSound : (k : ℕ) (x : ℕ × ℤ) (db : Db) → IsSound db → IsSound (reserve_item k x db).1
unfolding reserve_item
reserve_item-IsSound k (m, a) db h = elim (Bool-cases (leb_ℤ a (pos 0))) [
  | inl e ↦ rw e h
  | inr e ↦ elim (Bool-cases (affected (pending_covers m a) db.balances == 0)) [
    | inl z ↦ rw (e, z) h
    | inr z ↦ rw (e, z) (held-IsSound k m a db h e (ground arith))
  ]
]

reserve_items-IsSound :
    (k : ℕ) (xs : List (ℕ × ℤ)) (db : Db) → IsSound db → IsSound (reserve_items k xs db).1
unfolding reserve_items
reserve_items-IsSound k [] db h = h
reserve_items-IsSound k (x ∷ xs) db h =
    reserve_items-IsSound k xs (reserve_item k x db).1 (reserve_item-IsSound k x db h)

-- Reserving keeps the payout tables sound, whether it commits or rolls back.
pub reserve_payout-IsSound :
    (commits : Bool) (k : ℕ) (xs : List (ℕ × ℤ)) (db : Db)
    → IsSound db
    → IsSound (reserve_payout commits k xs db).1
unfolding reserve_payout
reserve_payout-IsSound true k xs db h = reserve_items-IsSound k xs db h
reserve_payout-IsSound false k xs db h = h

hold-wealth : (a : ℤ) (b : Balance) → wealth (hold a b) ≡ wealth b
hold-wealth a b = omega int_laws

reserve_item-owed : (k : ℕ) (x : ℕ × ℤ) (db : Db) → owed (reserve_item k x db).1 ≡ owed db
unfolding reserve_item owed
reserve_item-owed k (m, a) db =
    ground (
      arith,
      sum_by-update wealth (pending_covers m a) (hold a) db.balances (λ b _. hold-wealth a b),
    )

pub reserve_items-owed :
    (k : ℕ) (xs : List (ℕ × ℤ)) (db : Db) → owed (reserve_items k xs db).1 ≡ owed db
unfolding reserve_items
reserve_items-owed k [] db = refl
reserve_items-owed k (x ∷ xs) db =
    reserve_items-owed k xs (reserve_item k x db).1 ∙ reserve_item-owed k x db
