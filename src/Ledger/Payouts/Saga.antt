-- ===== src/Ledger/Payouts/Saga.antt =====
-- The payout saga of crates/pool-db/src/queries.rs as a whole: reservations, confirmations and refunds.
use zcash_mining_pool.Prelude.{
  ℕ, ◌≡◌, refl, ap, sym, subst, ◌∙◌, String, Bool, true, List, [], ◌∷◌, ◌++◌, arith, ◌==◌, length,
  Bool-cases, inl, inr, ℤ, pos, ◌+ℤ◌, leb_ℤ, int_laws, parts_of_eq, Result, ok, >>=-eq-ok,
}
use zcash_mining_pool.Sql.{
  update, affected, select, delete, select-delete, delete-delete, delete-snoc,
}
use zcash_mining_pool.Ledger.Tables.{Balance, PayoutItem, Db, DbError}
use zcash_mining_pool.Ledger.Payouts.{
  hold, release, paying_covers, pending_covers, of_attempt, drop_items, reserve_item, reserve_items,
  reserve_payout, confirm_items, confirm_payout_txn, confirm_payout, refund_item, refund_items,
  refund_payout_txn, refund_payout,
}
use zcash_mining_pool.Ledger.Payouts.Backing.{IsBacked}
use zcash_mining_pool.Ledger.Payouts.Sound.{IsSound, owed, reserved}
use zcash_mining_pool.Ledger.Payouts.Reserve.{item_for, reserve_payout-IsSound}
use zcash_mining_pool.Ledger.Payouts.Confirm.{issue, confirm_payout-IsSettlement}
use zcash_mining_pool.Ledger.Payouts.Refund.{refunded, IsReturn, refund_payout-IsReturn}

-- On a sound database a confirmation that commits never fails: it settles every item of the
-- attempt, writes one payout row for each, deletes exactly those items, keeps the tables sound and
-- the sum of all balances as it was.
pub confirm_settles :
    (k : ℕ) (txid : String) (now : ℕ) (db : Db)
    → IsSound db
    → let (r, db') = confirm_payout true k txid now db in
      (r ≡ ok (length (select (of_attempt k) db.items)))
      × IsSound db'
      × (owed db' ≡ owed db)
      × (db'.items ≡ delete (of_attempt k) db.items)
      × (db'.payouts ≡ db.payouts ++ issue txid now db.next_payout (select (of_attempt k) db.items))
confirm_settles k txid now db h =
    let (db', c) = confirm_payout-IsSettlement txid now k db h in
    rw c.runs
      (refl, c.sound, c.keeps, ap (λ (d : Db). d.items) c.only, ap (λ (d : Db). d.payouts) c.only)

-- On a sound database a refund that commits never fails: it releases every item of the attempt,
-- deletes exactly those items, and keeps the tables sound, the payout rows and the sum of all
-- balances.
pub refund_releases :
    (k : ℕ) (db : Db)
    → IsSound db
    → let (r, db') = refund_payout true k db in
      (r ≡ ok (length (select (of_attempt k) db.items)))
      × IsSound db'
      × (owed db' ≡ owed db)
      × (db'.items ≡ delete (of_attempt k) db.items)
      × (db'.payouts ≡ db.payouts)
refund_releases k db h =
    let (db', c) = refund_payout-IsReturn k db h in
    rw c.runs
      (refl, c.sound, c.keeps, ap (λ (d : Db). d.items) c.only, ap (λ (d : Db). d.payouts) c.only)

-- With no item left of the attempt, both settle nothing and change nothing.
module _ (k : ℕ) (db : Db) (none_left : select (of_attempt k) db.items ≡ [])
    (all_kept : delete (of_attempt k) db.items ≡ db.items) where
  confirm_nothing : (txid : String) (now : ℕ) → confirm_payout true k txid now db ≡ (ok 0, db)
  unfolding confirm_payout confirm_payout_txn confirm_items drop_items
  confirm_nothing txid now = ground (arith, none_left, all_kept)

  refund_nothing : refund_payout true k db ≡ (ok 0, db)
  unfolding refund_payout refund_payout_txn refund_items drop_items
  refund_nothing = ground (arith, none_left, all_kept)

-- After a confirmation of a sound database, confirming or refunding the same attempt again finds
-- nothing to do and changes nothing: no reservation is paid twice, and none both paid and refunded.
pub confirm_once :
    (k : ℕ) (txid txid' : String) (now now' : ℕ) (db : Db)
    → IsSound db
    → let db' = (confirm_payout true k txid now db).1 in
      (confirm_payout true k txid' now' db' ≡ (ok 0, db'))
      × (refund_payout true k db' ≡ (ok 0, db'))
confirm_once k txid txid' now now' db h =
    let (db', c) = confirm_payout-IsSettlement txid now k db h in
    let items : db'.items ≡ delete (of_attempt k) db.items = ap (λ (d : Db). d.items) c.only in
    let none_left : select (of_attempt k) db'.items ≡ [] =
      ap (select (of_attempt k)) items ∙ select-delete (of_attempt k) db.items in
    let all_kept : delete (of_attempt k) db'.items ≡ db'.items =
      ap (delete (of_attempt k)) items ∙ delete-delete (of_attempt k) db.items ∙ sym items in
    rw c.runs
      (confirm_nothing k db' none_left all_kept txid' now', refund_nothing k db' none_left all_kept)

-- Row by row the same miner, the same `paid`, and the same sum of `pending` and `paying`.
abbrev SameFunds : List Balance → List Balance → Type 0
SameFunds [] [] = Unit
SameFunds (b ∷ bs) (c ∷ cs) =
    (b.miner_id ≡ c.miner_id)
    × (b.pending +ℤ b.paying ≡ c.pending +ℤ c.paying)
    × (b.paid ≡ c.paid)
    × SameFunds bs cs
SameFunds _ _ = ⊥

SameFunds-refl : (bs : List Balance) → SameFunds bs bs
SameFunds-refl [] = tt
SameFunds-refl (b ∷ bs) = (refl, refl, refl, SameFunds-refl bs)

SameFunds-trans : (bs cs ds : List Balance) → SameFunds bs cs → SameFunds cs ds → SameFunds bs ds
SameFunds-trans [] [] [] h k = tt
SameFunds-trans [] [] (d ∷ ds) h k = absurd k
SameFunds-trans [] (c ∷ cs) ds h k = absurd h
SameFunds-trans (b ∷ bs) [] ds h k = absurd h
SameFunds-trans (b ∷ bs) (c ∷ cs) [] h k = absurd k
SameFunds-trans (b ∷ bs) (c ∷ cs) (d ∷ ds) h k =
    (h.0 ∙ k.0, h.1 ∙ k.1, h.2 ∙ k.2, SameFunds-trans bs cs ds h.3 k.3)

SameFunds-update :
    (p : Balance → Bool) (f : Balance → Balance)
    → ((b : Balance) → (f b).miner_id ≡ b.miner_id)
    → ((b : Balance) → (f b).pending +ℤ (f b).paying ≡ b.pending +ℤ b.paying)
    → ((b : Balance) → (f b).paid ≡ b.paid)
    → (bs : List Balance) → SameFunds (update p f bs) bs
unfolding update
SameFunds-update p f i s q [] = tt
SameFunds-update p f i s q (b ∷ bs) = elim (Bool-cases (p b)) [
  | inl e ↦ rw e (i b, s b, q b, SameFunds-update p f i s q bs)
  | inr e ↦ rw e (refl, refl, refl, SameFunds-update p f i s q bs)
]

-- Where `paying` is backed by the same reservations, the same funds are the same rows.
SameFunds-eq :
    (owe : ℕ → ℤ) (bs cs : List Balance)
    → SameFunds bs cs
    → IsBacked (λ b. b.paying) owe bs
    → IsBacked (λ b. b.paying) owe cs
    → bs ≡ cs
SameFunds-eq owe [] [] h u v = refl
SameFunds-eq owe [] (c ∷ cs) h u v = absurd h
SameFunds-eq owe (b ∷ bs) [] h u v = absurd h
SameFunds-eq owe (b ∷ bs) (c ∷ cs) h u v =
    let paying : b.paying ≡ c.paying = u.0 ∙ ap owe h.0 ∙ sym v.0 in
    let pending : b.pending ≡ c.pending = omega (int_laws, parts_of_eq h.1, parts_of_eq paying) in
    let rows : bs ≡ cs = SameFunds-eq owe bs cs h.3 u.2 v.2 in
    λ j. record { miner_id = h.0 j; pending = pending j; paying = paying j; paid = h.2 j } ∷ rows j

hold-SameFunds :
    (k : ℕ) (x : ℕ × ℤ) (db : Db) → SameFunds (reserve_item k x db).1.balances db.balances
unfolding reserve_item
hold-SameFunds k (m, a) db = elim (Bool-cases (leb_ℤ a (pos 0))) [
  | inl e ↦ rw e (SameFunds-refl db.balances)
  | inr e ↦ elim (Bool-cases (affected (pending_covers m a) db.balances == 0)) [
    | inl z ↦ rw (e, z) (SameFunds-refl db.balances)
    | inr z ↦
        rw (e, z)
          (SameFunds-update (pending_covers m a) (hold a) (λ b. refl) (λ b. omega int_laws)
            (λ b. refl) db.balances)
  ]
]

reserve_items-SameFunds :
    (k : ℕ) (xs : List (ℕ × ℤ)) (db : Db) → SameFunds (reserve_items k xs db).1.balances db.balances
unfolding reserve_items
reserve_items-SameFunds k [] db = SameFunds-refl db.balances
reserve_items-SameFunds k (x ∷ xs) db =
    SameFunds-trans (reserve_items k xs (reserve_item k x db).1).1.balances
      (reserve_item k x db).1.balances db.balances
      (reserve_items-SameFunds k xs (reserve_item k x db).1) (hold-SameFunds k x db)

-- Only balances and items change in a reservation, and deleting its items gives the old ones.
reserve_item-only :
    (k : ℕ) (x : ℕ × ℤ) (db : Db)
    → let db' = (reserve_item k x db).1 in
      (db' ≡ record db { balances = db'.balances; items = db'.items })
      × (delete (of_attempt k) db'.items ≡ delete (of_attempt k) db.items)
unfolding reserve_item
reserve_item-only k (m, a) db = elim (Bool-cases (leb_ℤ a (pos 0))) [
  | inl e ↦ rw e (refl, refl)
  | inr e ↦ elim (Bool-cases (affected (pending_covers m a) db.balances == 0)) [
    | inl z ↦ rw (e, z) (refl, refl)
    | inr z ↦ rw (e, z) (refl, delete-snoc (of_attempt k) db.items (item_for k m a) (ground arith))
  ]
]

pub reserve_items-only :
    (k : ℕ) (xs : List (ℕ × ℤ)) (db : Db)
    → let db' = (reserve_items k xs db).1 in
      (db' ≡ record db { balances = db'.balances; items = db'.items })
      × (delete (of_attempt k) db'.items ≡ delete (of_attempt k) db.items)
unfolding reserve_items
reserve_items-only k [] db = (refl, refl)
reserve_items-only k (x ∷ xs) db =
    let one = reserve_item-only k x db in
    let rest = reserve_items-only k xs (reserve_item k x db).1 in
    let last = (reserve_items k xs (reserve_item k x db).1).1 in
    (
      rest.0 ∙ ap (λ (d : Db). record d { balances = last.balances; items = last.items }) one.0,
      rest.1 ∙ one.1,
    )

refund_item-SameFunds :
    (i : PayoutItem) (db db' : Db) → refund_item i db ≡ ok db' → SameFunds db'.balances db.balances
unfolding refund_item
refund_item-SameFunds i db db' e =
    elim (Bool-cases (affected (paying_covers i.miner_id i.amount) db.balances == 0)) [
      | inl z ↦ cc z
      | inr z ↦
          let same : refunded i db ≡ db' = ground (arith, z) in
          subst (λ (d : Db). SameFunds d.balances db.balances) same
            (SameFunds-update (paying_covers i.miner_id i.amount) (release i.amount) (λ b. refl)
              (λ b. omega int_laws) (λ b. refl) db.balances)
    ]

refund_items-SameFunds :
    (is : List PayoutItem) (db db' : Db)
    → refund_items is db ≡ ok db'
    → SameFunds db'.balances db.balances
unfolding refund_items
refund_items-SameFunds [] db db' e =
    let same : db ≡ db' = cc in
    subst (λ (d : Db). SameFunds d.balances db.balances) same (SameFunds-refl db.balances)
refund_items-SameFunds (i ∷ is) db db' e =
    let (mid, first, rest) = >>=-eq-ok (refund_item i db) (refund_items is) e in
    SameFunds-trans db'.balances mid.balances db.balances (refund_items-SameFunds is mid db' rest)
      (refund_item-SameFunds i db mid first)

refund_payout-SameFunds :
    (k : ℕ) (db db' : Db) → IsReturn k db db' → SameFunds db'.balances db.balances
refund_payout-SameFunds k db db' c =
    let (d, runs, same) = c.loop in
    subst (λ bs. SameFunds bs db.balances) same
      (refund_items-SameFunds (select (of_attempt k) db.items) db d runs)

-- Reserving any pairs under an attempt that holds no item yet, and then refunding the attempt,
-- gives back the sound database that there was.
pub refund-reserve :
    (k : ℕ) (xs : List (ℕ × ℤ)) (db : Db)
    → IsSound db
    → delete (of_attempt k) db.items ≡ db.items
    → (refund_payout true k (reserve_payout true k xs db).1).1 ≡ db
unfolding reserve_payout
refund-reserve k xs db h fresh =
    let mid : Db = (reserve_items k xs db).1 in
    let (db', c) = refund_payout-IsReturn k mid (reserve_payout-IsSound true k xs db h) in
    let was = reserve_items-only k xs db in
    let items : delete (of_attempt k) mid.items ≡ db.items = was.1 ∙ fresh in
    let rows : db'.balances ≡ db.balances =
      SameFunds-eq (reserved db.items) db'.balances db.balances
        (SameFunds-trans db'.balances mid.balances db.balances (refund_payout-SameFunds k mid db' c)
          (reserve_items-SameFunds k xs db))
        (subst (λ is. IsBacked (λ b. b.paying) (reserved is) db'.balances)
          (ap (λ (d : Db). d.items) c.only ∙ items) c.sound.backed)
        h.backed in
    ap (λ (r : Result DbError ℕ × Db). r.1) c.runs
    ∙ c.only
    ∙ ap (λ (d : Db). record d { balances = db'.balances; items = delete (of_attempt k) mid.items })
        was.0
    ∙ (λ j. record db { balances = rows j; items = items j })
