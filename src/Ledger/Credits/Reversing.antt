-- ===== src/Ledger/Credits/Reversing.antt =====
-- What reversing one credit of an orphaned block comes to.
use zcash_mining_pool.Prelude.{
  ℕ, ◌≡◌, ◌≢◌, refl, subst, true, false, List, [], ◌∷◌, ◌++◌, arith, ◌==◌, ==_iff, All, Bool-cases,
  inl, inr, ℤ, pos, ◌+ℤ◌, ◌-ℤ◌, ◌≤ℤ◌, ltb_ℤ, int_laws, parts_of_eq, sum_by, sum_by-append,
}
use zcash_mining_pool.Sql.{update, affected, update-none, sum_by-update_one}
use zcash_mining_pool.Ledger.Tables.{Balance, Credit, Clawback, Db}
use zcash_mining_pool.Ledger.Payouts.{at_miner}
use zcash_mining_pool.Ledger.Payouts.Backing.{IsBacked, has_id, IsBacked-keep}
use zcash_mining_pool.Ledger.Payouts.Sound.{
  IsSound, IsSound-money, IsSolvent, owed, wealth, IsHoused-update, bookings-update,
}
use zcash_mining_pool.Ledger.Credits.{pending_of, debit, recoverable, reverse_credit}
use zcash_mining_pool.Ledger.Credits.Rows.{at_most_one}

pending_of_absent :
    (m : ℕ) (bs : List Balance) → affected (has_id m) bs ≡ 0 → pending_of m bs ≡ pos 0
unfolding pending_of affected
pending_of_absent m [] gone = refl
pending_of_absent m (b ∷ bs) gone = ground (arith, pending_of_absent m bs)

-- A debit that the miner's `pending` covers leaves no balance negative.
debit-IsSolvent :
    (m : ℕ) (v : ℤ) (col : Balance → ℤ) (owe : ℕ → ℤ) (bs : List Balance)
    → IsBacked col owe bs
    → v ≤ℤ pending_of m bs
    → All IsSolvent bs
    → All IsSolvent (update (at_miner m) (debit v) bs)
unfolding pending_of update
debit-IsSolvent m v col owe [] h le s = tt
debit-IsSolvent m v col owe (b ∷ bs) h le s = elim (Bool-cases (b.miner_id == m)) [
  | inl e ↦
      let same : b.miner_id ≡ m = (==_iff b.miner_id m).0 e in
      let gone : affected (has_id m) bs ≡ 0 = subst (λ k. affected (has_id k) bs ≡ 0) same h.1 in
      let le' : v ≤ℤ b.pending = rw e at le in
      rw (e, update-none (at_miner m) (debit v) bs gone) ((omega (int_laws, s.0.0), s.0.1), s.1)
  | inr e ↦
      let le' : v ≤ℤ pending_of m bs = rw e at le in
      rw e (s.0, debit-IsSolvent m v col owe bs h.2 le' s.1)
]

abbrev pub IsPositiveCredit : Credit → Type 0
IsPositiveCredit c = pos 1 ≤ℤ c.amount

abbrev pub credit_total : List Credit → ℤ
credit_total cs = sum_by (λ (c : Credit). c.amount) cs

abbrev pub clawback_total : Db → ℤ
clawback_total db = sum_by (λ (c : Clawback). c.amount) db.clawbacks

-- What has happened between two states of the loop.
pub record Reverses (amount : ℤ) (r c r' c' : ℤ) (db db' : Db) : Type 0 where
  pub sound : IsSound db'
  pub splits : r' +ℤ c' ≡ r +ℤ c +ℤ amount
  pub debits : owed db' +ℤ r' ≡ owed db +ℤ r
  pub claws : clawback_total db' +ℤ c ≡ clawback_total db +ℤ c'
  pub grows : r ≤ℤ r'
  pub only : db' ≡ record db { balances = db'.balances; clawbacks = db'.clawbacks }

-- Where something is recovered, `pending` covers it; it never exceeds a positive amount.
recoverable_pending : (a p : ℤ) → ltb_ℤ (pos 0) (recoverable a p) ≡ true → recoverable a p ≤ℤ p
unfolding recoverable
recoverable_pending a p e = ground arith

recoverable_bounds : (a p : ℤ) → pos 1 ≤ℤ a → (pos 0 ≤ℤ recoverable a p) × (recoverable a p ≤ℤ a)
unfolding recoverable
recoverable_bounds a p h = ground arith

module _ (c : Credit) (db : Db) (h : IsSound db) where
  abbrev m : ℕ
  m = c.miner_id

  abbrev back : ℤ
  back = recoverable c.amount (pending_of m db.balances)

  abbrev debited : Db
  debited = record db { balances = update (at_miner m) (debit back) db.balances }

  has_row : ltb_ℤ (pos 0) back ≡ true → affected (has_id m) db.balances ≢ 0
  has_row e z =
      let covered = recoverable_pending c.amount (pending_of m db.balances) e in
      let nothing = pending_of_absent m db.balances z in ground (arith, covered, nothing, e)

  debited-owed : ltb_ℤ (pos 0) back ≡ true → owed debited +ℤ back ≡ owed db
  unfolding owed
  debited-owed e =
      let moved =
        sum_by-update_one wealth (at_miner m) (debit back) (pos 0 -ℤ back) db.balances
          (λ b. omega int_laws)
          (omega (arith, has_row e, at_most_one (λ b. b.paid) _ m db.balances h.audited)) in
      rw moved (omega int_laws)

  debited-IsSound : ltb_ℤ (pos 0) back ≡ true → IsSound debited
  debited-IsSound e = record {
    backed =
        IsBacked-keep (λ b. b.paying) _ (at_miner m) (debit back) (λ b. refl) (λ b. refl) _
          h.backed;
    audited =
        IsBacked-keep (λ b. b.paid) _ (at_miner m) (debit back) (λ b. refl) (λ b. refl) _ h.audited;
    positive = h.positive;
    housed = IsHoused-update (at_miner m) (debit back) (λ b. refl) _ db.items h.housed;
    solvent =
        debit-IsSolvent m back (λ b. b.paid) _ db.balances h.audited
          (recoverable_pending c.amount (pending_of m db.balances) e) h.solvent;
    bookings = bookings-update (at_miner m) (debit back) (λ b. refl) _ db.payouts h.bookings;
  }

no_shortfall : (a b : ℤ) → ltb_ℤ (pos 0) (a -ℤ b) ≡ false → b ≤ℤ a → b ≡ a
unfolding ◌-ℤ◌
no_shortfall a b s le = ground arith

clawback-snoc :
    (ks : List Clawback) (k : Clawback)
    → sum_by (λ (c : Clawback). c.amount) (ks ++ k ∷ [])
      ≡ sum_by (λ (c : Clawback). c.amount) ks +ℤ k.amount
unfolding sum_by
clawback-snoc ks k = rw (sum_by-append (λ (c : Clawback). c.amount) ks (k ∷ [])) (omega int_laws)

-- One round, from any (reversed, clawback).
pub reverse_credit-Reverses :
    (block : ℕ) (c : Credit) (r k : ℤ) (db : Db)
    → IsSound db
    → IsPositiveCredit c
    → let (r', k', db') = reverse_credit block c (r, k, db) in Reverses c.amount r k r' k' db db'
unfolding reverse_credit owed
reverse_credit-Reverses block c r k db h plus =
    let p = pending_of c.miner_id db.balances in
    let back = recoverable c.amount p in
    let bounds = recoverable_bounds c.amount p plus in
    let row : Clawback = record {
      block_id = block;
      miner_id = c.miner_id;
      amount = c.amount -ℤ back;
      acknowledged = false;
    } in
    elim (Bool-cases (ltb_ℤ (pos 0) back)) [
      | inl e ↦
          let moved = parts_of_eq (debited-owed c db h e) in
          let sound = debited-IsSound c db h e in
          elim (Bool-cases (ltb_ℤ (pos 0) (c.amount -ℤ back))) [
            | inl s ↦
                rw (e, s)
                  (record {
                    sound = IsSound-money (debited c db h) _ refl sound;
                    splits = omega int_laws;
                    debits = omega (int_laws, moved);
                    claws = rw (clawback-snoc db.clawbacks row) (omega int_laws);
                    grows = omega (int_laws, bounds.0);
                    only = refl;
                  })
            | inr s ↦
                let all : back ≡ c.amount = no_shortfall c.amount back s bounds.1 in
                rw (e, s)
                  (record {
                    sound = sound;
                    splits = omega (int_laws, parts_of_eq all);
                    debits = omega (int_laws, moved);
                    claws = refl;
                    grows = omega (int_laws, bounds.0);
                    only = refl;
                  })
          ]
      | inr e ↦
          let nothing : back ≡ pos 0 = ground (arith, e, bounds) in
          elim (Bool-cases (ltb_ℤ (pos 0) (c.amount -ℤ back))) [
            | inl s ↦
                rw (e, s)
                  (record {
                    sound = IsSound-money db _ refl h;
                    splits = omega (int_laws, parts_of_eq nothing);
                    debits = refl;
                    claws = rw (clawback-snoc db.clawbacks row) (omega int_laws);
                    grows = omega arith;
                    only = refl;
                  })
            | inr s ↦
                let all : back ≡ c.amount = no_shortfall c.amount back s bounds.1 in
                rw (e, s)
                  (record {
                    sound = h;
                    splits = omega (int_laws, parts_of_eq nothing, parts_of_eq all);
                    debits = refl;
                    claws = refl;
                    grows = omega arith;
                    only = refl;
                  })
          ]
    ]
