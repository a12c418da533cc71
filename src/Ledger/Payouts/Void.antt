-- ===== src/Ledger/Payouts/Void.antt =====
-- `void_reorged_payout` of crates/pool-db/src/queries.rs as a whole.
use zcash_mining_pool.Prelude.{
  ℕ, ◌≡◌, refl, sym, ap, subst, String, Bool, true, false, List, [], ◌∷◌, arith, ◌==◌, leb, length,
  Bool-cases, ◌⊎◌, inl, inr, pos, sum_by, ok,
}
use zcash_mining_pool.Sql.{affected, select, delete, update}
use zcash_mining_pool.Ledger.Tables.{Payout, Db}
use zcash_mining_pool.Ledger.Transactions.{committed, rolled_back}
use zcash_mining_pool.Ledger.Payouts.{
  is_fresh, of_txid, fail_attempt, void_reorged_payout_txn, void_reorged_payout,
}
use zcash_mining_pool.Ledger.Payouts.Sound.{IsSound, IsSound-money, owed}
use zcash_mining_pool.Ledger.Payouts.Voiding.{start-IsVoiding, void_rows-Voids, finish-IsSound}

delete-none {ℓ} : {A : Type ℓ} (p : A → Bool) (xs : List A) → select p xs ≡ [] → delete p xs ≡ xs
unfolding select delete
delete-none p [] h = refl
delete-none p (x ∷ xs) h = elim (Bool-cases (p x)) [
  | inl e ↦ let h' : x ∷ select p xs ≡ [] = rw e at h in cc
  | inr e ↦ rw e (ap (◌∷◌ x) (delete-none p xs (rw e at h)))
]

module _ (txid : String) (now : ℕ) where
  -- What a void of a sound database comes to.
  pub record HasReturned (db db' : Db) : Type 0 where
    pub runs :
        void_reorged_payout_txn txid now db
        ≡ ok (
          (
            length (select (of_txid txid) db.payouts),
            sum_by (λ (p : Payout). p.amount) (select (of_txid txid) db.payouts),
          ),
          db',
        )
    pub sound : IsSound db'
    pub keeps : owed db' ≡ owed db
    pub payouts : db'.payouts ≡ delete (of_txid txid) db.payouts
    pub items : db'.items ≡ db.items
    pub only :
        db' ≡ record db { balances = db'.balances; payouts = db'.payouts; attempts = db'.attempts }
    pub fails :
        (db'.attempts ≡ db.attempts)
        ⊎ (db'.attempts ≡ update (λ a. true) (fail_attempt txid) db.attempts)

  module _ (db : Db) (h : IsSound db) (old : affected (is_fresh txid now) db.payouts ≡ 0) where
    void_some :
        (p : Payout) (ps : List Payout)
        → select (of_txid txid) db.payouts ≡ p ∷ ps
        → (db' : Db) × HasReturned db db'
    unfolding void_reorged_payout_txn owed
    void_some p ps e =
        let (d, v) =
          void_rows-Voids (select (of_txid txid) db.payouts) (delete (of_txid txid) db.payouts) db
            (start-IsVoiding (of_txid txid) db h) in
        let rows : d.payouts ≡ db.payouts = ap (λ (x : Db). x.payouts) v.only in
        let left : delete (of_txid txid) d.payouts ≡ delete (of_txid txid) db.payouts =
          ap (delete (of_txid txid)) rows in
        let many : (length (select (of_txid txid) db.payouts) == 0) ≡ false = rw e (ground arith) in
        let d' : Db = record d {
          payouts = delete (of_txid txid) d.payouts;
          attempts = update (λ a. true) (fail_attempt txid) d.attempts;
        } in
        (
          d',
          record {
            runs = rw (old, many, v.runs) refl;
            sound =
                IsSound-money (record d { payouts = delete (of_txid txid) d.payouts }) d' refl
                  (subst (λ ps. IsSound (record d { payouts = ps })) (sym left)
                    (finish-IsSound (delete (of_txid txid) db.payouts) d v.voids));
            keeps = v.keeps;
            payouts = left;
            fails = inr (ap (λ (x : Db). update (λ a. true) (fail_attempt txid) x.attempts) v.only);
            items = ap (λ (x : Db). x.items) v.only;
            only =
                ap (λ (x : Db). record x { payouts = d'.payouts; attempts = d'.attempts }) v.only;
          },
        )

    void_none : select (of_txid txid) db.payouts ≡ [] → (db' : Db) × HasReturned db db'
    unfolding void_reorged_payout_txn sum_by
    void_none e = (
      db,
      record {
        runs = rw (old, e) refl;
        sound = h;
        keeps = refl;
        payouts = sym (delete-none (of_txid txid) db.payouts e);
        items = refl;
        only = refl;
        fails = inl refl;
      },
    )

    by_rows :
        (rows : List Payout)
        → select (of_txid txid) db.payouts ≡ rows
        → (db' : Db) × HasReturned db db'
    by_rows [] e = void_none e
    by_rows (p ∷ ps) e = void_some p ps e

    pub void-HasReturned : (db' : Db) × HasReturned db db'
    void-HasReturned = by_rows (select (of_txid txid) db.payouts) refl

runs_committed :
    (txid : String) (now : ℕ) (db db' : Db)
    → HasReturned txid now db db'
    → let rows = select (of_txid txid) db.payouts in
      void_reorged_payout true txid now db
      ≡ (ok (length rows, sum_by (λ (p : Payout). p.amount) rows), db')
unfolding void_reorged_payout
runs_committed txid now db db' v = committed (void_reorged_payout_txn txid now) db v.runs

-- On a sound database a void that commits never fails where no payment under the transaction is
-- younger than sixty minutes: it answers with the number and the sum of the payment's rows, deletes
-- exactly those, gives their amounts back to pending so that the sum of all balances stays, and
-- leaves the tables sound and the reservations alone.
pub void_returns :
    (txid : String) (now : ℕ) (db : Db)
    → IsSound db
    → affected (is_fresh txid now) db.payouts ≡ 0
    → let rows = select (of_txid txid) db.payouts in
      let (r, db') = void_reorged_payout true txid now db in
      (r ≡ ok (length rows, sum_by (λ (p : Payout). p.amount) rows))
      × IsSound db'
      × (owed db' ≡ owed db)
      × (db'.payouts ≡ delete (of_txid txid) db.payouts)
      × (db'.items ≡ db.items)
void_returns txid now db h old =
    let (db', v) = void-HasReturned txid now db h old in
    rw (runs_committed txid now db db' v) (refl, v.sound, v.keeps, v.payouts, v.items)

too_fresh :
    (txid : String) (now : ℕ) (db : Db)
    → leb 1 (affected (is_fresh txid now) db.payouts) ≡ true
    → void_reorged_payout_txn txid now db ≡ ok ((0, pos 0), db)
unfolding void_reorged_payout_txn
too_fresh txid now db h = rw h refl

-- Either nothing happens, or the void commits with no fresh row.
pub void_cases :
    (commits : Bool) (txid : String) (now : ℕ) (db : Db)
    → IsSound db
    → let db' = (void_reorged_payout commits txid now db).1 in
      (db' ≡ db)
      ⊎ ((commits ≡ true)
          × (affected (is_fresh txid now) db.payouts ≡ 0)
          × HasReturned txid now db db')
unfolding void_reorged_payout
void_cases false txid now db h = inl (rolled_back (void_reorged_payout_txn txid now) db)
void_cases true txid now db h =
    elim (Bool-cases (leb 1 (affected (is_fresh txid now) db.payouts))) [
      | inl fresh ↦
          rw (committed (void_reorged_payout_txn txid now) db (too_fresh txid now db fresh))
            (inl refl)
      | inr old ↦
          let none_fresh : affected (is_fresh txid now) db.payouts ≡ 0 = ground arith in
          let (db', v) = void-HasReturned txid now db h none_fresh in
          rw (committed (void_reorged_payout_txn txid now) db v.runs) (inr (refl, none_fresh, v))
    ]

-- A void keeps a sound database sound, and the sum of all balances, in every case.
pub void_reorged_payout-IsSound :
    (commits : Bool) (txid : String) (now : ℕ) (db : Db)
    → IsSound db
    → let db' = (void_reorged_payout commits txid now db).1 in IsSound db' × (owed db' ≡ owed db)
void_reorged_payout-IsSound commits txid now db h = elim (void_cases commits txid now db h) [
  | inl same ↦ rw same (h, refl)
  | inr (_, _, v) ↦ (v.sound, v.keeps)
]
