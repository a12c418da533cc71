-- ===== src/Ledger/Transactions.antt =====
-- What the transactions of crates/pool-db/src/queries.rs leave when they commit and when they do not.
use zcash_mining_pool.Prelude.{◌≡◌, refl, ap, true, false, Result, ok, err}
use zcash_mining_pool.Ledger.Tables.{Db, DbError, sqlx, transact}

pub committed :
    {A : Type 0} (body : Db → Result DbError (A × Db)) (db : Db) {a : A} {db' : Db}
    → body db ≡ ok (a, db')
    → transact true body db ≡ (ok a, db')
unfolding transact
committed body db e = rw (transact, e) refl

-- A transaction that does not commit answers with an error and changes nothing.
pub rolls_back :
    {A : Type 0} (body : Db → Result DbError (A × Db)) (db : Db)
    → (e : DbError) × (transact false body db ≡ (err e, db))
unfolding transact
rolls_back {A = A} body db = by_result (body db)
  where
    by_result :
        (r : Result DbError (A × Db))
        → (e : DbError) × ◌≡◌ {A = Result DbError A × Db}
            (elim r as (λ _. Result DbError A × Db) [ ok x ↦ (err sqlx, db) | err e ↦ (err e, db) ])
            (err e, db)
    by_result (ok x) = (sqlx, refl)
    by_result (err e) = (e, refl)

pub rolled_back :
    {A : Type 0} (body : Db → Result DbError (A × Db)) (db : Db) → (transact false body db).1 ≡ db
rolled_back body db =
    let (e, back) = rolls_back body db in ap (λ (r : Result DbError _ × Db). r.1) back
