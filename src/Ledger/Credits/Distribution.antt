-- ===== src/Ledger/Credits/Distribution.antt =====
-- What distributing a block's credits comes to.
use mathlib.Core.List.{append-nil, append_assoc}
use zcash_mining_pool.Prelude.{
  ℕ, ◌&&◌, ◌≡◌, ◌≢◌, refl, sym, ap, ◌∙◌, Bool, true, List, [], ◌∷◌, ◌++◌, arith, ◌==◌, All,
  Bool-cases, inl, inr, ℤ, pos, ◌+ℤ◌, ◌≤ℤ◌, int_laws, sum_by, ok, err,
}
use zcash_mining_pool.Sql.{update, affected, affected-append, sum_by-update_one, All-update}
use zcash_mining_pool.Ledger.Tables.{Credit, Db, sqlx}
use zcash_mining_pool.Ledger.Payouts.{at_miner}
use zcash_mining_pool.Ledger.Payouts.Backing.{IsBacked-keep}
use zcash_mining_pool.Ledger.Payouts.Sound.{
  IsSound, IsSolvent, owed, wealth, IsHoused-update, bookings-update,
}
use zcash_mining_pool.Ledger.Credits.{
  ensure_row, earn, is_credit, has_keys, distribute_credit, distribute_credits,
  distribute_block_credits,
}
use zcash_mining_pool.Ledger.Credits.Rows.{
  ensure_row-IsSound, ensure_row-wealth, ensure_row_has, at_most_one,
}

abbrev pub credit_for : ℕ → ℕ → ℤ → Credit
credit_for block m a = record { block_id = block; miner_id = m; amount = a }

abbrev pub credits_for : ℕ → List (ℕ × ℤ) → List Credit
credits_for block [] = []
credits_for block ((m, a) ∷ xs) = credit_for block m a ∷ credits_for block xs

abbrev pub amounts : List (ℕ × ℤ) → ℤ
amounts xs = sum_by (λ (x : ℕ × ℤ). x.1) xs

abbrev credited : ℕ → ℕ → ℤ → Db → Db
credited block m a db = record db {
  balances = update (at_miner m) (earn a) (ensure_row m db.balances);
  credits = db.credits ++ credit_for block m a ∷ [];
}

module _ (block m : ℕ) (a : ℤ) (db : Db) (h : IsSound db) where
  abbrev with_row : Db
  with_row = record db { balances = ensure_row m db.balances }

  rows-IsSound : IsSound with_row
  rows-IsSound = ensure_row-IsSound m db h

  credited-owed : owed (credited block m a db) ≡ owed db +ℤ a
  unfolding owed
  credited-owed =
      sum_by-update_one wealth (at_miner m) (earn a) a (ensure_row m db.balances)
        (λ b. omega int_laws)
        (omega (
          arith,
          ensure_row_has m db.balances,
          at_most_one (λ b. b.paid) _ m _ rows-IsSound.audited,
        ))
      ∙ ap (λ s. s +ℤ a) (ensure_row-wealth m db.balances)

  credited-IsSound : pos 0 ≤ℤ a → IsSound (credited block m a db)
  credited-IsSound nonneg = record {
    backed =
        IsBacked-keep (λ b. b.paying) _ (at_miner m) (earn a) (λ b. refl) (λ b. refl) _
          rows-IsSound.backed;
    audited =
        IsBacked-keep (λ b. b.paid) _ (at_miner m) (earn a) (λ b. refl) (λ b. refl) _
          rows-IsSound.audited;
    positive = h.positive;
    housed = IsHoused-update (at_miner m) (earn a) (λ b. refl) _ db.items rows-IsSound.housed;
    solvent =
        All-update IsSolvent (at_miner m) (earn a) (ensure_row m db.balances)
          (λ b s _. (omega (int_laws, s.0), s.1)) rows-IsSound.solvent;
    bookings = bookings-update (at_miner m) (earn a) (λ b. refl) _ db.payouts rows-IsSound.bookings;
  }

-- What a distribution that goes through does.
pub record Distributes (block : ℕ) (xs : List (ℕ × ℤ)) (db db' : Db) : Type 0 where
  pub sound : IsSound db'
  pub grows : owed db' ≡ owed db +ℤ amounts xs
  pub recorded : db'.credits ≡ db.credits ++ credits_for block xs

abbrev is_for : ℕ → ℕ × ℤ → Bool
is_for m x = x.0 == m

-- No miner is named twice.
abbrev pub IsDistinct : List (ℕ × ℤ) → Type 0
IsDistinct [] = Unit
IsDistinct (x ∷ xs) = (affected (is_for x.0) xs ≡ 0) × IsDistinct xs

abbrev pub IsCredit : ℕ × ℤ → Type 0
IsCredit x = pos 0 ≤ℤ x.1

-- None of the pairs has been credited for the block yet.
abbrev pub IsFresh : ℕ → List Credit → ℕ × ℤ → Type 0
IsFresh block cs x = affected (is_credit block x.0) cs ≡ 0

-- The block of a pair and its miner are there.
abbrev pub HasKeys : ℕ → Db → ℕ × ℤ → Type 0
HasKeys block db x = has_keys block x.0 db ≡ true

Fresh-credited :
    (block m : ℕ) (a : ℤ) (cs : List Credit) (xs : List (ℕ × ℤ))
    → affected (is_for m) xs ≡ 0
    → All (IsFresh block cs) xs
    → All (IsFresh block (cs ++ credit_for block m a ∷ [])) xs
unfolding affected
Fresh-credited block m a cs [] gone h = tt
Fresh-credited block m a cs (x ∷ xs) gone h = (
  rw (affected-append (is_credit block x.0) cs (credit_for block m a ∷ [])) (ground (arith, h.0)),
  Fresh-credited block m a cs xs (ground arith) h.1,
)

distribute_credits-Distributes :
    (block : ℕ) (xs : List (ℕ × ℤ)) (db : Db)
    → IsSound db
    → All IsCredit xs
    → IsDistinct xs
    → All (IsFresh block db.credits) xs
    → All (HasKeys block db) xs
    → (db' : Db) × (distribute_credits block xs db ≡ ok db') × Distributes block xs db db'
unfolding distribute_credits distribute_credit sum_by
distribute_credits-Distributes block [] db h c d f k =
    (db, refl, record { sound = h; grows = omega int_laws; recorded = sym (append-nil db.credits) })
distribute_credits-Distributes block ((m, a) ∷ xs) db h c d f k =
    let (db', runs, r) =
      distribute_credits-Distributes block xs (credited block m a db)
        (credited-IsSound block m a db h c.0) c.1 d.1
        (Fresh-credited block m a db.credits xs d.0 f.1) k.1 in
    (
      db',
      rw (k.0, f.0) runs,
      record {
        sound = r.sound;
        grows = r.grows ∙ rw (credited-owed block m a db h) (omega int_laws);
        recorded =
            r.recorded ∙ append_assoc db.credits (credit_for block m a ∷ []) (credits_for block xs);
      },
    )

-- Distributing nonnegative amounts for a block of the table, to miners of the table that are named
-- once and not yet credited for the block, succeeds on a sound database where the transaction
-- commits: it keeps the tables sound, raises the sum of all balances by exactly the sum of the
-- amounts, and records one credit row for each pair.
pub distribute_adds :
    (block : ℕ) (xs : List (ℕ × ℤ)) (db : Db)
    → IsSound db
    → All IsCredit xs
    → IsDistinct xs
    → All (IsFresh block db.credits) xs
    → All (HasKeys block db) xs
    → let (r, db') = distribute_block_credits true block xs db in
      (r ≡ ok tt)
      × IsSound db'
      × (owed db' ≡ owed db +ℤ amounts xs)
      × (db'.credits ≡ db.credits ++ credits_for block xs)
unfolding distribute_block_credits
distribute_adds block xs db h c d f k =
    let (db', runs, r) = distribute_credits-Distributes block xs db h c d f k in
    let whole : distribute_block_credits true block xs db ≡ (ok tt, db') = ground (arith, runs) in
    rw whole (refl, r.sound, r.grows, r.recorded)

has_credit_rejects :
    (block m : ℕ) (a : ℤ) (xs ys : List (ℕ × ℤ)) (db : Db)
    → affected (is_credit block m) db.credits ≢ 0
    → distribute_credits block (xs ++ (m, a) ∷ ys) db ≡ err sqlx
unfolding distribute_credits distribute_credit
has_credit_rejects block m a [] ys db hit = ground arith
has_credit_rejects block m a ((j, c) ∷ xs) ys db hit =
    elim (Bool-cases (has_keys block j db && (affected (is_credit block j) db.credits == 0))) [
      | inr e ↦ rw e refl
      | inl e ↦ rw e (
          has_credit_rejects block m a xs ys (credited block j c db) (
            omega
              (arith, affected-append (is_credit block m) db.credits (credit_for block j c ∷ []))))
    ]

-- A miner is credited at most once for a block: distributing again with the miner among the pairs
-- fails and changes nothing, whoever else is among them.
pub credit_once :
    (block m : ℕ) (a : ℤ) (xs ys : List (ℕ × ℤ)) (commits : Bool) (db : Db)
    → affected (is_credit block m) db.credits ≢ 0
    → distribute_block_credits commits block (xs ++ (m, a) ∷ ys) db ≡ (err sqlx, db)
unfolding distribute_block_credits
credit_once block m a xs ys commits db hit =
    ground (arith, has_credit_rejects block m a xs ys db hit)
