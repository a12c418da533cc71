-- ===== src/Rewards/Exact.antt =====
-- crates/rewards/src/pplns.rs: the sum of what a distribution hands out.
use zcash_mining_pool.Prelude.{
  ℕ, suc, ◌≡◌, refl, sym, ap, ◌∙◌, true, false, List, [], ◌∷◌, arith, ◌==◌, All, if◌then◌else◌,
  Bool-cases, inl, inr, ℤ, pos, ◌+ℤ◌, ◌-ℤ◌, ltb_ℤ, +ℤ_assoc, int_laws, parts_of_eq, sum_by, Result,
  ok, err,
}
use zcash_mining_pool.Sql.{affected, affected-le}
use zcash_mining_pool.Float.{Float}
use zcash_mining_pool.Ledger.Tables.{Credit, Db, DbError}
use zcash_mining_pool.Ledger.Payouts.Sound.{IsSound, owed}
use zcash_mining_pool.Ledger.Credits.{is_credit, of_block, has_keys}
use zcash_mining_pool.Ledger.Credits.Distribution.{
  amounts, IsDistinct, IsCredit, IsFresh, HasKeys, distribute_adds,
}
use zcash_mining_pool.Rewards.{
  Reward, ShareEntry, split, pairs, positive_pairs, after_credits, credit_rewards, distribute_pplns,
  total_difficulty,
}

rest_fits : (amount given : ℤ) → given +ℤ (amount -ℤ given +ℤ pos 0) ≡ amount
rest_fits amount given = omega int_laws

module _ (R : Float) where
  open R use {F, of_ℤ, mul, div, floor_i64, ratio, le}

  split-amounts :
      (amount : ℤ) (total : F) (given : ℤ) (e : ShareEntry R) (es : List (ShareEntry R))
      → given +ℤ amounts (pairs R (split R amount total given (e ∷ es))) ≡ amount
  unfolding split pairs sum_by
  split-amounts amount total given (m, d) [] = rest_fits amount given
  split-amounts amount total given (m, d) (e ∷ es) =
      let part = floor_i64 (mul (of_ℤ amount) (div d total)) in
      let rest = amounts (pairs R (split R amount total (given +ℤ part) (e ∷ es))) in
      sym (+ℤ_assoc given part rest) ∙ split-amounts amount total (given +ℤ part) e es

  -- Whatever the floating-point fractions come to, the amounts of the rewards of a nonempty window
  -- add up to exactly the distributable amount.
  pub split_exact :
      (amount : ℤ) (total : F) (e : ShareEntry R) (es : List (ShareEntry R))
      → amounts (pairs R (split R amount total (pos 0) (e ∷ es))) ≡ amount
  split_exact amount total e es =
      omega (int_laws, parts_of_eq (split-amounts amount total (pos 0) e es))

-- A list of amounts that are not negative keeps its sum when the zeros are dropped.
positive_pairs-amounts :
    (xs : List (ℕ × ℤ)) → All IsCredit xs → amounts (positive_pairs xs) ≡ amounts xs
unfolding positive_pairs sum_by
positive_pairs-amounts [] h = refl
positive_pairs-amounts ((m, a) ∷ xs) h = elim (Bool-cases (ltb_ℤ (pos 0) a)) [
  | inl e ↦ rw (e, positive_pairs-amounts xs h.1) refl
  | inr e ↦
      let zero_amount : a ≡ pos 0 = ground (arith, e, h.0) in
      rw (e, zero_amount, positive_pairs-amounts xs h.1) (omega int_laws)
]

positive_pairs-IsCredit : (xs : List (ℕ × ℤ)) → All IsCredit (positive_pairs xs)
unfolding positive_pairs
positive_pairs-IsCredit [] = tt
positive_pairs-IsCredit ((m, a) ∷ xs) = elim (Bool-cases (ltb_ℤ (pos 0) a)) [
  | inl e ↦ rw e (ground (arith, e), positive_pairs-IsCredit xs)
  | inr e ↦ rw e (positive_pairs-IsCredit xs)
]

positive_pairs-absent :
    (m : ℕ) (xs : List (ℕ × ℤ))
    → affected (λ (x : ℕ × ℤ). x.0 == m) xs ≡ 0
    → affected (λ (x : ℕ × ℤ). x.0 == m) (positive_pairs xs) ≡ 0
unfolding positive_pairs affected
positive_pairs-absent m [] h = refl
positive_pairs-absent m ((j, a) ∷ xs) h =
    let rest = positive_pairs-absent m xs (ground arith) in
    elim (Bool-cases (ltb_ℤ (pos 0) a)) [ inl e ↦ rw e (ground (arith, rest)) | inr e ↦ rw e rest ]

positive_pairs-IsDistinct : (xs : List (ℕ × ℤ)) → IsDistinct xs → IsDistinct (positive_pairs xs)
unfolding positive_pairs
positive_pairs-IsDistinct [] h = tt
positive_pairs-IsDistinct ((m, a) ∷ xs) h = elim (Bool-cases (ltb_ℤ (pos 0) a)) [
  | inl e ↦ rw e (positive_pairs-absent m xs h.0, positive_pairs-IsDistinct xs h.1)
  | inr e ↦ rw e (positive_pairs-IsDistinct xs h.1)
]

positive_pairs-All : (P : ℕ × ℤ → Type 0) (xs : List (ℕ × ℤ)) → All P xs → All P (positive_pairs xs)
unfolding positive_pairs
positive_pairs-All P [] h = tt
positive_pairs-All P ((m, a) ∷ xs) h = elim (Bool-cases (ltb_ℤ (pos 0) a)) [
  | inl e ↦ rw e (h.0, positive_pairs-All P xs h.1)
  | inr e ↦ rw e (positive_pairs-All P xs h.1)
]

-- A block that has no credits yet is fresh for every miner.
no_credits :
    (block : ℕ) (cs : List Credit)
    → affected (of_block block) cs ≡ 0
    → (xs : List (ℕ × ℤ)) → All (IsFresh block cs) xs
no_credits block cs none_yet [] = tt
no_credits block cs none_yet (x ∷ xs) = (
  omega (arith, affected-le (is_credit block x.0) (of_block block) cs (λ c e. ground arith)),
  no_credits block cs none_yet xs,
)

-- Writing the credits, also where there are none.
credits_written :
    (block : ℕ) (xs : List (ℕ × ℤ)) (db : Db)
    → IsSound db
    → All IsCredit xs
    → IsDistinct xs
    → All (IsFresh block db.credits) xs
    → All (HasKeys block db) xs
    → let (r, db') = credit_rewards true block xs db in
      (r ≡ ok tt) × IsSound db' × (owed db' ≡ owed db +ℤ amounts xs)
unfolding credit_rewards sum_by
credits_written block [] db h c d f k = (refl, h, omega int_laws)
credits_written block (x ∷ xs) db h c d f k =
    let (r, sound, grows, _) = distribute_adds block (x ∷ xs) db h c d f k in (r, sound, grows)

module _ (R : Float) where
  open R use {F, of_ℤ, mul, div, floor_i64, ratio, le}

  -- The pairs have the miners of the window, in its order.
  abbrev pub NamesOnce : List (ShareEntry R) → Type 0
  NamesOnce [] = Unit
  NamesOnce (e ∷ es) = (affected (λ (x : ShareEntry R). x.0 == e.0) es ≡ 0) × NamesOnce es

  split-absent :
      (m : ℕ) (amount : ℤ) (total : F) (given : ℤ) (es : List (ShareEntry R))
      → affected (λ (x : ShareEntry R). x.0 == m) es ≡ 0
      → affected (λ (x : ℕ × ℤ). x.0 == m) (pairs R (split R amount total given es)) ≡ 0
  unfolding split pairs affected
  split-absent m amount total given [] h = refl
  split-absent m amount total given ((j, d) ∷ []) h = h
  split-absent m amount total given ((j, d) ∷ e ∷ es) h =
      let part = floor_i64 (mul (of_ℤ amount) (div d total)) in
      let later : affected (λ (x : ShareEntry R). x.0 == m) (e ∷ es) ≡ 0 = ground arith in
      let rest = split-absent m amount total (given +ℤ part) (e ∷ es) later in
      let first : (if j == m then (suc 0) else 0) ≡ 0 = ground arith in omega (arith, rest, first)

  split-IsDistinct :
      (amount : ℤ) (total : F) (given : ℤ) (es : List (ShareEntry R))
      → NamesOnce es
      → IsDistinct (pairs R (split R amount total given es))
  unfolding split pairs affected
  split-IsDistinct amount total given [] h = tt
  split-IsDistinct amount total given ((j, d) ∷ []) h = (refl, tt)
  split-IsDistinct amount total given ((j, d) ∷ e ∷ es) h =
      let part = floor_i64 (mul (of_ℤ amount) (div d total)) in
      (
        split-absent j amount total (given +ℤ part) (e ∷ es) h.0,
        split-IsDistinct amount total (given +ℤ part) (e ∷ es) h.1,
      )

  -- The block and the miners of the window are there.
  abbrev pub AllKeys : ℕ → Db → List (ShareEntry R) → Type 0
  AllKeys block db es = All (λ (x : ShareEntry R). has_keys block x.0 db ≡ true) es

  split-HasKeys :
      (block : ℕ) (db : Db) (amount : ℤ) (total : F) (given : ℤ) (es : List (ShareEntry R))
      → AllKeys block db es
      → All (HasKeys block db) (pairs R (split R amount total given es))
  unfolding split pairs
  split-HasKeys block db amount total given [] h = tt
  split-HasKeys block db amount total given ((j, d) ∷ []) h = (h.0, tt)
  split-HasKeys block db amount total given ((j, d) ∷ e ∷ es) h =
      let part = floor_i64 (mul (of_ℤ amount) (div d total)) in
      (h.0, split-HasKeys block db amount total (given +ℤ part) (e ∷ es) h.1)

  after_credits_ok :
      (rs : List (Reward R)) (r : Result DbError (Unit {0}) × Db)
      → r.0 ≡ ok tt
      → after_credits R rs r ≡ (ok rs, r.1)
  after_credits_ok rs (ok _, db) h = refl
  after_credits_ok rs (err e, db) h = cc

  abbrev pub rewards_of : ℤ → List (ShareEntry R) → List (Reward R)
  rewards_of amount es = split R amount (total_difficulty R (ratio 0 1) es) (pos 0) es

  -- A window with a positive total difficulty, in which each miner stands once, pays out exactly the
  -- distributable amount: on a sound database that has the block and the miners, where the block has no
  -- credits yet, and where no
  -- rounding makes an amount negative, the call returns the rewards, the sum of all balances grows
  -- by exactly the distributable amount, and the tables stay sound.
  pub distribute_pplns_pays :
      (block : ℕ) (amount : ℤ) (e : ShareEntry R) (es : List (ShareEntry R)) (db : Db)
      → IsSound db
      → affected (of_block block) db.credits ≡ 0
      → AllKeys block db (e ∷ es)
      → NamesOnce (e ∷ es)
      → le (total_difficulty R (ratio 0 1) (e ∷ es)) (ratio 0 1) ≡ false
      → All IsCredit (pairs R (rewards_of amount (e ∷ es)))
      → let (r, db') = distribute_pplns R true block amount (e ∷ es) db in
        (r ≡ ok (rewards_of amount (e ∷ es))) × IsSound db' × (owed db' ≡ owed db +ℤ amount)
  unfolding distribute_pplns
  distribute_pplns_pays block amount e es db h unpaid keys once more whole =
      let total = total_difficulty R (ratio 0 1) (e ∷ es) in
      let ps = pairs R (split R amount total (pos 0) (e ∷ es)) in
      let done =
        credits_written block (positive_pairs ps) db h (positive_pairs-IsCredit ps)
          (positive_pairs-IsDistinct ps (split-IsDistinct amount total (pos 0) (e ∷ es) once))
          (no_credits block db.credits unpaid (positive_pairs ps))
          (positive_pairs-All (HasKeys block db) ps
            (split-HasKeys block db amount total (pos 0) (e ∷ es) keys)) in
      let sum : amounts (positive_pairs ps) ≡ amount =
        positive_pairs-amounts ps whole ∙ split_exact R amount total e es in
      rw
        (
          more,
          after_credits_ok (rewards_of amount (e ∷ es))
              (credit_rewards true block (positive_pairs ps) db) done.0,
        )
        (refl, done.1, done.2 ∙ ap (λ v. owed db +ℤ v) sum)
