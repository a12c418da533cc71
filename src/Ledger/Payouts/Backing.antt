-- ===== src/Ledger/Payouts/Backing.antt =====
-- The shape of the invariants of the balances table: a column holds for each miner what another
-- table adds up to, and each miner has one row.
use zcash_mining_pool.Prelude.{
  ℕ, ◌+◌, ◌≡◌, ◌≢◌, subst, refl, sym, ap, ◌∙◌, Bool, true, ◌&&◌, List, [], ◌∷◌, arith, ◌==◌, ==_iff,
  if◌then◌else◌, Bool-cases, inl, inr, ℤ, pos, leb_ℤ, ◌≤ℤ◌,
}
use zcash_mining_pool.Sql.{update, affected, update-none, affected-le, affected-update}
use zcash_mining_pool.Ledger.Tables.{Balance, PayoutItem, Payout}

abbrev pub has_id : ℕ → Balance → Bool
has_id m b = b.miner_id == m

-- `owe m` is what should stand in the column `col` of miner `m`.
abbrev pub IsBacked : (Balance → ℤ) → (ℕ → ℤ) → List Balance → Type 0
IsBacked col owe [] = Unit
IsBacked col owe (b ∷ bs) =
    (col b ≡ owe b.miner_id) × (affected (has_id b.miner_id) bs ≡ 0) × IsBacked col owe bs

-- The part of an amount booked for `holder` that counts for miner `m`.
abbrev pub for_miner : ℕ → ℕ → ℤ → ℤ
for_miner m holder a = if holder == m then a else pos 0

abbrev pub due : ℕ → PayoutItem → ℤ
due m i = for_miner m i.miner_id i.amount

abbrev pub booked : ℕ → Payout → ℤ
booked m p = for_miner m p.miner_id p.amount

module _ (col : Balance → ℤ) (m : ℕ) {owe owe' : ℕ → ℤ}
    (others : (j : ℕ) → j ≢ m → owe' j ≡ owe j) where
  -- Where a miner has no row, what is owed to it does not matter.
  IsBacked-absent :
      (bs : List Balance) → affected (has_id m) bs ≡ 0 → IsBacked col owe bs → IsBacked col owe' bs
  unfolding affected
  IsBacked-absent [] gone h = h
  IsBacked-absent (b ∷ bs) gone h =
      (h.0 ∙ sym (others b.miner_id (ground arith)), h.1, IsBacked-absent bs (ground arith) h.2)

  module _ (p : Balance → Bool) (f : Balance → Balance)
      (only : (b : Balance) → p b ≡ true → b.miner_id ≡ m)
      (keeps : (b : Balance) → (f b).miner_id ≡ b.miner_id)
      (moves : (b : Balance) → p b ≡ true → col b ≡ owe m → col (f b) ≡ owe' m) where
    only_has : (b : Balance) → p b ≡ true → has_id m b ≡ true
    only_has b e = (==_iff b.miner_id m).1 (only b e)

    -- A guarded move of one miner's row, where the guard lets the row through.
    pub IsBacked-update :
        (bs : List Balance)
        → affected p bs ≢ 0
        → IsBacked col owe bs
        → IsBacked col owe' (update p f bs)
    unfolding affected update
    IsBacked-update [] hit h = h
    IsBacked-update (b ∷ bs) hit h = elim (Bool-cases (p b)) [
      | inl e ↦
          let same : b.miner_id ≡ m = only b e in
          let gone : affected (has_id m) bs ≡ 0 =
            subst (λ k. affected (has_id k) bs ≡ 0) same h.1 in
          let rest : update p f bs ≡ bs =
            update-none p f bs (omega (arith, affected-le p (has_id m) bs only_has)) in
          rw (e, rest)
            (
              moves b e (h.0 ∙ ap owe same) ∙ ap owe' (sym (keeps b ∙ same)),
              rw (keeps b) h.1,
              IsBacked-absent bs gone h.2,
            )
      | inr e ↦
          let hit' : 0 + affected p bs ≢ 0 = rw e at hit in
          let other : b.miner_id ≢ m = λ same.
            let gone : affected (has_id m) bs ≡ 0 =
              subst (λ k. affected (has_id k) bs ≡ 0) same h.1 in
            absurd (omega (arith, affected-le p (has_id m) bs only_has)) in
          rw e (
            h.0 ∙ sym (others b.miner_id other),
            affected-update (has_id b.miner_id) p f bs (λ x. ap (λ k. k == b.miner_id) (keeps x))
                ∙ h.1,
            IsBacked-update bs (omega arith) h.2,
          )
    ]

-- A move that leaves the column alone.
pub IsBacked-keep :
    (col : Balance → ℤ) (owe : ℕ → ℤ) (p : Balance → Bool) (f : Balance → Balance)
    → ((b : Balance) → (f b).miner_id ≡ b.miner_id)
    → ((b : Balance) → col (f b) ≡ col b)
    → (bs : List Balance) → IsBacked col owe bs
    → IsBacked col owe (update p f bs)
unfolding affected update
IsBacked-keep col owe p f keeps same [] h = h
IsBacked-keep col owe p f keeps same (b ∷ bs) h =
    let ids : affected (has_id b.miner_id) (update p f bs) ≡ 0 =
      affected-update (has_id b.miner_id) p f bs (λ x. ap (λ k. k == b.miner_id) (keeps x)) ∙ h.1 in
    elim (Bool-cases (p b)) [
      | inl e ↦ rw e (
        same b ∙ h.0 ∙ ap owe (sym (keeps b)),
        rw (keeps b) ids,
        IsBacked-keep col owe p f keeps same bs h.2,
      )
      | inr e ↦ rw e (h.0, ids, IsBacked-keep col owe p f keeps same bs h.2)
    ]

-- The row of a miner that has one passes a guard on the column that its backing meets.
pub IsBacked-covers :
    (col : Balance → ℤ) (owe : ℕ → ℤ) (m : ℕ) (a : ℤ) (bs : List Balance)
    → IsBacked col owe bs
    → affected (has_id m) bs ≢ 0
    → a ≤ℤ owe m
    → affected (λ b. (b.miner_id == m) && leb_ℤ a (col b)) bs ≢ 0
unfolding affected
IsBacked-covers col owe m a [] h hit le = hit
IsBacked-covers col owe m a (b ∷ bs) h hit le = elim (Bool-cases (b.miner_id == m)) [
  | inl e ↦
      let same : b.miner_id ≡ m = (==_iff b.miner_id m).0 e in
      let enough : leb_ℤ a (col b) ≡ true = rw (h.0, same) (ground arith) in
      rw (e, enough) (omega arith)
  | inr e ↦
      let hit' : 0 + affected (has_id m) bs ≢ 0 = rw e at hit in
      let rest = IsBacked-covers col owe m a bs h.2 (omega arith) le in rw e (omega arith)
]

-- What is booked to a miner with a row counts for no miner without one.
pub for_miner_absent :
    (m holder : ℕ) (a : ℤ) (bs : List Balance)
    → affected (has_id m) bs ≡ 0
    → affected (has_id holder) bs ≢ 0
    → for_miner m holder a ≡ pos 0
for_miner_absent m holder a bs gone hit = elim (Bool-cases (holder == m)) [
  | inl e ↦
      absurd (hit (subst (λ k. affected (has_id k) bs ≡ 0) (sym ((==_iff holder m).0 e)) gone))
  | inr e ↦ rw e refl
]
