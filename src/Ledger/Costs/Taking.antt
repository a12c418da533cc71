-- ===== src/Ledger/Costs/Taking.antt =====
-- What taking costs for a block comes to.
use zcash_mining_pool.Prelude.{
  ℕ, ◌≡◌, refl, ap, ◌∙◌, true, not, List, [], ◌∷◌, ◌++◌, arith, Bool-cases, map, inl, inr, ℤ, pos,
  ◌+ℤ◌, ◌≤ℤ◌, ltb_ℤ, int_laws, sum_by, ok,
}
use zcash_mining_pool.Sql.{select}
use zcash_mining_pool.Ledger.Tables.{Cost, Db}
use zcash_mining_pool.Ledger.Costs.{take_costs, take_costs_for_block, take_costs_for_block_txn}

abbrev pub fees : List Cost → ℤ
fees cs = sum_by (λ (c : Cost). c.fee) cs

-- The list ends here, or its next fee would pass the cap.
abbrev pub IsFull : ℤ → ℤ → List Cost → Type 0
IsFull cap taken [] = Unit
IsFull cap taken (c ∷ cs) = ¬ (taken +ℤ c.fee ≤ℤ cap)

-- The rows are split into those taken, the oldest first, and the rest.
pub record IsTaking (cap start taken : ℤ) (ids : List ℕ) (cs : List Cost) : Type 0 where
  pub front : List Cost
  pub back : List Cost
  pub splits : cs ≡ front ++ back
  pub named : ids ≡ map (λ (c : Cost). c.id) front
  pub total : taken ≡ start +ℤ fees front
  pub within : taken ≤ℤ cap
  pub full : IsFull cap taken back

take_costs-IsTaking :
    (cap start : ℤ) (cs : List Cost)
    → start ≤ℤ cap
    → let (taken, ids) = take_costs cap start cs in IsTaking cap start taken ids cs
unfolding take_costs sum_by
take_costs-IsTaking cap start [] le = record {
  front = [];
  back = [];
  splits = refl;
  named = refl;
  total = omega int_laws;
  within = le;
  full = tt;
}
take_costs-IsTaking cap start (c ∷ cs) le = elim (Bool-cases (ltb_ℤ cap (start +ℤ c.fee))) [
  | inl e ↦ rw e (record {
    front = [];
    back = c ∷ cs;
    splits = refl;
    named = refl;
    total = omega int_laws;
    within = le;
    full = λ fits. ground (arith, e, fits);
  })
  | inr e ↦
      let rest = take_costs-IsTaking cap (start +ℤ c.fee) cs (ground (arith, e)) in
      rw e (record {
        front = c ∷ rest.front;
        back = rest.back;
        splits = ap (◌∷◌ c) rest.splits;
        named = ap (◌∷◌ c.id) rest.named;
        total = rw rest.total (omega int_laws);
        within = rest.within;
        full = rest.full;
      })
]

-- With a cap that is not negative, what is taken for a block stays within the cap, and is the sum of
-- the fees of a longest run of the oldest unrecovered costs: the next cost would pass the cap.
pub take_costs_within :
    (block : ℕ) (cap : ℤ) (db : Db)
    → pos 0 ≤ℤ cap
    → (taken : ℤ) × ((take_costs_for_block true block cap db).0 ≡ ok taken)
      × (taken ≤ℤ cap)
      × (front : List Cost) × (back : List Cost) × (select (λ c. not c.recovered) db.costs
          ≡ front ++ back)
      × (taken ≡ fees front)
      × IsFull cap taken back
unfolding take_costs_for_block take_costs_for_block_txn
take_costs_within block cap db h =
    let t = take_costs-IsTaking cap (pos 0) (select (λ c. not c.recovered) db.costs) h in
    (
      (take_costs cap (pos 0) (select (λ c. not c.recovered) db.costs)).0,
      refl,
      t.within,
      t.front,
      t.back,
      t.splits,
      t.total ∙ omega int_laws,
      t.full,
    )
