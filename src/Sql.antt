-- ===== src/Sql.antt =====
-- What the queries of crates/pool-db do to a table: a table is the list of its rows in insertion
-- order.
use zcash_mining_pool.Prelude.{
  ℕ, ◌+◌, ◌≤◌, ◌≡◌, refl, ap, Bool, true, false, List, [], ◌∷◌, ◌++◌, arith, if◌then◌else◌, All,
  Bool-cases, inl, inr, ℤ, ◌+ℤ◌, int_laws, parts_of_eq, sum_by,
}

module _ {ℓ} {A : Type ℓ} where
  -- SELECT … WHERE p
  unfoldable pub select : (A → Bool) → List A → List A
  select p [] = []
  select p (x ∷ xs) = let rest = select p xs in if p x then x ∷ rest else rest

  -- DELETE … WHERE p
  unfoldable pub delete : (A → Bool) → List A → List A
  delete p [] = []
  delete p (x ∷ xs) = let rest = delete p xs in if p x then rest else x ∷ rest

  -- UPDATE … SET f WHERE p
  unfoldable pub update : (A → Bool) → (A → A) → List A → List A
  update p f [] = []
  update p f (x ∷ xs) = (if p x then f x else x) ∷ update p f xs

  -- The `rows_affected` of such an update; `COUNT(*)` of such a selection.
  unfoldable pub affected : (A → Bool) → List A → ℕ
  affected p [] = 0
  affected p (x ∷ xs) = (if p x then 1 else 0) + affected p xs

  -- A column's sum is split by a condition.
  pub sum_by-select-delete :
      (w : A → ℤ) (p : A → Bool) (xs : List A)
      → sum_by w (select p xs) +ℤ sum_by w (delete p xs) ≡ sum_by w xs
  unfolding sum_by select delete
  sum_by-select-delete w p [] = omega int_laws
  sum_by-select-delete w p (x ∷ xs) = elim (Bool-cases (p x)) [
    | inl h ↦ rw h (omega (int_laws, parts_of_eq (sum_by-select-delete w p xs)))
    | inr h ↦ rw h (omega (int_laws, parts_of_eq (sum_by-select-delete w p xs)))
  ]

  -- An update that keeps a column in each row that it changes keeps the column's sum.
  pub sum_by-update :
      (w : A → ℤ) (p : A → Bool) (f : A → A) (xs : List A)
      → ((x : A) → p x ≡ true → w (f x) ≡ w x)
      → sum_by w (update p f xs) ≡ sum_by w xs
  unfolding sum_by update
  sum_by-update w p f [] h = refl
  sum_by-update w p f (x ∷ xs) h = elim (Bool-cases (p x)) [
    | inl e ↦ rw (e, h x e, sum_by-update w p f xs h)
    | inr e ↦ rw (e, sum_by-update w p f xs h)
  ]

  pub All-update {κ} :
      (P : A → Type κ) (p : A → Bool) (f : A → A) (xs : List A)
      → ((x : A) → P x → p x ≡ true → P (f x))
      → All P xs
      → All P (update p f xs)
  unfolding update
  All-update P p f [] h all = all
  All-update P p f (x ∷ xs) h all = elim (Bool-cases (p x)) [
    | inl e ↦ rw e (h x all.0 e, All-update P p f xs h all.1)
    | inr e ↦ rw e (all.0, All-update P p f xs h all.1)
  ]

  pub All-delete {κ} :
      (P : A → Type κ) (p : A → Bool) (xs : List A) → All P xs → All P (delete p xs)
  unfolding delete
  All-delete P p [] all = all
  All-delete P p (x ∷ xs) all = elim (Bool-cases (p x)) [
    | inl e ↦ rw e (All-delete P p xs all.1)
    | inr e ↦ rw e (all.0, All-delete P p xs all.1)
  ]

  pub All-select {κ} :
      (P : A → Type κ) (p : A → Bool) (xs : List A) → All P xs → All P (select p xs)
  unfolding select
  All-select P p [] all = all
  All-select P p (x ∷ xs) all = elim (Bool-cases (p x)) [
    | inl e ↦ rw e (all.0, All-select P p xs all.1)
    | inr e ↦ rw e (All-select P p xs all.1)
  ]

  -- What a deletion leaves has no row that it would delete again.
  pub select-delete : (p : A → Bool) (xs : List A) → select p (delete p xs) ≡ []
  unfolding select delete
  select-delete p [] = refl
  select-delete p (x ∷ xs) = elim (Bool-cases (p x)) [
    | inl e ↦ rw e (select-delete p xs)
    | inr e ↦ rw (e, select, e) (select-delete p xs)
  ]

  -- A deletion keeps the rows that it does not match.
  pub select-delete_other :
      (q p : A → Bool) (xs : List A)
      → ((x : A) → p x ≡ true → q x ≡ false)
      → select q (delete p xs) ≡ select q xs
  unfolding select delete
  select-delete_other q p [] h = refl
  select-delete_other q p (x ∷ xs) h = elim (Bool-cases (p x)) [
    | inl e ↦ rw (e, h x e) (select-delete_other q p xs h)
    | inr e ↦ rw (e, select, select-delete_other q p xs h) refl
  ]

  pub delete-delete : (p : A → Bool) (xs : List A) → delete p (delete p xs) ≡ delete p xs
  unfolding delete
  delete-delete p [] = refl
  delete-delete p (x ∷ xs) = elim (Bool-cases (p x)) [
    | inl e ↦ rw e (delete-delete p xs)
    | inr e ↦ rw (e, delete, e) (ap (◌∷◌ x) (delete-delete p xs))
  ]

  -- An update that matches no row changes nothing.
  pub update-none :
      (p : A → Bool) (f : A → A) (xs : List A) → affected p xs ≡ 0 → update p f xs ≡ xs
  unfolding update affected
  update-none p f [] h = refl
  update-none p f (x ∷ xs) h = elim (Bool-cases (p x)) [
    | inl e ↦ absurd (let h' : 1 + affected p xs ≡ 0 = rw e at h in omega arith)
    | inr e ↦ rw e (
        ap (◌∷◌ x) (update-none p f xs (let h' : 0 + affected p xs ≡ 0 = rw e at h in omega arith)))
  ]

  pub affected-le :
      (p q : A → Bool) (xs : List A)
      → ((x : A) → p x ≡ true → q x ≡ true)
      → affected p xs ≤ affected q xs
  unfolding affected
  affected-le p q [] h = omega arith
  affected-le p q (x ∷ xs) h = elim (Bool-cases (p x)) [
    | inl e ↦ rw (e, h x e) (omega (arith, affected-le p q xs h))
    | inr e ↦ rw e (omega (arith, affected-le p q xs h))
  ]

  -- An update that keeps what `q` tests keeps the number of rows that pass it.
  pub affected-update :
      (q p : A → Bool) (f : A → A) (xs : List A)
      → ((x : A) → q (f x) ≡ q x)
      → affected q (update p f xs) ≡ affected q xs
  unfolding affected update
  affected-update q p f [] h = refl
  affected-update q p f (x ∷ xs) h = elim (Bool-cases (p x)) [
    | inl e ↦ rw (e, h x, affected-update q p f xs h)
    | inr e ↦ rw (e, affected-update q p f xs h)
  ]

  pub delete-snoc :
      (p : A → Bool) (xs : List A) (y : A) → p y ≡ true → delete p (xs ++ y ∷ []) ≡ delete p xs
  unfolding delete
  delete-snoc p [] y h = rw h
  delete-snoc p (x ∷ xs) y h = elim (Bool-cases (p x)) [
    | inl e ↦ rw e (delete-snoc p xs y h)
    | inr e ↦ rw e (ap (◌∷◌ x) (delete-snoc p xs y h))
  ]

  pub affected-append :
      (p : A → Bool) (xs ys : List A) → affected p (xs ++ ys) ≡ affected p xs + affected p ys
  unfolding affected
  affected-append p [] ys = omega arith
  affected-append p (x ∷ xs) ys = omega (arith, affected-append p xs ys)

  -- An update of exactly one row moves a column's sum by what it moves the row.
  pub sum_by-update_one :
      (w : A → ℤ) (p : A → Bool) (f : A → A) (d : ℤ) (xs : List A)
      → ((x : A) → w (f x) ≡ w x +ℤ d)
      → affected p xs ≡ 1
      → sum_by w (update p f xs) ≡ sum_by w xs +ℤ d
  unfolding sum_by update affected
  sum_by-update_one w p f d [] h one = absurd (omega arith)
  sum_by-update_one w p f d (x ∷ xs) h one = elim (Bool-cases (p x)) [
    | inl e ↦
        let others : affected p xs ≡ 0 =
          let one' : 1 + affected p xs ≡ 1 = rw e at one in omega arith in
        rw (e, h x, update-none p f xs others) (omega int_laws)
    | inr e ↦
        let one' : 0 + affected p xs ≡ 1 = rw e at one in
        rw (e, sum_by-update_one w p f d xs h (omega arith)) (omega int_laws)
  ]
