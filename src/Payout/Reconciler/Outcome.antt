-- ===== src/Payout/Reconciler/Outcome.antt =====
-- What a sweep of crates/pool-dashboard/src/reconciler.rs may have done to each reservation, and under
-- which transactions it may have paid.
use mathlib.Core.List.{append-nil, append_assoc}
use zcash_mining_pool.Prelude.{
  ℕ, ◌≡◌, refl, sym, ap, subst, ◌∙◌, String, Bool, true, false, ◌⊎◌, inl, inr, List, [], ◌∷◌, ◌++◌,
  map, ◌==◌, ==_iff, Bool-cases, All, Option, ℤ,
}
use zcash_mining_pool.Ledger.Tables.{Attempt, PayoutItem, Db}
use zcash_mining_pool.Ledger.Payouts.Sound.{IsSound, All-append}
use zcash_mining_pool.Payout.Attempts.{get_reserved_attempts}
use zcash_mining_pool.Payout.Reconciler.{
  Answers, Summary, Verdict, pass, leave, refund, confirm, judge, reconcile_reserved_payouts,
}
use zcash_mining_pool.Payout.Reconciler.Evidence.{
  IsNamed, IsOnChain, IsReleasable, judge-confirm, judge-refund,
}
use zcash_mining_pool.Payout.Reconciler.Books.{
  Books, view, close, payment_for, rule, rule_all, reconcile_refines,
}

-- Some element has the property.
abbrev pub Any {ℓ} : {A : Type ℓ} → (A → Type 0) → List A → Type 0
Any P [] = ⊥
Any P (x ∷ xs) = P x ⊎ Any P xs

All-weaken {ℓ κ μ} :
    {A : Type ℓ} (P : A → Type κ) (Q : A → Type μ) (xs : List A)
    → ((x : A) → P x → Q x)
    → All P xs
    → All Q xs
All-weaken P Q [] f h = tt
All-weaken P Q (x ∷ xs) f h = (f x h.0, All-weaken P Q xs f h.1)

module _ (w : Answers) where
  -- The node has the transaction of the attempt.
  abbrev pub Pays : String → Attempt → Type 0
  Pays t a = IsNamed w a t × IsOnChain w a t

  abbrev pub Resolves : ℕ → Attempt → Type 0
  Resolves k a = (a.id ≡ k) × (((t : String) × Pays t a) ⊎ IsReleasable w a)

  -- Attempt `k` keeps its reservation, or one of `todo` shows why it is gone.
  abbrev pub Accounts : List Attempt → (ℕ → List PayoutItem) → (ℕ → List PayoutItem) → Type 0
  Accounts todo held held' = (k : ℕ) → (held' k ≡ held k) ⊎ ((held' k ≡ []) × Any (Resolves k) todo)

  abbrev pub IsPaid : List Attempt → ℕ × String × ℤ → Type 0
  IsPaid todo (m, t, amount) = Any (Pays t) todo

  close-Accounts :
      (a : Attempt) (more : List Attempt) (held : ℕ → List PayoutItem)
      → ((t : String) × Pays t a) ⊎ IsReleasable w a
      → Accounts (a ∷ more) held (close a.id held)
  close-Accounts a more held why k = elim (Bool-cases (k == a.id)) [
    | inl e ↦ inr (rw e refl, inl (sym ((==_iff k a.id).0 e), why))
    | inr e ↦ inl (rw e refl)
  ]

  rule-Accounts :
      (a : Attempt) (more : List Attempt) (b : Books) (c : Bool) (v : Verdict)
      → judge w a ≡ v
      → Accounts (a ∷ more) b.reservations (rule c a.id v b).reservations
  rule-Accounts a more b c pass e k = inl refl
  rule-Accounts a more b c (leave alert) e k = inl refl
  rule-Accounts a more b true (confirm t) e k =
      close-Accounts a more b.reservations (inl (t, judge-confirm w a t e)) k
  rule-Accounts a more b false (confirm t) e k = inl refl
  rule-Accounts a more b true refund e k =
      close-Accounts a more b.reservations (inr (judge-refund w a e)) k
  rule-Accounts a more b false refund e k = inl refl

  rule_all-Accounts :
      (todo : List Attempt) (b : Books)
      → Accounts todo b.reservations (rule_all w todo b).reservations
  unfolding rule_all
  rule_all-Accounts [] b k = inl refl
  rule_all-Accounts (a ∷ more) b k =
      let b' = rule (w.commits a.id) a.id (judge w a) b in
      elim (rule_all-Accounts more b' k) [
        | inr (gone, why) ↦ inr (gone, inr why)
        | inl same ↦ elim (rule-Accounts a more b (w.commits a.id) (judge w a) refl k) [
          | inl same' ↦ inl (same ∙ same')
          | inr (gone, why) ↦ inr (same ∙ gone, why)
        ]
      ]

  payments_for :
      (a : Attempt) (more : List Attempt) (t : String) (is : List PayoutItem)
      → Pays t a
      → All (IsPaid (a ∷ more)) (map (payment_for t) is)
  payments_for a more t [] h = tt
  payments_for a more t (i ∷ is) h = (inl h, payments_for a more t is h)

  -- The payments grow at the end, each by a transaction that the node has.
  abbrev pub Grows : List Attempt → List (ℕ × String × ℤ) → List (ℕ × String × ℤ) → Type 0
  Grows todo ps ps' =
      (extra : List (ℕ × String × ℤ)) × (ps' ≡ ps ++ extra) × All (IsPaid todo) extra

  rule-Grows :
      (a : Attempt) (more : List Attempt) (b : Books) (c : Bool) (v : Verdict)
      → judge w a ≡ v
      → Grows (a ∷ more) b.payments (rule c a.id v b).payments
  rule-Grows a more b c pass e = ([], sym (append-nil b.payments), tt)
  rule-Grows a more b c (leave alert) e = ([], sym (append-nil b.payments), tt)
  rule-Grows a more b true (confirm t) e = (
    map (payment_for t) (b.reservations a.id),
    refl,
    payments_for a more t (b.reservations a.id) (judge-confirm w a t e),
  )
  rule-Grows a more b false (confirm t) e = ([], sym (append-nil b.payments), tt)
  rule-Grows a more b true refund e = ([], sym (append-nil b.payments), tt)
  rule-Grows a more b false refund e = ([], sym (append-nil b.payments), tt)

  rule_all-Grows :
      (todo : List Attempt) (b : Books) → Grows todo b.payments (rule_all w todo b).payments
  unfolding rule_all
  rule_all-Grows [] b = ([], sym (append-nil b.payments), tt)
  rule_all-Grows (a ∷ more) b =
      let b' = rule (w.commits a.id) a.id (judge w a) b in
      let (now_, e, p) = rule-Grows a more b (w.commits a.id) (judge w a) refl in
      let (later, e', p') = rule_all-Grows more b' in
      (
        now_ ++ later,
        e' ∙ ap (λ ps. ps ++ later) e ∙ append_assoc b.payments now_ later,
        All-append (IsPaid (a ∷ more)) now_ later p
            (All-weaken (IsPaid more) (IsPaid (a ∷ more)) later (λ _ h. inr h) p'),
      )

-- A sweep over the reservations of a sound database is safe for whatever the wallet and the node
-- answer: each attempt keeps its reservation, or has none left and is one of the listed attempts
-- with a transaction that the node has or a reason why no transaction can pay any more; and the
-- payments grow only by payments under such a transaction.
pub reconcile_is_justified :
    (w : Answers) (minutes : Option ℕ) (now : ℕ) (s : Summary) (db : Db)
    → IsSound db
    → let todo = get_reserved_attempts minutes now db in
      let b = view db in
      let b' = view (reconcile_reserved_payouts w minutes now (s, db)).1 in
      Accounts w todo b.reservations b'.reservations × Grows w todo b.payments b'.payments
reconcile_is_justified w minutes now s db h =
    let todo = get_reserved_attempts minutes now db in
    let (_, same) = reconcile_refines w minutes now s db h in
    (
      subst (λ (b : Books). Accounts w todo (view db).reservations b.reservations) (sym same)
          (rule_all-Accounts w todo (view db)),
      subst (λ (b : Books). Grows w todo (view db).payments b.payments) (sym same)
          (rule_all-Grows w todo (view db)),
    )
