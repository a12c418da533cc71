-- ===== src/Payout/Reconciler/Phantoms/Voided.antt =====
-- Which payments `check_phantom_payouts` of crates/pool-dashboard/src/reconciler.rs voids.
use zcash_mining_pool.Prelude.{
  ℕ, ◌+◌, ◌&&◌, Option, none, some, ◌≡◌, refl, sym, ap, subst, ◌∙◌, String, Bool, true, false, ◌⊎◌,
  inl, inr, Bool-cases, List, [], ◌∷◌, arith, ltb, leb, str_eq, eq_iff, Result, ok, err, ℤ,
  if-cases,
}
use zcash_mining_pool.Sql.{affected, select, delete, update, select-delete, select-delete_other}
use zcash_mining_pool.Ledger.Tables.{Payout, Attempt, AttemptStatus, Db, DbError}
use zcash_mining_pool.Ledger.Payouts.{
  of_txid, is_fresh, is_confirmed, has_txid, fail_attempt, void_reorged_payout,
}
use zcash_mining_pool.Ledger.Payouts.Sound.{IsSound, owed}
use zcash_mining_pool.Ledger.Payouts.Void.{void_cases}
use zcash_mining_pool.Payout.Rpc.{RpcError, is_definitely_not_found}
use zcash_mining_pool.Payout.Reconciler.{Summary}
use zcash_mining_pool.Payout.Reconciler.Phantoms.{
  Lookups, on_void, void_or_alert, on_payout_lookup, check_payout, check_payouts,
  check_phantom_payouts, get_recent_payout_txids,
}

abbrev is_young : ℕ → Payout → Bool
is_young now p = ltb now (p.created_at + 3600)

-- Whether a payment is fresh is seen from its own rows.
fresh_by_select :
    (t : String) (now : ℕ) (ps : List Payout)
    → affected (is_fresh t now) ps ≡ affected (is_young now) (select (of_txid t) ps)
unfolding affected select
fresh_by_select t now [] = refl
fresh_by_select t now (p ∷ ps) = elim (Bool-cases (str_eq p.txid t)) [
  | inl e ↦ rw (e, affected, fresh_by_select t now ps) refl
  | inr e ↦ rw (e, fresh_by_select t now ps) (omega arith)
]

other_txid :
    (t u : String) (ps : List Payout)
    → str_eq t u ≡ false
    → select (of_txid t) (delete (of_txid u) ps) ≡ select (of_txid t) ps
other_txid t u ps ne = select-delete_other (of_txid t) (of_txid u) ps (λ p e.
    elim (Bool-cases (str_eq p.txid t)) [
      | inr no_match ↦ no_match
      | inl e' ↦
          let same : t ≡ u = sym ((eq_iff p.txid t).0 e') ∙ (eq_iff p.txid u).0 e in
          let yes_ : str_eq t u ≡ true = (eq_iff t u).1 same in absurd cc
    ])

confirmed_inv : (s : AttemptStatus) → is_confirmed s ≡ true → s ≡ AttemptStatus.confirmed
confirmed_inv AttemptStatus.queued e = absurd cc
confirmed_inv AttemptStatus.submitting e = absurd cc
confirmed_inv AttemptStatus.sent e = absurd cc
confirmed_inv AttemptStatus.confirmed e = refl
confirmed_inv AttemptStatus.failed e = absurd cc

has_txid_inv : (t : String) (o : Option String) → has_txid t o ≡ true → o ≡ some t
has_txid_inv t none e = absurd cc
has_txid_inv t (some u) e = ap some ((eq_iff u t).0 e)

and-true : (a b : Bool) → (a && b) ≡ true → (a ≡ true) × (b ≡ true)
and-true true b e = (refl, e)
and-true false b e = absurd cc

module _ (w : Lookups) (auto_void : Bool) where
  -- The node denies the transaction, and no row of its payment is younger than sixty minutes.
  abbrev pub IsGone : String → Db → Type 0
  IsGone t db =
      (e : RpcError) × (w.raw_transaction t ≡ err e)
      × (is_definitely_not_found e ≡ true)
      × (auto_void ≡ true)
      × (affected (is_fresh t (w.now t)) db.payouts ≡ 0)

  abbrev pub KeepsOrVoids : Db → Db → String → Type 0
  KeepsOrVoids db db' t =
      (select (of_txid t) db'.payouts ≡ select (of_txid t) db.payouts)
      ⊎ ((select (of_txid t) db'.payouts ≡ []) × IsGone t db)

  -- An attempt stays as it is, or it was confirmed under a payment that is gone, and has failed.
  abbrev pub KeepsOrFails : Db → Attempt → Attempt → Type 0
  KeepsOrFails db a a' =
      (a' ≡ a)
      ⊎ ((a' ≡ record a { status = AttemptStatus.failed })
          × (a.status ≡ AttemptStatus.confirmed)
          × (t : String) × (a.txid ≡ some t)
          × IsGone t db)

  abbrev pub AttemptsKept : Db → List Attempt → List Attempt → Type 0
  AttemptsKept db [] [] = Unit
  AttemptsKept db [] (a' ∷ as') = ⊥
  AttemptsKept db (a ∷ rest) [] = ⊥
  AttemptsKept db (a ∷ rest) (a' ∷ rest') = KeepsOrFails db a a' × AttemptsKept db rest rest'

  -- What a check may do: the tables stay sound and the balances their sum, each payment is kept or
  -- voided for cause, each attempt kept or failed for cause, and no other table changes.
  abbrev pub Checked : Db → Db → Type 0
  Checked db db' =
      IsSound db'
      × (owed db' ≡ owed db)
      × ((t : String) → KeepsOrVoids db db' t)
      × AttemptsKept db db.attempts db'.attempts
      × (db'
          ≡ record db { balances = db'.balances; payouts = db'.payouts; attempts = db'.attempts })

  all_kept : (db : Db) (xs : List Attempt) → AttemptsKept db xs xs
  all_kept db [] = tt
  all_kept db (x ∷ xs) = (inl refl, all_kept db xs)

  fail-Kept :
      (u : String) (db : Db) (xs : List Attempt)
      → IsGone u db
      → AttemptsKept db xs (update (λ a. true) (fail_attempt u) xs)
  unfolding update
  fail-Kept u db [] gone = tt
  fail-Kept u db (x ∷ xs) gone = elim (Bool-cases (has_txid u x.txid && is_confirmed x.status)) [
    | inl e ↦ (
      rw e (
          inr (
            refl,
            confirmed_inv x.status (and-true (has_txid u x.txid) (is_confirmed x.status) e).1,
            u,
            has_txid_inv u x.txid (and-true (has_txid u x.txid) (is_confirmed x.status) e).0,
            gone,
          )),
      fail-Kept u db xs gone,
    )
    | inr e ↦ (rw e (inl refl), fail-Kept u db xs gone)
  ]

  same-Checked : (db db' : Db) → IsSound db → db' ≡ db → Checked db db'
  same-Checked db db' h e = rw e (h, refl, (λ t. inl refl), all_kept db db.attempts, refl)

  on_void-db :
      (t : String) (r : Result DbError (ℕ × ℤ)) (s : Summary) (db : Db)
      → (on_void t r (s, db)).1 ≡ db
  on_void-db t (err e) s db = refl
  on_void-db t (ok (rows, zats)) s db =
      if-cases (λ (x : Summary × Db). x.1 ≡ db) (leb 1 rows) (λ _. refl) (λ _. refl)

  void-Checked :
      (u : String) (e : RpcError) (s : Summary) (db : Db)
      → w.raw_transaction u ≡ err e
      → is_definitely_not_found e ≡ true
      → auto_void ≡ true
      → IsSound db
      → Checked db (void_reorged_payout (w.commits u) u (w.now u) db).1
  void-Checked u e s db asked denied auto h = elim (void_cases (w.commits u) u (w.now u) db h) [
    | inl same ↦ same-Checked db _ h same
    | inr (_, old, v) ↦
        let gone : IsGone u db = (e, asked, denied, auto, old) in
        (
          v.sound,
          v.keeps,
          (λ t. elim (Bool-cases (str_eq t u)) [
            | inr ne ↦ inl (ap (select (of_txid t)) v.payouts ∙ other_txid t u db.payouts ne)
            | inl eq ↦
                let same : t ≡ u = (eq_iff t u).0 eq in
                subst (KeepsOrVoids db (void_reorged_payout (w.commits u) u (w.now u) db).1)
                  (sym same)
                  (inr (
                    ap (select (of_txid u)) v.payouts ∙ select-delete (of_txid u) db.payouts,
                    gone,
                  ))
          ]),
          elim v.fails [
            | inl same ↦ rw same (all_kept db db.attempts)
            | inr failed ↦ rw failed (fail-Kept u db db.attempts gone)
          ],
          v.only,
        )
  ]

  alert-Checked :
      (a : Bool) (u : String) (e : RpcError) (s : Summary) (db : Db)
      → auto_void ≡ a
      → w.raw_transaction u ≡ err e
      → is_definitely_not_found e ≡ true
      → IsSound db
      → Checked db (void_or_alert w auto_void a u (s, db)).1
  alert-Checked false u e s db auto asked denied h = same-Checked db db h refl
  alert-Checked true u e s db auto asked denied h =
      let (r, db') = void_reorged_payout (w.commits u) u (w.now u) db in
      rw (on_void-db u r s db') (void-Checked u e s db asked denied auto h)

  lookup-Checked :
      (u : String) (r : Result RpcError (Unit {0})) (s : Summary) (db : Db)
      → w.raw_transaction u ≡ r
      → IsSound db
      → Checked db (on_payout_lookup w auto_void u r (s, db)).1
  lookup-Checked u (ok _) s db asked h = same-Checked db db h refl
  lookup-Checked u (err e) s db asked h =
      if-cases (λ (x : Summary × Db). Checked db x.1) (is_definitely_not_found e)
        (λ denied. alert-Checked auto_void u e s db refl asked denied h)
        (λ _. same-Checked db db h refl)

  before-IsGone : (t : String) (a b : Db) → KeepsOrVoids a b t → IsGone t b → IsGone t a
  before-IsGone t a b (inr (_, gone)) _ = gone
  before-IsGone t a b (inl x) (e, asked, denied, auto, old) =
      let now = w.now t in
      (
        e,
        asked,
        denied,
        auto,
        fresh_by_select t now a.payouts
            ∙ ap (affected (is_young now)) (sym x)
            ∙ sym (fresh_by_select t now b.payouts)
            ∙ old,
      )

  trans-KeepsOrVoids :
      (t : String) (a b c : Db) → KeepsOrVoids a b t → KeepsOrVoids b c t → KeepsOrVoids a c t
  trans-KeepsOrVoids t a b c (inl x) (inl y) = inl (y ∙ x)
  trans-KeepsOrVoids t a b c (inr (x, gone)) (inl y) = inr (y ∙ x, gone)
  trans-KeepsOrVoids t a b c k (inr (y, gone)) = inr (y, before-IsGone t a b k gone)

  trans-KeepsOrFails :
      (db mid : Db) (a b c : Attempt)
      → ((t : String) → KeepsOrVoids db mid t)
      → KeepsOrFails db a b
      → KeepsOrFails mid b c
      → KeepsOrFails db a c
  trans-KeepsOrFails db mid a b c fates (inl x) (inl y) = inl (y ∙ x)
  trans-KeepsOrFails db mid a b c fates (inr (x, was, t, named, gone)) (inl y) =
      inr (y ∙ x, was, t, named, gone)
  trans-KeepsOrFails db mid a b c fates (inl x) (inr (y, was, t, named, gone)) = inr (
    y ∙ ap (λ (z : Attempt). record z { status = AttemptStatus.failed }) x,
    ap (λ (z : Attempt). z.status) (sym x) ∙ was,
    t,
    ap (λ (z : Attempt). z.txid) (sym x) ∙ named,
    before-IsGone t db mid (fates t) gone,
  )
  trans-KeepsOrFails db mid a b c fates (inr (x, _, _, _, _)) (inr (y, was, _, _, _)) =
      let clash : AttemptStatus.failed ≡ AttemptStatus.confirmed =
        ap (λ (z : Attempt). z.status) (sym x) ∙ was in
      absurd cc

  trans-AttemptsKept :
      (db mid : Db) (xs ys zs : List Attempt)
      → ((t : String) → KeepsOrVoids db mid t)
      → AttemptsKept db xs ys
      → AttemptsKept mid ys zs
      → AttemptsKept db xs zs
  trans-AttemptsKept db mid [] [] zs fates h k = none_left zs k
    where
      none_left : (zs : List Attempt) → AttemptsKept mid [] zs → AttemptsKept db [] zs
      none_left [] k = tt
      none_left (z ∷ zs) k = k
  trans-AttemptsKept db mid [] (y ∷ ys) zs fates h k = absurd h
  trans-AttemptsKept db mid (x ∷ xs) [] zs fates h k = absurd h
  trans-AttemptsKept db mid (x ∷ xs) (y ∷ ys) [] fates h k = k
  trans-AttemptsKept db mid (x ∷ xs) (y ∷ ys) (z ∷ zs) fates h k = (
    trans-KeepsOrFails db mid x y z fates h.0 k.0,
    trans-AttemptsKept db mid xs ys zs fates h.1 k.1,
  )

  trans-Checked : (a b c : Db) → Checked a b → Checked b c → Checked a c
  trans-Checked a b c (_, kept, fates, tries, only) (sound, kept', fates', tries', only') = (
    sound,
    kept' ∙ kept,
    (λ t. trans-KeepsOrVoids t a b c (fates t) (fates' t)),
    trans-AttemptsKept a b a.attempts b.attempts c.attempts fates tries tries',
    only'
        ∙ ap
            (λ (x : Db). record x {
              balances = c.balances;
              payouts = c.payouts;
              attempts = c.attempts;
            })
            only,
  )

  check_payouts-Checked :
      (ts : List String) (s : Summary) (db : Db)
      → IsSound db
      → Checked db (check_payouts w auto_void ts (s, db)).1
  unfolding check_payouts check_payout
  check_payouts-Checked [] s db h = same-Checked db db h refl
  check_payouts-Checked (u ∷ ts) s db h =
      let (s', mid) = check_payout w auto_void u (s, db) in
      let checked = lookup-Checked u (w.raw_transaction u) s db refl h in
      trans-Checked db mid (check_payouts w auto_void ts (s', mid)).1 checked
        (check_payouts-Checked ts s' mid checked.0)

-- The phantom check keeps a sound database sound, and the sum of all balances. The rows of a payment
-- stay as they are, or they are all voided where voiding is switched on, the node itself denied the
-- transaction, and none of the rows was younger than sixty minutes; an attempt stays as it is, or
-- was confirmed under such a payment and is marked as failed; and nothing but the balances, the
-- payments and the attempts changes.
pub check_phantom_voids :
    (w : Lookups) (auto_void : Bool) (now : ℕ) (s : Summary) (db : Db)
    → IsSound db
    → Checked w auto_void db (check_phantom_payouts w auto_void now (s, db)).1
unfolding check_phantom_payouts
check_phantom_voids w auto_void now s db h =
    check_payouts-Checked w auto_void (get_recent_payout_txids 24 now db) s db h
