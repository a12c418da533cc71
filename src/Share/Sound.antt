-- ===== src/Share/Sound.antt =====
-- crates/pool-core/src/share.rs: what a share that `validate_share` accepts has been checked for.
use mathlib.Core.List.{Mem, mem-cons, mem-reverse}
use zcash_mining_pool.Prelude.{
  ℕ, ◌-◌, ◌≤◌, ◌≡◌, refl, sym, subst, ◌⊎◌, inl, inr, true, String, List, [], ◌∷◌, ◌++◌, ◌==◌,
  ==_iff, ltb, if-inversion, Option, some, none, length, reverse, arith, Result, ok, err, >>=-eq-ok,
  ok_or-eq-ok, guard-eq-ok, guard, ok_or,
}
use zcash_mining_pool.Float.{Float}
use zcash_mining_pool.Stratum.{StratumError, other, low_difficulty}
use zcash_mining_pool.Wire.{compact_size, strip_compact_size}
use zcash_mining_pool.Share.Target.{meets_target, parse_target}
use zcash_mining_pool.Share.Session.{Session, GraceTarget}
use zcash_mining_pool.Share.Validate.{
  Crypto, Job, Submission, Accepted, solution, sized, canonical, check_time, build_header_input,
  full_nonce, net_target, accepted, first_match, standing, credited, check_work, prepare, mark,
  check_share, after_mark, on_prepared, validate_for, validate_share,
}

-- The solution that goes into the header is built from the 1344 bytes that are verified.
abbrev canonical_ok : List ℕ → Result StratumError (List ℕ × List ℕ)
canonical_ok raw = ok (canonical raw)

abbrev pub IsCanonical : List ℕ → List ℕ → Type 0
IsCanonical raw for_header = (length raw ≡ 1344) × (for_header ≡ compact_size 1344 ++ raw)

solution-IsCanonical :
    (bytes raw for_header : List ℕ)
    → solution bytes ≡ ok (raw, for_header)
    → IsCanonical raw for_header
unfolding solution
solution-IsCanonical bytes raw for_header e = elim (if-inversion (length bytes == 1344) e) [
  | inl (n, p) ↦ whole bytes n p
  | inr (_, e') ↦ elim (if-inversion (ltb 1344 (length bytes)) e') [
    | inl (_, p) ↦
        let (body, _, q) = >>=-eq-ok (strip_compact_size bytes) sized p in stripped body q
    | inr (_, p) ↦ absurd cc
  ]
]
  where
    whole :
        (body : List ℕ)
        → (length body == 1344) ≡ true
        → canonical_ok body ≡ ok (raw, for_header)
        → IsCanonical raw for_header
    whole body n p =
        let same : body ≡ raw = cc in
        let header : compact_size 1344 ++ body ≡ for_header = cc in
        (rw (sym same) (ground arith), rw (sym same) (sym header))

    stripped : (body : List ℕ) → sized body ≡ ok (raw, for_header) → IsCanonical raw for_header
    stripped body q = elim (if-inversion (length body == 1344) q) [
      | inl (n, p) ↦ whole body n p
      | inr (_, p) ↦ absurd cc
    ]

module _ (R : Float) where
  open R use {F}

  -- The hash meets a grace target of the list that is at most 60 seconds old, and `d` is its difficulty.
  abbrev pub MeetsGrace : ℕ → List ℕ → List (GraceTarget R) → F → Type 0
  MeetsGrace now hash grace d =
      (g : GraceTarget R) × Mem g grace
      × (now - g.set_at ≤ 60000)
      × (meets_target hash g.target ≡ true)
      × (d ≡ g.difficulty)

  first_match-MeetsGrace :
      (now : ℕ) (hash : List ℕ) (grace : List (GraceTarget R)) (d : F)
      → first_match R now hash grace ≡ some d
      → MeetsGrace now hash grace d
  unfolding first_match
  first_match-MeetsGrace now hash [] d e = cc
  first_match-MeetsGrace now hash (g ∷ gs) d e =
      elim (if-inversion (ltb 60000 (now - g.set_at)) e) [
        | inl (_, e') ↦ later (first_match-MeetsGrace now hash gs d e')
        | inr (y, e') ↦ elim (if-inversion (meets_target hash g.target) e') [
          | inl (m, p) ↦ (g, mem-cons.1 ∣ inl refl ∣₁, ground arith, m, cc)
          | inr (_, p) ↦ later (first_match-MeetsGrace now hash gs d p)
        ]
      ]
    where
      later : MeetsGrace now hash gs d → MeetsGrace now hash (g ∷ gs) d
      later (h, m, a, b, c) = (h, mem-cons.1 ∣ inr m ∣₁, a, b, c)

  -- The hash meets the target that the session stands on, or a grace target, and `d` is its difficulty.
  abbrev pub Live : ℕ → List ℕ → List ℕ × F × List (GraceTarget R) → F → Type 0
  Live now hash (target, difficulty, grace) d =
      ((meets_target hash target ≡ true) × (d ≡ difficulty)) ⊎ MeetsGrace now hash grace d

  credited-Live :
      (now : ℕ) (hash : List ℕ) (st : List ℕ × F × List (GraceTarget R)) (d : F)
      → credited R now hash st ≡ some d
      → Live now hash st d
  unfolding credited
  credited-Live now hash (target, difficulty, grace) d e =
      elim (if-inversion (meets_target hash target) e) [
        | inl (m, p) ↦ inl (m, cc)
        | inr (_, p) ↦
            let (g, m, x, y, z) = first_match-MeetsGrace now hash (reverse grace) d p in
            inr (g, mem-reverse.0 m, x, y, z)
      ]

  -- What `check_work` has established of an accepted share.
  unfoldable pub IsWork :
      Crypto
      → ℕ
      → Job
      → List ℕ × F × List (GraceTarget R)
      → List ℕ
      → List ℕ
      → List ℕ
      → List ℕ
      → Accepted R
      → Type 0
  IsWork c now job st header nonce raw for_header a =
      (a.full_header ≡ header ++ nonce ++ for_header)
      × (a.hash ≡ c.sha256d a.full_header)
      × Live now a.hash st a.difficulty
      × (c.is_valid_solution header nonce raw ≡ true)
      × (network : List ℕ) × (parse_target c.decode job.target ≡ ok network)
      × (a.is_block ≡ meets_target a.hash network)

  check_work-IsWork :
      (c : Crypto) (now : ℕ) (job : Job) (st : List ℕ × F × List (GraceTarget R))
      (header nonce raw for_header : List ℕ) (a : Accepted R)
      → check_work R c now job st header nonce (raw, for_header) ≡ ok a
      → IsWork c now job st header nonce raw for_header a
  unfolding IsWork check_work
  check_work-IsWork c now job st header nonce raw for_header a e =
      let (d, e1, f1) = >>=-eq-ok (ok_or (credited R now hash st) low_difficulty) _ e in
      let (_, e2, f2) =
        >>=-eq-ok (guard (c.is_valid_solution header nonce raw) (other "Invalid Equihash solution"))
          _ f1 in
      let (network, e3, f3) = >>=-eq-ok (net_target (parse_target c.decode job.target)) _ f2 in
      let same : accepted R d full hash network ≡ a = cc in
      subst (IsWork c now job st header nonce raw for_header) same (
        refl,
        refl,
        credited-Live now hash st d (ok_or-eq-ok (credited R now hash st) low_difficulty e1),
        guard-eq-ok (c.is_valid_solution header nonce raw) (other "Invalid Equihash solution") e2,
        network,
        from_net (parse_target c.decode job.target) network e3,
        refl,
      )
    where
      full : List ℕ
      full = header ++ nonce ++ for_header

      hash : List ℕ
      hash = c.sha256d full

      from_net : (r : Result String (List ℕ)) (t : List ℕ) → net_target r ≡ ok t → r ≡ ok t
      from_net (ok t') t h = cc
      from_net (err x) t h = cc

  on_prepared-ok :
      (f : List ℕ × List ℕ × List ℕ → Result StratumError (Accepted R) × Option (Session R))
      (sd sd' : Option (Session R)) (r : Result StratumError (List ℕ × List ℕ × List ℕ))
      (a : Accepted R)
      → on_prepared R f sd r ≡ (ok a, sd')
      → (p : List ℕ × List ℕ × List ℕ) × (r ≡ ok p) × (f p ≡ (ok a, sd'))
  on_prepared-ok f sd sd' (err x) a e = cc
  on_prepared-ok f sd sd' (ok p) a e = (p, refl, e)

  after_mark-ok :
      (f : Option (Session R) → Result StratumError (Accepted R)) (sd sd' : Option (Session R))
      (r : Result StratumError (Option (Session R))) (a : Accepted R)
      → after_mark R f sd r ≡ (ok a, sd')
      → f sd' ≡ ok a
  after_mark-ok f sd sd' (err x) a e = cc
  after_mark-ok f sd sd' (ok s) a e = cc

  -- What `prepare` and the header have established.
  unfoldable pub IsShare :
      Crypto → List ℕ → ℕ → Job → Submission R → Option (Session R) → Accepted R → Type 0
  unfolding IsWork
  IsShare c default_target now j s sd a =
      (header : List ℕ) × (nonce : List ℕ) × (raw : List ℕ) × (for_header : List ℕ)
      × (build_header_input c j s.time ≡ ok header)
      × (length nonce ≡ 32)
      × IsCanonical raw for_header
      × IsWork c now j (standing R default_target sd) header nonce raw for_header a

  full_nonce-length :
      (c : Crypto) (n m : String) (nonce : List ℕ) → full_nonce c n m ≡ ok nonce → length nonce ≡ 32
  unfolding full_nonce
  full_nonce-length c n m nonce e =
      let (bytes, _, f) =
        >>=-eq-ok (ok_or (c.decode (c.join n m)) (other "Invalid nonce hex")) _ e in
      let (_, g, h) = >>=-eq-ok (guard (length bytes == 32) (other "Nonce must be 32 bytes")) _ f in
      let same : bytes ≡ nonce = cc in
      subst (λ bs. length bs ≡ 32) same
        ((==_iff (length bytes) 32).0
          (guard-eq-ok (length bytes == 32) (other "Nonce must be 32 bytes") g))

  check_share-IsShare :
      (c : Crypto) (default_target : List ℕ) (now_ms now_secs : ℕ) (j : Job) (s : Submission R)
      (sd : Option (Session R)) (p : List ℕ × List ℕ × List ℕ) (a : Accepted R)
      → prepare R c s ≡ ok p
      → check_share R c default_target now_ms now_secs j s p sd ≡ ok a
      → IsShare c default_target now_ms j s sd a
  unfolding IsShare prepare check_share
  check_share-IsShare c default_target now_ms now_secs j s sd (nonce, raw, fh) a e e' =
      let (n, p0, q0) = >>=-eq-ok (full_nonce c s.nonce_1 s.nonce_2) _ e in
      let (bytes, p1, q1) =
        >>=-eq-ok (ok_or (c.decode s.equihash_solution) (other "Invalid solution hex")) _ q0 in
      let (solved, p2, q2) = >>=-eq-ok (solution bytes) _ q1 in
      let (_, p3, q3) = >>=-eq-ok (check_time c j.curtime now_secs s.time) _ e' in
      let (header, p4, q4) = >>=-eq-ok (build_header_input c j s.time) _ q3 in
      let same : n ≡ nonce = cc in
      let same_raw : solved.0 ≡ raw = cc in
      let same_fh : solved.1 ≡ fh = cc in
      (
        header,
        nonce,
        raw,
        fh,
        p4,
        subst (λ bs. length bs ≡ 32) same (full_nonce-length c s.nonce_1 s.nonce_2 n p0),
        subst (λ x. IsCanonical x fh) same_raw
            (subst (IsCanonical solved.0) same_fh
              (solution-IsCanonical bytes solved.0 solved.1 p2)),
        check_work-IsWork c now_ms j (standing R default_target sd) header nonce raw fh a q4,
      )

  -- A share that `validate_share` accepts is for a job that there is, and the hash that is compared is
  -- that of the job's header with a nonce of 32 bytes and with the canonical form of a solution of
  -- 1344 bytes, which the Equihash verifier has accepted. The hash meets the target of the
  -- session, or the pool's target where there is no session, or a grace target that is at most 60
  -- seconds old, and the credited difficulty is that target's; and the share is a block exactly when
  -- it meets the job's target.
  pub validate_share-IsShare :
      (c : Crypto) (default_target : List ℕ) (now_ms now_secs : ℕ) (job : Option Job)
      (s : Submission R) (sd sd' : Option (Session R)) (a : Accepted R)
      → validate_share R c default_target now_ms now_secs job s sd ≡ (ok a, sd')
      → (j : Job) × (job ≡ some j) × IsShare c default_target now_ms j s sd' a
  unfolding validate_share validate_for
  validate_share-IsShare c default_target now_ms now_secs none s sd sd' a e = cc
  validate_share-IsShare c default_target now_ms now_secs (some j) s sd sd' a e =
      let (p, p0, e0) = on_prepared-ok _ sd sd' (prepare R c s) a e in
      let e1 = after_mark-ok _ sd sd' (mark R (c.fingerprint j.job_id p.0 p.1) sd) a e0 in
      (j, refl, check_share-IsShare c default_target now_ms now_secs j s sd' p a p0 e1)
