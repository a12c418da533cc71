-- ===== src/Share/Dedup.antt =====
-- crates/pool-core/src/share.rs: the bounded memory of a session, and the rejection of replays.
use mathlib.Core.List.{append_assoc}
use zcash_mining_pool.Prelude.{
  ℕ, suc, ◌-◌, ◌==◌, ◌≤◌, ◌<◌, ◌≡◌, refl, sym, subst, true, List, [], ◌∷◌, ◌++◌, ltb, Bool-cases,
  inl, inr, if_err-eq-ok, if◌then◌else◌, if-cases, length, drop, length-append, arith, ok, err,
}
use zcash_mining_pool.Float.{Float}
use zcash_mining_pool.Stratum.{duplicate_share}
use zcash_mining_pool.Vardiff.{Tracker, Reason}
use zcash_mining_pool.Share.Session.{
  Session, RateStatus, member, push_capped, remember, share_dedup_history, check_rate,
  count_accepted, count_rejected, set_target, reset_difficulty, push_grace_target, log_adjustment,
}

capped {ℓ} :
    {A : Type ℓ} (n : ℕ) (xs : List A)
    → length xs ≤ suc n
    → length (if ltb n (length xs) then drop 1 xs else xs) ≤ n
capped n [] h = ground arith
capped n (x ∷ xs) h = elim (Bool-cases (ltb n (length (x ∷ xs)))) [
  | inl e ↦ rw e (omega (arith, h))
  | inr e ↦ rw e (ground arith)
]

-- A capped list never holds more than its cap.
pub length-push_capped {ℓ} :
    {A : Type ℓ} (n : ℕ) (a : A) (xs : List A) → length xs ≤ n → length (push_capped n a xs) ≤ n
unfolding push_capped
length-push_capped n a xs h = capped n (xs ++ a ∷ []) (omega (arith, length-append xs (a ∷ []), h))

-- `a` stands in the list with at most `k` entries after it.
abbrev Recent : ℕ → ℕ → List ℕ → Type 0
Recent k a xs =
    (before : List ℕ) × (after : List ℕ) × (xs ≡ before ++ (a ∷ after)) × (length after ≤ k)

member-Recent : (k a : ℕ) (xs : List ℕ) → Recent k a xs → member a xs ≡ true
unfolding member
member-Recent k a xs (before, after, e, h) = subst (λ ys. member a ys ≡ true) (sym e) (found before)
  where
    found : (before : List ℕ) → member a (before ++ (a ∷ after)) ≡ true
    found [] = ground arith
    found (b ∷ bs) = rw (found bs) (ground arith)

-- The entry that has just been put into the list stands at its end.
push_capped-Recent : (n a : ℕ) (xs : List ℕ) → 0 < n → Recent 0 a (push_capped n a xs)
unfolding push_capped
push_capped-Recent n a [] h =
    if-cases (Recent 0 a) (ltb n 1) (λ e. absurd (ground arith)) (λ e. ([], [], refl, omega arith))
push_capped-Recent n a (x ∷ xs) h =
    if-cases (Recent 0 a) (ltb n (length (x ∷ xs ++ a ∷ []))) (λ e. (xs, [], refl, omega arith))
      (λ e. (x ∷ xs, [], refl, omega arith))

-- An entry stays in the list while fewer than `n` have come after it.
push_capped-keeps :
    (n k a b : ℕ) (xs : List ℕ) → suc k < n → Recent k a xs → Recent (suc k) a (push_capped n b xs)
unfolding push_capped
push_capped-keeps n k a b xs h ([], after, e, l) = rw e (
    if-cases (Recent (suc k) a) (ltb n (length (a ∷ after ++ b ∷ [])))
      (λ e'. absurd (ground (arith, length-append after (b ∷ []))))
      (λ _. ([], after ++ b ∷ [], refl, omega (arith, length-append after (b ∷ []), l))))
push_capped-keeps n k a b xs h (c ∷ before, after, e, l) =
    rw (e, append_assoc before (a ∷ after) (b ∷ []))
      (if-cases (Recent (suc k) a) _
        (λ _. (before, after ++ b ∷ [], refl, omega (arith, length-append after (b ∷ []), l)))
        (λ _. (c ∷ before, after ++ b ∷ [], refl, omega (arith, length-append after (b ∷ []), l))))

module _ (R : Float) where
  open R use {F, le, ratio}

  -- What else the validator's loop does to a session: the rate window, the counters, the streak of
  -- low shares, the tracker, a retarget, and the reset of the difficulty.
  pub data Change : Session R → Session R → Type 0 where
    rate_checked : (now : ℕ) (sd : Session R) → Change sd (check_rate R now sd).1
    counted : (sd : Session R) → Change sd (count_accepted R sd)
    rejected : (code : ℕ) (sd : Session R) → Change sd (count_rejected R code sd)
    streak : (n : ℕ) (sd : Session R) → Change sd (record sd { low_diff_streak = n })
    tracked : (v : Tracker R) (sd : Session R) → Change sd (record sd { vardiff = v })
    retargeted :
        (now : ℕ) (d : F) (reason : Reason) (target : List ℕ) (sd : Session R)
        → Change sd (set_target R now d reason target sd)
    reset_to :
        (now : ℕ) (d : F) (v : Tracker R) (target : List ℕ) (sd : Session R)
        → Change sd (reset_difficulty R now d v target sd)

  Change-keeps : {sd sd' : Session R} → Change sd sd' → sd'.recent_share_fps ≡ sd.recent_share_fps
  unfolding check_rate count_accepted count_rejected set_target reset_difficulty push_grace_target
      log_adjustment
  Change-keeps (rate_checked now sd) =
      if-cases (λ (r : RateStatus × Session R). r.1.recent_share_fps ≡ sd.recent_share_fps)
        (le (ratio 1 1) (ratio (now - sd.rate_window_start) 1000)) (λ _. refl) (λ _. refl)
  Change-keeps (counted sd) = refl
  Change-keeps (rejected code sd) =
      if-cases (λ (s : Session R). s.recent_share_fps ≡ sd.recent_share_fps) (code == 21)
        (λ _. refl)
        (λ _.
          if-cases (λ (s : Session R). s.recent_share_fps ≡ sd.recent_share_fps) (code == 23)
            (λ _. refl) (λ _. refl))
  Change-keeps (streak n sd) = refl
  Change-keeps (tracked v sd) = refl
  Change-keeps (retargeted now d reason target sd) = refl
  Change-keeps (reset_to now d v target sd) = refl

  -- What a session goes through without being set up anew: it takes `k` shares into its memory, and
  -- is changed in between.
  pub data Later (start : Session R) : ℕ → Session R → Type 0 where
    here : Later start 0 start
    takes :
        {k : ℕ} {sd sd' : Session R} (fp : ℕ)
        → Later start k sd
        → remember R fp sd ≡ ok sd'
        → Later start (suc k) sd'
    changes : {k : ℕ} {sd sd' : Session R} → Later start k sd → Change sd sd' → Later start k sd'

  remember-Recent :
      (k fp other : ℕ) (sd sd' : Session R)
      → suc k < share_dedup_history
      → Recent k fp sd.recent_share_fps
      → remember R other sd ≡ ok sd'
      → Recent (suc k) fp sd'.recent_share_fps
  unfolding remember
  remember-Recent k fp other sd sd' h r e =
      subst (λ (s : Session R). Recent (suc k) fp s.recent_share_fps)
        (if_err-eq-ok (member other sd.recent_share_fps) duplicate_share e).1
        (push_capped-keeps share_dedup_history k fp other sd.recent_share_fps h r)

  Later-Recent :
      (fp : ℕ) {start sd : Session R} {k : ℕ}
      → Recent 0 fp start.recent_share_fps
      → Later start k sd
      → k < share_dedup_history
      → Recent k fp sd.recent_share_fps
  Later-Recent fp r here h = r
  Later-Recent fp r (takes {k} {sd} {sd'} other l e) h =
      remember-Recent k fp other sd sd' h (Later-Recent fp r l (omega (arith, h))) e
  Later-Recent fp r (changes {k} {sd} {sd'} l c) h =
      subst (Recent k fp) (sym (Change-keeps c)) (Later-Recent fp r l h)

  -- Where a session has taken a share into its memory, the same share is refused as a duplicate while
  -- the session has taken fewer than 1024 other shares after it, whatever retargets, resets of the
  -- difficulty and counts come in between, until the session is set up anew: a worker that
  -- authorizes again on the connection starts with an empty memory.
  pub replay_refused :
      (fp k : ℕ) (sd taken later : Session R)
      → remember R fp sd ≡ ok taken
      → Later taken k later
      → k < share_dedup_history
      → remember R fp later ≡ err duplicate_share
  unfolding remember
  replay_refused fp k sd taken later e l h =
      let fresh : Recent 0 fp taken.recent_share_fps =
        subst (λ (s : Session R). Recent 0 fp s.recent_share_fps)
          (if_err-eq-ok (member fp sd.recent_share_fps) duplicate_share e).1
          (push_capped-Recent share_dedup_history fp sd.recent_share_fps (omega arith)) in
      rw (member-Recent k fp later.recent_share_fps (Later-Recent fp fresh l h)) refl
