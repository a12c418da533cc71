-- ===== src/Vardiff/Range.antt =====
-- crates/pool-core/src/difficulty.rs: the bounds of a tracker's difficulty.
use zcash_mining_pool.Prelude.{
  ℕ, ◌-◌, ◌^◌, ◌≡◌, refl, true, false, ◌&&◌, ◌||◌, List, [], ◌∷◌, ltb, Option, none, if-cases,
  subst,
}
use zcash_mining_pool.Float.{Float}
use zcash_mining_pool.Vardiff.{
  Trigger, Reason, Phase, Tracker, settle_on, turn, steer, compute_retarget, record_share,
  force_retarget, shares_per_minute, early_trigger, counted, window_secs, midpoint, reverses,
  smoothed, clamp,
}
use zcash_mining_pool.Vardiff.Pace.{Event, share, flood}

module _ (R : Float) where
  open R use {F, lt, le, div, ratio, mul}

  -- Neither below `lo` nor above `hi`.
  abbrev pub Within : F → F → F → Type 0
  Within lo hi x = (lt x lo ≡ false) × (lt hi x ≡ false)

  abbrev pub InRange : Tracker R → Type 0
  InRange v = Within v.min_difficulty v.max_difficulty v.current_difficulty

  -- The bounds are not negative, and so far below the largest f64 that no sum of two numbers between
  -- them overflows.
  abbrev pub FarFromOverflow : F → F → Type 0
  FarFromOverflow lo hi = (le (ratio 0 1) lo ≡ true) × (le hi (ratio (2 ^ 1000) 1) ≡ true)

  -- What is used of the f64 operations: `<` is irreflexive, and a mean lies between such bounds of its
  -- terms, since rounding is monotone.
  pub record Laws : Type 0 where
    pub irreflexive : (x : F) → lt x x ≡ false
    pub mean :
        (lo hi a b : F)
        → le (ratio 0 1) lo ≡ true
        → le hi (ratio (2 ^ 1000) 1) ≡ true
        → Within lo hi a
        → Within lo hi b
        → Within lo hi (midpoint R a b)

  -- The tracker after the events of a session.
  unfoldable pub run : List Event → Tracker R → Tracker R
  run [] v = v
  run (share now ∷ es) v = run es (record_share R now v).1
  run (flood now ∷ es) v = run es (force_retarget R now v).1

  module _ (laws : Laws) where
    clamp-Within : (lo hi x : F) → lt hi lo ≡ false → Within lo hi (clamp R lo hi x)
    clamp-Within lo hi x h =
        if-cases (Within lo hi) (lt x lo) (λ _. (laws.irreflexive lo, h))
          (λ e. if-cases (Within lo hi) (lt hi x) (λ _. (h, laws.irreflexive hi)) (λ e'. (e, e')))

    -- A step that leaves the bounds as they are and the difficulty between them.
    abbrev Kept : F → F → Option (F × Reason) × Tracker R → Type 0
    Kept lo hi (o, v) =
        (v.min_difficulty ≡ lo) × (v.max_difficulty ≡ hi) × Within lo hi v.current_difficulty

    turn-Kept :
        (trigger : Trigger) (now : ℕ) (d : F) (phase : Phase) (v : Tracker R)
        → FarFromOverflow v.min_difficulty v.max_difficulty
        → Within v.min_difficulty v.max_difficulty d
        → InRange v
        → Kept v.min_difficulty v.max_difficulty (turn R trigger now d phase v)
    unfolding turn settle_on
    turn-Kept trigger now d phase v far h h' =
        if-cases (Kept lo hi) (reverses v.last_went_up (lt v.current_difficulty d))
          (λ _. (refl, refl, laws.mean lo hi v.current_difficulty d far.0 far.1 h' h))
          (λ _. (refl, refl, h))
      where
        lo : F
        lo = v.min_difficulty

        hi : F
        hi = v.max_difficulty

    steer-Kept :
        (trigger : Trigger) (now : ℕ) (r : F) (v : Tracker R)
        → FarFromOverflow v.min_difficulty v.max_difficulty
        → lt v.max_difficulty v.min_difficulty ≡ false
        → InRange v
        → Kept v.min_difficulty v.max_difficulty (steer R trigger now r v)
    unfolding steer
    steer-Kept trigger now r v far o h =
        if-cases (Kept v.min_difficulty v.max_difficulty) (lt (ratio 4 1) r || lt r (ratio 25 100))
          (λ _. turn-Kept trigger now _ _ _ far (clamp-Within _ _ _ o) h)
          (λ _.
            if-cases (Kept v.min_difficulty v.max_difficulty)
              (lt (ratio 6 10) s && lt s (ratio 15 10)) (λ _. (refl, refl, h))
              (λ _. turn-Kept trigger now _ _ _ far (clamp-Within _ _ _ o) h))
      where
        s : F
        s = smoothed R r v.smoothed_ratio

    compute_retarget-Kept :
        (trigger : Trigger) (now : ℕ) (v : Tracker R)
        → FarFromOverflow v.min_difficulty v.max_difficulty
        → lt v.max_difficulty v.min_difficulty ≡ false
        → InRange v
        → Kept v.min_difficulty v.max_difficulty (compute_retarget R trigger now v)
    unfolding compute_retarget
    compute_retarget-Kept trigger now v far o h =
        if-cases (Kept v.min_difficulty v.max_difficulty) (ltb (now - v.last_retarget_at) 500)
          (λ _. (refl, refl, h))
          (λ _.
            if-cases (Kept v.min_difficulty v.max_difficulty)
              (le (ratio 10 1) spm && le spm (ratio 50 1)) (λ _. (refl, refl, h))
              (λ _. steer-Kept trigger now _ v far o h))
      where
        spm : F
        spm = shares_per_minute R now v

    record_share-Kept :
        (now : ℕ) (v : Tracker R)
        → FarFromOverflow v.min_difficulty v.max_difficulty
        → lt v.max_difficulty v.min_difficulty ≡ false
        → InRange v
        → Kept v.min_difficulty v.max_difficulty (record_share R now v)
    unfolding record_share
    record_share-Kept now v far o h =
        if-cases (Kept v.min_difficulty v.max_difficulty) (early_trigger R now (counted R v))
          (λ _. compute_retarget-Kept Trigger.early now (counted R v) far o h)
          (λ _.
            if-cases (Kept v.min_difficulty v.max_difficulty)
              (lt (window_secs R now v) v.retarget_interval_secs) (λ _. (refl, refl, h))
              (λ _. compute_retarget-Kept Trigger.interval now (counted R v) far o h))

    -- A step keeps bounds that are given by name.
    keep :
        (lo hi : F) (v : Tracker R) (r : Option (F × Reason) × Tracker R)
        → FarFromOverflow lo hi
        → lt hi lo ≡ false
        → Kept lo hi (none, v)
        → (FarFromOverflow v.min_difficulty v.max_difficulty
            → lt v.max_difficulty v.min_difficulty ≡ false
            → InRange v
            → Kept v.min_difficulty v.max_difficulty r)
        → Kept lo hi r
    keep lo hi v r far o k f =
        subst (λ l. Kept l hi r) k.0
          (subst (λ h. Kept v.min_difficulty h r) k.1
            (f (rw (k.0, k.1) far) (rw (k.0, k.1) o) (rw (k.0, k.1) k.2)))

    stays :
        (lo hi : F) (es : List Event) (v : Tracker R)
        → FarFromOverflow lo hi
        → lt hi lo ≡ false
        → Kept lo hi (none, v)
        → Within lo hi (run es v).current_difficulty
    unfolding run force_retarget
    stays lo hi [] v far o k = k.2
    stays lo hi (share now ∷ es) v far o k =
        stays lo hi es (record_share R now v).1 far o
          (keep lo hi v (record_share R now v) far o k (record_share-Kept now v))
    stays lo hi (flood now ∷ es) v far o k = stays lo hi es (force_retarget R now v).1 far o (
        keep lo hi v (force_retarget R now v) far o k
          (compute_retarget-Kept Trigger.rate_limit now (counted R v)))

    -- Where `<` is irreflexive and a mean lies between bounds of its terms that are not negative and
    -- at most 2^1000, a tracker with such bounds and a difficulty between them keeps its difficulty
    -- between them, whatever shares come in and however often the rate limit is hit.
    pub run-Within :
        (es : List Event) (v : Tracker R)
        → le (ratio 0 1) v.min_difficulty ≡ true
        → le v.max_difficulty (ratio (2 ^ 1000) 1) ≡ true
        → lt v.max_difficulty v.min_difficulty ≡ false
        → InRange v
        → Within v.min_difficulty v.max_difficulty (run es v).current_difficulty
    run-Within es v low high o h =
        stays v.min_difficulty v.max_difficulty es v (low, high) o (refl, refl, h)
