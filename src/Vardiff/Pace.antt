-- ===== src/Vardiff/Pace.antt =====
-- crates/pool-core/src/difficulty.rs: how often a tracker may ask for another difficulty.
use zcash_mining_pool.Prelude.{
  ℕ, ◌+◌, ◌-◌, ◌≤◌, ◌≡◌, refl, ◌&&◌, ◌||◌, List, [], ◌∷◌, ltb, Option, some, none, arith, if-cases,
  subst,
}
use zcash_mining_pool.Float.{Float}
use zcash_mining_pool.Vardiff.{
  Trigger, Reason, Phase, Tracker, settle_on, turn, steer, compute_retarget, record_share,
  force_retarget, shares_per_minute, early_trigger, counted, window_secs, reverses, smoothed,
}

-- What a session makes its tracker do: a share is accepted, or the rate limit is hit.
pub data Event : Type 0 where
  share : ℕ → Event
  flood : ℕ → Event

-- Each time is half a second or more after the one before it.
unfoldable pub Spaced : ℕ → List ℕ → Type 0
Spaced last [] = Unit
Spaced last (t ∷ ts) = (last + 500 ≤ t) × Spaced t ts

module _ (R : Float) where
  open R use {F, lt, le, div, ratio}

  -- The times at which the tracker asks for another difficulty.
  unfoldable pub logged : ℕ → Option (F × Reason) → List ℕ → List ℕ
  logged now none ts = ts
  logged now (some r) ts = now ∷ ts

  unfoldable pub retarget_times : List Event → Tracker R → List ℕ
  retarget_times [] v = []
  retarget_times (share now ∷ es) v =
      let (o, v') = record_share R now v in let rest = retarget_times es v' in logged now o rest
  retarget_times (flood now ∷ es) v =
      let (o, v') = force_retarget R now v in let rest = retarget_times es v' in logged now o rest

  -- A step retargets, half a second or more after the last retarget, or leaves that time as it is.
  unfoldable Paced : ℕ → ℕ → Option (F × Reason) × Tracker R → Type 0
  Paced last now (none, v) = v.last_retarget_at ≡ last
  Paced last now (some r, v) = (last + 500 ≤ now) × (v.last_retarget_at ≡ now)

  turn-Paced :
      (trigger : Trigger) (last now : ℕ) (d : F) (phase : Phase) (v : Tracker R)
      → last + 500 ≤ now
      → Paced last now (turn R trigger now d phase v)
  unfolding Paced turn settle_on
  turn-Paced trigger last now d phase v h =
      if-cases (Paced last now) (reverses v.last_went_up (lt v.current_difficulty d))
        (λ _. (h, refl)) (λ _. (h, refl))

  steer-Paced :
      (trigger : Trigger) (now : ℕ) (r : F) (v : Tracker R)
      → v.last_retarget_at + 500 ≤ now
      → Paced v.last_retarget_at now (steer R trigger now r v)
  unfolding Paced steer
  steer-Paced trigger now r v h =
      if-cases (Paced v.last_retarget_at now) (lt (ratio 4 1) r || lt r (ratio 25 100))
        (λ _. turn-Paced trigger v.last_retarget_at now _ _ _ h)
        (λ _.
          if-cases (Paced v.last_retarget_at now) (lt (ratio 6 10) s && lt s (ratio 15 10))
            (λ _. refl) (λ _. turn-Paced trigger v.last_retarget_at now _ _ _ h))
    where
      s : F
      s = smoothed R r v.smoothed_ratio

  compute_retarget-Paced :
      (trigger : Trigger) (now : ℕ) (v : Tracker R)
      → Paced v.last_retarget_at now (compute_retarget R trigger now v)
  unfolding Paced compute_retarget
  compute_retarget-Paced trigger now v =
      if-cases (Paced v.last_retarget_at now) (ltb (now - v.last_retarget_at) 500) (λ _. refl)
        (λ late.
          if-cases (Paced v.last_retarget_at now) (le (ratio 10 1) spm && le spm (ratio 50 1))
            (λ _. refl) (λ _. steer-Paced trigger now _ v (ground arith)))
    where
      spm : F
      spm = shares_per_minute R now v

  record_share-Paced :
      (now : ℕ) (v : Tracker R) → Paced v.last_retarget_at now (record_share R now v)
  unfolding Paced record_share
  record_share-Paced now v =
      if-cases (Paced v.last_retarget_at now) (early_trigger R now (counted R v))
        (λ _. compute_retarget-Paced Trigger.early now (counted R v))
        (λ _.
          if-cases (Paced v.last_retarget_at now)
            (lt (window_secs R now v) v.retarget_interval_secs) (λ _. refl)
            (λ _. compute_retarget-Paced Trigger.interval now (counted R v)))

  logged-Spaced :
      (last now : ℕ) (o : Option (F × Reason)) (v : Tracker R) (ts : List ℕ)
      → Paced last now (o, v)
      → Spaced v.last_retarget_at ts
      → Spaced last (logged now o ts)
  unfolding Paced logged Spaced
  logged-Spaced last now none v ts h s = subst (λ t. Spaced t ts) h s
  logged-Spaced last now (some r) v ts h s = (h.0, subst (λ t. Spaced t ts) h.1 s)

  -- Whatever shares come in and however often the rate limit is hit, one tracker asks for another
  -- difficulty at times that are half a second or more apart, the first one half a second or more
  -- after its last retarget. (A session that is reset or authorized again gets another tracker.)
  pub retarget_times-Spaced :
      (es : List Event) (v : Tracker R) → Spaced v.last_retarget_at (retarget_times es v)
  unfolding retarget_times Spaced force_retarget
  retarget_times-Spaced [] v = tt
  retarget_times-Spaced (share now ∷ es) v =
      let (o, v') = record_share R now v in
      logged-Spaced v.last_retarget_at now o v' (retarget_times es v') (record_share-Paced now v)
        (retarget_times-Spaced es v')
  retarget_times-Spaced (flood now ∷ es) v =
      let (o, v') = force_retarget R now v in
      logged-Spaced v.last_retarget_at now o v' (retarget_times es v')
        (compute_retarget-Paced Trigger.rate_limit now (counted R v)) (retarget_times-Spaced es v')
