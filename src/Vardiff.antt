-- ===== src/Vardiff.antt =====
-- crates/pool-core/src/difficulty.rs: `VardiffTracker`.
-- An `Instant` is a number of milliseconds, and each operation is given the time at which it runs; the
-- f64 operations are a parameter. Of a retarget's reason the trigger, the phase and the direction are
-- kept, not the text.
pub mod Range
pub mod Pace
use zcash_mining_pool.Prelude.{
  ℕ, zero, suc, ◌+◌, ◌-◌, ◌^◌, Bool, true, false, not, ◌&&◌, ◌||◌, List, [], ◌∷◌, ltb, leb,
  if◌then◌else◌, Option, some, none, ℤ, pos, negsuc, replicate,
}
use zcash_mining_pool.Float.{Float}

pub data Trigger : Type 0 where
  early interval rate_limit : Trigger

pub data Phase : Type 0 where
  ramp ema : Phase

pub record Reason : Type 0 where
  pub up : Bool
  pub trigger : Trigger
  pub phase : Phase
  -- Whether the midpoint was taken, on a change of direction.
  pub mid : Bool

abbrev pub is_early : Trigger → Bool
is_early Trigger.early = true
is_early _ = false

-- `b != c`
abbrev pub differ : Bool → Bool → Bool
differ true c = not c
differ false c = c

-- Whether a retarget goes the other way than the last one did.
abbrev pub reverses : Option Bool → Bool → Bool
reverses none up = false
reverses (some last_up) up = differ last_up up

module _ (R : Float) where
  open R use {F, of_ℕ, ratio, add, sub, mul, div, to_i64, lt, le}

  abbrev pub max_f : F → F → F
  max_f a b = if lt a b then b else a

  abbrev pub min_f : F → F → F
  min_f a b = if lt b a then b else a

  abbrev pub clamp : F → F → F → F
  clamp lo hi x = if lt x lo then lo else if lt hi x then hi else x

  pub record Tracker : Type 0 where
    pub shares_in_window : ℕ
    pub window_start : ℕ
    pub target_shares_per_minute : F
    pub retarget_interval_secs : F
    pub current_difficulty : F
    pub min_difficulty : F
    pub max_difficulty : F
    pub smoothed_ratio : F
    pub last_went_up : Option Bool
    pub last_retarget_at : ℕ
    pub last_early_retarget_at : Option ℕ

  -- `VardiffTracker::new`
  unfoldable pub new_tracker : F → F → F → ℕ → Tracker
  new_tracker spm secs initial now = record {
    shares_in_window = 0;
    window_start = now;
    target_shares_per_minute = spm;
    retarget_interval_secs = secs;
    current_difficulty = initial;
    min_difficulty = min_f initial (ratio 1 1);
    max_difficulty = ratio 10000000000 1;
    smoothed_ratio = ratio 1 1;
    last_went_up = none;
    last_retarget_at = now;
    last_early_retarget_at = none;
  }

  -- `window_start.elapsed().as_secs_f64()`
  abbrev pub window_secs : ℕ → Tracker → F
  window_secs now v = ratio (now - v.window_start) 1000

  unfoldable pub shares_per_minute : ℕ → Tracker → F
  shares_per_minute now v =
      mul (div (of_ℕ v.shares_in_window) (max_f (window_secs now v) (ratio 1 100))) (ratio 60 1)

  abbrev pub restart : ℕ → Tracker → Tracker
  restart now v = record v { shares_in_window = 0; window_start = now }

  -- The end of `compute_retarget`, from the direction on.
  unfoldable pub settle_on :
      Trigger → ℕ → F → Phase → Bool → Tracker → Option (F × Reason) × Tracker
  settle_on trigger now d phase mid v = (
    some
        (d, record { up = lt v.current_difficulty d; trigger = trigger; phase = phase; mid = mid }),
    record v {
      last_went_up = some (lt v.current_difficulty d);
      current_difficulty = d;
      shares_in_window = 0;
      window_start = now;
      last_retarget_at = now;
      last_early_retarget_at = if is_early trigger then some now else v.last_early_retarget_at;
    },
  )

  unfoldable pub midpoint : F → F → F
  midpoint a b = div (add a b) (ratio 2 1)

  -- On a reversal of direction the midpoint is taken.
  unfoldable pub turn : Trigger → ℕ → F → Phase → Tracker → Option (F × Reason) × Tracker
  turn trigger now d phase v =
      if reverses v.last_went_up (lt v.current_difficulty d)
      then settle_on trigger now (midpoint v.current_difficulty d) phase true v
      else settle_on trigger now d phase false v

  abbrev pub smoothed : F → F → F
  smoothed ratio_now old =
      add (mul (ratio 15 100) ratio_now) (mul (sub (ratio 1 1) (ratio 15 100)) old)

  -- The two phases; `r` is the ratio of the measured rate to the target rate.
  unfoldable pub steer : Trigger → ℕ → F → Tracker → Option (F × Reason) × Tracker
  steer trigger now r v =
      let s = smoothed r v.smoothed_ratio in
      let far =
        clamp v.min_difficulty v.max_difficulty
          (mul v.current_difficulty (clamp (ratio 1 2) (ratio 2 1) r)) in
      let near =
        clamp v.min_difficulty v.max_difficulty
          (mul v.current_difficulty (clamp (ratio 8 10) (ratio 125 100) s)) in
      if lt (ratio 4 1) r || lt r (ratio 25 100)
      then turn trigger now far ramp (record v { smoothed_ratio = ratio 1 1 })
      else if lt (ratio 6 10) s && lt s (ratio 15 10)
      then (none, restart now (record v { smoothed_ratio = s }))
      else turn trigger now near ema (record v { smoothed_ratio = s })

  -- `compute_retarget`
  unfoldable pub compute_retarget : Trigger → ℕ → Tracker → Option (F × Reason) × Tracker
  compute_retarget trigger now v =
      let spm = shares_per_minute now v in
      if ltb (now - v.last_retarget_at) 500
      then (none, v)
      else if le (ratio 10 1) spm && le spm (ratio 50 1)
      then (none, restart now v)
      else steer trigger now (div spm v.target_shares_per_minute) v

  -- The cooldown after an early trigger, of 12 seconds.
  abbrev pub in_early_cooldown : ℕ → Tracker → Bool
  in_early_cooldown now v = elim v.last_early_retarget_at [
    | none ↦ false
    | some t ↦ ltb (now - t) 12000
  ]

  unfoldable pub early_trigger : ℕ → Tracker → Bool
  early_trigger now v =
      let expected = div (mul v.target_shares_per_minute (window_secs now v)) (ratio 60 1) in
      lt (mul expected (ratio 4 1)) (of_ℕ v.shares_in_window)
      && le (ratio 3 1) (window_secs now v)
      && not (in_early_cooldown now v)

  abbrev pub counted : Tracker → Tracker
  counted v = record v { shares_in_window = suc v.shares_in_window }

  -- `record_share`
  unfoldable pub record_share : ℕ → Tracker → Option (F × Reason) × Tracker
  record_share now v =
      let v' = counted v in
      if early_trigger now v'
      then compute_retarget Trigger.early now v'
      else if lt (window_secs now v') v'.retarget_interval_secs
      then (none, v')
      else compute_retarget Trigger.interval now v'

  -- `force_retarget`
  unfoldable pub force_retarget : ℕ → Tracker → Option (F × Reason) × Tracker
  force_retarget now v = compute_retarget Trigger.rate_limit now (counted v)
