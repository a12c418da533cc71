-- ===== src/Share/Session.antt =====
-- crates/pool-core/src/share.rs: the state of a session, `SessionDifficulty`, and what changes it. An
-- `Instant` is a number of milliseconds; a saturating counter does not reach its bound.
use zcash_mining_pool.Prelude.{
  ℕ, zero, suc, ◌+◌, ◌-◌, ◌^◌, ◌/◌, Bool, false, ◌&&◌, ◌||◌, List, [], ◌∷◌, ◌++◌, ◌==◌, ltb, leb,
  if◌then◌else◌, ℤ, pos, negsuc, length, drop, Result, ok, err, replicate,
}
use zcash_mining_pool.Float.{Float}
use zcash_mining_pool.Stratum.{StratumError, duplicate_share}
use zcash_mining_pool.Vardiff.{Tracker, Reason, max_f, min_f}

pub data RateStatus : Type 0 where
  normal warn reject : RateStatus

-- `contains`
unfoldable pub member : ℕ → List ℕ → Bool
member n [] = false
member n (m ∷ ms) = (n == m) || member n ms

-- `push` or `push_back`, and the removal of the oldest entry where there are more than `n`.
unfoldable pub push_capped {ℓ} : {A : Type ℓ} → ℕ → A → List A → List A
push_capped n a xs = let all = xs ++ a ∷ [] in if ltb n (length all) then drop 1 all else all

-- GRACE_TARGET_HISTORY, SHARE_DEDUP_HISTORY, MAX_DIFF_HISTORY, GRACE_TARGET_MAX_AGE
abbrev pub grace_target_history : ℕ
grace_target_history = 8

abbrev pub share_dedup_history : ℕ
share_dedup_history = 1024

abbrev pub max_diff_history : ℕ
max_diff_history = 50

abbrev pub grace_target_max_age : ℕ
grace_target_max_age = 60000

module _ (R : Float) where
  open R use {F, of_ℕ, of_ℤ, ratio, add, sub, mul, div, to_i64, lt, le}

  pub record GraceTarget : Type 0 where
    pub target : List ℕ
    pub difficulty : F
    pub set_at : ℕ

  pub data Cause : Type 0 where
    initial : Cause
    reset : ℕ → Cause
    retarget : Reason → Cause

  pub record DiffAdjustment : Type 0 where
    pub secs_since_connect : ℕ
    pub difficulty : F
    pub reason : Cause

  pub record Session : Type 0 where
    pub vardiff : Tracker R
    pub target : List ℕ
    pub recent_targets : List GraceTarget
    pub rate_window_start : ℕ
    pub rate_window_shares : ℕ
    pub low_diff_streak : ℕ
    pub connected_at : ℕ
    pub local_port : ℕ
    pub diff_history : List DiffAdjustment
    pub shares_accepted : ℕ
    pub rejected_low_diff : ℕ
    pub rejected_job_not_found : ℕ
    pub rejected_other : ℕ
    pub recent_share_fps : List ℕ

  -- `target_to_difficulty`; `f64::MAX` is 2^1024 - 2^971.
  unfoldable pub target_value : F → List ℕ → F
  target_value acc [] = acc
  target_value acc (b ∷ bs) = target_value (add acc (mul (of_ℕ b) (of_ℕ (256 ^ length bs)))) bs

  abbrev pub pow_limit : F
  pow_limit = sub (of_ℕ (2 ^ 251)) (ratio 1 1)

  unfoldable pub target_to_difficulty : List ℕ → F
  target_to_difficulty target =
      let val = target_value (ratio 0 1) target in
      if le val (ratio 0 1) && le (ratio 0 1) val
      then of_ℕ (2 ^ 1024 - 2 ^ 971)
      else div pow_limit val

  -- `x as u8`
  abbrev pub to_u8 : ℤ → ℕ
  to_u8 (pos n) = if ltb 255 n then 255 else n
  to_u8 (negsuc n) = 0

  -- `difficulty_to_target_hex`, before the encoding; `digits` is its loop.
  unfoldable pub digits : ℕ → F → List ℕ
  digits zero remaining = []
  digits (suc k) remaining =
      let divisor = of_ℕ (256 ^ k) in
      let b = to_u8 (to_i64 (min_f R (div remaining divisor) (ratio 255 1))) in
      b ∷ digits k (sub remaining (mul (of_ℕ b) divisor))

  unfoldable pub difficulty_to_target : F → List ℕ
  difficulty_to_target difficulty =
      if le difficulty (ratio 0 1) then replicate 32 255 else digits 32 (div pow_limit difficulty)

  -- `push_grace_target`
  unfoldable pub push_grace_target : ℕ → Session → Session
  push_grace_target now sd =
      let entry : GraceTarget = record {
        target = sd.target;
        difficulty = target_to_difficulty sd.target;
        set_at = now;
      } in
      record sd { recent_targets = push_capped grace_target_history entry sd.recent_targets }

  -- The entry that a change of difficulty leaves in the history.
  unfoldable pub log_adjustment : ℕ → F → Cause → Session → Session
  log_adjustment now difficulty reason sd =
      let entry : DiffAdjustment = record {
        secs_since_connect = (now - sd.connected_at) / 1000;
        difficulty = difficulty;
        reason = reason;
      } in
      record sd { diff_history = push_capped max_diff_history entry sd.diff_history }

  -- The part of `apply_retarget` that changes the session.
  unfoldable pub set_target : ℕ → F → Reason → List ℕ → Session → Session
  set_target now difficulty reason target sd =
      let sd' = push_grace_target now sd in
      log_adjustment now difficulty (retarget reason) (record sd' { target = target })

  -- The part of the reset after rejected shares of low difficulty that changes the session.
  unfoldable pub reset_difficulty : ℕ → F → Tracker R → List ℕ → Session → Session
  reset_difficulty now difficulty tracker target sd =
      let sd' = push_grace_target now sd in
      log_adjustment now difficulty (reset sd.low_diff_streak)
        (record sd' { vardiff = tracker; target = target; low_diff_streak = 0 })

  -- `check_rate`, on a session that there is
  unfoldable pub check_rate : ℕ → Session → RateStatus × Session
  check_rate now sd =
      let elapsed = ratio (now - sd.rate_window_start) 1000 in
      let shares = suc sd.rate_window_shares in
      let rate = div (of_ℕ shares) (max_f R elapsed (ratio 1 100)) in
      if le (ratio 1 1) elapsed
      then (normal, record sd { rate_window_start = now; rate_window_shares = 1 })
      else (
        if lt (ratio 500 1) rate then reject else if lt (ratio 100 1) rate then warn else normal,
        record sd { rate_window_shares = shares },
      )

  -- The part of `validate_share` that rejects a share that the session has sent before.
  unfoldable pub remember : ℕ → Session → Result StratumError Session
  remember fp sd =
      if member fp sd.recent_share_fps
      then err duplicate_share
      else ok
          (record sd { recent_share_fps = push_capped share_dedup_history fp sd.recent_share_fps })

  -- What an accepted share leaves in the session.
  unfoldable pub count_accepted : Session → Session
  count_accepted sd = record sd { low_diff_streak = 0; shares_accepted = suc sd.shares_accepted }

  -- What a rejected share leaves in the session, by the error's code.
  unfoldable pub count_rejected : ℕ → Session → Session
  count_rejected code sd =
      if code == 21
      then record sd { rejected_job_not_found = suc sd.rejected_job_not_found }
      else if code == 23
      then record sd { rejected_low_diff = suc sd.rejected_low_diff }
      else record sd { rejected_other = suc sd.rejected_other }

  -- Whether a session sends nothing but bad shares and is disconnected.
  unfoldable pub is_flooder : ℕ → Session → Bool
  is_flooder now sd =
      (sd.shares_accepted == 0)
      && leb 50 (sd.rejected_low_diff + sd.rejected_job_not_found + sd.rejected_other)
      && leb 5000 (now - sd.connected_at)

  -- Whether a rejected share of low difficulty resets the session; the streak has been counted.
  unfoldable pub is_stuck : Session → Bool
  is_stuck sd = leb 10 sd.low_diff_streak && (sd.shares_accepted == 0)

  -- The session that a worker starts with.
  unfoldable pub new_session : ℕ → ℕ → F → Tracker R → List ℕ → Session
  new_session now local_port difficulty tracker target = record {
    vardiff = tracker;
    target = target;
    recent_targets = [];
    rate_window_start = now;
    rate_window_shares = 0;
    low_diff_streak = 0;
    connected_at = now;
    local_port = local_port;
    diff_history =
        (record { secs_since_connect = 0; difficulty = difficulty; reason = initial }) ∷ [];
    shares_accepted = 0;
    rejected_low_diff = 0;
    rejected_job_not_found = 0;
    rejected_other = 0;
    recent_share_fps = [];
  }
