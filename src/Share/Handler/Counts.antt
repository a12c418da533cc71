-- ===== src/Share/Handler/Counts.antt =====
-- crates/pool-core/src/share.rs: the counters of the validator.
use zcash_mining_pool.Prelude.{
  ℕ, suc, ◌+◌, ◌≡◌, refl, Bool, true, false, String, ◌==◌, if-cases, Option, some, none, arith,
  Result, ok, err, ◌>>=◌, subst, sym,
}
use zcash_mining_pool.Float.{Float}
use zcash_mining_pool.Stratum.{StratumError, is_low_difficulty}
use zcash_mining_pool.Vardiff.{Tracker, Reason, record_share, force_retarget}
use zcash_mining_pool.Share.Session.{
  Session, RateStatus, check_rate, count_rejected, is_flooder, is_stuck,
}
use zcash_mining_pool.Share.Validate.{Crypto, Job, Submission, Accepted, validate_share}
use zcash_mining_pool.Share.Counters.{
  get, Stats, stats_accept, stats_warn, stats_flood, stats_reject,
}
use zcash_mining_pool.Share.Handler.{
  State, Config, send, on_session, count, save_difficulty, announce, apply_retarget, apply_outcome,
  stepped, step_tracker, maybe_retarget, force_retarget_session, on_accepted, reset_session,
  add_streak, session_test, after_low_difficulty, on_rejected, on_flood, rate_of, rated, on_result,
  put, validated, share_submitted, with_tracker,
}

-- The shares that have been answered.
unfoldable pub answered : Stats → ℕ
answered s = s.shares_accepted + s.shares_rejected

-- The rejected shares are the sum of the rejected shares of each reason.
unfoldable pub AddsUp : Stats → Type 0
AddsUp s = s.shares_rejected ≡ s.low_diff + s.job_not_found + s.duplicate + s.others

-- One more share has been answered, and the reasons add up.
abbrev pub OneMore : Stats → Stats → Type 0
OneMore s s' = (answered s' ≡ suc (answered s)) × AddsUp s'

accept-OneMore : (s : Stats) → AddsUp s → OneMore s (stats_accept s)
unfolding answered AddsUp stats_accept
accept-OneMore s h = (omega arith, h)

flood-OneMore : (s : Stats) → AddsUp s → OneMore s (stats_flood s)
unfolding answered AddsUp stats_flood
flood-OneMore s h = (omega arith, omega arith)

reject-OneMore : (code : ℕ) (s : Stats) → AddsUp s → OneMore s (stats_reject code s)
unfolding answered AddsUp stats_reject
reject-OneMore code s h =
    if-cases (OneMore s) (code == 21) (λ _. (omega arith, omega arith))
      (λ _.
        if-cases (OneMore s) (code == 22) (λ _. (omega arith, omega arith))
          (λ _.
            if-cases (OneMore s) (code == 23) (λ _. (omega arith, omega arith))
              (λ _. (omega arith, omega arith))))

module _ (R : Float) where
  open R use {F}

  outcome-stats :
      (c : Crypto) (cfg : Config R) (now : ℕ) (sid : String) (o : Option (F × Reason))
      (st : State R)
      → (apply_outcome R c cfg now sid o st).stats ≡ st.stats
  unfolding apply_outcome apply_retarget announce send save_difficulty on_session
  outcome-stats c cfg now sid none st = refl
  outcome-stats c cfg now sid (some r) st = refl

  -- A retarget leaves the counters as they are.
  stepped-stats :
      (f : Tracker R → Option (F × Reason) × Tracker R) (c : Crypto) (cfg : Config R) (now : ℕ)
      (sid : String) (o : Option (Session R)) (st : State R)
      → (stepped R f c cfg now sid o st).stats ≡ st.stats
  unfolding stepped on_session
  stepped-stats f c cfg now sid none st = refl
  stepped-stats f c cfg now sid (some sd) st =
      outcome-stats c cfg now sid (f sd.vardiff).0
        (on_session R sid (with_tracker R (f sd.vardiff).1) st)

  force-stats :
      (c : Crypto) (cfg : Config R) (now : ℕ) (sid : String) (st : State R)
      → (force_retarget_session R c cfg now sid st).stats ≡ st.stats
  unfolding force_retarget_session step_tracker
  force-stats c cfg now sid st =
      stepped-stats (force_retarget R now) c cfg now sid (get sid st.sessions) st

  maybe-stats :
      (c : Crypto) (cfg : Config R) (now : ℕ) (sid : String) (st : State R)
      → (maybe_retarget R c cfg now sid st).stats ≡ st.stats
  unfolding maybe_retarget step_tracker
  maybe-stats c cfg now sid st =
      stepped-stats (record_share R now) c cfg now sid (get sid st.sessions) st

  on_accepted-OneMore :
      (c : Crypto) (cfg : Config R) (now : ℕ) (sid : String) (forced : Bool) (st : State R)
      → AddsUp st.stats
      → OneMore st.stats (on_accepted R c cfg now sid forced st).stats
  unfolding on_accepted send on_session count
  on_accepted-OneMore c cfg now sid forced st h =
      if-cases (λ (s : State R). OneMore st.stats s.stats) forced
        (λ _.
          subst (OneMore st.stats) (sym (force-stats c cfg now sid _)) (accept-OneMore st.stats h))
        (λ _.
          subst (OneMore st.stats) (sym (maybe-stats c cfg now sid _)) (accept-OneMore st.stats h))

  after_low-stats :
      (c : Crypto) (cfg : Config R) (now : ℕ) (sid : String) (st : State R)
      → (after_low_difficulty R c cfg now sid st).stats ≡ st.stats
  unfolding after_low_difficulty reset_session announce send on_session
  after_low-stats c cfg now sid st =
      if-cases (λ (s : State R). s.stats ≡ st.stats)
        (session_test R (is_stuck R) (get sid (on_session R sid (add_streak R) st).sessions))
        (λ _. refl) (λ _. refl)

  on_rejected-OneMore :
      (c : Crypto) (cfg : Config R) (now : ℕ) (sid : String) (e : StratumError) (st : State R)
      → AddsUp st.stats
      → OneMore st.stats (on_rejected R c cfg now sid e st).stats
  unfolding on_rejected send on_session count
  on_rejected-OneMore c cfg now sid e st h =
      if-cases (λ (s : State R). OneMore st.stats s.stats)
        (session_test R (is_flooder R now) (get sid counted.sessions))
        (λ _. reject-OneMore e.code st.stats h)
        (λ _.
          if-cases (λ (s : State R). OneMore st.stats s.stats) (is_low_difficulty e)
            (λ _.
              subst (OneMore st.stats) (sym (after_low-stats c cfg now sid _))
                (reject-OneMore e.code st.stats h))
            (λ _. reject-OneMore e.code st.stats h))
    where
      counted : State R
      counted = on_session R sid (count_rejected R e.code) (count R (stats_reject e.code) st)

  on_flood-OneMore :
      (c : Crypto) (cfg : Config R) (now : ℕ) (sid : String) (st : State R)
      → AddsUp st.stats
      → OneMore st.stats (on_flood R c cfg now sid st).stats
  unfolding on_flood send on_session count
  on_flood-OneMore c cfg now sid st h =
      subst (OneMore st.stats) (sym (force-stats c cfg now sid _)) (flood-OneMore st.stats h)

  on_result-OneMore :
      (c : Crypto) (cfg : Config R) (now : ℕ) (sid : String) (forced : Bool)
      (r : Result StratumError (Accepted R)) (st : State R)
      → AddsUp st.stats
      → OneMore st.stats (on_result R c cfg now sid forced r st).stats
  unfolding on_result
  on_result-OneMore c cfg now sid forced (ok a) st h = on_accepted-OneMore c cfg now sid forced st h
  on_result-OneMore c cfg now sid forced (err e) st h = on_rejected-OneMore c cfg now sid e st h

  validated-OneMore :
      (c : Crypto) (cfg : Config R) (store : Accepted R → Result StratumError (Accepted R))
      (now secs : ℕ) (sid : String) (job : Option Job) (s : Submission R) (forced : Bool)
      (st : State R)
      → AddsUp st.stats
      → OneMore st.stats (validated R c cfg store now secs sid job s forced st).stats
  unfolding validated on_session
  validated-OneMore c cfg store now secs sid job s forced st h =
      on_result-OneMore c cfg now sid forced (answer.0 >>= store)
        (on_session R sid (put R answer.1) st) h
    where
      answer : Result StratumError (Accepted R) × Option (Session R)
      answer = validate_share R c cfg.default_target now secs job s (get sid st.sessions)

  rated-OneMore :
      (c : Crypto) (cfg : Config R) (store : Accepted R → Result StratumError (Accepted R))
      (now secs : ℕ) (sid : String) (job : Option Job) (s : Submission R) (rate : RateStatus)
      (st : State R)
      → AddsUp st.stats
      → OneMore st.stats (rated R c cfg store now secs sid job s rate st).stats
  unfolding rated count stats_warn answered AddsUp
  rated-OneMore c cfg store now secs sid job s RateStatus.reject st h =
      on_flood-OneMore c cfg now sid st h
  rated-OneMore c cfg store now secs sid job s RateStatus.warn st h =
      validated-OneMore c cfg store now secs sid job s true (count R stats_warn st) h
  rated-OneMore c cfg store now secs sid job s RateStatus.normal st h =
      validated-OneMore c cfg store now secs sid job s false st h

  -- Every share that is submitted is counted once, as accepted or as rejected, and the rejected shares
  -- stay the sum of the rejected shares of each reason, whatever the state, the checks and the
  -- database answer.
  pub share_submitted-OneMore :
      (c : Crypto) (cfg : Config R) (store : Accepted R → Result StratumError (Accepted R))
      (now secs : ℕ) (sid : String) (job : Option Job) (s : Submission R) (st : State R)
      → AddsUp st.stats
      → OneMore st.stats (share_submitted R c cfg store now secs sid job s st).stats
  unfolding share_submitted rate_of on_session
  share_submitted-OneMore c cfg store now secs sid job s st h = looked_up (get sid st.sessions)
    where
      looked_up :
          (o : Option (Session R))
          → OneMore st.stats
              (rated R c cfg store now secs sid job s
                (rate_of R now sid o st).0
                (rate_of R now sid o st).1).stats
      looked_up none = rated-OneMore c cfg store now secs sid job s RateStatus.normal st h
      looked_up (some sd) =
          rated-OneMore c cfg store now secs sid job s (check_rate R now sd).0
            (on_session R sid (λ x. (check_rate R now x).1) st) h
