-- ===== src/Share/Handler.antt =====
-- crates/pool-core/src/share.rs: the loop of `ShareValidator::run`, one function for each event. A
-- `HashMap` is an association list; what is sent to a session, the difficulties that are saved with
-- a worker and the sessions that are disconnected are lists that grow. What the database answers
-- for an accepted share is a parameter.
pub mod Counts
use zcash_mining_pool.Prelude.{
  ℕ, zero, suc, ◌+◌, ◌-◌, Bool, true, false, ◌&&◌, String, str_eq, List, [], ◌∷◌, ◌++◌, ◌==◌, ltb,
  leb, if◌then◌else◌, Option, some, none, Result, ok, err, ◌>>=◌,
}
use zcash_mining_pool.Float.{Float}
use zcash_mining_pool.Stratum.{StratumError, other, is_low_difficulty}
use zcash_mining_pool.Vardiff.{Tracker, Reason, new_tracker, record_share, force_retarget}
use zcash_mining_pool.Share.Session.{
  Session, RateStatus, check_rate, set_target, reset_difficulty, difficulty_to_target,
  count_accepted, count_rejected, is_flooder, is_stuck, new_session,
}
use zcash_mining_pool.Share.Counters.{
  get, modify, remove, Stats, stats_accept, stats_warn, stats_flood, stats_reject,
}
use zcash_mining_pool.Share.Target.{parse_target}
use zcash_mining_pool.Share.Validate.{Crypto, Job, Submission, Accepted, validate_share}

module _ (R : Float) where
  open R use {F}

  pub data Message : Type 0 where
    set_difficulty : F → Message
    set_target_to : List ℕ → Message
    submit_result : Option StratumError → Message

  -- `VardiffConfig`, the port's difficulties and the target where there is no session
  pub record Config : Type 0 where
    pub initial_difficulty : F
    pub target_shares_per_minute : F
    pub retarget_interval_secs : F
    pub default_target : List ℕ
    pub port_difficulty : ℕ → Option F

  pub record State : Type 0 where
    pub sessions : List (String × Session R)
    pub worker_ids : List (String × ℕ)
    pub stats : Stats
    pub sent : List (String × Message)
    pub saved : List (ℕ × F)
    pub disconnected : List String

  unfoldable pub send : String → Message → State → State
  send sid m st = record st { sent = st.sent ++ (sid, m) ∷ [] }

  unfoldable pub on_session : String → (Session R → Session R) → State → State
  on_session sid f st = record st { sessions = modify sid f st.sessions }

  unfoldable pub count : (Stats → Stats) → State → State
  count f st = record st { stats = f st.stats }

  -- `make_target_for_difficulty` without the tracker: the target of a difficulty, through `hex`.
  unfoldable pub target_for : Crypto → Config → F → List ℕ
  target_for c cfg d = elim (parse_target c.decode (c.encode (difficulty_to_target R d))) [
    | ok t ↦ t
    | err e ↦ cfg.default_target
  ]

  -- `update_worker_difficulty`, where the session's worker is known
  unfoldable pub save_difficulty : String → F → State → State
  save_difficulty sid d st = record st {
    saved = elim (get sid st.worker_ids) [ none ↦ st.saved | some w ↦ st.saved ++ (w, d) ∷ [] ];
  }

  unfoldable pub announce : String → F → List ℕ → State → State
  announce sid d target st = send sid (set_target_to target) (send sid (set_difficulty d) st)

  -- `apply_retarget`; the miner is sent the hex of the new target itself.
  unfoldable pub apply_retarget : Crypto → Config → ℕ → String → F × Reason → State → State
  apply_retarget c cfg now sid (d, reason) st =
      announce sid d (difficulty_to_target R d)
        (save_difficulty sid d (on_session sid (set_target R now d reason (target_for c cfg d)) st))

  unfoldable pub apply_outcome : Crypto → Config → ℕ → String → Option (F × Reason) → State → State
  apply_outcome c cfg now sid none st = st
  apply_outcome c cfg now sid (some r) st = apply_retarget c cfg now sid r st

  abbrev pub with_tracker : Tracker R → Session R → Session R
  with_tracker v sd = record sd { vardiff = v }

  -- A step of the session's tracker, and the retarget that it asks for.
  unfoldable pub stepped :
      (Tracker R → Option (F × Reason) × Tracker R)
      → Crypto
      → Config
      → ℕ
      → String
      → Option (Session R)
      → State
      → State
  stepped f c cfg now sid none st = st
  stepped f c cfg now sid (some sd) st =
      apply_outcome c cfg now sid (f sd.vardiff).0
        (on_session sid (with_tracker (f sd.vardiff).1) st)

  unfoldable pub step_tracker :
      (Tracker R → Option (F × Reason) × Tracker R) → Crypto → Config → ℕ → String → State → State
  step_tracker f c cfg now sid st = stepped f c cfg now sid (get sid st.sessions) st

  unfoldable pub maybe_retarget : Crypto → Config → ℕ → String → State → State
  maybe_retarget c cfg now = step_tracker (record_share R now) c cfg now

  unfoldable pub force_retarget_session : Crypto → Config → ℕ → String → State → State
  force_retarget_session c cfg now = step_tracker (force_retarget R now) c cfg now

  -- What an accepted share leads to.
  unfoldable pub on_accepted : Crypto → Config → ℕ → String → Bool → State → State
  on_accepted c cfg now sid forced st =
      let st' =
        send sid (submit_result none) (on_session sid (count_accepted R) (count stats_accept st)) in
      if forced then force_retarget_session c cfg now sid st' else maybe_retarget c cfg now sid st'

  -- The reset of a session that has sent nothing but shares of low difficulty.
  unfoldable pub reset_session : Crypto → Config → ℕ → String → State → State
  reset_session c cfg now sid st =
      let d = cfg.initial_difficulty in
      let tracker = new_tracker R cfg.target_shares_per_minute cfg.retarget_interval_secs d now in
      announce sid d (target_for c cfg d)
        (on_session sid (reset_difficulty R now d tracker (target_for c cfg d)) st)

  abbrev pub add_streak : Session R → Session R
  add_streak sd = record sd { low_diff_streak = suc sd.low_diff_streak }

  abbrev pub session_test : (Session R → Bool) → Option (Session R) → Bool
  session_test f none = false
  session_test f (some sd) = f sd

  unfoldable pub after_low_difficulty : Crypto → Config → ℕ → String → State → State
  after_low_difficulty c cfg now sid st =
      let st' = on_session sid add_streak st in
      if session_test (is_stuck R) (get sid st'.sessions)
      then reset_session c cfg now sid st'
      else st'

  -- What a rejected share leads to: the counters, the disconnection of a flooder, or the reply.
  unfoldable pub on_rejected : Crypto → Config → ℕ → String → StratumError → State → State
  on_rejected c cfg now sid e st =
      let st' = on_session sid (count_rejected R e.code) (count (stats_reject e.code) st) in
      let replied = send sid (submit_result (some e)) st' in
      if session_test (is_flooder R now) (get sid st'.sessions)
      then record st' { disconnected = st'.disconnected ++ sid ∷ [] }
      else if is_low_difficulty e
      then after_low_difficulty c cfg now sid replied
      else replied

  -- The branch of a share over the rate limit.
  unfoldable pub on_flood : Crypto → Config → ℕ → String → State → State
  on_flood c cfg now sid st = force_retarget_session c cfg now sid (
      send sid (submit_result (some (other "Share rate limit exceeded")))
        (on_session sid (count_rejected R 20) (count stats_flood st)))

  -- `check_rate`, with no limit where there is no session.
  unfoldable pub rate_of : ℕ → String → Option (Session R) → State → RateStatus × State
  rate_of now sid none st = (RateStatus.normal, st)
  rate_of now sid (some sd) st =
      ((check_rate R now sd).0, on_session sid (λ s. (check_rate R now s).1) st)

  unfoldable pub on_result :
      Crypto → Config → ℕ → String → Bool → Result StratumError (Accepted R) → State → State
  on_result c cfg now sid forced (ok a) st = on_accepted c cfg now sid forced st
  on_result c cfg now sid forced (err e) st = on_rejected c cfg now sid e st

  abbrev pub put : Option (Session R) → Session R → Session R
  put none sd = sd
  put (some sd') sd = sd'

  -- The validation of a share; `store` writes it to the database.
  unfoldable pub validated :
      Crypto
      → Config
      → (Accepted R → Result StratumError (Accepted R))
      → ℕ
      → ℕ
      → String
      → Option Job
      → Submission R
      → Bool
      → State
      → State
  validated c cfg store now secs sid job s forced st =
      let (r, sd) = validate_share R c cfg.default_target now secs job s (get sid st.sessions) in
      on_result c cfg now sid forced (r >>= store) (on_session sid (put sd) st)

  unfoldable pub rated :
      Crypto
      → Config
      → (Accepted R → Result StratumError (Accepted R))
      → ℕ
      → ℕ
      → String
      → Option Job
      → Submission R
      → RateStatus
      → State
      → State
  rated c cfg store now secs sid job s RateStatus.reject st = on_flood c cfg now sid st
  rated c cfg store now secs sid job s RateStatus.warn st =
      validated c cfg store now secs sid job s true (count stats_warn st)
  rated c cfg store now secs sid job s RateStatus.normal st =
      validated c cfg store now secs sid job s false st

  -- `StratumEvent::ShareSubmitted`
  unfoldable pub share_submitted :
      Crypto
      → Config
      → (Accepted R → Result StratumError (Accepted R))
      → ℕ
      → ℕ
      → String
      → Option Job
      → Submission R
      → State
      → State
  share_submitted c cfg store now secs sid job s st =
      let (rate, st') = rate_of now sid (get sid st.sessions) st in
      rated c cfg store now secs sid job s rate st'

  -- `StratumEvent::WorkerConnected`: the password's difficulty before the port's before the default.
  -- `worker` is the row that the database answers with.
  unfoldable pub worker_connected :
      Crypto → Config → ℕ → String → Option F → ℕ → Option ℕ → State → State
  worker_connected c cfg now sid requested port worker st =
      let base : F = elim (cfg.port_difficulty port) [
        | none ↦ cfg.initial_difficulty
        | some d ↦ d
      ] in
      let d : F = elim requested [ none ↦ base | some r ↦ r ] in
      let tracker = new_tracker R cfg.target_shares_per_minute cfg.retarget_interval_secs d now in
      let ids : List (String × ℕ) = elim worker [
        | none ↦ st.worker_ids
        | some w ↦ (sid, w) ∷ remove sid st.worker_ids
      ] in
      announce sid d (target_for c cfg d) (record st {
        sessions =
            (sid, new_session R now port d tracker (target_for c cfg d)) ∷ remove sid st.sessions;
        worker_ids = ids;
      })

  -- `StratumEvent::SessionDisconnected`
  unfoldable pub session_disconnected : String → State → State
  session_disconnected sid st = record st {
    sessions = remove sid st.sessions;
    worker_ids = remove sid st.worker_ids;
  }
