-- ===== src/Stratum/Server.antt =====
-- crates/stratum/src/server.rs: what a connection answers to its miner and reports to the pool.
pub mod Guarded
use Prim.Native.String.{len}
use zcash_mining_pool.Prelude.{
  ℕ, ◌-◌, String, Bool, true, false, not, ◌&&◌, ◌||◌, List, [], ◌∷◌, ◌++◌, leb, ◌==◌, str_eq,
  if◌then◌else◌, Option, none, some,
}
use zcash_mining_pool.Float.{Float}
use zcash_mining_pool.Text.{chars, concat}
use zcash_mining_pool.Stratum.{StratumError, other, unauthorized, not_subscribed}
use zcash_mining_pool.Stratum.Request.{
  Json, RawMessage, ClientRequest, subscribe, authorize, submit, suggest_target,
  extranonce_subscribe, unknown, parse,
}

-- `MinerSession`; the set of workers as a list.
pub record MinerSession : Type 0 where
  pub session_id : String
  pub nonce_1 : String
  pub authorized_workers : List String
  pub subscribed : Bool

abbrev pub is_member : String → List String → Bool
is_member name [] = false
is_member name (x ∷ xs) = str_eq x name || is_member name xs

-- `authorize_worker`
unfoldable pub authorize_worker : String → MinerSession → MinerSession
authorize_worker name s = record s {
  authorized_workers =
      if is_member name s.authorized_workers
      then s.authorized_workers
      else name ∷ s.authorized_workers;
}

-- `is_worker_authorized`
unfoldable pub is_worker_authorized : String → MinerSession → Bool
is_worker_authorized name s = is_member name s.authorized_workers

abbrev pub is_between : ℕ → ℕ → ℕ → Bool
is_between low high c = leb low c && leb c high

-- A-Z a-z 0-9 . _ -
unfoldable pub is_safe_char : ℕ → Bool
is_safe_char c =
    is_between 48 57 c
    || is_between 65 90 c
    || is_between 97 122 c
    || (c == 46)
    || (c == 95)
    || (c == 45)

abbrev pub all_safe : List ℕ → Bool
all_safe [] = true
all_safe (c ∷ cs) = is_safe_char c && all_safe cs

-- `wn_ok`
unfoldable pub is_safe_name : String → Bool
is_safe_name name = not (str_eq name "") && leb (len name) 256 && all_safe (chars name)

module _ (R : Float) (J : Json) where
  open R use {F}
  open J use {Value}

  -- The fields of a mining.notify.
  pub record Work : Type 0 where
    pub job_id : String
    pub version : String
    pub prev_hash : String
    pub merkle_root : String
    pub reserved : String
    pub time : String
    pub bits : String
    pub clean_jobs : Bool

  -- `ServerMessage`, as far as the connection itself sends it
  pub data ServerMessage : Type 0 where
    subscribe_result : Value → (session_id nonce_1 : String) (nonce2_size : ℕ) → ServerMessage
    authorize_result : Value → (authorized : Bool) → Option StratumError → ServerMessage
    set_target : String → ServerMessage
    set_difficulty : F → ServerMessage
    notify : Work → ServerMessage
    submit_result : Value → (accepted : Bool) → Option StratumError → ServerMessage

  -- `StratumEvent`, without the addresses
  pub data StratumEvent : Type 0 where
    share_submitted :
        (session_id : String)
        → Value
        → (worker_name job_id time nonce_1 nonce_2 equihash_solution : String) → StratumEvent
    worker_connected : (session_id worker_name password : String) → StratumEvent
    session_disconnected : (session_id : String) → StratumEvent
    target_suggested : (session_id target : String) → StratumEvent

  -- What the server announces: the size of the first nonce, the difficulty and target of the port,
  -- and the work that was broadcast last.
  pub record Announced : Type 0 where
    pub nonce1_size : ℕ
    pub initial : F × String
    pub latest_notify : Option Work

  -- The session after a request, the answers and the events.
  pub record Reply : Type 0 where
    pub session : MinerSession
    pub responses : List ServerMessage
    pub events : List StratumEvent

  abbrev pub reply : MinerSession → List ServerMessage → List StratumEvent → Reply
  reply s ms es = record { session = s; responses = ms; events = es }

  abbrev pub first_work : Option Work → List ServerMessage
  first_work none = []
  first_work (some work) = notify (record work { clean_jobs = true }) ∷ []

  -- A message of the miner, and whether the answers to it can be written.
  pub record Frame : Type 0 where
    pub raw : RawMessage J
    pub writable : Bool

  abbrev pub is_empty : List ServerMessage → Bool
  is_empty [] = true
  is_empty (m ∷ ms) = false

  module _ (a : Announced) where
    abbrev pub session_info : Value → MinerSession → ServerMessage
    session_info id s = subscribe_result id s.session_id s.nonce_1 (32 - a.nonce1_size)

    abbrev pub on_subscribe : Value → MinerSession → Reply
    on_subscribe id s =
        if s.subscribed
        then reply s (session_info id s ∷ []) []
        else reply (record s { subscribed = true })
            (session_info id s
              ∷ set_difficulty a.initial.0
              ∷ set_target a.initial.1
              ∷ first_work a.latest_notify)
            []

    abbrev pub on_authorize : Value → String → String → MinerSession → Reply
    on_authorize id name password s =
        if not s.subscribed
        then reply s (authorize_result id false (some not_subscribed) ∷ []) []
        else if not (is_safe_name name)
        then reply s
            (authorize_result id false
                (some (other "Invalid worker name (allowed characters: A-Z a-z 0-9 . _ -)"))
              ∷ [])
            []
        else reply (authorize_worker name s) (authorize_result id true none ∷ [])
            (worker_connected s.session_id name password ∷ [])

    abbrev pub on_submit : Value → String → String → String → String → String → MinerSession → Reply
    on_submit id name job_id time nonce_2 solution s =
        if not (is_worker_authorized name s)
        then reply s (submit_result id false (some unauthorized) ∷ []) []
        else reply s []
            (share_submitted s.session_id id name job_id time s.nonce_1 nonce_2 solution ∷ [])

    -- `handle_request`
    unfoldable pub handle_request : ClientRequest J → MinerSession → Reply
    handle_request (subscribe id agent session host port) s = on_subscribe id s
    handle_request (authorize id name password) s = on_authorize id name password s
    handle_request (submit id name job_id time nonce_2 solution) s =
        on_submit id name job_id time nonce_2 solution s
    handle_request (suggest_target id target) s =
        reply s [] (target_suggested s.session_id target ∷ [])
    handle_request (extranonce_subscribe id) s = reply s (authorize_result id true none ∷ []) []
    handle_request (unknown id method) s =
        reply s (submit_result id false (some (other (concat "Unknown method: " method))) ∷ []) []

    abbrev pub on_parsed : Option (ClientRequest J) → MinerSession → Reply
    on_parsed none s = reply s [] []
    on_parsed (some r) s = handle_request r s

    -- The loop of `handle_connection` over the messages of the miner, until it ends (the miner
    -- leaves, a line is refused, a broadcast cannot be written, or nothing came for five minutes);
    -- then the pool is told. But where an answer cannot be written, `?` leaves at once. Broadcasts
    -- and pings only pass through.
    unfoldable pub serve : List Frame → MinerSession → List StratumEvent
    serve [] s = session_disconnected s.session_id ∷ []
    serve (f ∷ more) s =
        let r = on_parsed (parse J f.raw) s in
        r.events ++ (if f.writable || is_empty r.responses then serve more r.session else [])
