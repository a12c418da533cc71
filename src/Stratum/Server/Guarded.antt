-- ===== src/Stratum/Server/Guarded.antt =====
-- Which events a connection of crates/stratum/src/server.rs lets through to the pool.
use zcash_mining_pool.Prelude.{
  ◌≡◌, refl, String, Bool, true, false, not, ◌||◌, inl, inr, Bool-cases, List, [], ◌∷◌, ◌++◌, arith,
  str_eq, if-cases, Option, none, some,
}
use zcash_mining_pool.Float.{Float}
use zcash_mining_pool.Stratum.Request.{
  Json, ClientRequest, subscribe, authorize, submit, suggest_target, extranonce_subscribe, unknown,
  parse,
}
use zcash_mining_pool.Stratum.Server.{
  MinerSession, is_member, authorize_worker, is_worker_authorized, is_safe_name, StratumEvent,
  share_submitted, worker_connected, session_disconnected, target_suggested, Announced, Reply,
  on_subscribe, on_authorize, on_submit, handle_request, on_parsed, is_empty, Frame, serve,
}

module _ (R : Float) (J : Json) (sid nonce : String) where
  open J use {Value}

  -- The events of one connection: each carries its session; a share carries its nonce and comes from
  -- a worker that was reported before; a reported worker has a safe name; the disconnection is the
  -- last event, and it may be missing only where some answer could not be written (`broken`).
  abbrev pub Follows : Bool → List String → List (StratumEvent R J) → Type 0
  Follows broken known [] = broken ≡ true
  Follows broken known (share_submitted s id name job_id time n nonce_2 solution ∷ es) =
      (s ≡ sid) × (n ≡ nonce) × (is_member name known ≡ true) × Follows broken known es
  Follows broken known (worker_connected s name password ∷ es) =
      (s ≡ sid) × (is_safe_name name ≡ true) × Follows broken (name ∷ known) es
  Follows broken known (target_suggested s target ∷ es) = (s ≡ sid) × Follows broken known es
  Follows broken known (session_disconnected s ∷ es) = (s ≡ sid) × (es ≡ [])

  -- The session, with only known workers.
  abbrev Knows : List String → MinerSession → Type 0
  Knows known s =
      (s.session_id ≡ sid)
      × (s.nonce_1 ≡ nonce)
      × ((name : String) → is_member name s.authorized_workers ≡ true → is_member name known ≡ true)

  -- What follows a reply goes on from the session that it leaves.
  abbrev GoesOn : Bool → List String → Reply R J → Type 0
  GoesOn broken known r =
      (rest : List (StratumEvent R J))
      → ((known' : List String) → Knows known' r.session → Follows broken known' rest)
      → Follows broken known (r.events ++ rest)

  authorize-Knows :
      (name : String) (known : List String) (s : MinerSession)
      → Knows known s
      → Knows (name ∷ known) (authorize_worker name s)
  unfolding authorize_worker
  authorize-Knows name known s (a, b, h) = (
    a,
    b,
    λ other.
        if-cases
          (λ (ws : List String). is_member other ws ≡ true → is_member other (name ∷ known) ≡ true)
          (is_member name s.authorized_workers) (λ _ e. ground (arith, h other e))
          (λ _ e. elim (Bool-cases (str_eq name other)) [
            | inl same ↦ rw same refl
            | inr ne ↦
                let e' : is_member other s.authorized_workers ≡ true = rw ne at e in
                rw ne (h other e')
          ]),
  )

  module _ (a : Announced R J) (broken : Bool) (known : List String) (s : MinerSession)
      (h : Knows known s) where
    subscribe-GoesOn : (id : Value) → GoesOn broken known (on_subscribe R J a id s)
    subscribe-GoesOn id rest go =
        if-cases
          (λ (r : Reply R J).
            ((known' : List String) → Knows known' r.session → Follows broken known' rest)
            → Follows broken known (r.events ++ rest))
          s.subscribed (λ _ k. k known h) (λ _ k. k known h) go

    authorize-GoesOn :
        (id : Value) (name password : String)
        → GoesOn broken known (on_authorize R J a id name password s)
    authorize-GoesOn id name password =
        if-cases (GoesOn broken known) (not s.subscribed) (λ _ rest k. k known h)
          (λ _.
            if-cases (GoesOn broken known) (not (is_safe_name name)) (λ _ rest k. k known h)
              (λ safe rest k.
                (h.0, ground (arith, safe), k (name ∷ known) (authorize-Knows name known s h))))

    submit-GoesOn :
        (id : Value) (name job_id time nonce_2 solution : String)
        → GoesOn broken known (on_submit R J a id name job_id time nonce_2 solution s)
    unfolding is_worker_authorized
    submit-GoesOn id name job_id time nonce_2 solution =
        if-cases (GoesOn broken known) (not (is_worker_authorized name s)) (λ _ rest k. k known h)
          (λ known_one rest k. (h.0, h.1, h.2 name (ground (arith, known_one)), k known h))

    handle-GoesOn : (r : ClientRequest J) → GoesOn broken known (handle_request R J a r s)
    unfolding handle_request
    handle-GoesOn (subscribe id agent session host port) = subscribe-GoesOn id
    handle-GoesOn (authorize id name password) = authorize-GoesOn id name password
    handle-GoesOn (submit id name job_id time nonce_2 solution) =
        submit-GoesOn id name job_id time nonce_2 solution
    handle-GoesOn (suggest_target id target) = λ rest k. (h.0, k known h)
    handle-GoesOn (extranonce_subscribe id) = λ rest k. k known h
    handle-GoesOn (unknown id method) = λ rest k. k known h

    parsed-GoesOn : (r : Option (ClientRequest J)) → GoesOn broken known (on_parsed R J a r s)
    parsed-GoesOn none = λ rest k. k known h
    parsed-GoesOn (some r) = handle-GoesOn r

  -- Whether the answers to one of the messages cannot be written.
  abbrev pub is_broken : List (Frame R J) → Bool
  is_broken [] = false
  is_broken (f ∷ more) = not f.writable || is_broken more

  serve-Follows :
      (a : Announced R J) (frames : List (Frame R J)) (broken : Bool) (known : List String)
      (s : MinerSession)
      → (is_broken frames ≡ true → broken ≡ true)
      → Knows known s
      → Follows broken known (serve R J a frames s)
  unfolding serve
  serve-Follows a [] broken known s b h = (h.0, refl)
  serve-Follows a (f ∷ more) broken known s b h =
      let r = on_parsed R J a (parse J f.raw) s in
      parsed-GoesOn a broken known s h (parse J f.raw) _ (λ known' h'.
        elim (Bool-cases (f.writable || is_empty R J r.responses)) [
          | inl e ↦
              rw e (serve-Follows a more broken known' r.session (λ e'. b (ground (arith, e'))) h')
          | inr e ↦ rw e (b (ground (arith, e)))
        ])

-- Whatever a new connection sends, each event that it passes to the pool carries its own session; a
-- share carries the nonce of the session and names a worker that the session reported before; every
-- worker that is reported has a name of safe characters that is not empty and not longer than 256
-- bytes; and the disconnection comes last and only there, and is missing only where the answers to
-- some message could not be written.
pub serve_guards :
    (R : Float) (J : Json) (a : Announced R J) (frames : List (Frame R J))
    (session_id nonce_1 : String) (subscribed : Bool)
    → Follows R J session_id nonce_1 (is_broken R J session_id nonce_1 frames) [] (
        serve R J a frames (record {
          session_id = session_id;
          nonce_1 = nonce_1;
          authorized_workers = [];
          subscribed = subscribed;
        }))
serve_guards R J a frames session_id nonce_1 subscribed =
    serve-Follows R J session_id nonce_1 a frames (is_broken R J session_id nonce_1 frames) [] _
      (λ e. e) (refl, refl, λ name h. h)
