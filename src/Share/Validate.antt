-- ===== src/Share/Validate.antt =====
-- crates/pool-core/src/share.rs: `validate_share`, up to the row that credits the share. The hashes,
-- the Equihash verifier and `hex` are a parameter.
use zcash_mining_pool.Prelude.{
  ℕ, ◌+◌, ◌-◌, Bool, not, ◌||◌, String, List, [], ◌∷◌, ◌++◌, ◌==◌, ltb, if◌then◌else◌, Option, some,
  none, length, reverse, min, Result, ok, err, ◌>>=◌, ◌>>◌, guard, ok_or,
}
use zcash_mining_pool.Float.{Float}
use zcash_mining_pool.Stratum.{StratumError, other, job_not_found, low_difficulty}
use zcash_mining_pool.Wire.{compact_size, strip_compact_size}
use zcash_mining_pool.Bytes.{to_le_bytes, be_value}
use zcash_mining_pool.Share.Target.{meets_target, parse_target}
use zcash_mining_pool.Share.Session.{Session, GraceTarget, remember, grace_target_max_age}

-- What the code calls and does not define: hex::{encode, decode}, u32::from_str_radix(_, 16),
-- the DefaultHasher, SHA-256 applied twice, and equihash::is_valid_solution(200, 9, ...).
pub record Crypto : Type 0 where
  pub decode : String → Option (List ℕ)
  pub encode : List ℕ → String
  -- `format!("{}{}", a, b)`
  pub join : String → String → String
  pub from_hex : String → Option ℕ
  pub fingerprint : String → List ℕ → List ℕ → ℕ
  pub sha256d : List ℕ → List ℕ
  pub is_valid_solution : List ℕ → List ℕ → List ℕ → Bool

-- The fields of `MiningJob` that a share is checked against; `bits` and `target` are the template's.
pub record Job : Type 0 where
  pub job_id : String
  pub version_hex : String
  pub prev_hash_hex : String
  pub merkle_root_hex : String
  pub reserved_hex : String
  pub bits_hex : String
  pub target : String
  pub curtime : ℕ
  pub height : ℕ

-- RAW_SOLUTION_SIZE
abbrev pub raw_solution_size : ℕ
raw_solution_size = 1344

-- The raw solution, and the solution for the header, which is built from the raw one.
abbrev pub canonical : List ℕ → List ℕ × List ℕ
canonical raw = (raw, compact_size raw_solution_size ++ raw)

abbrev pub sized : List ℕ → Result StratumError (List ℕ × List ℕ)
sized raw =
    if length raw == raw_solution_size then ok (canonical raw) else err (other "Bad solution size")

unfoldable pub solution : List ℕ → Result StratumError (List ℕ × List ℕ)
solution bytes =
    if length bytes == raw_solution_size
    then ok (canonical bytes)
    else if ltb raw_solution_size (length bytes)
    then strip_compact_size bytes >>= sized
    else err (other "Solution too short")

-- `u32::swap_bytes`
unfoldable pub swap_bytes : ℕ → ℕ
swap_bytes n = be_value (to_le_bytes 4 n)

-- The window of a share's time: `saturating_add(90)` on a `u32`; `now` is in seconds.
unfoldable pub check_time : Crypto → ℕ → ℕ → String → Result StratumError (Unit {0})
check_time c curtime now time = ok_or (c.from_hex time) (other "Invalid ntime hex") >>= λ n.
    guard (not (ltb (swap_bytes n) curtime || ltb (min (now + 90) 4294967295) (swap_bytes n)))
      (other "ntime out of range")

-- `build_header_input`
unfoldable pub build_header_input : Crypto → Job → String → Result StratumError (List ℕ)
build_header_input c job time = do
  version ← ok_or (c.decode job.version_hex) (other "Invalid version hex")
  prev_hash ← ok_or (c.decode job.prev_hash_hex) (other "Invalid prev_hash hex")
  merkle_root ← ok_or (c.decode job.merkle_root_hex) (other "Invalid merkle_root hex")
  reserved ← ok_or (c.decode job.reserved_hex) (other "Invalid reserved hex")
  ntime ← ok_or (c.decode time) (other "Invalid time hex")
  bits ← ok_or (c.decode job.bits_hex) (other "Invalid bits hex")
  ok (version ++ prev_hash ++ merkle_root ++ reserved ++ ntime ++ bits)

-- The nonce: the pool's part and the miner's.
unfoldable pub full_nonce : Crypto → String → String → Result StratumError (List ℕ)
full_nonce c nonce_1 nonce_2 =
    ok_or (c.decode (c.join nonce_1 nonce_2)) (other "Invalid nonce hex") >>= λ nonce.
    guard (length nonce == 32) (other "Nonce must be 32 bytes") >> ok nonce

abbrev pub net_target : Result String (List ℕ) → Result StratumError (List ℕ)
net_target (ok t) = ok t
net_target (err e) = err (other "Bad network target")

module _ (R : Float) where
  open R use {F, ratio}

  -- The newest grace target that is young enough and that the hash meets.
  unfoldable pub first_match : ℕ → List ℕ → List (GraceTarget R) → Option F
  first_match now hash [] = none
  first_match now hash (g ∷ gs) =
      let rest = first_match now hash gs in
      if ltb grace_target_max_age (now - g.set_at)
      then rest
      else if meets_target hash g.target
      then some g.difficulty
      else rest

  -- The target, the difficulty and the grace targets that a share is checked against.
  unfoldable pub standing : List ℕ → Option (Session R) → List ℕ × F × List (GraceTarget R)
  standing default_target none = (default_target, ratio 1 1, [])
  standing default_target (some sd) = (sd.target, sd.vardiff.current_difficulty, sd.recent_targets)

  -- The difficulty that a share is credited with.
  unfoldable pub credited : ℕ → List ℕ → List ℕ × F × List (GraceTarget R) → Option F
  credited now hash (target, difficulty, grace) =
      if meets_target hash target then some difficulty else first_match now hash (reverse grace)

  pub record Accepted : Type 0 where
    pub difficulty : F
    pub is_block : Bool
    pub full_header : List ℕ
    pub hash : List ℕ

  abbrev pub accepted : F → List ℕ → List ℕ → List ℕ → Accepted
  accepted difficulty full hash network = record {
    difficulty = difficulty;
    is_block = meets_target hash network;
    full_header = full;
    hash = hash;
  }

  pub record Submission : Type 0 where
    pub time : String
    pub nonce_1 : String
    pub nonce_2 : String
    pub equihash_solution : String

  -- The checks from the header on: the target, the Equihash solution, the network's target.
  unfoldable pub check_work :
      Crypto
      → ℕ
      → Job
      → List ℕ × F × List (GraceTarget R)
      → List ℕ
      → List ℕ
      → List ℕ × List ℕ
      → Result StratumError Accepted
  check_work c now_ms job session header nonce (raw, for_header) = do
    let full = header ++ nonce ++ for_header
    let hash = c.sha256d full
    difficulty ← ok_or (credited now_ms hash session) low_difficulty
    guard (c.is_valid_solution header nonce raw) (other "Invalid Equihash solution")
    network ← net_target (parse_target c.decode job.target)
    ok (accepted difficulty full hash network)

  -- The nonce and the two forms of the solution.
  unfoldable pub prepare : Crypto → Submission → Result StratumError (List ℕ × List ℕ × List ℕ)
  prepare c s = do
    nonce ← full_nonce c s.nonce_1 s.nonce_2
    bytes ← ok_or (c.decode s.equihash_solution) (other "Invalid solution hex")
    solved ← solution bytes
    ok (nonce, solved.0, solved.1)

  -- The duplicate check, where there is a session.
  unfoldable pub mark : ℕ → Option (Session R) → Result StratumError (Option (Session R))
  mark fp none = ok none
  mark fp (some sd) = remember R fp sd >>= λ sd'. ok (some sd')

  unfoldable pub check_share :
      Crypto
      → List ℕ
      → ℕ
      → ℕ
      → Job
      → Submission
      → List ℕ × List ℕ × List ℕ
      → Option (Session R)
      → Result StratumError Accepted
  check_share c default_target now_ms now_secs job s (nonce, raw, for_header) sd = do
    _ ← check_time c job.curtime now_secs s.time
    header ← build_header_input c job s.time
    check_work c now_ms job (standing default_target sd) header nonce (raw, for_header)

  abbrev pub after_mark :
      (Option (Session R) → Result StratumError Accepted)
      → Option (Session R)
      → Result StratumError (Option (Session R))
      → Result StratumError Accepted × Option (Session R)
  after_mark f sd (err e) = (err e, sd)
  after_mark f sd (ok sd') = (f sd', sd')

  abbrev pub on_prepared :
      (List ℕ × List ℕ × List ℕ → Result StratumError Accepted × Option (Session R))
      → Option (Session R)
      → Result StratumError (List ℕ × List ℕ × List ℕ)
      → Result StratumError Accepted × Option (Session R)
  on_prepared f sd (err e) = (err e, sd)
  on_prepared f sd (ok p) = f p

  -- A share for a job that there is; the fingerprint is taken of the raw solution.
  unfoldable pub validate_for :
      Crypto
      → List ℕ
      → ℕ
      → ℕ
      → Job
      → Submission
      → Option (Session R)
      → Result StratumError Accepted × Option (Session R)
  validate_for c default_target now_ms now_secs job s sd =
      on_prepared
        (λ p.
          after_mark (check_share c default_target now_ms now_secs job s p) sd
            (mark (c.fingerprint job.job_id p.0 p.1) sd))
        sd (prepare c s)

  -- `validate_share` up to `record_share`, with the session afterwards.
  unfoldable pub validate_share :
      Crypto
      → List ℕ
      → ℕ
      → ℕ
      → Option Job
      → Submission
      → Option (Session R)
      → Result StratumError Accepted × Option (Session R)
  validate_share c default_target now_ms now_secs none s sd = (err job_not_found, sd)
  validate_share c default_target now_ms now_secs (some job) s sd =
      validate_for c default_target now_ms now_secs job s sd
