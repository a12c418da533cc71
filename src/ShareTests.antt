-- ===== src/ShareTests.antt =====
-- Concrete sessions, shares and blocks for crates/pool-core, and the theorems applied to them.
use mathlib.Core.List.{mem-cons_self}
use zcash_mining_pool.Prelude.{
  ℕ, ◌+◌, ◌*◌, ◌/◌, ◌-◌, ◌≤◌, ◌≡◌, ◌≢◌, ◌⊎◌, refl, true, false, String, Option, some, none, List,
  [], ◌∷◌, ◌++◌, arith, ltb, leb, ℤ, pos, negsuc, replicate, ok, err, if◌then◌else◌, str_eq,
}
use zcash_mining_pool.Float.{Float}
use zcash_mining_pool.Bytes.{be_value, to_le_bytes}
use zcash_mining_pool.Stratum.{duplicate_share}
use zcash_mining_pool.Wire.{compact_size}
use zcash_mining_pool.LedgerTests.{two_miners}
use zcash_mining_pool.Ledger.Tables.{Submission}
use zcash_mining_pool.Ledger.Blocks.{get_open_block_submissions}
use zcash_mining_pool.Share.Session.{Session, count_accepted, remember, member, push_capped}
use zcash_mining_pool.Share.Dedup.{here, takes, changes, counted, replay_refused}
use zcash_mining_pool.Share.Validate.{Crypto, Job, Accepted, validate_share, accepted}
use zcash_mining_pool.Share.Validate as Validate
use zcash_mining_pool.Share.Sound.{validate_share-IsShare, IsShare}
use zcash_mining_pool.Share.Handler.{State, Config, share_submitted}
use zcash_mining_pool.Share.Handler.Counts.{share_submitted-OneMore, OneMore, AddsUp}
use zcash_mining_pool.Share.Blocks.{
  verified, mismatch, unknown, Writes, Answers, Found, drop_crumb, fate_of, submit_block,
  block_found, sweep_all,
}
use zcash_mining_pool.Share.Blocks.Kept.{
  sweep_records, won_block_kept, crash_recovered, Recorded, IsOpen,
}
use zcash_mining_pool.Share.Target.{compare_bytes, meets_target, parse_target}
use zcash_mining_pool.Vardiff.{Tracker, midpoint}
use zcash_mining_pool.Vardiff.Pace.{
  Event, share, flood, Spaced, retarget_times, retarget_times-Spaced,
}
use zcash_mining_pool.Vardiff.Range.{Within, Laws, run, run-Within}

-- Numbers in place of floats: thousandths.
abbrev cut_to_ℕ : ℤ → ℕ
cut_to_ℕ (pos n) = n
cut_to_ℕ (negsuc n) = 0

abbrev pub thousandths : Float
thousandths = record {
  F = ℕ;
  of_ℤ = λ z. cut_to_ℕ z * 1000;
  of_ℕ = λ n. n * 1000;
  ratio = λ n d. n * 1000 / d;
  add = ◌+◌;
  sub = ◌-◌;
  mul = λ a b. a * b / 1000;
  div = λ a b. a * 1000 / b;
  to_i64 = λ a. pos (a / 1000);
  floor_i64 = λ a. pos (a / 1000);
  lt = ltb;
  le = leb;
}

-- A tracker of 20 shares in a minute, and a miner that sends far more.
abbrev tracker : Tracker thousandths
tracker = record {
  shares_in_window = 0;
  window_start = 0;
  target_shares_per_minute = 20000;
  retarget_interval_secs = 30000;
  current_difficulty = 1000;
  min_difficulty = 1000;
  max_difficulty = 10000000000000;
  smoothed_ratio = 1000;
  last_went_up = none;
  last_retarget_at = 0;
  last_early_retarget_at = none;
}

abbrev traffic : List Event
traffic = share 1000 ∷ flood 1200 ∷ flood 1300 ∷ flood 1800 ∷ share 40000 ∷ []

retarget_times-Spaced_example : Spaced 0 (retarget_times thousandths traffic tracker)
retarget_times-Spaced_example = retarget_times-Spaced thousandths traffic tracker

not_below : (a b : ℕ) → a ≤ b → ltb b a ≡ false
not_below a b h = ground arith

below : (a b : ℕ) → ltb b a ≡ false → a ≤ b
below a b h = ground arith

thousandths-Laws : Laws thousandths
unfolding midpoint
thousandths-Laws = record {
  irreflexive = λ x. not_below x x (omega arith);
  mean = λ lo hi a b low high h k. (
    not_below lo _ (omega (arith, below lo a h.0, below lo b k.0)),
    not_below _ hi (omega (arith, below a hi h.1, below b hi k.1)),
  );
}

run-Within_example :
    Within thousandths 1000 10000000000000 (run thousandths traffic tracker).current_difficulty
run-Within_example =
    run-Within thousandths thousandths-Laws traffic tracker refl refl refl (refl, refl)

abbrev session : Session thousandths
session = record {
  vardiff = tracker;
  target = replicate 32 255;
  recent_targets = [];
  rate_window_start = 0;
  rate_window_shares = 0;
  low_diff_streak = 0;
  connected_at = 0;
  local_port = 3333;
  diff_history = [];
  shares_accepted = 0;
  rejected_low_diff = 0;
  rejected_job_not_found = 0;
  rejected_other = 0;
  recent_share_fps = [];
}

abbrev with_fps : List ℕ → Session thousandths
with_fps fps = record session { recent_share_fps = fps }

-- Two other shares, and then the count of an accepted one.
replay_refused_example :
    remember thousandths 11 (count_accepted thousandths (with_fps (11 ∷ 12 ∷ 13 ∷ [])))
    ≡ err duplicate_share
unfolding remember member push_capped count_accepted
replay_refused_example =
    replay_refused thousandths 11 2 (with_fps []) (with_fps (11 ∷ []))
      (count_accepted thousandths (with_fps (11 ∷ 12 ∷ 13 ∷ []))) refl
      (changes
        (takes {sd = with_fps (11 ∷ 12 ∷ [])} 13 (takes {sd = with_fps (11 ∷ [])} 12 here refl)
          refl)
        (counted (with_fps (11 ∷ 12 ∷ 13 ∷ []))))
      (omega arith)

-- Stand-ins for the libraries: "s" is a solution, "n" a nonce, and every other text is one byte.
abbrev decoded : String → Option (List ℕ)
decoded text =
    if str_eq text "s"
    then some (replicate 1344 1)
    else if str_eq text "n"
    then some (replicate 32 2)
    else some (3 ∷ [])

abbrev stand_ins : Crypto
stand_ins = record {
  decode = decoded;
  encode = λ _. "ff";
  join = λ a b. b;
  from_hex = λ _. some 0;
  fingerprint = λ j n raw. 5;
  sha256d = λ _. replicate 32 0;
  is_valid_solution = λ h n raw. true;
}

abbrev job : Job
job = record {
  job_id = "j";
  version_hex = "v";
  prev_hash_hex = "p";
  merkle_root_hex = "m";
  reserved_hex = "r";
  bits_hex = "b";
  target = "t";
  curtime = 0;
  height = 3000000;
}

abbrev submission : Validate.Submission thousandths
submission = record { time = "t"; nonce_1 = ""; nonce_2 = "n"; equihash_solution = "s" }

abbrev credited_share : Accepted thousandths
credited_share =
    accepted thousandths 1000
      ((3 ∷ 3 ∷ 3 ∷ 3 ∷ 3 ∷ 3 ∷ []) ++ replicate 32 2 ++ (253 ∷ 64 ∷ 5 ∷ replicate 1344 1))
      (replicate 32 0) (replicate 31 0 ++ 3 ∷ [])

validate_share-IsShare_example :
    (j : Job) × (◌≡◌ {A = Option Job} (some job) (some j))
    × IsShare thousandths stand_ins [] 7 j submission (some (with_fps (5 ∷ []))) credited_share
unfolding validate_share Validate.validate_for Validate.prepare Validate.full_nonce
    Validate.solution Validate.mark remember member Validate.check_share push_capped
    Validate.check_time Validate.swap_bytes be_value to_le_bytes Validate.build_header_input
    Validate.check_work Validate.credited Validate.standing meets_target compare_bytes parse_target
    compact_size
validate_share-IsShare_example =
    validate_share-IsShare thousandths stand_ins [] 7 0 (some job) submission (some session)
      (some (with_fps (5 ∷ []))) credited_share refl

abbrev config : Config thousandths
config = record {
  initial_difficulty = 1000;
  target_shares_per_minute = 20000;
  retarget_interval_secs = 30000;
  default_target = replicate 32 0;
  port_difficulty = λ _. none;
}

abbrev start : State thousandths
start = record {
  sessions = ("a", session) ∷ [];
  worker_ids = ("a", 4) ∷ [];
  stats = record {
    shares_accepted = 2;
    shares_rejected = 3;
    rate_warn = 0;
    rate_reject = 1;
    low_diff = 1;
    job_not_found = 1;
    duplicate = 0;
    others = 1;
  };
  sent = [];
  saved = [];
  disconnected = [];
}

share_submitted-OneMore_example :
    OneMore start.stats
      (share_submitted thousandths stand_ins config ok 7 0 "a" none submission start).stats
unfolding AddsUp
share_submitted-OneMore_example =
    share_submitted-OneMore thousandths stand_ins config ok 7 0 "a" none submission start refl

abbrev won : Found
won = record {
  height = pos 3000000;
  hash = "b9";
  worker_id = 4;
  coinbase_fee = some (negsuc 999);
  fees = [];
}

-- The database refuses the row of the block.
abbrev refuses : Writes
refuses = record { crumbs = true; records = false; resolves = true }

won_block_kept_example :
    Recorded "b9" (block_found refuses won 9 (some none) unknown two_miners).1
    ⊎ IsOpen "b9" (block_found refuses won 9 (some none) unknown two_miners).1
unfolding fate_of submit_block
won_block_kept_example = won_block_kept false true won 9 (some none) unknown two_miners differs
  where
    differs : verified ≢ mismatch
    differs e = cc

-- The chain has every block, and the database cannot settle the submissions.
abbrev confirms : Answers
confirms = record {
  chain = λ s. verified;
  reads = λ s. true;
  records = λ s. true;
  resolves = λ s. false;
}

crash_recovered_example : Recorded "b9" (
    sweep_all confirms 10
      (get_open_block_submissions (drop_crumb true won two_miners).1)
      (drop_crumb true won two_miners).1)
crash_recovered_example = crash_recovered confirms won 10 two_miners (λ s e. (refl, refl, refl))

abbrev open_row : Submission
open_row = record {
  id = 1;
  height = pos 3000001;
  hash = "b7";
  worker_id = 4;
  reward = pos 125000000;
  actual_reward = none;
  resolved = false;
  outcome = none;
}

sweep_records_example : Recorded "b7" (sweep_all confirms 10 (open_row ∷ []) two_miners)
sweep_records_example =
    sweep_records confirms 10 (open_row ∷ []) two_miners open_row mem-cons_self refl refl refl
