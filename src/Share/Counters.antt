-- ===== src/Share/Counters.antt =====
-- crates/pool-core/src/share.rs: the maps of the validator, as association lists, and the counters that
-- it shares with the API.
use zcash_mining_pool.Prelude.{
  ℕ, suc, String, str_eq, List, [], ◌∷◌, ◌==◌, if◌then◌else◌, Option, some, none,
}

-- `get`, `get_mut`, `insert` and `remove` of a map whose keys are strings.
unfoldable pub get {ℓ} : {A : Type ℓ} → String → List (String × A) → Option A
get k [] = none
get k ((k', a) ∷ m) = let rest = get k m in if str_eq k k' then some a else rest

unfoldable pub modify {ℓ} : {A : Type ℓ} → String → (A → A) → List (String × A) → List (String × A)
modify k f [] = []
modify k f ((k', a) ∷ m) =
    let rest = modify k f m in if str_eq k k' then (k', f a) ∷ m else (k', a) ∷ rest

unfoldable pub remove {ℓ} : {A : Type ℓ} → String → List (String × A) → List (String × A)
remove k [] = []
remove k ((k', a) ∷ m) = let rest = remove k m in if str_eq k k' then rest else (k', a) ∷ rest

-- The counters that the validator shares with the API.
pub record Stats : Type 0 where
  pub shares_accepted : ℕ
  pub shares_rejected : ℕ
  pub rate_warn : ℕ
  pub rate_reject : ℕ
  pub low_diff : ℕ
  pub job_not_found : ℕ
  pub duplicate : ℕ
  pub others : ℕ

unfoldable pub stats_accept : Stats → Stats
stats_accept s = record s { shares_accepted = suc s.shares_accepted }

unfoldable pub stats_warn : Stats → Stats
stats_warn s = record s { rate_warn = suc s.rate_warn }

unfoldable pub stats_flood : Stats → Stats
stats_flood s = record s {
  shares_rejected = suc s.shares_rejected;
  rate_reject = suc s.rate_reject;
  others = suc s.others;
}

-- The counter of a rejection, by the error's code.
unfoldable pub stats_reject : ℕ → Stats → Stats
stats_reject code s =
    let s' : Stats = record s { shares_rejected = suc s.shares_rejected } in
    if code == 21
    then record s' { job_not_found = suc s.job_not_found }
    else if code == 22
    then record s' { duplicate = suc s.duplicate }
    else if code == 23
    then record s' { low_diff = suc s.low_diff }
    else record s' { others = suc s.others }
