-- ===== src/Rewards.antt =====
-- crates/rewards/src/pplns.rs: the distribution of a block's reward.
pub mod Exact
use zcash_mining_pool.Prelude.{
  ℕ, suc, ◌+◌, ◌/◌, Bool, true, false, List, [], ◌∷◌, ◌++◌, ◌==◌, length, if◌then◌else◌, Option,
  some, none, ℤ, pos, negsuc, ◌+ℤ◌, ◌-ℤ◌, ltb_ℤ, leb_ℤ, Result, ok, err,
}
use zcash_mining_pool.Float.{Float}
use zcash_mining_pool.Ledger.Tables.{Db, DbError, sqlx}
use zcash_mining_pool.Ledger.Costs.{take_costs_for_block}
use zcash_mining_pool.Ledger.Credits.{distribute_block_credits}

pub data RewardMode : Type 0 where
  pplns solo : RewardMode

-- i64 division by a positive number, towards zero.
abbrev pub div_ℤ : ℤ → ℕ → ℤ
div_ℤ (pos n) d = pos (n / d)
div_ℤ (negsuc n) d = pos 0 -ℤ pos (suc n / d)

-- The pairs of a `Vec` of credits with a positive amount.
unfoldable pub positive_pairs : List (ℕ × ℤ) → List (ℕ × ℤ)
positive_pairs [] = []
positive_pairs ((m, a) ∷ xs) =
    let rest = positive_pairs xs in if ltb_ℤ (pos 0) a then (m, a) ∷ rest else rest

-- The credits are written in one transaction, or not at all where there are none.
unfoldable pub credit_rewards : Bool → ℕ → List (ℕ × ℤ) → Db → Result DbError (Unit {0}) × Db
credit_rewards commits block [] db = (ok tt, db)
credit_rewards commits block (x ∷ xs) db = distribute_block_credits commits block (x ∷ xs) db

module _ (R : Float) where
  open R use {F, of_ℤ, ratio, add, sub, mul, div, to_i64, floor_i64, lt, le}

  -- `PplnsShareEntry`
  abbrev pub ShareEntry : Type 0
  ShareEntry = ℕ × F

  -- `PplnsReward`
  pub record Reward : Type 0 where
    pub miner_id : ℕ
    pub share_fraction : F
    pub amount : ℤ

  -- `PplnsCalculator::new` clamps the fee to [0, 1].
  unfoldable pub clamp_fee : F → F
  clamp_fee fee =
      if lt fee (ratio 0 1) then ratio 0 1 else if lt (ratio 1 1) fee then ratio 1 1 else fee

  unfoldable pub distributable : F → ℤ → ℤ
  distributable pool_fee net = to_i64 (mul (of_ℤ net) (sub (ratio 1 1) pool_fee))

  unfoldable pub total_difficulty : F → List ShareEntry → F
  total_difficulty acc [] = acc
  total_difficulty acc ((m, d) ∷ es) = total_difficulty (add acc d) es

  -- The loop over the shares; `given` is `distributed_total`. The last miner gets what is left.
  unfoldable pub split : ℤ → F → ℤ → List ShareEntry → List Reward
  split amount total given [] = []
  split amount total given ((m, d) ∷ []) =
      (record { miner_id = m; share_fraction = div d total; amount = amount -ℤ given }) ∷ []
  split amount total given ((m, d) ∷ e ∷ es) =
      let fraction = div d total in
      let part = floor_i64 (mul (of_ℤ amount) fraction) in
      (record { miner_id = m; share_fraction = fraction; amount = part })
      ∷ split amount total (given +ℤ part) (e ∷ es)

  unfoldable pub pairs : List Reward → List (ℕ × ℤ)
  pairs [] = []
  pairs (r ∷ rs) = (r.miner_id, r.amount) ∷ pairs rs

  abbrev pub after_credits :
      List Reward → Result DbError (Unit {0}) × Db → Result DbError (List Reward) × Db
  after_credits rewards (ok _, db) = (ok rewards, db)
  after_credits rewards (err e, db) = (err e, db)

  unfoldable pub distribute_solo : Bool → ℕ → ℤ → Option ℕ → Db → Result DbError (List Reward) × Db
  distribute_solo commits block amount none db = (err sqlx, db)
  distribute_solo commits block amount (some m) db =
      let reward : Reward = record { miner_id = m; share_fraction = ratio 1 1; amount = amount } in
      if ltb_ℤ (pos 0) amount
      then after_credits (reward ∷ [])
          (distribute_block_credits commits block ((m, amount) ∷ []) db)
      else (ok (reward ∷ []), db)

  unfoldable pub distribute_pplns :
      Bool → ℕ → ℤ → List ShareEntry → Db → Result DbError (List Reward) × Db
  distribute_pplns commits block amount [] db = (ok [], db)
  distribute_pplns commits block amount (e ∷ es) db =
      let total = total_difficulty (ratio 0 1) (e ∷ es) in
      let rewards = split amount total (pos 0) (e ∷ es) in
      if le total (ratio 0 1)
      then (ok [], db)
      else after_credits rewards (credit_rewards commits block (positive_pairs (pairs rewards)) db)

  pub record Calculator : Type 0 where
    pub pool_fee : F
    pub mode : RewardMode

  unfoldable pub distribute_net :
      Calculator
      → Bool
      → ℕ
      → ℤ
      → Option ℕ
      → List ShareEntry
      → Db
      → Result DbError (List Reward) × Db
  distribute_net c commits block net finder shares db =
      let amount = distributable c.pool_fee net in
      elim c.mode [
        | solo ↦ distribute_solo commits block amount finder db
        | pplns ↦ distribute_pplns commits block amount shares db
      ]

  -- `PplnsCalculator::distribute`. The two booleans say whether the two transactions commit; `finder`
  -- is the miner that the workers table names for the finding worker, and `shares` what
  -- `get_pplns_shares` selects.
  unfoldable pub distribute :
      Calculator
      → Bool
      → Bool
      → ℤ
      → ℕ
      → Option ℕ
      → List ShareEntry
      → Db
      → Result DbError (List Reward) × Db
  distribute c commits_costs commits block_reward block finder shares db =
      let (costs, db') = take_costs_for_block commits_costs block (div_ℤ block_reward 50) db in
      elim costs [
        | err e ↦ (err e, db')
        | ok v ↦ distribute_net c commits block (block_reward -ℤ v) finder shares db'
      ]
