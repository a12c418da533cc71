-- ===== src/LedgerTests.antt =====
-- Concrete databases for crates/pool-db/src/queries.rs and crates/rewards/src/pplns.rs, and the theorems
-- applied to them.
use zcash_mining_pool.Prelude.{
  ℕ, ◌+◌, ◌*◌, ◌/◌, ◌-◌, ◌≡◌, refl, true, false, not, some, none, List, [], ◌∷◌, ◌++◌, arith, ltb,
  leb, ℤ, pos, negsuc, ◌+ℤ◌, ◌-ℤ◌, ◌≤ℤ◌, length, ok, err, sum_by,
}
use zcash_mining_pool.Float.{Float}
use zcash_mining_pool.Sql.{select, delete, affected}
use zcash_mining_pool.Ledger.Tables.{Db, sqlx, Cost, BlockStatus}
use zcash_mining_pool.Ledger.Payouts.Void.{void_returns}
use zcash_mining_pool.Ledger.Payouts.{
  void_reorged_payout, of_txid, confirm_payout, refund_payout, reserve_payout, of_attempt,
}
use zcash_mining_pool.Ledger.Payouts.Sound.{IsSound, IsSound-money, owed}
use zcash_mining_pool.Ledger.Payouts.Confirm.{issue}
use zcash_mining_pool.Ledger.Credits.{
  distribute_block_credits, reverse_block_credits_precise, of_block, costs_of,
}
use zcash_mining_pool.Ledger.Credits.Distribution.{
  distribute_adds, credit_once, amounts, credits_for,
}
use zcash_mining_pool.Ledger.Credits.Reversal.{reverse_accounts, reverse_once}
use zcash_mining_pool.Ledger.Credits.Reversing.{credit_total, clawback_total}
use zcash_mining_pool.Ledger.Costs.{take_costs_for_block}
use zcash_mining_pool.Ledger.Costs.Taking.{take_costs_within, fees, IsFull}
use zcash_mining_pool.Ledger.Cycle.{here, next, credit, reserve, confirm, Reach-IsSound}
use zcash_mining_pool.Rewards.{ShareEntry, split, pairs, total_difficulty, distribute_pplns}
use zcash_mining_pool.Rewards.Exact.{distribute_pplns_pays, rewards_of}
use zcash_mining_pool.Ledger.Payouts.Saga.{
  confirm_settles, refund_releases, confirm_once, refund-reserve,
}

-- Two miners: the first has a reservation of 30 under attempt 5, the second was paid 20.
abbrev pub two_miners : Db
two_miners = record {
  miners = 1 ∷ 2 ∷ [];
  balances =
      (record { miner_id = 1; pending = pos 70; paying = pos 30; paid = pos 0 })
      ∷ (record { miner_id = 2; pending = pos 10; paying = pos 0; paid = pos 20 })
      ∷ [];
  items = (record { attempt_id = 5; miner_id = 1; amount = pos 30 }) ∷ [];
  payouts = (record { id = 1; miner_id = 2; txid = "t0"; amount = pos 20; created_at = 3 }) ∷ [];
  attempts = [];
  credits = (record { block_id = 8; miner_id = 1; amount = pos 40 }) ∷ [];
  clawbacks = [];
  costs = (record { id = 1; fee = pos 6; recovered = false }) ∷ [];
  blocks =
      (record {
        id = 8;
        height = pos 3000000;
        hash = "b8";
        reward = pos 125000000;
        actual_reward = none;
        status = BlockStatus.pending;
        found_by = 4;
        costs_recovered = pos 0;
        created_at = 2;
      })
      ∷ [];
  submissions = [];
  next_payout = 2;
  next_attempt = 6;
  next_cost = 2;
  next_block = 9;
  next_submission = 1;
}

pub two_miners-IsSound : IsSound two_miners
unfolding affected sum_by ◌+ℤ◌
two_miners-IsSound = record {
  backed = (refl, refl, (refl, refl, tt));
  audited = (refl, refl, (refl, refl, tt));
  positive = (omega arith, tt);
  housed = (omega arith, tt);
  solvent = ((omega arith, omega arith), ((omega arith, omega arith), tt));
  bookings = ((omega arith, omega arith), tt);
}

confirm_settles_example :
    let (r, db') = confirm_payout true 5 "t1" 9 two_miners in
    (r ≡ ok (length (select (of_attempt 5) two_miners.items)))
    × IsSound db'
    × (owed db' ≡ owed two_miners)
    × (db'.items ≡ delete (of_attempt 5) two_miners.items)
    × (db'.payouts ≡ two_miners.payouts ++ issue "t1" 9 2 (select (of_attempt 5) two_miners.items))
confirm_settles_example = confirm_settles 5 "t1" 9 two_miners two_miners-IsSound

refund_releases_example :
    let (r, db') = refund_payout true 5 two_miners in
    (r ≡ ok (length (select (of_attempt 5) two_miners.items)))
    × IsSound db'
    × (owed db' ≡ owed two_miners)
    × (db'.items ≡ delete (of_attempt 5) two_miners.items)
    × (db'.payouts ≡ two_miners.payouts)
refund_releases_example = refund_releases 5 two_miners two_miners-IsSound

confirm_once_example :
    let db' = (confirm_payout true 5 "t1" 9 two_miners).1 in
    (confirm_payout true 5 "t2" 10 db' ≡ (ok 0, db')) × (refund_payout true 5 db' ≡ (ok 0, db'))
confirm_once_example = confirm_once 5 "t1" "t2" 9 10 two_miners two_miners-IsSound

abbrev two_pairs : List (ℕ × ℤ)
two_pairs = (1, pos 25) ∷ (2, pos 11) ∷ []

refund-reserve_example :
    (refund_payout true 6 (reserve_payout true 6 two_pairs two_miners).1).1 ≡ two_miners
unfolding delete
refund-reserve_example = refund-reserve 6 two_pairs two_miners two_miners-IsSound refl

-- Another block, that is to be distributed.
abbrev with_block : Db
with_block = record two_miners {
  blocks =
      (record {
        id = 9;
        height = pos 3000001;
        hash = "b9";
        reward = pos 125000000;
        actual_reward = none;
        status = BlockStatus.pending;
        found_by = 4;
        costs_recovered = pos 0;
        created_at = 3;
      })
      ∷ two_miners.blocks;
}

with_block-IsSound : IsSound with_block
with_block-IsSound = IsSound-money two_miners with_block refl two_miners-IsSound

distribute_adds_example :
    let (r, db') = distribute_block_credits true 9 two_pairs with_block in
    (r ≡ ok tt)
    × IsSound db'
    × (owed db' ≡ owed with_block +ℤ amounts two_pairs)
    × (db'.credits ≡ with_block.credits ++ credits_for 9 two_pairs)
unfolding affected
distribute_adds_example =
    distribute_adds 9 two_pairs with_block with_block-IsSound (omega arith, (omega arith, tt))
      (refl, (refl, tt)) (refl, (refl, tt)) (refl, (refl, tt))

credit_once_example :
    distribute_block_credits true 8 (((2, pos 7) ∷ []) ++ (1, pos 5) ∷ []) two_miners
    ≡ (err sqlx, two_miners)
unfolding affected
credit_once_example = credit_once 8 1 (pos 5) ((2, pos 7) ∷ []) [] true two_miners (omega arith)

reverse_accounts_example :
    let (result, db') = reverse_block_credits_precise true 8 two_miners in
    (reversed : ℤ) × (clawback : ℤ) × (result ≡ ok (some (reversed, clawback)))
    × (reversed +ℤ clawback ≡ credit_total (select (of_block 8) two_miners.credits))
    × (owed db' +ℤ reversed ≡ owed two_miners)
    × (clawback_total db' ≡ clawback_total two_miners +ℤ clawback)
    × (db'.credits ≡ delete (of_block 8) two_miners.credits)
    × IsSound db'
unfolding select costs_of
reverse_accounts_example =
    reverse_accounts 8 (pos 0) two_miners two_miners-IsSound (omega arith, tt) (omega arith) refl

reverse_once_example :
    let db' = (reverse_block_credits_precise true 8 two_miners).1 in
    reverse_block_credits_precise true 8 db' ≡ (ok none, db')
unfolding select costs_of
reverse_once_example =
    reverse_once 8 (pos 0) two_miners two_miners-IsSound (omega arith, tt) (omega arith) refl

take_costs_within_example :
    (taken : ℤ) × ((take_costs_for_block true 8 (pos 10) two_miners).0 ≡ ok taken)
    × (taken ≤ℤ pos 10)
    × (front : List Cost) × (back : List Cost) × (select (λ c. not c.recovered) two_miners.costs
        ≡ front ++ back)
    × (taken ≡ fees front)
    × IsFull (pos 10) taken back
take_costs_within_example = take_costs_within 8 (pos 10) two_miners (omega arith)

-- Numbers in place of floats: a fraction is counted in hundredths, and cut off.
abbrev cut_to_ℕ : ℤ → ℕ
cut_to_ℕ (pos n) = n
cut_to_ℕ (negsuc n) = 0

abbrev hundredths : Float
hundredths = record {
  F = ℕ;
  of_ℤ = cut_to_ℕ;
  of_ℕ = λ n. n;
  ratio = λ n d. n * 100 / d;
  add = ◌+◌;
  sub = ◌-◌;
  mul = λ a b. a * b / 100;
  div = λ a b. a * 100 / b;
  to_i64 = pos;
  floor_i64 = pos;
  lt = ltb;
  le = leb;
}

abbrev window : List (ShareEntry hundredths)
window = (2, 1) ∷ []

distribute_pplns_pays_example :
    let (r, db') = distribute_pplns hundredths true 9 (pos 90) ((1, 3) ∷ window) with_block in
    (r ≡ ok (rewards_of hundredths (pos 90) ((1, 3) ∷ window)))
    × IsSound db'
    × (owed db' ≡ owed with_block +ℤ pos 90)
unfolding affected total_difficulty split pairs ◌-ℤ◌ ◌+ℤ◌
distribute_pplns_pays_example =
    distribute_pplns_pays hundredths 9 (pos 90) (1, 3) window with_block with_block-IsSound refl
      (refl, (refl, tt)) (refl, (refl, tt)) refl (omega arith, (omega arith, tt))

-- Two miners are credited, and then a payout is reserved and confirmed.
abbrev credited_db : Db
credited_db = (distribute_block_credits true 9 two_pairs with_block).1

abbrev reserved_db : Db
reserved_db = (reserve_payout true 6 two_pairs credited_db).1

abbrev paid_db : Db
paid_db = (confirm_payout true 6 "t9" 12 reserved_db).1

Reach-IsSound_example :
    IsSound paid_db
    × (owed paid_db ≡ owed with_block +ℤ (pos 0 +ℤ amounts two_pairs +ℤ pos 0 +ℤ pos 0))
unfolding affected
Reach-IsSound_example = Reach-IsSound with_block-IsSound (
    next
      (next
        (next here (
          credit 9 two_pairs with_block (omega arith, (omega arith, tt)) (refl, (refl, tt))
            (refl, (refl, tt)) (refl, (refl, tt))))
        (reserve true 6 two_pairs credited_db))
      (confirm true 6 "t9" 12 reserved_db))

-- The payment of the second miner is an hour old.
void_returns_example :
    let (r, db') = void_reorged_payout true "t0" 4000 two_miners in
    (r ≡ ok (1, pos 20))
    × IsSound db'
    × (owed db' ≡ owed two_miners)
    × (db'.payouts ≡ delete (of_txid "t0") two_miners.payouts)
    × (db'.items ≡ two_miners.items)
unfolding affected select sum_by ◌+ℤ◌
void_returns_example = void_returns "t0" 4000 two_miners two_miners-IsSound refl
