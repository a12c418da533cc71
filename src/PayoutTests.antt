-- ===== src/PayoutTests.antt =====
-- A payout round and a sweep of crates/pool-dashboard run on concrete databases, and the theorems applied to
-- them.
use zcash_mining_pool.Prelude.{
  ℕ, suc, ◌+◌, ◌*◌, ◌==◌, ◌≡◌, refl, String, true, false, some, none, Option, List, [], ◌∷◌, arith,
  pos, negsuc, ◌-ℤ◌, Result, ok, err, replicate, sum_by, if◌then◌else◌,
}
use zcash_mining_pool.Ledger.Tables.{Attempt, AttemptStatus, Block, BlockStatus, Db}
use zcash_mining_pool.Ledger.Payouts.Sound.{IsSound, IsSound-money}
use zcash_mining_pool.LedgerTests.{two_miners, two_miners-IsSound}
use zcash_mining_pool.ShareTests.{thousandths}
use zcash_mining_pool.Text.{chars}
use zcash_mining_pool.Payout.Address.{is_valid_zcash_address, is_valid_form, networks_disjoint}
use zcash_mining_pool.Payout.Attempts.{get_reserved_attempts}
use zcash_mining_pool.Payout.Maturity.{Chain, check_block_maturity}
use zcash_mining_pool.Payout.Maturity.Settled.{AllSettled}
use zcash_mining_pool.Payout.Maturity.Done.{Ended, check_block_maturity_settles}
use zcash_mining_pool.Payout.Rpc.{RpcError, json_rpc, OpStatus, OpResult, wait_for_operation}
use zcash_mining_pool.Payout.Reconciler.{
  Answers, Summary, learn, read_status, judge, reconcile_reserved_payouts,
}
use zcash_mining_pool.Payout.Reconciler.Evidence.{IsReleasable, judge-refund}
use zcash_mining_pool.Payout.Reconciler.Books.{view, rule_all, reconcile_refines}
use zcash_mining_pool.Payout.Reconciler.Outcome.{Accounts, Grows, reconcile_is_justified}
use zcash_mining_pool.Payout.Reconciler.Phantoms.{Lookups, check_phantom_payouts}
use zcash_mining_pool.Payout.Reconciler.Phantoms.Voided.{Checked, check_phantom_voids}
use zcash_mining_pool.Payout.Selection.{Transfer, merge_amounts}
use zcash_mining_pool.Payout.Selection.Merging.{sent_to, due_to, IsAscending, merge_pays}
use zcash_mining_pool.Payout.Round.{Surroundings, pay_round}
use zcash_mining_pool.Payout.Round.Trace.{Always, IsSafe}
use zcash_mining_pool.Payout.Round.Safe.{reserved_state, pay_round-IsSafe}
use zcash_mining_pool.Payout.Crash.{IsSwept, crash_then_sweep}
use zcash_mining_pool.Payout.Waiting.{Explains, wait_ends}

abbrev any_checksum : String → Option (List ℕ)
any_checksum addr = some (replicate 22 0)

networks_disjoint_example : is_valid_zcash_address any_checksum "t1abc" "testnet" ≡ false
unfolding is_valid_zcash_address is_valid_form chars
networks_disjoint_example = networks_disjoint any_checksum "t1abc" "testnet" refl refl

-- The wallet reports success under "t9", and the node has it.
abbrev done_status : OpStatus
done_status = record { status = some "success"; txid = some (some "t9"); first_txid = none }

abbrev failed_status : OpStatus
failed_status = record { status = some "failed"; txid = none; first_txid = none }

abbrev good_answers : Answers
good_answers = record {
  op_status = λ k op. ok (done_status ∷ []);
  raw_transaction = λ k t. ok tt;
  now = λ k. 5000;
  commits = λ k. true;
  marks = λ k. true;
}

abbrev bad_answers : Answers
bad_answers = record good_answers { op_status = λ k op. ok (failed_status ∷ []) }

abbrev sent_attempt : Attempt
sent_attempt = record {
  id = 5;
  status = AttemptStatus.sent;
  opid = some "op5";
  txid = none;
  total_zatoshis = pos 30;
  created_at = 100;
}

abbrev in_flight : Db
in_flight = record two_miners { attempts = sent_attempt ∷ [] }

in_flight-IsSound : IsSound in_flight
in_flight-IsSound = IsSound-money two_miners in_flight refl two_miners-IsSound

judge-refund_example : IsReleasable bad_answers sent_attempt
unfolding judge learn read_status
judge-refund_example = judge-refund bad_answers sent_attempt refl

abbrev no_summary : Summary
no_summary = record {
  attempts_resolved = 0;
  attempts_failed = 0;
  late_confirmed = 0;
  phantom_txids = [];
  invariant_drift = pos 0;
  alerts = [];
}

abbrev swept_db : Db
swept_db = (reconcile_reserved_payouts good_answers (some 10) 5000 (no_summary, in_flight)).1

reconcile_refines_example :
    IsSound swept_db
    × (view swept_db
        ≡ rule_all good_answers (get_reserved_attempts (some 10) 5000 in_flight) (view in_flight))
reconcile_refines_example =
    reconcile_refines good_answers (some 10) 5000 no_summary in_flight in_flight-IsSound

reconcile_is_justified_example :
    let todo = get_reserved_attempts (some 10) 5000 in_flight in
    Accounts good_answers todo (view in_flight).reservations (view swept_db).reservations
    × Grows good_answers todo (view in_flight).payments (view swept_db).payments
reconcile_is_justified_example =
    reconcile_is_justified good_answers (some 10) 5000 no_summary in_flight in_flight-IsSound

abbrev transfers : List Transfer
transfers =
    (record { miner_id = 1; amount = pos 25; address = "u1b" })
    ∷ (record { miner_id = 2; amount = pos 11; address = "u1a" })
    ∷ []

merge_pays_example :
    ((addr : String)
      → sum_by (sent_to addr) (merge_amounts transfers) ≡ sum_by (due_to addr) transfers)
    × IsAscending (merge_amounts transfers)
merge_pays_example = merge_pays transfers

abbrev five_apart : ℕ → ℕ
five_apart i = 5 * suc i

abbrev in_the_third : ℕ → Result RpcError (List OpStatus)
in_the_third i = if i == 2 then ok (done_status ∷ []) else ok []

wait_ends_example :
    (r : Result (Unit {0}) OpResult) × (wait_for_operation 0 five_apart in_the_third ≡ some r)
    × Explains 0 five_apart in_the_third r
wait_ends_example = wait_ends 0 five_apart in_the_third (λ i. omega arith)

abbrev smooth : Surroundings thousandths.F
smooth = record {
  now = 5000;
  creates = true;
  reserves = true;
  submits = true;
  refunds = true;
  records = true;
  confirms = true;
  marks = λ status. true;
  z_sendmany = λ sums. ok "op6";
  clock = λ i. 5000 + five_apart i;
  op_status = λ op. in_the_third;
  raw_transaction = λ t i. ok tt;
}

pay_round-IsSafe_example :
    Always
      (IsSafe thousandths smooth 6
        (view two_miners)
        (view (reserved_state thousandths smooth transfers two_miners)))
      none
      two_miners
      (pay_round thousandths smooth transfers two_miners).effects
pay_round-IsSafe_example =
    pay_round-IsSafe thousandths smooth transfers two_miners two_miners-IsSound

crash_then_sweep_example :
    Always
      (IsSwept thousandths smooth bad_answers none 9000 no_summary 6
        (view (reserved_state thousandths smooth transfers two_miners)))
      none
      two_miners
      (pay_round thousandths smooth transfers two_miners).effects
crash_then_sweep_example =
    crash_then_sweep thousandths smooth bad_answers none 9000 no_summary transfers two_miners
      two_miners-IsSound

-- The node denies every transaction.
abbrev denied : Lookups
denied = record {
  raw_transaction = λ t. err (json_rpc (negsuc 4) "No such mempool or main chain transaction");
  now = λ t. 4000;
  commits = λ t. true;
}

check_phantom_voids_example :
    Checked denied true two_miners
      (check_phantom_payouts denied true 4000 (no_summary, two_miners)).1
check_phantom_voids_example =
    check_phantom_voids denied true 4000 no_summary two_miners two_miners-IsSound

-- Another block stands at the height of the pool's.
abbrev reorganised : Chain
reorganised = record {
  block_count = ok 3000100;
  block_hash = λ id height. ok "c8";
  commits = λ id. true;
  acknowledges = λ id. true;
  hex_decode = λ s. none;
  hex_encode = λ bytes. "";
  portion = λ pending reversal total. pos 0;
}

abbrev b8 : Block
b8 = record {
  id = 8;
  height = pos 3000000;
  hash = "b8";
  reward = pos 125000000;
  actual_reward = none;
  status = BlockStatus.pending;
  found_by = 4;
  costs_recovered = pos 0;
  created_at = 2;
}

check_block_maturity_settles_example :
    let (result, db') = check_block_maturity reorganised 100 true two_miners in
    AllSettled reorganised 100 true 3000100 two_miners.blocks db'.blocks × Ended 8 (result, db')
unfolding ◌-ℤ◌
check_block_maturity_settles_example =
    check_block_maturity_settles reorganised 100 true 3000100 two_miners 0 b8 refl refl refl refl
