-- ===== src/Payout/Round.antt =====
-- The payout saga of `process_payouts` in crates/pool-dashboard/src/main.rs, from the attempt row on: reserve,
-- set_status, submit to the wallet, wait, look for the transaction, confirm. Every write is recorded, so that a
-- crash is a point of the trace.
pub mod Trace
pub mod Marks
pub mod Sent
pub mod Safe
use text.Mathlib.Text.{find?}
use zcash_mining_pool.Prelude.{
  ℕ, zero, suc, ◌+◌, ◌*◌, String, Bool, true, false, List, [], ◌∷◌, ◌++◌, map, length, ◌==◌,
  if◌then◌else◌, Option, none, some, ℤ, pos, sum_by, Result, ok, err,
}
use zcash_mining_pool.Float.{Float}
use zcash_mining_pool.Ledger.Tables.{AttemptStatus, Db, DbError}
use zcash_mining_pool.Ledger.Payouts.{reserve_payout, confirm_payout, refund_payout}
use zcash_mining_pool.Ledger.Costs.{record_tx_cost}
use zcash_mining_pool.Payout.Attempts.{create_payout_attempt, update_payout_attempt}
use zcash_mining_pool.Payout.Rpc.{
  RpcError, json_rpc, http, null_result, parse, OpStatus, OpResult, wait_for_operation,
}
use zcash_mining_pool.Payout.Selection.{Transfer, merge_amounts, to_zec}

-- What is seen from outside: a committed state, or the call of `z_sendmany`.
pub data Effect (F : Type 0) : Type 0 where
  wrote : Db → Effect F
  submitted : List (String × F) → Effect F

-- What the round returns, an error without its text, and its effects in order.
pub record Outcome (F : Type 0) : Type 0 where
  pub result : Result (Unit {0}) ℕ
  pub effects : List (Effect F)

abbrev pub ends : {F : Type 0} → Result (Unit {0}) ℕ → List (Effect F) → Outcome F
ends r es = record { result = r; effects = es }

abbrev pub after : {F : Type 0} → Effect F → Outcome F → Outcome F
after e o = record o { effects = e ∷ o.effects }

-- What a round meets: the clock, the wallet, the node, and which writes reach the database (`marks`
-- are the status updates whose failure the source ignores).
pub record Surroundings (F : Type 0) : Type 0 where
  pub now : ℕ
  pub creates : Bool
  pub reserves : Bool
  pub submits : Bool
  pub refunds : Bool
  pub records : Bool
  pub confirms : Bool
  pub marks : AttemptStatus → Bool
  pub z_sendmany : List (String × F) → Result RpcError String
  pub clock : ℕ → ℕ
  pub op_status : String → ℕ → Result RpcError (List OpStatus)
  pub raw_transaction : String → ℕ → Result RpcError (Unit {0})

-- `estimate_payout_fee`, whose `.max(2)` never applies
unfoldable pub estimate_payout_fee : ℕ → ℤ
estimate_payout_fee recipients = pos (5000 * (recipients + 2))

-- The loop that looks for the transaction on the node, with `n` tries left.
unfoldable pub is_visible : (ℕ → Result RpcError (Unit {0})) → ℕ → ℕ → Bool
is_visible look zero i = false
is_visible look (suc n) i =
    let rest = is_visible look n (suc i) in elim (look i) [ ok _ ↦ true | err e ↦ rest ]

abbrev pub is_json_rpc : RpcError → Bool
is_json_rpc (json_rpc code message) = true
is_json_rpc http = false
is_json_rpc null_result = false
is_json_rpc parse = false

-- Whether the error's message holds "Insufficient balance".
abbrev pub is_deferred : RpcError → Bool
is_deferred (json_rpc code message) = elim (find? message "Insufficient balance") [
  | none ↦ false
  | some i ↦ true
]
is_deferred http = false
is_deferred null_result = false
is_deferred parse = false

abbrev pub is_reserved : List (ℕ × ℤ) → Transfer → Bool
is_reserved [] t = false
is_reserved ((m, a) ∷ more) t = if t.miner_id == m then true else is_reserved more t

unfoldable pub keep_reserved : List (ℕ × ℤ) → List Transfer → List Transfer
keep_reserved reserved [] = []
keep_reserved reserved (t ∷ ts) =
    let rest = keep_reserved reserved ts in if is_reserved reserved t then t ∷ rest else rest

module _ (R : Float) where
  open R use {F}

  -- The outputs of `z_sendmany`, in ZEC.
  unfoldable pub outputs : List Transfer → List (String × F)
  outputs ts = map (λ (addr, z). (addr, to_zec R z)) (merge_amounts ts)

  module _ (w : Surroundings F) (k : ℕ) where
    -- A status update whose failure is ignored.
    abbrev pub set_status : AttemptStatus → Option String → Option String → Db → Db
    set_status status opid txid db =
        (update_payout_attempt (w.marks status) k status opid txid db).1

    abbrev pub refunded : Db → Db
    refunded db = (refund_payout w.refunds k db).1

    -- Refund, mark as failed, and return.
    abbrev pub give_up : Result (Unit {0}) ℕ → Db → Outcome F
    give_up r db =
        let db' = refunded db in
        let db'' = set_status AttemptStatus.failed none none db' in
        ends r (wrote db' ∷ wrote db'' ∷ [])

    -- Leave the reservation to the reconciler.
    abbrev pub park : Option String → Option String → Result (Unit {0}) ℕ → Db → Outcome F
    park opid txid r db = ends r (wrote (set_status AttemptStatus.sent opid txid db) ∷ [])

    abbrev pub on_confirm : String → Result DbError ℕ → Db → Outcome F
    on_confirm t (err e) db = after (wrote db) (park none (some t) (ok 0) db)
    on_confirm t (ok n) db =
        after (wrote db)
          (ends (ok n) (wrote (set_status AttemptStatus.confirmed none (some t) db) ∷ []))

    abbrev pub costed : ℕ → Db → Db
    costed recipients db =
        if w.records then record_tx_cost (estimate_payout_fee recipients) db else db

    -- The transaction is visible.
    unfoldable pub finish : String → ℕ → Db → Outcome F
    finish t recipients db =
        let db' = costed recipients db in
        let (r, db'') = confirm_payout w.confirms k t w.now db' in
        after (wrote db') (on_confirm t r db'')

    abbrev pub on_look : String → ℕ → Bool → Db → Outcome F
    on_look t recipients true db = finish t recipients db
    on_look t recipients false db = park none (some t) (ok 0) db

    -- What the wallet answered on the operation. Twenty-five rounds of waiting are enough, so the
    -- case without an answer is the source's error.
    abbrev pub on_wait : String → ℕ → Option (Result (Unit {0}) OpResult) → Db → Outcome F
    on_wait op recipients (some (ok (OpResult.success t))) db =
        on_look t recipients (is_visible (w.raw_transaction t) 6 0) db
    on_wait op recipients (some (ok OpResult.failed)) db = give_up (err tt) db
    on_wait op recipients (some (err e)) db = park (some op) none (err tt) db
    on_wait op recipients none db = park (some op) none (err tt) db

    abbrev pub awaited : String → Option (Result (Unit {0}) OpResult)
    awaited op = wait_for_operation w.now w.clock (w.op_status op)

    -- What `z_sendmany` answered.
    abbrev pub on_send : ℕ → Result RpcError String → Db → Outcome F
    on_send recipients (ok op) db =
        let db' = set_status AttemptStatus.sent (some op) none db in
        after (wrote db') (on_wait op recipients (awaited op) db')
    on_send recipients (err e) db =
        if is_json_rpc e
        then give_up (if is_deferred e then ok 0 else err tt) db
        else park none none (err tt) db

    abbrev pub on_submit : List Transfer → Result DbError (Unit {0}) → Db → Outcome F
    on_submit ts (err e) db = after (wrote db) (give_up (err tt) db)
    on_submit ts (ok _) db =
        let sums = outputs ts in
        after (wrote db) (after (submitted sums) (on_send (length sums) (w.z_sendmany sums) db))

    abbrev pub on_reserve : List Transfer → Result DbError (List (ℕ × ℤ)) → Db → Outcome F
    on_reserve ts (err e) db =
        after (wrote db) (ends (err tt) (wrote (set_status AttemptStatus.failed none none db) ∷ []))
    on_reserve ts (ok []) db =
        after (wrote db) (ends (ok 0) (wrote (set_status AttemptStatus.failed none none db) ∷ []))
    on_reserve ts (ok (x ∷ xs)) db =
        let kept = keep_reserved (x ∷ xs) ts in
        let (r, db') = update_payout_attempt w.submits k AttemptStatus.submitting none none db in
        after (wrote db) (on_submit kept r db')

    abbrev pub wanted : Transfer → ℕ × ℤ
    wanted t = (t.miner_id, t.amount)

    unfoldable pub reserve_and_send : List Transfer → Db → Outcome F
    reserve_and_send ts db =
        let (r, db') = reserve_payout w.reserves k (map wanted ts) db in on_reserve ts r db'

  abbrev pub on_create : Surroundings F → List Transfer → Result DbError ℕ → Db → Outcome F
  on_create w ts (err e) db = ends (ok 0) (wrote db ∷ [])
  on_create w ts (ok k) db = after (wrote db) (reserve_and_send w k ts db)

  -- The saga, for a `payout_list` that is not empty.
  unfoldable pub pay_round : Surroundings F → List Transfer → Db → Outcome F
  pay_round w ts db =
      let (r, db') =
        create_payout_attempt w.creates (sum_by (λ (t : Transfer). t.amount) ts) w.now db in
      on_create w ts r db'
