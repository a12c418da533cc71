-- ===== src/Payout/Rpc.antt =====
-- What the wallet and the node answer: the errors of crates/node-rpc/src/client.rs, and how
-- crates/pool-dashboard/src/main.rs waits for an operation of the wallet. The answers themselves are
-- parameters.
use zcash_mining_pool.Prelude.{
  ℕ, zero, suc, ◌+◌, String, Bool, false, List, [], ◌∷◌, ◌==◌, ltb, str_eq, Option, none, some, ℤ,
  pos, negsuc, Result, ok, err, if◌then◌else◌,
}

-- `RpcError`; the text of a parse error is left out.
pub data RpcError : Type 0 where
  http : RpcError
  json_rpc : ℤ → String → RpcError
  null_result : RpcError
  parse : RpcError

-- `is_definitely_not_found`: the code is -5
unfoldable pub is_definitely_not_found : RpcError → Bool
is_definitely_not_found (json_rpc (pos n) message) = false
is_definitely_not_found (json_rpc (negsuc n) message) = n == 4
is_definitely_not_found http = false
is_definitely_not_found null_result = false
is_definitely_not_found parse = false

-- What is read off an entry of `z_getoperationstatus`: `status` as a string, `result.txid` where it
-- is there, with its string where it is one, and the same of the first of `result.txids`.
pub record OpStatus : Type 0 where
  pub status : Option String
  pub txid : Option (Option String)
  pub first_txid : Option (Option String)

abbrev pub or_text : Option String → String → String
or_text none text = text
or_text (some s) text = s

abbrev pub state_of : OpStatus → String
state_of st = or_text st.status ""

-- `and_then(|t| t.as_str())`
abbrev pub as_str : Option (Option String) → Option String
as_str none = none
as_str (some t) = t

-- `or_else`
abbrev or_else : Option (Option String) → Option (Option String) → Option (Option String)
or_else none other = other
or_else (some t) other = some t

-- `OpResult`
pub data OpResult : Type 0 where
  success : String → OpResult
  failed : OpResult

abbrev pub reported : OpStatus → OpResult
reported st = OpResult.success (or_text (as_str (or_else st.txid st.first_txid)) "unknown")

-- What one poll decides, where it decides.
unfoldable pub poll : Result RpcError (List OpStatus) → Option (Result (Unit {0}) OpResult)
poll (err e) = some (err tt)
poll (ok []) = none
poll (ok (st ∷ rest)) =
    if str_eq (state_of st) "success"
    then some (ok (reported st))
    else if str_eq (state_of st) "failed"
    then some (ok failed)
    else none

abbrev pub op_poll_timeout : ℕ
op_poll_timeout = 120

-- `wait_for_operation`: the loop from round `i` on, where `clock` and `answer` are what the rounds
-- read. `none` means that the fuel ran out; an error of the source is `err`.
unfoldable pub wait_loop :
    (ℕ → ℕ)
    → (ℕ → Result RpcError (List OpStatus))
    → ℕ
    → ℕ
    → ℕ
    → Option (Result (Unit {0}) OpResult)
unfolding poll
wait_loop clock answer deadline zero i = none
wait_loop clock answer deadline (suc fuel) i =
    let rest = wait_loop clock answer deadline fuel (suc i) in
    if ltb deadline (clock i)
    then some (err tt)
    else elim (poll (answer i)) [ none ↦ rest | some r ↦ some r ]

-- Twenty-five rounds, each five seconds after the one before.
unfoldable pub wait_for_operation :
    ℕ → (ℕ → ℕ) → (ℕ → Result RpcError (List OpStatus)) → Option (Result (Unit {0}) OpResult)
unfolding wait_loop
wait_for_operation start clock answer = wait_loop clock answer (start + op_poll_timeout) 25 0
