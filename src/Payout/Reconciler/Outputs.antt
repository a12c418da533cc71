-- ===== src/Payout/Reconciler/Outputs.antt =====
-- `check_coinbase_outputs` of crates/pool-dashboard/src/reconciler.rs: whether confirmed blocks pay the pool.
-- What is read off the node's answers is a parameter.
use zcash_mining_pool.Prelude.{
  ℕ, String, Bool, true, false, not, ◌&&◌, ◌||◌, List, [], ◌∷◌, map, take, str_eq, if◌then◌else◌,
  Option, none, some, Result, ok, err, ◌>>=◌, ℤ, ltb_ℤ,
}
use zcash_mining_pool.Sql.{select}
use zcash_mining_pool.Ledger.Tables.{Block, BlockStatus, Db}
use zcash_mining_pool.Payout.Rpc.{RpcError, http, json_rpc, null_result, parse}
use zcash_mining_pool.Payout.Reconciler.{
  Summary, alerted, watermark_unread, blocks_unread, coinbase_mismatch, coinbase_unread,
}
use zcash_mining_pool.Payout.Maturity.{order_by_height, as_u64}

abbrev pub is_confirmed_block : BlockStatus → Bool
is_confirmed_block BlockStatus.pending = false
is_confirmed_block BlockStatus.confirmed = true
is_confirmed_block BlockStatus.orphaned = false

-- `get_confirmed_blocks_above`, the heights
unfoldable pub get_confirmed_blocks_above : ℤ → ℕ → Db → List ℤ
get_confirmed_blocks_above height limit db =
    map (λ (b : Block). b.height)
      (take limit (
        order_by_height
          (select (λ (b : Block). is_confirmed_block b.status && ltb_ℤ height b.height) db.blocks)))

-- The node's block at a height, the text that comes first in its `tx`, the addresses of each output
-- of a transaction (none where a field is not what it should be), and the wallet on a transaction.
pub record Chainwork : Type 0 where
  pub block_hash : ℕ → Result RpcError String
  pub first_tx : String → Result RpcError (Option String)
  pub outputs : String → Result RpcError (Option (List (Option (List (Option String)))))
  pub wallet_tx : String → Result RpcError (Unit {0})

abbrev pub is_text : String → Option String → Bool
is_text address none = false
is_text address (some a) = str_eq a address

abbrev pub has_text : String → List (Option String) → Bool
has_text address [] = false
has_text address (a ∷ more) = is_text address a || has_text address more

abbrev pub pays : String → Option (List (Option String)) → Bool
pays address none = false
pays address (some addresses) = has_text address addresses

abbrev pub any_pays : String → List (Option (List (Option String))) → Bool
any_pays address [] = false
any_pays address (o ∷ more) = pays address o || any_pays address more

abbrev pub vouts_pay : String → Option (List (Option (List (Option String)))) → Bool
vouts_pay address none = false
vouts_pay address (some vouts) = any_pays address vouts

-- A JSON-RPC error of `gettransaction` says that the wallet does not own it.
abbrev pub owned : Result RpcError (Unit {0}) → Result RpcError (Option Bool)
owned (ok _) = ok (some true)
owned (err (json_rpc code message)) = ok (some false)
owned (err http) = err http
owned (err null_result) = err null_result
owned (err parse) = err parse

module _ (w : Chainwork) (mining_address : String) (shielded_coinbase : Bool) where
  abbrev pub look_at : Option String → Result RpcError (Option Bool)
  look_at none = ok none
  look_at (some cb_txid) = w.outputs cb_txid >>= λ vouts.
      if vouts_pay mining_address vouts || not shielded_coinbase
      then ok (some (vouts_pay mining_address vouts))
      else owned (w.wallet_tx cb_txid)

  unfoldable pub paid_us : ℤ → Result RpcError (Option Bool)
  paid_us height = w.block_hash (as_u64 height) >>= λ bh. w.first_tx bh >>= look_at

  -- The watermark and the summary; a failure of the node ends the walk.
  unfoldable pub walk : List ℤ → ℤ × Summary → ℤ × Summary
  walk [] state = state
  walk (height ∷ more) (watermark, s) = elim (paid_us height) [
    | ok none ↦ walk more (height, alerted (coinbase_unread height) s)
    | ok (some true) ↦ walk more (height, s)
    | ok (some false) ↦ walk more (height, alerted (coinbase_mismatch height) s)
    | err e ↦ (watermark, s)
  ]

  abbrev pub to_store : ℤ → ℤ × Summary → Option ℤ × Summary
  to_store last (watermark, s) = (if ltb_ℤ last watermark then some watermark else none, s)

  abbrev pub from_watermark : Bool → Result (Unit {0}) ℤ → Db → Summary → Option ℤ × Summary
  from_watermark reads (err _) db s = (none, alerted watermark_unread s)
  from_watermark false (ok last) db s = (none, alerted blocks_unread s)
  from_watermark true (ok last) db s =
      to_store last (walk (get_confirmed_blocks_above last 20 db) (last, s))

  -- `check_coinbase_outputs`: the watermark to store, and the summary. The watermark read is 0
  -- where none is stored or it is no number; `reads` is whether the query of the blocks works.
  unfoldable pub check_coinbase_outputs :
      Bool → Result (Unit {0}) ℤ → Db → Summary → Option ℤ × Summary
  check_coinbase_outputs reads last db s =
      if str_eq mining_address "" then (none, s) else from_watermark reads last db s
