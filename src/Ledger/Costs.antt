-- ===== src/Ledger/Costs.antt =====
-- The pipeline costs of crates/pool-db/src/queries.rs: recording them, and taking them out of a
-- block's distribution.
pub mod Taking
use zcash_mining_pool.Prelude.{
  ℕ, suc, ◌+◌, Bool, true, false, not, List, [], ◌∷◌, ◌++◌, ◌==◌, if◌then◌else◌, ℤ, pos, ◌+ℤ◌,
  ltb_ℤ, Result, ok, err,
}
use zcash_mining_pool.Sql.{select, update}
use zcash_mining_pool.Ledger.Tables.{Cost, Block, Db, DbError, transact}

-- `record_tx_cost`
unfoldable pub record_tx_cost : ℤ → Db → Db
record_tx_cost fee db = record db {
  costs = db.costs ++ (record { id = db.next_cost; fee = fee; recovered = false } ∷ []);
  next_cost = suc db.next_cost;
}

-- The loop of `take_costs_for_block_txn`: it stops at the first fee that would pass the cap.
unfoldable pub take_costs : ℤ → ℤ → List Cost → ℤ × List ℕ
take_costs cap taken [] = (taken, [])
take_costs cap taken (c ∷ cs) =
    let (total, ids) = take_costs cap (taken +ℤ c.fee) cs in
    if ltb_ℤ cap (taken +ℤ c.fee) then (taken, []) else (total, c.id ∷ ids)

unfoldable pub mark_recovered : List ℕ → List Cost → List Cost
mark_recovered [] cs = cs
mark_recovered (i ∷ is) cs =
    mark_recovered is (update (λ c. c.id == i) (λ c. record c { recovered = true }) cs)

abbrev pub is_block : ℕ → Block → Bool
is_block block b = b.id == block

abbrev pub stamp : ℤ → Block → Block
stamp taken b = record b { costs_recovered = taken }

unfoldable pub take_costs_for_block_txn : ℕ → ℤ → Db → Result DbError (ℤ × Db)
take_costs_for_block_txn block cap db =
    let (taken, ids) = take_costs cap (pos 0) (select (λ c. not c.recovered) db.costs) in
    ok (
      taken,
      record db {
        costs = mark_recovered ids db.costs;
        blocks =
            if ltb_ℤ (pos 0) taken
            then update (is_block block) (stamp taken) db.blocks
            else db.blocks;
      },
    )

-- `take_costs_for_block`
unfoldable pub take_costs_for_block : Bool → ℕ → ℤ → Db → Result DbError ℤ × Db
unfolding transact
take_costs_for_block commits block cap = transact commits (take_costs_for_block_txn block cap)
