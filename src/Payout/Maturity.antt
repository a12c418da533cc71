-- ===== src/Payout/Maturity.antt =====
-- `check_block_maturity` of crates/pool-dashboard/src/main.rs: a block that is deep enough is confirmed, or it
-- is an orphan and its credits are reversed. The node's answers, hex and SQLite's rounding are parameters.
pub mod Rows
pub mod Pending
pub mod Settled
pub mod Done
use zcash_mining_pool.Prelude.{
  ℕ, ◌-◌, ◌^◌, String, Bool, true, false, ◌||◌, ◌&&◌, List, [], ◌∷◌, reverse, str_eq, if◌then◌else◌,
  Option, none, some, Result, ok, err, ℤ, pos, negsuc, ◌-ℤ◌, ltb_ℤ, leb_ℤ,
}
use zcash_mining_pool.Sql.{select}
use zcash_mining_pool.Ledger.Tables.{Block, BlockStatus, Db, DbError, sqlx}
use zcash_mining_pool.Ledger.Blocks.{is_pending, update_block_status}
use zcash_mining_pool.Ledger.Credits.{orphan_block, acknowledge_clawbacks_for_block}
use zcash_mining_pool.Payout.Rpc.{RpcError}

-- ORDER BY height: rows of one height keep their order.
unfoldable pub insert_by_height : Block → List Block → List Block
insert_by_height b [] = b ∷ []
insert_by_height b (x ∷ xs) =
    let rest = insert_by_height b xs in if leb_ℤ b.height x.height then b ∷ x ∷ xs else x ∷ rest

unfoldable pub order_by_height : List Block → List Block
order_by_height [] = []
order_by_height (b ∷ bs) = insert_by_height b (order_by_height bs)

unfoldable pub get_pending_blocks : Db → List Block
get_pending_blocks db = order_by_height (select (λ (b : Block). is_pending b.status) db.blocks)

-- What the node says of a block, and whether the writes for it go through.
pub record Chain : Type 0 where
  pub block_count : Result RpcError ℕ
  -- by the block's id, at its height
  pub block_hash : ℕ → ℕ → Result RpcError String
  pub commits : ℕ → Bool
  pub acknowledges : ℕ → Bool
  pub hex_decode : String → Option (List ℕ)
  pub hex_encode : List ℕ → String
  -- pending, reversal, total
  pub portion : ℤ → ℤ → ℤ → ℤ

pub data MaturityError : Type 0 where
  node_failed : RpcError → MaturityError
  database : DbError → MaturityError

-- `as u64`
abbrev pub as_u64 : ℤ → ℕ
as_u64 (pos n) = n
as_u64 (negsuc n) = 2 ^ 64 - 1 - n

-- `unwrap_or_default`
abbrev pub or_no_bytes : Option (List ℕ) → List ℕ
or_no_bytes none = []
or_no_bytes (some bytes) = bytes

abbrev pub Progress : Type 0
Progress = Result MaturityError (Unit {0}) × Db

module _ (w : Chain) (maturity_confirmations : ℕ) (pay_immature : Bool) where
  unfoldable pub reverse_hex_bytes : String → String
  reverse_hex_bytes hex = w.hex_encode (reverse (or_no_bytes (w.hex_decode hex)))

  -- Whether the chain has the block at its height, in either order of the bytes.
  unfoldable pub is_on_chain : String → Block → Bool
  is_on_chain chain_hash b =
      str_eq chain_hash (reverse_hex_bytes b.hash) || str_eq chain_hash b.hash

  abbrev pub absorb : Bool → Block → ℤ → Db → Progress
  absorb false b clawback db = (ok tt, db)
  absorb true b clawback db =
      if w.acknowledges b.id
      then (ok tt, (acknowledge_clawbacks_for_block b.id db).1)
      else (err (database sqlx), db)

  abbrev pub after_orphan : Block → Result DbError (Option (ℤ × ℤ)) → Db → Progress
  after_orphan b (err e) db = (err (database e), db)
  after_orphan b (ok none) db = (ok tt, db)
  after_orphan b (ok (some (reversed, clawback))) db =
      absorb (pay_immature && ltb_ℤ (pos 0) clawback) b clawback db

  unfoldable pub orphan_it : Block → Db → Progress
  orphan_it b db =
      let (r, db') = orphan_block w.portion (w.commits b.id) b.id b.reward db in
      after_orphan b r db'

  unfoldable pub confirm_it : Block → Db → Progress
  confirm_it b db =
      if w.commits b.id
      then (ok tt, update_block_status b.id BlockStatus.confirmed db)
      else (err (database sqlx), db)

  abbrev pub on_chain_hash : Block → Result RpcError String → Db → Progress
  on_chain_hash b (err e) db = (err (node_failed e), db)
  on_chain_hash b (ok chain_hash) db =
      if is_on_chain chain_hash b then confirm_it b db else orphan_it b db

  abbrev pub is_mature : ℕ → Block → Bool
  is_mature current_height b = leb_ℤ (pos maturity_confirmations) (pos current_height -ℤ b.height)

  unfoldable pub settle_block : ℕ → Block → Db → Progress
  settle_block current_height b db =
      if is_mature current_height b
      then on_chain_hash b (w.block_hash b.id (as_u64 b.height)) db
      else (ok tt, db)

  -- `?` ends the loop; what it has committed stays.
  abbrev pub and_then : Progress → (Db → Progress) → Progress
  and_then (err e, db) rest = (err e, db)
  and_then (ok _, db) rest = rest db

  unfoldable pub settle_blocks : ℕ → List Block → Db → Progress
  settle_blocks current_height [] db = (ok tt, db)
  settle_blocks current_height (b ∷ bs) db =
      and_then (settle_block current_height b db) (λ db'. settle_blocks current_height bs db')

  abbrev pub on_block_count : Result RpcError ℕ → Db → Progress
  on_block_count (err e) db = (err (node_failed e), db)
  on_block_count (ok current_height) db = settle_blocks current_height (get_pending_blocks db) db

  -- `check_block_maturity`
  unfoldable pub check_block_maturity : Db → Progress
  check_block_maturity db = on_block_count w.block_count db
