-- ===== src/Share/Blocks.antt =====
-- crates/pool-core/src/block.rs, and from crates/pool-core/src/share.rs the path of a share that is a
-- block and the sweep at the start of the pool. What the node answers is a parameter, and so is what
-- `hex` and `to_lowercase` make of a string.
pub mod Kept
use zcash_mining_pool.Prelude.{
  ℕ, zero, suc, ◌+◌, Bool, true, false, ◌||◌, String, str_eq, List, [], ◌∷◌, ◌++◌, reverse,
  if◌then◌else◌, Option, some, none, ℤ, pos, ◌+ℤ◌, ◌-ℤ◌, max_ℤ, sum_by, Result, ok, err,
}
use zcash_mining_pool.Ledger.Tables.{Db, DbError, Submission, Block, BlockStatus}
use zcash_mining_pool.Ledger.Blocks.{
  record_block, update_block_status, record_block_submission, resolve_block_submission,
  get_open_block_submissions, get_block_id_by_hash, get_recent_blocks_missing_credits, basis,
}
use zcash_mining_pool.Share.Reward.{compute_block_reward}
use zcash_mining_pool.Share.Validate.{Crypto}

-- `InclusionCheck`
pub data Inclusion : Type 0 where
  verified mismatch unknown : Inclusion

-- `BlockSubmitError`
pub data SubmitError : Type 0 where
  rejected : String → SubmitError
  rpc : SubmitError

-- `submit_block`, by the answer to the call.
unfoldable pub submit_block : Option (Option String) → Result SubmitError (Unit {0})
submit_block none = err rpc
submit_block (some none) = ok tt
submit_block (some (some reason)) =
    if str_eq reason "" || str_eq reason "null" then ok tt else err (rejected reason)

-- The hash in the other byte order.
abbrev pub flipped : Crypto → String → String
flipped c hash = elim (c.decode hash) [ none ↦ c.encode [] | some bytes ↦ c.encode (reverse bytes) ]

-- The loop of `verify_block_inclusion`: each attempt has an answer, or an error.
unfoldable pub attempt : (String → String) → String → String → List (Option String) → Inclusion
attempt lower le be [] = unknown
attempt lower le be (none ∷ answers) = attempt lower le be answers
attempt lower le be (some chain ∷ answers) =
    if str_eq (lower chain) le || str_eq (lower chain) be then verified else mismatch

-- `verify_block_inclusion`, by the answers to its three attempts.
unfoldable pub verify_block_inclusion :
    Crypto → (String → String) → String → Option String → Option String → Option String → Inclusion
verify_block_inclusion c lower hash first second third =
    attempt lower (lower hash) (flipped c (lower hash)) (first ∷ second ∷ third ∷ [])

-- The fees that the template collected: minus the coinbase's fee, or the sum of the transactions'.
unfoldable pub collected_fees : Option ℤ → List ℤ → ℤ
collected_fees none fees = max_ℤ (sum_by (λ f. f) fees) (pos 0)
collected_fees (some fee) fees = max_ℤ (pos 0 -ℤ fee) (pos 0)

-- A share that is a block, before the node is asked.
pub record Found : Type 0 where
  pub height : ℤ
  pub hash : String
  pub worker_id : ℕ
  pub coinbase_fee : Option ℤ
  pub fees : List ℤ

abbrev pub actual_reward : Found → ℤ
actual_reward f = compute_block_reward f.height +ℤ collected_fees f.coinbase_fee f.fees

-- The breadcrumb, where it can be written.
unfoldable pub drop_crumb : Bool → Found → Db → Option ℕ × Db
drop_crumb false f db = (none, db)
drop_crumb true f db =
    let (id, db') =
      record_block_submission f.height f.hash f.worker_id (compute_block_reward f.height)
        (some (actual_reward f)) db in
    (some id, db')

unfoldable pub resolve : Bool → Option ℕ → String → Db → Db
resolve writes none outcome db = db
resolve writes (some id) outcome db = resolve_block_submission writes id outcome db

-- The fate of the block: what the node said, or what the chain says where the node gave an error.
unfoldable pub fate_of : Result SubmitError (Unit {0}) → Inclusion → Inclusion
fate_of (ok _) chain = verified
fate_of (err _) chain = chain

-- Which of the statements of this path the database carries out: the breadcrumb, the row of the
-- block, and the settling of the breadcrumb.
pub record Writes : Type 0 where
  pub crumbs : Bool
  pub records : Bool
  pub resolves : Bool

unfoldable pub on_recorded : Bool → Option ℕ → Result DbError ℕ × Db → Option ℕ × Db
on_recorded resolves crumb (ok id, db) = (some id, resolve resolves crumb "recorded" db)
on_recorded resolves crumb (err e, db) = (none, db)

unfoldable pub on_fate : Writes → Option ℕ → Found → ℕ → Inclusion → Db → Option ℕ × Db
on_fate w crumb f now mismatch db = (none, resolve w.resolves crumb "rejected" db)
on_fate w crumb f now unknown db = (none, db)
on_fate w crumb f now verified db = on_recorded w.resolves crumb (
    record_block w.records f.height f.hash (compute_block_reward f.height) (some (actual_reward f))
      f.worker_id now db)

-- The path of `validate_share` from the breadcrumb to the row of the block, whose id it returns.
unfoldable pub block_found :
    Writes → Found → ℕ → Option (Option String) → Inclusion → Db → Option ℕ × Db
block_found w f now answer chain db =
    let (crumb, db') = drop_crumb w.crumbs f db in
    on_fate w crumb f now (fate_of (submit_block answer) chain) db'

-- The task that follows a recorded block: an orphan, or its reward to distribute.
unfoldable pub after_block : (ℤ → ℕ → Db → Db) → Inclusion → ℤ → ℕ → Db → Db
after_block distribute mismatch amount block db = update_block_status block BlockStatus.orphaned db
after_block distribute verified amount block db = distribute amount block db
after_block distribute unknown amount block db = distribute amount block db

-- What the sweep meets at an open submission: what the chain says of the block, and which of its
-- statements the database carries out.
pub record Answers : Type 0 where
  pub chain : Submission → Inclusion
  pub reads : Submission → Bool
  pub records : Submission → Bool
  pub resolves : Submission → Bool

-- `startup_block_sweep`, the first pass: the row of a submission whose block is on the chain.
abbrev pub recovered : Result DbError ℕ × Db → Bool × Db
recovered (ok id, db) = (true, db)
recovered (err e, db) = (false, db)

unfoldable pub recover_row : Bool → Submission → ℕ → Result DbError (Option ℕ) → Db → Bool × Db
recover_row records s now (err e) db = (false, db)
recover_row records s now (ok (some id)) db = (true, db)
recover_row records s now (ok none) db =
    recovered (record_block records s.height s.hash s.reward s.actual_reward s.worker_id now db)

unfoldable pub sweep_one : Answers → ℕ → Submission → Inclusion → Db → Db
sweep_one w now s mismatch db = resolve_block_submission (w.resolves s) s.id "swept-rejected" db
sweep_one w now s unknown db = db
sweep_one w now s verified db =
    let (recorded, db') =
      recover_row (w.records s) s now (get_block_id_by_hash (w.reads s) s.hash db) db in
    if recorded then resolve_block_submission (w.resolves s) s.id "swept-recorded" db' else db'

unfoldable pub sweep_all : Answers → ℕ → List Submission → Db → Db
sweep_all w now [] db = db
sweep_all w now (s ∷ ss) db = sweep_all w now ss (sweep_one w now s (w.chain s) db)

-- The second pass: the rewards of recent blocks that no one was credited for.
unfoldable pub redistribute : (ℤ → ℕ → Db → Db) → List Block → Db → Db
redistribute distribute [] db = db
redistribute distribute (b ∷ bs) db = redistribute distribute bs (distribute (basis b) b.id db)

-- `startup_block_sweep`; seven days are 604800 seconds. A pass whose query fails is left out.
unfoldable pub startup_block_sweep :
    (ℤ → ℕ → Db → Db) → Answers → (lists_open lists_missing : Bool) → ℕ → Db → Db
startup_block_sweep distribute w lists_open lists_missing now db =
    let db' = if lists_open then sweep_all w now (get_open_block_submissions db) db else db in
    if lists_missing
    then redistribute distribute (get_recent_blocks_missing_credits 604800 now db') db'
    else db'
