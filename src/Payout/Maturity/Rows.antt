-- ===== src/Payout/Maturity/Rows.antt =====
-- How a property of the rows of blocks goes through one block's turn in `check_block_maturity` of
-- crates/pool-dashboard/src/main.rs.
use zcash_mining_pool.Prelude.{
  ℕ, ◌≡◌, refl, sym, subst, String, Bool, true, false, ◌&&◌, List, [], ◌∷◌, ◌==◌, if-cases, Option,
  some, none, Result, ok, err, ℤ, pos, ltb_ℤ, length, ◌>>=◌,
}
use zcash_mining_pool.Sql.{select, delete, update}
use zcash_mining_pool.Ledger.Tables.{Block, BlockStatus, Credit, Db, DbError, transact}
use zcash_mining_pool.Ledger.Costs.{is_block, record_tx_cost, stamp}
use zcash_mining_pool.Ledger.Blocks.{update_block_status}
use zcash_mining_pool.Ledger.Credits.{
  of_block, reverse_credit, reverse_credits, requeue_costs, costs_of,
  reverse_block_credits_precise_txn, finish_orphan, orphan_block_txn, orphan_block, acknowledge,
  acknowledge_clawbacks_for_block,
}
use zcash_mining_pool.Payout.Rpc.{RpcError}
use zcash_mining_pool.Payout.Maturity.{
  Chain, Progress, as_u64, is_on_chain, absorb, after_orphan, orphan_it, confirm_it, on_chain_hash,
}

reverse_credits-blocks :
    (k : ℕ) (cs : List Credit) (r c : ℤ) (db : Db)
    → (reverse_credits k cs (r, c, db)).2.blocks ≡ db.blocks
unfolding reverse_credits reverse_credit
reverse_credits-blocks k [] r c db = refl
reverse_credits-blocks k (x ∷ xs) r c db =
    let (r', c', db') = reverse_credit k x (r, c, db) in reverse_credits-blocks k xs r' c' db'

abbrev pub Rows : Type 1
Rows = List Block → Type 0

-- `P` holds of the blocks where the result is not an error.
abbrev pub OnOk : {E A : Type 0} → Rows → Result E (A × Db) → Type 0
OnOk P (err e) = Unit
OnOk P (ok (a, db)) = P db.blocks

abbrev pub OnDb : Rows → Result DbError Db → Type 0
OnDb P (err e) = Unit
OnDb P (ok db) = P db.blocks

-- `P` holds after an error, `Q` after a success.
abbrev pub After : {E A : Type 0} → Rows → Rows → Result E A → Db → Type 0
After P Q (err e) db = P db.blocks
After P Q (ok a) db = Q db.blocks

abbrev pub set_status : ℕ → BlockStatus → List Block → List Block
set_status k status = update (is_block k) (λ b. record b { status = status })

-- What holds of the rows before a turn (`H`), after it (`K`), and where it fails (`E`).
module _ (H K E : Rows)
    (stamps : (k : ℕ) (bs : List Block) → H bs → H (update (is_block k) (stamp (pos 0)) bs))
    (fails : (bs : List Block) → H bs → E bs) (fails_late : (bs : List Block) → K bs → E bs) where
  requeue-OnDb : (k : ℕ) (o : Option ℤ) (db : Db) → H db.blocks → OnDb H (requeue_costs k o db)
  unfolding requeue_costs record_tx_cost
  requeue-OnDb k none db h = tt
  requeue-OnDb k (some c) db h =
      if-cases (OnDb H) (ltb_ℤ (pos 0) c) (λ _. stamps k db.blocks h) (λ _. h)

  with_sums :
      (a b : ℤ) (r : Result DbError Db)
      → OnDb H r
      → OnOk {A = Option (ℤ × ℤ)} H (r >>= λ last. ok (some (a, b), last))
  with_sums a b (err e) h = tt
  with_sums a b (ok db) h = h

  reverse-OnOk : (k : ℕ) (db : Db) → H db.blocks → OnOk H (reverse_block_credits_precise_txn k db)
  unfolding reverse_block_credits_precise_txn
  reverse-OnOk k db h =
      let rows = select (of_block k) db.credits in
      let (r, c, db') = reverse_credits k rows (pos 0, pos 0, db) in
      let db'' = record db' { credits = delete (of_block k) db'.credits } in
      let kept : H db'.blocks =
        subst H (sym (reverse_credits-blocks k rows (pos 0) (pos 0) db)) h in
      if-cases (OnOk H) (length rows == 0) (λ _. h)
        (λ _.
          with_sums r c (requeue_costs k (costs_of k db''.blocks) db'')
            (requeue-OnDb k (costs_of k db''.blocks) db'' kept))

  transact-After :
      {A : Type 0} (commits : Bool) (body : Db → Result DbError (A × Db))
      (r : Result DbError (A × Db)) (db : Db)
      → body db ≡ r
      → H db.blocks
      → OnOk K r
      → let (result, db') = transact commits body db in After H K result db'
  unfolding transact
  transact-After true body (ok r) db e h k = rw (e, transact) k
  transact-After false body (ok r) db e h k = rw (e, transact) h
  transact-After commits body (err x) db e h k = rw (e, transact) h

  module _ (w : Chain) (maturity : ℕ) (pay : Bool) (b : Block) where
    finish-OnOk :
        (r : Result DbError (Option (ℤ × ℤ) × Db))
        → ((bs : List Block) → H bs → K (set_status b.id BlockStatus.orphaned bs))
        → OnOk H r
        → OnOk K (r >>= λ x. ok (finish_orphan w.portion b.id b.reward x))
    unfolding finish_orphan
    finish-OnOk (err e) sets h = tt
    finish-OnOk (ok (none, db)) sets h = sets db.blocks h
    finish-OnOk (ok (some r, db)) sets h = sets db.blocks h

    abbrev Turned : Progress → Type 0
    Turned (result, db) = After E K result db

    absorb-Turned :
        (a : Bool) (c : ℤ) (db : Db) → K db.blocks → Turned (absorb w maturity pay a b c db)
    unfolding acknowledge_clawbacks_for_block acknowledge
    absorb-Turned false c db k = k
    absorb-Turned true c db k =
        if-cases Turned (w.acknowledges b.id) (λ _. k) (λ _. fails_late db.blocks k)

    after_orphan-Turned :
        (r : Result DbError (Option (ℤ × ℤ))) (db : Db)
        → After H K r db
        → Turned (after_orphan w maturity pay b r db)
    after_orphan-Turned (err e) db h = fails db.blocks h
    after_orphan-Turned (ok none) db k = k
    after_orphan-Turned (ok (some (r, c))) db k = absorb-Turned (pay && ltb_ℤ (pos 0) c) c db k

    orphan-Turned :
        (db : Db)
        → ((bs : List Block) → H bs → K (set_status b.id BlockStatus.orphaned bs))
        → H db.blocks
        → Turned (orphan_it w maturity pay b db)
    unfolding orphan_it orphan_block orphan_block_txn
    orphan-Turned db sets h =
        let body = orphan_block_txn w.portion b.id b.reward in
        let (r, db') = orphan_block w.portion (w.commits b.id) b.id b.reward db in
        after_orphan-Turned r db' (
          transact-After (w.commits b.id) body (body db) db refl h
            (finish-OnOk (reverse_block_credits_precise_txn b.id db) sets (reverse-OnOk b.id db h)))

    confirm-Turned :
        (db : Db)
        → ((bs : List Block) → H bs → K (set_status b.id BlockStatus.confirmed bs))
        → H db.blocks
        → Turned (confirm_it w maturity pay b db)
    unfolding confirm_it update_block_status
    confirm-Turned db sets h =
        if-cases Turned (w.commits b.id) (λ _. sets db.blocks h) (λ _. fails db.blocks h)

    pub hash-Turned :
        (r : Result RpcError String) (db : Db)
        → w.block_hash b.id (as_u64 b.height) ≡ r
        → ((hash : String)
            → w.block_hash b.id (as_u64 b.height) ≡ ok hash
            → is_on_chain w maturity pay hash b ≡ true
            → (bs : List Block) → H bs
            → K (set_status b.id BlockStatus.confirmed bs))
        → ((hash : String)
            → w.block_hash b.id (as_u64 b.height) ≡ ok hash
            → is_on_chain w maturity pay hash b ≡ false
            → (bs : List Block) → H bs
            → K (set_status b.id BlockStatus.orphaned bs))
        → H db.blocks
        → Turned (on_chain_hash w maturity pay b r db)
    hash-Turned (err e) db asked confirms orphans h = fails db.blocks h
    hash-Turned (ok hash) db asked confirms orphans h =
        if-cases Turned (is_on_chain w maturity pay hash b)
          (λ e. confirm-Turned db (confirms hash asked e) h)
          (λ e. orphan-Turned db (orphans hash asked e) h)
