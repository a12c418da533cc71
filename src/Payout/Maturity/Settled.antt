-- ===== src/Payout/Maturity/Settled.antt =====
-- Which blocks `check_block_maturity` of crates/pool-dashboard/src/main.rs confirms and orphans.
use mathlib.Core.List.{Mem}
use zcash_mining_pool.Prelude.{
  ℕ, ◌≡◌, refl, sym, subst, ◌∙◌, String, Bool, true, false, ◌⊎◌, inl, inr, Bool-cases, List, [],
  ◌∷◌, map, ==_iff, All, if-cases, ok, err, pos,
}
use zcash_mining_pool.Sql.{update, All-update}
use zcash_mining_pool.Ledger.Tables.{Block, BlockStatus, Db}
use zcash_mining_pool.Ledger.Costs.{is_block, stamp}
use zcash_mining_pool.Payout.Maturity.{
  Chain, Progress, get_pending_blocks, as_u64, is_on_chain, is_mature, and_then, settle_block,
  settle_blocks, on_block_count, check_block_maturity,
}
use zcash_mining_pool.Payout.Maturity.Pending.{order-All, select-open, All-members}
use zcash_mining_pool.Payout.Maturity.Rows.{set_status, After, hash-Turned}

map_id-update :
    (p : Block → Bool) (f : Block → Block) (xs : List Block)
    → ((b : Block) → (f b).id ≡ b.id)
    → map (λ (b : Block). b.id) (update p f xs) ≡ map (λ (b : Block). b.id) xs
unfolding update
map_id-update p f [] h = refl
map_id-update p f (x ∷ xs) h = elim (Bool-cases (p x)) [
  | inl e ↦ rw (e, h x, map_id-update p f xs h) refl
  | inr e ↦ rw (e, map_id-update p f xs h) refl
]

module _ (w : Chain) (maturity : ℕ) (pay : Bool) (current_height : ℕ) where
  abbrev IsDeep : Block → Type 0
  IsDeep b = is_mature w maturity pay current_height b ≡ true

  abbrev settle_from : List Block → Db → Progress
  settle_from = settle_blocks w maturity pay current_height

  abbrev take_turn : Block → Db → Progress
  take_turn = settle_block w maturity pay current_height

  module _ (before : List Block) where
    -- The block was pending and deep enough, and the status follows what the node said.
    abbrev pub IsJudged : Block → BlockStatus → Type 0
    IsJudged b status =
        (b.status ≡ BlockStatus.pending)
        × (is_mature w maturity pay current_height b ≡ true)
        × (hash : String) × (w.block_hash b.id (as_u64 b.height) ≡ ok hash)
        × (((status ≡ BlockStatus.confirmed) × (is_on_chain w maturity pay hash b ≡ true))
            ⊎ ((status ≡ BlockStatus.orphaned) × (is_on_chain w maturity pay hash b ≡ false)))

    -- A row that comes from a row of its id, with the status that this had, or judged.
    abbrev pub IsSettled : Block → Type 0
    IsSettled b' =
        (b : Block) × Mem b before
        × (b'.id ≡ b.id)
        × ((b'.status ≡ b.status) ⊎ IsJudged b b'.status)

    abbrev pub AllSettled : List Block → Type 0
    AllSettled bs =
        (map (λ (b : Block). b.id) bs ≡ map (λ (b : Block). b.id) before) × All IsSettled bs

    stamp-AllSettled :
        (k : ℕ) (bs : List Block)
        → AllSettled bs
        → AllSettled (update (is_block k) (stamp (pos 0)) bs)
    stamp-AllSettled k bs (ids, all) = (
      map_id-update (is_block k) (stamp (pos 0)) bs (λ b. refl) ∙ ids,
      All-update IsSettled (is_block k) (stamp (pos 0)) bs (λ x s _. s) all,
    )

    judge-AllSettled :
        (b : Block) (status : BlockStatus)
        → Mem b before
        → IsJudged b status
        → (bs : List Block) → AllSettled bs
        → AllSettled (set_status b.id status bs)
    judge-AllSettled b status old j bs (ids, all) = (
      map_id-update (is_block b.id) (λ x. record x { status = status }) bs (λ x. refl) ∙ ids,
      All-update IsSettled (is_block b.id) (λ x. record x { status = status }) bs
          (λ x _ e. (b, old, (==_iff x.id b.id).0 e, inr j)) all,
    )

    abbrev Settled : Progress → Type 0
    Settled (result, db) = After AllSettled AllSettled result db

    abbrev IsDue : Block → Type 0
    IsDue b = Mem b before × (b.status ≡ BlockStatus.pending)

    turn-Settled : (b : Block) (db : Db) → IsDue b → AllSettled db.blocks → Settled (take_turn b db)
    unfolding settle_block
    turn-Settled b db (old, open_) h =
        if-cases Settled (is_mature w maturity pay current_height b)
          (λ deep.
            hash-Turned AllSettled AllSettled AllSettled stamp-AllSettled (λ bs x. x) (λ bs x. x) w
              maturity pay b (w.block_hash b.id (as_u64 b.height)) db refl
              (λ hash asked e.
                judge-AllSettled b BlockStatus.confirmed old
                  (open_, deep, hash, asked, inl (refl, e)))
              (λ hash asked e.
                judge-AllSettled b BlockStatus.orphaned old
                  (open_, deep, hash, asked, inr (refl, e)))
              h)
          (λ _. h)

    then-Settled :
        (s : Progress) (bs : List Block)
        → ((db : Db) → AllSettled db.blocks → Settled (settle_from bs db))
        → Settled s
        → Settled (and_then w maturity pay s (settle_from bs))
    then-Settled (err e, db) bs rest h = h
    then-Settled (ok _, db) bs rest h = rest db h

    settle-Settled :
        (bs : List Block) (db : Db)
        → All IsDue bs
        → AllSettled db.blocks
        → Settled (settle_from bs db)
    unfolding settle_blocks
    settle-Settled [] db due h = h
    settle-Settled (b ∷ bs) db due h =
        then-Settled (take_turn b db) bs (λ db'. settle-Settled bs db' due.1)
          (turn-Settled b db due.0 h)

    forget_result : (s : Progress) → Settled s → AllSettled s.1.blocks
    forget_result (err e, db) h = h
    forget_result (ok _, db) h = h

    pub settled_rows :
        (db : Db)
        → db.blocks ≡ before
        → w.block_count ≡ ok current_height
        → AllSettled (check_block_maturity w maturity pay db).1.blocks
    unfolding check_block_maturity get_pending_blocks
    settled_rows db same asked =
        let members : All (λ b. Mem b before) db.blocks =
          rw same (All-members _ before (λ b m. m)) in
        let start : AllSettled db.blocks =
          rw same (refl, All-members IsSettled before (λ b m. (b, m, refl, inl refl))) in
        subst (λ r. AllSettled (on_block_count w maturity pay r db).1.blocks) (sym asked)
          (forget_result (settle_from (get_pending_blocks db) db) (
            settle-Settled (get_pending_blocks db) db
              (order-All IsDue _ (select-open _ db.blocks members)) start))
