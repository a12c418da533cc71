-- ===== src/Payout/Maturity/Done.antt =====
-- What a run of `check_block_maturity` of crates/pool-dashboard/src/main.rs without an error leaves.
use zcash_mining_pool.Prelude.{
  zero, suc, some, subst, ap, arith, get_elem?, ◌&&◌, ◌⊎◌, ℕ, ◌≡◌, refl, sym, Bool, true, false,
  inl, inr, Bool-cases, ◌==◌, ==_iff, List, [], ◌∷◌, All, if-cases, ok, err, pos,
}
use zcash_mining_pool.Sql.{affected, update, All-update}
use zcash_mining_pool.Ledger.Tables.{Block, BlockStatus, Db}
use zcash_mining_pool.Ledger.Costs.{is_block, stamp}
use zcash_mining_pool.Ledger.Blocks.{is_pending}
use zcash_mining_pool.Payout.Maturity.{
  Chain, Progress, MaturityError, get_pending_blocks, as_u64, is_mature, and_then, settle_block,
  settle_blocks, check_block_maturity, on_block_count,
}
use zcash_mining_pool.Payout.Maturity.Pending.{is_open, ordered-All, selected-All}
use zcash_mining_pool.Payout.Maturity.Rows.{set_status, After, hash-Turned}
use zcash_mining_pool.Payout.Maturity.Settled.{AllSettled, settled_rows}

-- No row of that id is pending.
abbrev pub IsDone : ℕ → List Block → Type 0
IsDone k bs = All (λ (x : Block). x.id ≡ k → is_pending x.status ≡ false) bs

stamp-IsDone :
    (k j : ℕ) (bs : List Block) → IsDone k bs → IsDone k (update (is_block j) (stamp (pos 0)) bs)
stamp-IsDone k j bs all =
    All-update (λ (x : Block). x.id ≡ k → is_pending x.status ≡ false) (is_block j) (stamp (pos 0))
      bs (λ x h _. h) all

set-IsDone :
    (k j : ℕ) (status : BlockStatus) (bs : List Block)
    → is_pending status ≡ false
    → IsDone k bs
    → IsDone k (set_status j status bs)
set-IsDone k j status bs closed all =
    All-update (λ (x : Block). x.id ≡ k → is_pending x.status ≡ false) (is_block j)
      (λ x. record x { status = status }) bs (λ x _ _ _. closed) all

becomes-IsDone :
    (k : ℕ) (status : BlockStatus) (bs : List Block)
    → is_pending status ≡ false
    → IsDone k (set_status k status bs)
unfolding update
becomes-IsDone k status [] closed = tt
becomes-IsDone k status (x ∷ xs) closed = elim (Bool-cases (x.id == k)) [
  | inl e ↦ rw e (λ _. closed, becomes-IsDone k status xs closed)
  | inr e ↦ rw e (
    λ same. let yes_ : (x.id == k) ≡ true = (==_iff x.id k).1 same in absurd cc,
    becomes-IsDone k status xs closed,
  )
]

module _ (w : Chain) (maturity : ℕ) (pay : Bool) (current_height : ℕ) where
  abbrev settle_from : List Block → Db → Progress
  settle_from = settle_blocks w maturity pay current_height

  abbrev take_turn : Block → Db → Progress
  take_turn = settle_block w maturity pay current_height

  abbrev IsDeep : Block → Type 0
  IsDeep b = is_mature w maturity pay current_height b ≡ true

  abbrev OnSuccess : (List Block → Type 0) → Progress → Type 0
  OnSuccess P (result, db) = After (λ _. Unit) P result db

  both_OnSuccess :
      (P Q : List Block → Type 0) (s : Progress)
      → OnSuccess P s
      → OnSuccess Q s
      → OnSuccess (λ bs. P bs × Q bs) s
  both_OnSuccess P Q (err e, db) p q = tt
  both_OnSuccess P Q (ok _, db) p q = (p, q)

  then_OnSuccess :
      (P Q : List Block → Type 0) (s : Progress) (bs : List Block)
      → OnSuccess P s
      → ((db : Db) → P db.blocks → OnSuccess Q (settle_from bs db))
      → OnSuccess Q (and_then w maturity pay s (settle_from bs))
  then_OnSuccess P Q (err e, db) bs h rest = tt
  then_OnSuccess P Q (ok _, db) bs h rest = rest db h

  -- Under `C`, no row of id `k` is pending. A turn keeps it.
  module _ (C : Type 0) (k : ℕ) where
    abbrev Done : List Block → Type 0
    Done bs = C → IsDone k bs

    turn_keeps : (b : Block) (db : Db) → Done db.blocks → OnSuccess Done (take_turn b db)
    unfolding settle_block
    turn_keeps b db h =
        if-cases (OnSuccess Done) (is_mature w maturity pay current_height b)
          (λ _.
            hash-Turned Done Done (λ _. Unit) (λ j bs d c. stamp-IsDone k j bs (d c)) (λ _ _. tt)
              (λ _ _. tt) w maturity pay b (w.block_hash b.id (as_u64 b.height)) db refl
              (λ hash _ _ bs d c. set-IsDone k b.id BlockStatus.confirmed bs refl (d c))
              (λ hash _ _ bs d c. set-IsDone k b.id BlockStatus.orphaned bs refl (d c)) h)
          (λ _. h)

    loop_keeps : (bs : List Block) (db : Db) → Done db.blocks → OnSuccess Done (settle_from bs db)
    unfolding settle_blocks
    loop_keeps [] db h = h
    loop_keeps (b ∷ bs) db h =
        then_OnSuccess Done Done (take_turn b db) bs (turn_keeps b db h) (λ db'. loop_keeps bs db')

  turn_does : (b : Block) (db : Db) → OnSuccess (Done (IsDeep b) b.id) (take_turn b db)
  unfolding settle_block
  turn_does b db =
      if-cases (OnSuccess (Done (IsDeep b) b.id)) (is_mature w maturity pay current_height b)
        (λ _.
          hash-Turned (λ _. Unit) (Done (IsDeep b) b.id) (λ _. Unit) (λ _ _ _. tt) (λ _ _. tt)
            (λ _ _. tt) w maturity pay b (w.block_hash b.id (as_u64 b.height)) db refl
            (λ hash _ _ bs _ _. becomes-IsDone b.id BlockStatus.confirmed bs refl)
            (λ hash _ _ bs _ _. becomes-IsDone b.id BlockStatus.orphaned bs refl) tt)
        (λ shallow deep. absurd cc)

  abbrev AllDone : List Block → List Block → Type 0
  AllDone bs after = All (λ b. Done (IsDeep b) b.id after) bs

  loop_does : (bs : List Block) (db : Db) → OnSuccess (AllDone bs) (settle_from bs db)
  unfolding settle_blocks
  loop_does [] db = tt
  loop_does (b ∷ bs) db =
      then_OnSuccess (Done (IsDeep b) b.id) (AllDone (b ∷ bs)) (take_turn b db) bs (turn_does b db)
        (λ db' h.
          both_OnSuccess (Done (IsDeep b) b.id) (AllDone bs) (settle_from bs db')
            (loop_keeps (IsDeep b) b.id bs db' h) (loop_does bs db'))

-- An open row of that id.
unfoldable pub is_open_row : ℕ → Block → Bool
is_open_row k b = (b.id == k) && is_pending b.status

none_open : (k : ℕ) (bs : List Block) → IsDone k bs → affected (is_open_row k) bs ≡ 0
unfolding affected is_open_row
none_open k [] all = refl
none_open k (x ∷ xs) all = elim (Bool-cases (x.id == k)) [
  | inl e ↦ rw (e, all.0 ((==_iff x.id k).0 e)) (omega (arith, none_open k xs all.1))
  | inr e ↦ rw e (omega (arith, none_open k xs all.1))
]

all_at :
    (P : Block → Type 0) (xs : List Block) (i : ℕ) (b : Block)
    → All P xs
    → get_elem? xs i ≡ some b
    → P b
all_at P [] i b all at_ = absurd cc
all_at P (x ∷ xs) zero b all at_ = let same : x ≡ b = cc in subst P same all.0
all_at P (x ∷ xs) (suc i) b all at_ = all_at P xs i b all.1 at_

-- The run failed, or no row of that id is pending.
abbrev pub Ended : ℕ → Progress → Type 0
Ended k (result, db) =
    ((e : MaturityError) × (result ≡ err e)) ⊎ (affected (is_open_row k) db.blocks ≡ 0)

outcome :
    (w : Chain) (maturity : ℕ) (pay : Bool) (current_height : ℕ) (db : Db) (i : ℕ) (b : Block)
    → get_elem? db.blocks i ≡ some b
    → b.status ≡ BlockStatus.pending
    → is_mature w maturity pay current_height b ≡ true
    → (s : Progress)
    → OnSuccess w maturity pay current_height
        (AllDone w maturity pay current_height (get_pending_blocks db))
        s
    → Ended b.id s
unfolding get_pending_blocks
outcome w maturity pay n db i b here open_ deep (err e, db') h = inl (e, refl)
outcome w maturity pay n db i b here open_ deep (ok _, db') h =
    let Fate : Block → Type 0 = λ x. is_mature w maturity pay n x ≡ true → IsDone x.id db'.blocks in
    let rows = selected-All Fate db.blocks (ordered-All Fate _ h) in
    let due = all_at (λ x. is_open x ≡ true → Fate x) db.blocks i b rows here in
    inr (none_open b.id db'.blocks (due (ap is_pending open_) deep))

-- Where the node tells the height, and a block is pending and deep enough: the check loses no row,
-- each row keeps its status or was pending, deep enough, and is confirmed where the node's hash at
-- its height is the block's in one of the two byte orders, orphaned where it is not; and the block
-- is not pending any more, unless the node or the database failed on the way.
pub check_block_maturity_settles :
    (w : Chain) (maturity : ℕ) (pay : Bool) (current_height : ℕ) (db : Db) (i : ℕ) (b : Block)
    → w.block_count ≡ ok current_height
    → get_elem? db.blocks i ≡ some b
    → b.status ≡ BlockStatus.pending
    → is_mature w maturity pay current_height b ≡ true
    → let (result, db') = check_block_maturity w maturity pay db in
      AllSettled w maturity pay current_height db.blocks db'.blocks × Ended b.id (result, db')
unfolding check_block_maturity get_pending_blocks
check_block_maturity_settles w maturity pay n db i b asked here open_ deep =
    let ended = outcome w maturity pay n db i b here open_ deep in
    (
      settled_rows w maturity pay n db.blocks db refl asked,
      subst (λ r. Ended b.id (on_block_count w maturity pay r db)) (sym asked)
          (ended (settle_blocks w maturity pay n (get_pending_blocks db) db)
            (loop_does w maturity pay n (get_pending_blocks db) db)),
    )
