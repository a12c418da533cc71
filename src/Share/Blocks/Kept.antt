-- ===== src/Share/Blocks/Kept.antt =====
-- crates/pool-core/src/share.rs: what becomes of a block between its submission and its row.
use mathlib.Core.Logic.Or
use mathlib.Core.List.{Mem, mem-cons, not-mem-nil}
use native.Mathlib.Bridge.{le_prop}
use zcash_mining_pool.Prelude.{
  ℕ, ◌≤◌, ◌≡◌, refl, sym, subst, ◌⊎◌, inl, inr, ◌≢◌, Bool, true, false, not, ◌&&◌, String, str_eq,
  eq_iff, List, [], ◌∷◌, ◌++◌, ◌==◌, if◌then◌else◌, if-cases, Bool-cases, Option, some, none, ℤ,
  arith, All, Result, ok, err,
}
use zcash_mining_pool.Sql.{select, affected, affected-append}
use zcash_mining_pool.Ledger.Tables.{Db, DbError, Submission, Block}
use zcash_mining_pool.Ledger.Blocks.{
  record_block, record_block_submission, resolve_block_submission, get_open_block_submissions,
  get_block_id_by_hash, first_id,
}
use zcash_mining_pool.Share.Blocks.{
  Inclusion, verified, mismatch, unknown, Writes, Answers, Found, drop_crumb, resolve, fate_of,
  submit_block, on_recorded, on_fate, block_found, recovered, recover_row, sweep_one, sweep_all,
}

-- Whether a block of the table has the hash.
abbrev pub has_hash : String → Block → Bool
has_hash hash b = str_eq b.hash hash

-- A block with the hash is recorded.
abbrev pub Recorded : String → Db → Type 0
Recorded hash db = 1 ≤ affected (has_hash hash) db.blocks

abbrev is_open : String → Submission → Bool
is_open hash s = str_eq s.hash hash && not s.resolved

-- A submission with the hash is open.
abbrev pub IsOpen : String → Db → Type 0
IsOpen hash db = 1 ≤ affected (is_open hash) db.submissions

str_eq_refl : (s : String) → str_eq s s ≡ true
str_eq_refl s = (eq_iff s s).1 refl

-- A row at the end with the property is counted.
affected-last {ℓ} :
    {A : Type ℓ} (p : A → Bool) (xs : List A) (y : A) → p y ≡ true → 1 ≤ affected p (xs ++ y ∷ [])
unfolding affected
affected-last p xs y e = rw (affected-append p xs (y ∷ []), e) (omega arith)

-- The insertion of a block records it, or it was recorded before, where the database writes.
record_block-Recorded :
    (height : ℤ) (hash : String) (reward : ℤ) (actual : Option ℤ) (found_by now : ℕ) (db : Db)
    → Recorded hash (record_block true height hash reward actual found_by now db).1
unfolding record_block
record_block-Recorded height hash reward actual found_by now db =
    if-cases (λ (r : Result DbError ℕ × Db). Recorded hash r.1)
      (affected (has_hash hash) db.blocks == 0)
      (λ _. affected-last (has_hash hash) db.blocks _ (str_eq_refl hash)) (λ e. ground arith)

-- The insertion of a block keeps what is recorded.
record_block-keeps :
    (writes : Bool) (height : ℤ) (hash : String) (reward : ℤ) (actual : Option ℤ) (found_by now : ℕ)
    (db : Db) (other : String)
    → Recorded other db
    → Recorded other (record_block writes height hash reward actual found_by now db).1
unfolding record_block
record_block-keeps writes height hash reward actual found_by now db other h =
    if-cases (λ (r : Result DbError ℕ × Db). Recorded other r.1)
      (writes && (affected (has_hash hash) db.blocks == 0))
      (λ _. omega (arith, affected-append (has_hash other) db.blocks (_ ∷ []), h)) (λ _. h)

-- It inserts a row that has the hash, or fails and changes nothing.
Inserts : String → Db → Result DbError ℕ × Db → Type 0
Inserts hash db (ok id, db') = Recorded hash db'
Inserts hash db (err e, db') = db' ≡ db

record_block-Inserts :
    (writes : Bool) (height : ℤ) (hash : String) (reward : ℤ) (actual : Option ℤ) (found_by now : ℕ)
    (db : Db)
    → Inserts hash db (record_block writes height hash reward actual found_by now db)
unfolding record_block Inserts
record_block-Inserts writes height hash reward actual found_by now db =
    if-cases (Inserts hash db) (writes && (affected (has_hash hash) db.blocks == 0))
      (λ _. affected-last (has_hash hash) db.blocks _ (str_eq_refl hash)) (λ _. refl)

found-Recorded :
    (hash : String) (id : ℕ) (bs : List Block)
    → first_id (select (has_hash hash) bs) ≡ some id
    → 1 ≤ affected (has_hash hash) bs
unfolding first_id select affected
found-Recorded hash id [] e = cc
found-Recorded hash id (b ∷ bs) e = elim (Bool-cases (has_hash hash b)) [
  | inl y ↦ rw y (omega arith)
  | inr y ↦
      let later : first_id (select (has_hash hash) bs) ≡ some id =
        subst
          (λ t.
            first_id (if t then b ∷ select (has_hash hash) bs else select (has_hash hash) bs)
            ≡ some id)
          y e in
      rw y (omega (arith, found-Recorded hash id bs later))
]

recover_row-Recorded :
    (s : Submission) (now : ℕ) (db : Db)
    → Recorded s.hash (recover_row true s now (get_block_id_by_hash true s.hash db) db).1
unfolding recover_row get_block_id_by_hash
recover_row-Recorded s now db = by_row (first_id (select (has_hash s.hash) db.blocks)) refl
  where
    by_answer : (r : Result DbError ℕ × Db) → Recorded s.hash r.1 → Recorded s.hash (recovered r).1
    by_answer (ok id, db') h = h
    by_answer (err x, db') h = h

    by_row :
        (o : Option ℕ)
        → first_id (select (has_hash s.hash) db.blocks) ≡ o
        → Recorded s.hash (recover_row true s now (ok o) db).1
    by_row (some id) e = found-Recorded s.hash id db.blocks e
    by_row none e =
        by_answer (record_block true s.height s.hash s.reward s.actual_reward s.worker_id now db)
          (record_block-Recorded s.height s.hash s.reward s.actual_reward s.worker_id now db)

recover_row-keeps :
    (records : Bool) (s : Submission) (now : ℕ) (o : Result DbError (Option ℕ)) (db : Db)
    (other : String)
    → Recorded other db
    → Recorded other (recover_row records s now o db).1
unfolding recover_row
recover_row-keeps records s now (err e) db other h = h
recover_row-keeps records s now (ok (some id)) db other h = h
recover_row-keeps records s now (ok none) db other h =
    by_answer (record_block records s.height s.hash s.reward s.actual_reward s.worker_id now db) (
      record_block-keeps records s.height s.hash s.reward s.actual_reward s.worker_id now db other
        h)
  where
    by_answer : (r : Result DbError ℕ × Db) → Recorded other r.1 → Recorded other (recovered r).1
    by_answer (ok id, db') h' = h'
    by_answer (err x, db') h' = h'

resolve_submission-blocks :
    (writes : Bool) (id : ℕ) (outcome : String) (db : Db)
    → (resolve_block_submission writes id outcome db).blocks ≡ db.blocks
unfolding resolve_block_submission
resolve_submission-blocks true id outcome db = refl
resolve_submission-blocks false id outcome db = refl

resolved-Recorded :
    (writes : Bool) (id : ℕ) (outcome hash : String) (db : Db)
    → Recorded hash db
    → Recorded hash (resolve_block_submission writes id outcome db)
resolved-Recorded writes id outcome hash db h =
    rw (resolve_submission-blocks writes id outcome db) h

module _ (w : Answers) (now : ℕ) where
  sweep_one-Recorded :
      (s : Submission) (db : Db)
      → w.reads s ≡ true
      → w.records s ≡ true
      → Recorded s.hash (sweep_one w now s verified db)
  unfolding sweep_one
  sweep_one-Recorded s db e e' =
      let (done, db') = recover_row true s now (get_block_id_by_hash true s.hash db) db in
      rw (e, e')
        (if-cases (Recorded s.hash) done
          (λ _.
            resolved-Recorded (w.resolves s) s.id "swept-recorded" s.hash db'
              (recover_row-Recorded s now db))
          (λ _. recover_row-Recorded s now db))

  sweep_one-keeps :
      (s : Submission) (i : Inclusion) (db : Db) (other : String)
      → Recorded other db
      → Recorded other (sweep_one w now s i db)
  unfolding sweep_one
  sweep_one-keeps s mismatch db other h =
      resolved-Recorded (w.resolves s) s.id "swept-rejected" other db h
  sweep_one-keeps s unknown db other h = h
  sweep_one-keeps s verified db other h =
      let o = get_block_id_by_hash (w.reads s) s.hash db in
      let (done, db') = recover_row (w.records s) s now o db in
      if-cases (Recorded other) done
        (λ _.
          resolved-Recorded (w.resolves s) s.id "swept-recorded" other db'
            (recover_row-keeps (w.records s) s now o db other h))
        (λ _. recover_row-keeps (w.records s) s now o db other h)

  sweep_all-keeps :
      (ss : List Submission) (db : Db) (other : String)
      → Recorded other db
      → Recorded other (sweep_all w now ss db)
  unfolding sweep_all
  sweep_all-keeps [] db other h = h
  sweep_all-keeps (s ∷ ss) db other h =
      sweep_all-keeps ss (sweep_one w now s (w.chain s) db) other
        (sweep_one-keeps s (w.chain s) db other h)

  -- The chain confirms the block, and the database does what the sweep asks of it.
  abbrev pub IsSettling : Submission → Type 0
  IsSettling s = (w.chain s ≡ verified) × (w.reads s ≡ true) × (w.records s ≡ true)

  -- The sweep of a list of submissions, one by one.
  sweep_all-Recorded :
      (ss : List Submission) (db : Db)
      → All (λ s. IsSettling s → Recorded s.hash (sweep_all w now ss db)) ss
  unfolding sweep_all
  sweep_all-Recorded [] db = tt
  sweep_all-Recorded (s ∷ ss) db = (
    (λ e.
        sweep_all-keeps ss (sweep_one w now s (w.chain s) db) s.hash
          (rw e.0 (sweep_one-Recorded s db e.1 e.2))),
    sweep_all-Recorded ss (sweep_one w now s (w.chain s) db),
  )

  -- A property of the rows of a list that pass a test holds of each of them.
  of_row :
      (f : Submission → ℕ) (ss : List Submission) (s : Submission)
      → All (λ t. IsSettling t → 1 ≤ f t) ss
      → Mem s ss
      → IsSettling s
      → 1 ≤ f s
  of_row f [] s h m e = absurd (not-mem-nil m)
  of_row f (t ∷ ts) s h m e =
      Or.elim le_prop (mem-cons.0 m)
        (λ same. subst (λ x. 1 ≤ f x) (sym same) (h.0 (subst IsSettling same e)))
        (λ later. of_row f ts s h.1 later e)

-- The first pass of the sweep records the block of every submission of the list that the chain
-- confirms, where the database answers the lookup of that block and takes its row, and whatever
-- fails for the others.
pub sweep_records :
    (w : Answers) (now : ℕ) (ss : List Submission) (db : Db) (s : Submission)
    → Mem s ss
    → w.chain s ≡ verified
    → w.reads s ≡ true
    → w.records s ≡ true
    → Recorded s.hash (sweep_all w now ss db)
sweep_records w now ss db s m e e' e'' =
    of_row w now (λ t. affected (has_hash t.hash) (sweep_all w now ss db).blocks) ss s
      (sweep_all-Recorded w now ss db) m (e, e', e'')

resolve-Recorded :
    (writes : Bool) (crumb : Option ℕ) (outcome hash : String) (db : Db)
    → Recorded hash db
    → Recorded hash (resolve writes crumb outcome db)
unfolding resolve
resolve-Recorded writes none outcome hash db h = h
resolve-Recorded writes (some id) outcome hash db h = resolved-Recorded writes id outcome hash db h

abbrev IsKept : String → Option ℕ × Db → Type 0
IsKept hash r = Recorded hash r.1 ⊎ IsOpen hash r.1

-- Where the insertion fails, the breadcrumb is still open.
recorded-IsKept :
    (resolves : Bool) (crumb : Option ℕ) (hash : String) (db : Db) (r : Result DbError ℕ × Db)
    → IsOpen hash db
    → Inserts hash db r
    → IsKept hash (on_recorded resolves crumb r)
unfolding on_recorded Inserts
recorded-IsKept resolves crumb hash db (ok id, db') open_ h =
    inl (resolve-Recorded resolves crumb "recorded" hash db' h)
recorded-IsKept resolves crumb hash db (err e, db') open_ h = inr (rw h open_)

drop_crumb-IsOpen : (f : Found) (db : Db) → IsOpen f.hash (drop_crumb true f db).1
unfolding drop_crumb record_block_submission
drop_crumb-IsOpen f db =
    affected-last (is_open f.hash) db.submissions _ (rw (str_eq_refl f.hash) refl)

on_fate-IsKept :
    (w : Writes) (crumb : Option ℕ) (f : Found) (now : ℕ) (i : Inclusion) (db : Db)
    → i ≢ mismatch
    → IsOpen f.hash db
    → IsKept f.hash (on_fate w crumb f now i db)
unfolding on_fate
on_fate-IsKept w crumb f now mismatch db h open_ = absurd (h refl)
on_fate-IsKept w crumb f now unknown db h open_ = inr open_
on_fate-IsKept w crumb f now verified db h open_ =
    recorded-IsKept w.resolves crumb f.hash db _ open_
      (record_block-Inserts w.records f.height f.hash _ _ f.worker_id now db)

-- A block that the node or the chain has not refused, and whose breadcrumb could be written, is
-- recorded, or its submission is left open for the sweep, also where the database refuses the row
-- of the block or the settling of the breadcrumb.
pub won_block_kept :
    (records resolves : Bool) (f : Found) (now : ℕ) (answer : Option (Option String))
    (chain : Inclusion) (db : Db)
    → fate_of (submit_block answer) chain ≢ mismatch
    → let w : Writes = record { crumbs = true; records = records; resolves = resolves } in
      let db' = (block_found w f now answer chain db).1 in Recorded f.hash db' ⊎ IsOpen f.hash db'
unfolding block_found
won_block_kept records resolves f now answer chain db h =
    let w : Writes = record { crumbs = true; records = records; resolves = resolves } in
    let (crumb, db') = drop_crumb true f db in
    on_fate-IsKept w crumb f now (fate_of (submit_block answer) chain) db' h
      (drop_crumb-IsOpen f db)

All-last :
    (P : Submission → Type 0) (p : Submission → Bool) (xs : List Submission) (y : Submission)
    → p y ≡ true
    → All P (select p (xs ++ y ∷ []))
    → P y
unfolding select
All-last P p [] y e h = (subst (λ b. All P (if b then y ∷ [] else [])) e h).0
All-last P p (x ∷ xs) y e h = elim (Bool-cases (p x)) [
  | inl t ↦
      All-last P p xs y e
        (subst (λ b. All P (if b then x ∷ select p (xs ++ y ∷ []) else select p (xs ++ y ∷ []))) t
          h).1
  | inr t ↦
      All-last P p xs y e (
        subst (λ b. All P (if b then x ∷ select p (xs ++ y ∷ []) else select p (xs ++ y ∷ []))) t h)
]

-- Where the pool stops right after the breadcrumb of a block and the chain has the block, the sweep
-- of the next start records it, where the database answers the lookups of that block and takes its
-- row.
pub crash_recovered :
    (w : Answers) (f : Found) (now : ℕ) (db : Db)
    → ((s : Submission)
        → s.hash ≡ f.hash
        → (w.chain s ≡ verified) × (w.reads s ≡ true) × (w.records s ≡ true))
    → Recorded f.hash (
        sweep_all w now
          (get_open_block_submissions (drop_crumb true f db).1)
          (drop_crumb true f db).1)
unfolding get_open_block_submissions drop_crumb record_block_submission
crash_recovered w f now db h =
    All-last _ (λ s. not s.resolved) db.submissions _ refl
      (sweep_all-Recorded w now (get_open_block_submissions (drop_crumb true f db).1)
        (drop_crumb true f db).1)
      (h _ refl)
