-- ===== src/Payout/Maturity/Pending.antt =====
-- The pending blocks that crates/pool-db/src/queries.rs lists, against the rows of the table.
use mathlib.Core.List.{Mem, mem-cons_self, mem-cons_of_mem}
use zcash_mining_pool.Prelude.{
  ◌≡◌, refl, Bool, true, inl, inr, Bool-cases, List, [], ◌∷◌, All, if-cases, leb_ℤ,
}
use zcash_mining_pool.Sql.{select}
use zcash_mining_pool.Ledger.Tables.{Block, BlockStatus}
use zcash_mining_pool.Ledger.Blocks.{is_pending}
use zcash_mining_pool.Payout.Maturity.{insert_by_height, order_by_height}

-- An ordered selection has the rows of the table that it selects, and no others.
insert-All :
    (P : Block → Type 0) (b : Block) (xs : List Block)
    → P b
    → All P xs
    → All P (insert_by_height b xs)
unfolding insert_by_height
insert-All P b [] h all = (h, tt)
insert-All P b (x ∷ xs) h all =
    if-cases (All P) (leb_ℤ b.height x.height) (λ _. (h, all))
      (λ _. (all.0, insert-All P b xs h all.1))

pub order-All : (P : Block → Type 0) (xs : List Block) → All P xs → All P (order_by_height xs)
unfolding order_by_height
order-All P [] all = tt
order-All P (x ∷ xs) all = insert-All P x (order_by_height xs) all.0 (order-All P xs all.1)

inserted-All :
    (P : Block → Type 0) (b : Block) (xs : List Block)
    → All P (insert_by_height b xs)
    → P b × All P xs
unfolding insert_by_height
inserted-All P b [] all = all
inserted-All P b (x ∷ xs) all = elim (Bool-cases (leb_ℤ b.height x.height)) [
  | inl e ↦ let all' : All P (b ∷ x ∷ xs) = rw e at all in all'
  | inr e ↦
      let all' : All P (x ∷ insert_by_height b xs) = rw e at all in
      let (h, rest) = inserted-All P b xs all'.1 in (h, (all'.0, rest))
]

pub ordered-All : (P : Block → Type 0) (xs : List Block) → All P (order_by_height xs) → All P xs
unfolding order_by_height
ordered-All P [] all = tt
ordered-All P (x ∷ xs) all =
    let (h, rest) = inserted-All P x (order_by_height xs) all in (h, ordered-All P xs rest)

pending_inv : (s : BlockStatus) → is_pending s ≡ true → s ≡ BlockStatus.pending
pending_inv BlockStatus.pending e = refl
pending_inv BlockStatus.confirmed e = absurd cc
pending_inv BlockStatus.orphaned e = absurd cc

abbrev pub is_open : Block → Bool
is_open b = is_pending b.status

pub select-open :
    (P : Block → Type 0) (xs : List Block)
    → All P xs
    → All (λ b. P b × (b.status ≡ BlockStatus.pending)) (select is_open xs)
unfolding select
select-open P [] all = tt
select-open P (x ∷ xs) all =
    if-cases (All (λ b. P b × (b.status ≡ BlockStatus.pending))) (is_open x)
      (λ e. ((all.0, pending_inv x.status e), select-open P xs all.1)) (λ _. select-open P xs all.1)

pub selected-All :
    (P : Block → Type 0) (xs : List Block)
    → All P (select is_open xs)
    → All (λ b. is_open b ≡ true → P b) xs
unfolding select
selected-All P [] all = tt
selected-All P (x ∷ xs) all = elim (Bool-cases (is_open x)) [
  | inl e ↦
      let all' : All P (x ∷ select is_open xs) = rw e at all in
      (λ _. all'.0, selected-All P xs all'.1)
  | inr e ↦
      let all' : All P (select is_open xs) = rw e at all in
      (λ e'. absurd cc, selected-All P xs all')
]

pub All-members : (P : Block → Type 0) (xs : List Block) → ((b : Block) → Mem b xs → P b) → All P xs
All-members P [] h = tt
All-members P (x ∷ xs) h =
    (h x (mem-cons_self), All-members P xs (λ b m. h b (mem-cons_of_mem x m)))
