-- ===== src/Payout/Selection.antt =====
-- Which miners a payout round of crates/pool-dashboard/src/main.rs pays, how much, and where: the part of
-- `process_payouts` before anything is written, and the merge of the amounts to one per address.
pub mod Merging
use Prim.Native.Nat.{Ordering}
use Prim.Native.String.{compare}
use zcash_mining_pool.Prelude.{
  ℕ, ◌+◌, ◌*◌, ◌≡◌, refl, String, Bool, true, false, List, [], ◌∷◌, arith, length, leb, ◌==◌,
  if◌then◌else◌, ℤ, pos, ◌+ℤ◌, int_laws, parts_of_eq, leb_ℤ, sum_by,
}
use zcash_mining_pool.Float.{Float}

-- `PendingPayout`
pub record PendingPayout : Type 0 where
  pub miner_id : ℕ
  pub address : String
  pub amount : ℤ
  pub created_at : ℕ

-- An entry of `payout_list`, with the miner's id in place of its position.
pub record Transfer : Type 0 where
  pub miner_id : ℕ
  pub amount : ℤ
  pub address : String

-- `include_immature`
abbrev pub include_immature : Bool → ℤ → ℤ → Bool
include_immature pay_immature exposure reserve_min =
    if pay_immature then leb_ℤ exposure reserve_min else false

abbrev pub two_days : ℕ
two_days = 172800

module _ (R : Float) where
  open R use {F, of_ℤ, ratio, sub, mul, div, floor_i64, lt, le}

  abbrev pub zero_f : F
  zero_f = ratio 0 1

  -- `max`, of numbers that can be compared
  abbrev pub max_f : F → F → F
  max_f a b = if lt a b then b else a

  abbrev pub to_zec : ℤ → F
  to_zec z = div (of_ℤ z) (ratio 100000000 1)

  -- `available_zec`
  unfoldable pub available : F → ℤ → F → F
  available balance reserve_min margin =
      max_f (mul (max_f (sub balance (to_zec reserve_min)) zero_f) margin) zero_f

  unfoldable pub scale_for : F → ℤ → F
  scale_for available_zec total =
      if le (to_zec total) available_zec then ratio 1 1 else div available_zec (to_zec total)

  abbrev pub scaled : F → ℤ → ℤ
  scaled scale amount = floor_i64 (mul (of_ℤ amount) scale)

  -- The loop over the pending rows: to a valid address, or from an account of two days on to
  -- `mining_address`.
  module _ (is_valid : String → Bool) (mining_address : String) (min_payout : ℤ) (now : ℕ)
      (scale : F) where
    abbrev pub keep_large : PendingPayout → String → List Transfer → List Transfer
    keep_large p address rest =
        if leb_ℤ min_payout (scaled scale p.amount)
        then record { miner_id = p.miner_id; amount = scaled scale p.amount; address = address }
          ∷ rest
        else rest

    unfoldable pub select_transfers : List PendingPayout → List Transfer
    select_transfers [] = []
    select_transfers (p ∷ ps) =
        let rest = select_transfers ps in
        if is_valid p.address
        then keep_large p p.address rest
        else if leb (p.created_at + two_days) now
        then keep_large p mining_address rest
        else rest

-- What the ordered map `merged` becomes at an entry, by how the address compares with the entry's.
abbrev pub add_at :
    Ordering → String × ℤ → String × ℤ → List (String × ℤ) → List (String × ℤ) → List (String × ℤ)
add_at Ordering.lt (addr, z) (other, y) rest later = (addr, z) ∷ (other, y) ∷ rest
add_at Ordering.eq (addr, z) (other, y) rest later = (other, y +ℤ z) ∷ rest
add_at Ordering.gt (addr, z) (other, y) rest later = (other, y) ∷ later

-- `*merged.entry(addr).or_insert(0) += zats`
unfoldable pub add_amount : String × ℤ → List (String × ℤ) → List (String × ℤ)
add_amount (addr, z) [] = (addr, z) ∷ []
add_amount (addr, z) ((other, y) ∷ rest) =
    let later = add_amount (addr, z) rest in
    add_at (compare addr other) (addr, z) (other, y) rest later

unfoldable pub merge_from : List (String × ℤ) → List Transfer → List (String × ℤ)
merge_from merged [] = merged
merge_from merged (t ∷ ts) = merge_from (add_amount (t.address, t.amount) merged) ts

unfoldable pub merge_amounts : List Transfer → List (String × ℤ)
merge_amounts ts = merge_from [] ts
