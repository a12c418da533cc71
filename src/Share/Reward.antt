-- ===== src/Share/Reward.antt =====
-- crates/pool-core/src/share.rs: the miner's part of the block reward, in zatoshis.
use zcash_mining_pool.Prelude.{
  ℕ, zero, suc, ◌+◌, ◌*◌, ◌-◌, ◌/◌, ◌≤◌, ◌≡◌, subst, arith, ltb, leb, if◌then◌else◌, ℤ, pos, negsuc,
  ◌≤ℤ◌, Bool-cases, leb→le, inl, inr,
}

-- The number of halvings at a height.
unfoldable pub halvings : ℕ → ℕ
halvings height =
    if ltb height 1046400
    then 1
    else if ltb height 2726400
    then 2
    else 3 + (height - 2726400) / 1680000

-- `initial_subsidy >> halvings`, bit by bit
unfoldable pub shift_right : ℕ → ℕ → ℕ
shift_right n zero = n
shift_right n (suc k) = shift_right n k / 2

-- `compute_block_reward`
unfoldable pub compute_block_reward : ℤ → ℤ
compute_block_reward (negsuc n) = pos 0
compute_block_reward (pos height) =
    if leb 64 (halvings height)
    then pos 0
    else pos (shift_right 1250000000 (halvings height) * 80 / 100)

halvings-monotone : (a b : ℕ) → a ≤ b → halvings a ≤ halvings b
unfolding halvings
halvings-monotone a b h = ground arith

shift_right-antitone : (n m k : ℕ) → k ≤ m → shift_right n m ≤ shift_right n k
unfolding shift_right
shift_right-antitone n zero k h =
    let e : zero ≡ k = omega (arith, h) in subst (λ j. n ≤ shift_right n j) e (omega arith)
shift_right-antitone n (suc m) k h = elim (Bool-cases (leb k m)) [
  | inl e ↦ omega (arith, shift_right-antitone n m k (leb→le k m e))
  | inr e ↦
      let same : suc m ≡ k = ground (arith, leb→le k m) in
      subst (λ j. shift_right n (suc m) ≤ shift_right n j) same (omega arith)
]

-- The reward never rises with the height.
pub compute_block_reward-antitone :
    (a b : ℕ) → a ≤ b → compute_block_reward (pos b) ≤ℤ compute_block_reward (pos a)
unfolding compute_block_reward
compute_block_reward-antitone a b h =
    paid (halvings a) (halvings b) (halvings-monotone a b h)
      (shift_right-antitone 1250000000 (halvings b) (halvings a) (halvings-monotone a b h))
  where
    paid :
        (j k : ℕ)
        → j ≤ k
        → shift_right 1250000000 k ≤ shift_right 1250000000 j
        → (if leb 64 k then pos 0 else pos (shift_right 1250000000 k * 80 / 100))
          ≤ℤ (if leb 64 j then pos 0 else pos (shift_right 1250000000 j * 80 / 100))
    paid j k h s = ground arith
