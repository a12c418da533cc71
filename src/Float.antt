-- ===== src/Float.antt =====
-- The f64 operations that the pool's arithmetic uses, as a parameter: a type with operations. Rust's
-- floats are not modelled; what a theorem needs of them is a hypothesis of that theorem.
use zcash_mining_pool.Prelude.{ℕ, ℤ, Bool}

pub record Float : Type 1 where
  pub F : Type 0
  -- `n as f64`
  pub of_ℤ : ℤ → F
  pub of_ℕ : ℕ → F
  -- A decimal constant of the source, n / d.
  pub ratio : ℕ → ℕ → F
  pub add : F → F → F
  pub sub : F → F → F
  pub mul : F → F → F
  pub div : F → F → F
  -- `x as i64`, after `floor` where the source calls it
  pub to_i64 : F → ℤ
  pub floor_i64 : F → ℤ
  pub lt : F → F → Bool
  pub le : F → F → Bool
