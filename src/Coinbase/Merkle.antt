-- ===== src/Coinbase/Merkle.antt =====
-- crates/pool-core/src/coinbase.rs: the loop of auth_data_merkle_root and the tree that it stands for.
use native.Mathlib.Nat.{pow-suc}
use zcash_mining_pool.Prelude.{
  ℕ, zero, suc, ◌+◌, ◌-◌, ◌*◌, ◌^◌, ◌≤◌, ◌≡◌, refl, sym, ap, subst, ◌∙◌, String, inl, inr,
  Bool-cases, List, [], ◌∷◌, ◌++◌, arith, length, take, drop, replicate, length-append,
  length-replicate, length-take, length-drop, take-length-append, drop-length-append, ltb, some,
}
use zcash_mining_pool.Coinbase.{
  Hashes, hash_pairs, merkle_loop, zero_hash, at_least, next_power_of_two, padded,
  auth_data_merkle_root,
}

pow_pos : (h : ℕ) → 1 ≤ 2 ^ h
pow_pos zero = omega arith
pow_pos (suc h) = omega (arith, pow_pos h, pow-suc 2 h)

-- A doubling for each round reaches `n`, and stays a power of two.
at_least_power :
    (rounds k p n : ℕ)
    → p ≡ 2 ^ k
    → n ≤ p * 2 ^ rounds
    → (h : ℕ) × (at_least rounds p n ≡ 2 ^ h) × (h ≤ k + rounds) × (n ≤ at_least rounds p n)
at_least_power zero k p n e le = (k, e, omega arith, ground arith)
at_least_power (suc rounds) k p n e le = elim (Bool-cases (ltb p n)) [
  | inl more ↦
      let (h, power, small, reached) =
        at_least_power rounds (suc k) (2 * p) n (omega (arith, pow-suc 2 k))
          (grind (arith, pow-suc 2 rounds)) in
      (h, rw more power, omega arith, rw more reached)
  | inr enough ↦ (k, rw enough e, omega arith, rw enough (ground arith))
]

le_pow : (n : ℕ) → n ≤ 2 ^ n
le_pow zero = omega arith
le_pow (suc n) = omega (arith, le_pow n, pow_pos n, pow-suc 2 n)

module _ (H : Hashes) (ascii : String → List ℕ) where
  open H use {blake2b_256}

  abbrev node : List ℕ → List ℕ → List ℕ
  node a b = blake2b_256 (ascii "ZcashAuthDatHash") (a ++ b)

  abbrev first_or_zero : List (List ℕ) → List ℕ
  first_or_zero [] = zero_hash
  first_or_zero (a ∷ rest) = a

  -- The root of the perfect tree of height `h` over 2^h leaves: its halves are trees.
  unfoldable pub tree : ℕ → List (List ℕ) → List ℕ
  tree zero xs = first_or_zero xs
  tree (suc h) xs = node (tree h (take (2 ^ h) xs)) (tree h (drop (2 ^ h) xs))

  hash_pairs-append :
      (n : ℕ) (xs ys : List (List ℕ))
      → length xs ≡ 2 * n
      → hash_pairs H ascii (xs ++ ys) ≡ hash_pairs H ascii xs ++ hash_pairs H ascii ys
  unfolding hash_pairs
  hash_pairs-append n [] ys h = refl
  hash_pairs-append zero (a ∷ xs) ys h = absurd (omega arith)
  hash_pairs-append n (a ∷ []) ys h = absurd (omega arith)
  hash_pairs-append (suc n) (a ∷ b ∷ xs) ys h =
      ap (◌∷◌ (node a b)) (hash_pairs-append n xs ys (omega arith))

  length-hash_pairs :
      (n : ℕ) (xs : List (List ℕ)) → length xs ≡ 2 * n → length (hash_pairs H ascii xs) ≡ n
  unfolding hash_pairs
  length-hash_pairs n [] h = omega arith
  length-hash_pairs zero (a ∷ xs) h = absurd (omega arith)
  length-hash_pairs n (a ∷ []) h = absurd (omega arith)
  length-hash_pairs (suc n) (a ∷ b ∷ xs) h = ap suc (length-hash_pairs n xs (omega arith))

  take-drop : (n : ℕ) (xs : List (List ℕ)) → take n xs ++ drop n xs ≡ xs
  take-drop zero xs = refl
  take-drop (suc n) [] = refl
  take-drop (suc n) (x ∷ xs) = ap (◌∷◌ x) (take-drop n xs)

  tree-append :
      (h : ℕ) (ls rs : List (List ℕ))
      → length ls ≡ 2 ^ h
      → tree (suc h) (ls ++ rs) ≡ node (tree h ls) (tree h rs)
  unfolding tree
  tree-append h ls rs e =
      let front : take (2 ^ h) (ls ++ rs) ≡ ls =
        subst (λ n. take n (ls ++ rs) ≡ ls) e (take-length-append ls rs) in
      let back : drop (2 ^ h) (ls ++ rs) ≡ rs =
        subst (λ n. drop n (ls ++ rs) ≡ rs) e (drop-length-append ls rs) in
      rw (front, back) refl

  at_pair :
      (xs : List (List ℕ))
      → length xs ≡ 2
      → node (first_or_zero (take 1 xs)) (first_or_zero (drop 1 xs))
        ≡ first_or_zero (hash_pairs H ascii xs)
  unfolding hash_pairs
  at_pair [] e = absurd (omega arith)
  at_pair (a ∷ []) e = absurd (omega arith)
  at_pair (a ∷ b ∷ rest) e = refl

  -- Hashing the pairs of a level takes one level off the tree.
  tree-hash_pairs :
      (h : ℕ) (xs : List (List ℕ))
      → length xs ≡ 2 ^ suc h
      → tree (suc h) xs ≡ tree h (hash_pairs H ascii xs)
  unfolding tree
  tree-hash_pairs zero xs e = at_pair xs e
  tree-hash_pairs (suc h) xs e =
      let half = 2 ^ suc h in
      let ls = take half xs in
      let rs = drop half xs in
      let twice : 2 ^ suc (suc h) ≡ 2 ^ suc h * 2 = pow-suc 2 (suc h) in
      let twice' : 2 ^ suc h ≡ 2 ^ h * 2 = pow-suc 2 h in
      let left : length ls ≡ 2 ^ suc h = omega (arith, length-take half xs) in
      let right : length rs ≡ 2 ^ suc h = omega (arith, length-drop half xs) in
      let pairs : length (hash_pairs H ascii ls) ≡ 2 ^ h =
        length-hash_pairs (2 ^ h) ls (omega arith) in
      ap (λ t. node t (tree (suc h) rs)) (tree-hash_pairs h ls left)
      ∙ ap (node (tree h (hash_pairs H ascii ls))) (tree-hash_pairs h rs right)
      ∙ sym (tree-append h (hash_pairs H ascii ls) (hash_pairs H ascii rs) pairs)
      ∙ ap (tree (suc h)) (sym (hash_pairs-append (2 ^ h) ls rs (omega arith)))
      ∙ ap (λ ys. tree (suc h) (hash_pairs H ascii ys)) (take-drop half xs)

  loop_ends :
      (h fuel : ℕ) (xs : List (List ℕ))
      → length xs ≡ 2 ^ h
      → h ≤ fuel
      → merkle_loop H ascii fuel xs ≡ some (tree h xs)
  unfolding merkle_loop tree
  loop_ends zero fuel [] e le = absurd (omega arith)
  loop_ends zero fuel (a ∷ []) e le = refl
  loop_ends zero fuel (a ∷ b ∷ xs) e le = absurd (omega arith)
  loop_ends (suc h) fuel [] e le = absurd (omega (arith, pow_pos h, pow-suc 2 h))
  loop_ends (suc h) fuel (a ∷ []) e le = absurd (omega (arith, pow_pos h, pow-suc 2 h))
  loop_ends (suc h) zero (a ∷ b ∷ xs) e le = absurd (omega arith)
  loop_ends (suc h) (suc fuel) (a ∷ b ∷ xs) e le =
      loop_ends h fuel (hash_pairs H ascii (a ∷ b ∷ xs))
        (length-hash_pairs (2 ^ h) (a ∷ b ∷ xs) (omega (arith, pow-suc 2 h))) (omega arith)
      ∙ ap some (sym (tree-hash_pairs h (a ∷ b ∷ xs) e))

-- The loop over the levels always ends, with a round for each leaf to spare: the root of the
-- authorizations is that of the perfect tree over the leaves, filled up with zeros to the next power
-- of two, whose halves are such trees again.
pub merkle_root_ends :
    (H : Hashes) (ascii : String → List ℕ) (leaves : List (List ℕ))
    → (h : ℕ) × (length (padded leaves) ≡ 2 ^ h)
      × (auth_data_merkle_root H ascii leaves ≡ some (tree H ascii h (padded leaves)))
unfolding auth_data_merkle_root next_power_of_two tree
merkle_root_ends H ascii [] = (0, refl, refl)
merkle_root_ends H ascii (leaf ∷ more) =
    let leaves = leaf ∷ more in
    let n = length leaves in
    let (h, power, small, reached) = at_least_power n 0 1 n refl (omega (arith, le_pow n)) in
    let size : length (padded leaves) ≡ 2 ^ h = omega (
      arith,
      length-append leaves (replicate (next_power_of_two n - n) zero_hash),
      length-replicate (next_power_of_two n - n) zero_hash,
    ) in
    (h, size, loop_ends H ascii h n (padded leaves) size (omega arith))
