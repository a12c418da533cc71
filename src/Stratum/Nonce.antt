-- ===== src/Stratum/Nonce.antt =====
-- crates/stratum/src/session.rs: NonceAllocator, which gives each connection its part of the nonce.
use zcash_mining_pool.Prelude.{ℕ, zero, suc, ◌+◌, ◌%◌, List, [], ◌∷◌}
use zcash_mining_pool.Bytes.{to_le_bytes}

-- The loop of `allocate`: the first bytes of the counter, and zeros after them.
unfoldable pub fill : ℕ → List ℕ → List ℕ
fill zero bs = []
fill (suc n) [] = 0 ∷ fill n []
fill (suc n) (b ∷ bs) = b ∷ fill n bs

-- `allocate`: the nonce, before its encoding, and the counter afterwards. A `u32` wraps around.
unfoldable pub allocate : ℕ → ℕ → List ℕ × ℕ
allocate nonce1_size counter =
    (fill nonce1_size (to_le_bytes 4 counter), (counter + 1) % 4294967296)
