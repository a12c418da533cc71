-- ===== src/Payout/Waiting.antt =====
-- The wait for an operation of the wallet in crates/pool-dashboard/src/main.rs.
use zcash_mining_pool.Prelude.{
  ℕ, zero, suc, ◌+◌, ◌*◌, ◌≤◌, ◌<◌, ◌≡◌, refl, Bool-cases, inl, inr, List, arith, ltb, Option-cases,
  some, Result, ok, err,
}
use zcash_mining_pool.Payout.Rpc.{
  RpcError, OpStatus, OpResult, poll, wait_loop, wait_for_operation, op_poll_timeout,
}

module _ (start : ℕ) (clock : ℕ → ℕ) (answer : ℕ → Result RpcError (List OpStatus)) where
  abbrev deadline : ℕ
  deadline = start + op_poll_timeout

  -- The answer of a round within the deadline that decided, or none did.
  abbrev pub Explains : Result (Unit {0}) OpResult → Type 0
  Explains (err e) = Unit
  Explains (ok r) = (j : ℕ) × (j < 25) × (clock j ≤ start + 120) × (poll (answer j) ≡ some (ok r))

  polled :
      (i : ℕ)
      → i < 25
      → clock i ≤ start + 120
      → (r : Result (Unit {0}) OpResult) → poll (answer i) ≡ some r
      → Explains r
  polled i small soon (err e) h = tt
  polled i small soon (ok r) h = (i, small, soon, h)

  loop_ends :
      (ticks : (i : ℕ) → start + 5 * suc i ≤ clock i) (fuel i : ℕ)
      → i + fuel ≡ 25
      → i < 25
      → (r : Result (Unit {0}) OpResult) × (wait_loop clock answer deadline fuel i ≡ some r)
        × Explains r
  unfolding wait_loop
  loop_ends ticks zero i e small = absurd (omega arith)
  loop_ends ticks (suc fuel) i e small = elim (Bool-cases (ltb deadline (clock i))) [
    | inl late ↦ (err tt, rw late refl, tt)
    | inr early ↦ elim (Option-cases (poll (answer i))) [
      | inr (r, h) ↦ (r, rw (early, h) refl, polled i small (ground arith) r h)
      | inl h ↦
          let (r, runs, why) =
            loop_ends ticks fuel (suc i) (omega arith) (ground (arith, ticks i)) in
          (r, rw (early, h) runs, why)
    ]
  ]

-- Where the rounds of the wait are at least five seconds apart, it ends within its twenty-five rounds
-- with an answer, and an outcome of the operation that it returns is one that the wallet reported in
-- a round within the 120 seconds.
pub wait_ends :
    (start : ℕ) (clock : ℕ → ℕ) (answer : ℕ → Result RpcError (List OpStatus))
    → ((i : ℕ) → start + 5 * suc i ≤ clock i)
    → (r : Result (Unit {0}) OpResult) × (wait_for_operation start clock answer ≡ some r)
      × Explains start clock answer r
unfolding wait_for_operation
wait_ends start clock answer ticks = loop_ends start clock answer ticks 25 0 refl (omega arith)
