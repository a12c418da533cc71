-- ===== src/Stratum/Connections.antt =====
-- crates/stratum/src/server.rs: the limit of connections from one address, in `listen`. An address is a
-- number, and an address that the map does not have counts zero.
use zcash_mining_pool.Prelude.{
  ℕ, suc, ◌+◌, ◌-◌, ◌≤◌, ◌≡◌, refl, false, Bool-cases, inl, inr, List, [], ◌∷◌, arith, leb, ◌==◌,
  if◌then◌else◌,
}

abbrev pub max_connections_per_ip : ℕ
max_connections_per_ip = 5

-- `ip_connections`, and for each task that serves a connection its address.
pub record Connections : Type 0 where
  pub counts : ℕ → ℕ
  pub tasks : List ℕ

abbrev pub set_count : ℕ → ℕ → (ℕ → ℕ) → ℕ → ℕ
set_count ip n counts other = if other == ip then n else counts other

-- A connection is accepted, or dropped over the limit.
unfoldable pub accept : ℕ → Connections → Connections
accept ip c =
    if leb max_connections_per_ip (c.counts ip)
    then c
    else record { counts = set_count ip (suc (c.counts ip)) c.counts; tasks = ip ∷ c.tasks }

unfoldable pub end_task : ℕ → List ℕ → List ℕ
end_task ip [] = []
end_task ip (x ∷ xs) = let rest = end_task ip xs in if x == ip then xs else x ∷ rest

-- The task of a connection ends: `saturating_sub(1)`.
unfoldable pub release : ℕ → Connections → Connections
release ip c = record {
  counts = set_count ip (c.counts ip - 1) c.counts;
  tasks = end_task ip c.tasks;
}

unfoldable pub serving : ℕ → List ℕ → ℕ
serving ip [] = 0
serving ip (x ∷ xs) = (if x == ip then 1 else 0) + serving ip xs

-- A connection comes in, or a task ends.
pub data Step : Connections → Connections → Type 0 where
  arrive : (ip : ℕ) (c : Connections) → Step c (accept ip c)
  depart : (ip : ℕ) (c : Connections) → 1 ≤ serving ip c.tasks → Step c (release ip c)

pub data Reach : Connections → Type 0 where
  start : Reach (record { counts = λ ip. 0; tasks = [] })
  next : {c c' : Connections} → Reach c → Step c c' → Reach c'

abbrev pub IsLimited : Connections → Type 0
IsLimited c = (ip : ℕ) → (c.counts ip ≡ serving ip c.tasks) × (c.counts ip ≤ max_connections_per_ip)

accept-IsLimited : (ip : ℕ) (c : Connections) → IsLimited c → IsLimited (accept ip c)
unfolding accept serving
accept-IsLimited ip c h other = ground (arith, h other, h ip)

serving-end_task_self : (ip : ℕ) (ts : List ℕ) → serving ip (end_task ip ts) ≡ serving ip ts - 1
unfolding serving end_task
serving-end_task_self ip [] = omega arith
serving-end_task_self ip (x ∷ xs) = elim (Bool-cases (x == ip)) [
  | inl e ↦ rw e (omega arith)
  | inr e ↦ rw (e, serving, e) (omega (arith, serving-end_task_self ip xs))
]

serving-end_task_other :
    (ip other : ℕ) (ts : List ℕ)
    → (other == ip) ≡ false
    → serving other (end_task ip ts) ≡ serving other ts
unfolding serving end_task
serving-end_task_other ip other [] ne = refl
serving-end_task_other ip other (x ∷ xs) ne = elim (Bool-cases (x == ip)) [
  | inl e ↦ rw e (ground arith)
  | inr e ↦ rw (e, serving) (omega (arith, serving-end_task_other ip other xs ne))
]

release-IsLimited : (ip : ℕ) (c : Connections) → IsLimited c → IsLimited (release ip c)
unfolding release
release-IsLimited ip c h other = elim (Bool-cases (other == ip)) [
  | inl e ↦ ground (arith, e, h ip, serving-end_task_self ip c.tasks)
  | inr e ↦ ground (arith, e, h other, serving-end_task_other ip other c.tasks e)
]

Step-IsLimited : {c c' : Connections} → Step c c' → IsLimited c → IsLimited c'
Step-IsLimited (arrive ip c) h = accept-IsLimited ip c h
Step-IsLimited (depart ip c _) h = release-IsLimited ip c h

-- In every order in which connections come in and their tasks end, the count of an address is the
-- number of tasks that serve it, and at most five.
pub Reach-IsLimited : {c : Connections} → Reach c → IsLimited c
unfolding serving
Reach-IsLimited start ip = (refl, omega arith)
Reach-IsLimited (next r s) ip = Step-IsLimited s (Reach-IsLimited r) ip
