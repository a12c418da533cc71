-- ===== src/Payout/Selection/Merging.antt =====
-- The merge of a payout round's amounts to one per address, in crates/pool-dashboard/src/main.rs.
use Prim.Native.Nat.{Ordering, compare as compare_ℕ}
use Prim.Native.Char.{code}
use Prim.Native.String.compare
use Prim.Native.String.{compare, then as and_then}
use text.Mathlib.TextEquality.{path_by_compare}
use zcash_mining_pool.Prelude.{
  ℕ, ◌≡◌, refl, sym, ap, subst, ◌∙◌, String, Bool, true, false, List, [], ◌∷◌, arith, str_eq,
  if◌then◌else◌, ℤ, pos, ◌+ℤ◌, int_laws, parts_of_eq, sum_by,
}
use zcash_mining_pool.Payout.Selection.{Transfer, add_at, add_amount, merge_from, merge_amounts}

-- What an entry sends to `addr`.
abbrev pub sent_to : String → String × ℤ → ℤ
sent_to addr (other, z) = if str_eq other addr then z else pos 0

abbrev pub due_to : String → Transfer → ℤ
due_to addr t = sent_to addr (t.address, t.amount)

abbrev opposite : Ordering → Ordering
opposite Ordering.lt = Ordering.gt
opposite Ordering.eq = Ordering.eq
opposite Ordering.gt = Ordering.lt

opposite-then : (o p : Ordering) → opposite (and_then o p) ≡ and_then (opposite o) (opposite p)
opposite-then Ordering.lt p = refl
opposite-then Ordering.eq p = refl
opposite-then Ordering.gt p = refl

opposite-compare_ℕ : (a b : ℕ) → opposite (compare_ℕ a b) ≡ compare_ℕ b a
opposite-compare_ℕ a b = ground arith

opposite-compare : (s t : String) → opposite (compare s t) ≡ compare t s
opposite-compare String.[] String.[] = ap opposite compare.nil-nil ∙ sym compare.nil-nil
opposite-compare String.[] (String.◌∷◌ d t) =
    ap opposite (compare.nil-cons d t) ∙ sym (compare.cons-nil d t)
opposite-compare (String.◌∷◌ c s) String.[] =
    ap opposite (compare.cons-nil c s) ∙ sym (compare.nil-cons c s)
opposite-compare (String.◌∷◌ c s) (String.◌∷◌ d t) =
    ap opposite (compare.cons-cons c d s t)
    ∙ opposite-then (compare_ℕ (code c) (code d)) (compare s t)
    ∙ ap (λ o. and_then o (opposite (compare s t))) (opposite-compare_ℕ (code c) (code d))
    ∙ ap (and_then (compare_ℕ (code d) (code c))) (opposite-compare s t)
    ∙ sym (compare.cons-cons d c t s)

-- Each address is smaller than the next, so that none occurs twice.
abbrev pub IsAscending : List (String × ℤ) → Type 0
IsAscending [] = Unit
IsAscending (x ∷ []) = Unit
IsAscending (x ∷ y ∷ rest) = (compare x.0 y.0 ≡ Ordering.lt) × IsAscending (y ∷ rest)

add_at-sent :
    (addr : String) (o : Ordering) (x y : String × ℤ) (rest later : List (String × ℤ))
    → compare x.0 y.0 ≡ o
    → sum_by (sent_to addr) later ≡ sum_by (sent_to addr) rest +ℤ sent_to addr x
    → sum_by (sent_to addr) (add_at o x y rest later)
      ≡ sum_by (sent_to addr) (y ∷ rest) +ℤ sent_to addr x
unfolding sum_by
add_at-sent addr Ordering.lt x y rest later e h = omega int_laws
add_at-sent addr Ordering.eq (a, z) (b, y) rest later e h =
    let same : b ≡ a = sym (path_by_compare a b e) in
    subst
      (λ c.
        sent_to addr (b, y +ℤ z) +ℤ sum_by (sent_to addr) rest
        ≡ sent_to addr (b, y) +ℤ sum_by (sent_to addr) rest +ℤ sent_to addr (c, z))
      same (at_one (str_eq b addr) y z (sum_by (sent_to addr) rest))
  where
    at_one :
        (c : Bool) (y z r : ℤ)
        → (if c then y +ℤ z else pos 0) +ℤ r
          ≡ (if c then y else pos 0) +ℤ r +ℤ (if c then z else pos 0)
    at_one true y z r = omega int_laws
    at_one false y z r = omega int_laws
add_at-sent addr Ordering.gt x y rest later e h = omega (int_laws, parts_of_eq h)

add_amount-sent :
    (addr : String) (x : String × ℤ) (merged : List (String × ℤ))
    → sum_by (sent_to addr) (add_amount x merged) ≡ sum_by (sent_to addr) merged +ℤ sent_to addr x
unfolding sum_by add_amount
add_amount-sent addr (a, z) [] = omega int_laws
add_amount-sent addr (a, z) ((b, y) ∷ rest) =
    add_at-sent addr (compare a b) (a, z) (b, y) rest (add_amount (a, z) rest) refl
      (add_amount-sent addr (a, z) rest)

merge_from-sent :
    (addr : String) (ts : List Transfer) (merged : List (String × ℤ))
    → sum_by (sent_to addr) (merge_from merged ts)
      ≡ sum_by (sent_to addr) merged +ℤ sum_by (due_to addr) ts
unfolding sum_by merge_from
merge_from-sent addr [] merged = omega int_laws
merge_from-sent addr (t ∷ ts) merged = omega (
  int_laws,
  parts_of_eq (merge_from-sent addr ts (add_amount (t.address, t.amount) merged)),
  parts_of_eq (add_amount-sent addr (t.address, t.amount) merged),
)

-- Below what stands first, for the order.
abbrev IsBefore : String → List (String × ℤ) → Type 0
IsBefore s [] = Unit
IsBefore s (y ∷ rest) = compare s y.0 ≡ Ordering.lt

IsAscending-tail :
    (x : String × ℤ) (rest : List (String × ℤ)) → IsAscending (x ∷ rest) → IsAscending rest
IsAscending-tail x [] h = tt
IsAscending-tail x (y ∷ rest) h = h.1

IsAscending-head :
    (x : String × ℤ) (rest : List (String × ℤ)) → IsAscending (x ∷ rest) → IsBefore x.0 rest
IsAscending-head x [] h = tt
IsAscending-head x (y ∷ rest) h = h.0

IsAscending-cons :
    (s : String) (z : ℤ) (rest : List (String × ℤ))
    → IsBefore s rest
    → IsAscending rest
    → IsAscending ((s, z) ∷ rest)
IsAscending-cons s z [] b h = tt
IsAscending-cons s z (y ∷ rest) b h = (b, h)

add_at-IsAscending :
    (o : Ordering) (x y : String × ℤ) (rest later : List (String × ℤ))
    → compare x.0 y.0 ≡ o
    → IsAscending (y ∷ rest)
    → IsAscending later
    → (o ≡ Ordering.gt → IsBefore y.0 later)
    → IsAscending (add_at o x y rest later)
add_at-IsAscending Ordering.lt x y rest later e h k b = (e, h)
add_at-IsAscending Ordering.eq (a, z) (b, y) rest later e h k c =
    IsAscending-cons b (y +ℤ z) rest (IsAscending-head (b, y) rest h)
      (IsAscending-tail (b, y) rest h)
add_at-IsAscending Ordering.gt x (b, y) rest later e h k c = IsAscending-cons b y later (c refl) k

add_at-IsBefore :
    (s : String) (o : Ordering) (x y : String × ℤ) (rest later : List (String × ℤ))
    → compare s x.0 ≡ Ordering.lt
    → compare s y.0 ≡ Ordering.lt
    → IsBefore s (add_at o x y rest later)
add_at-IsBefore s Ordering.lt x y rest later p q = p
add_at-IsBefore s Ordering.eq x y rest later p q = q
add_at-IsBefore s Ordering.gt x y rest later p q = q

add_amount-IsBefore :
    (s : String) (x : String × ℤ) (merged : List (String × ℤ))
    → compare s x.0 ≡ Ordering.lt
    → IsBefore s merged
    → IsBefore s (add_amount x merged)
unfolding add_amount
add_amount-IsBefore s (a, z) [] p b = p
add_amount-IsBefore s (a, z) ((c, y) ∷ rest) p b =
    add_at-IsBefore s (compare a c) (a, z) (c, y) rest (add_amount (a, z) rest) p b

add_amount-IsAscending :
    (x : String × ℤ) (merged : List (String × ℤ))
    → IsAscending merged
    → IsAscending (add_amount x merged)
unfolding add_amount
add_amount-IsAscending (a, z) [] h = tt
add_amount-IsAscending (a, z) ((b, y) ∷ rest) h =
    add_at-IsAscending (compare a b) (a, z) (b, y) rest (add_amount (a, z) rest) refl h
      (add_amount-IsAscending (a, z) rest (IsAscending-tail (b, y) rest h))
      (λ e.
        add_amount-IsBefore b (a, z) rest (sym (opposite-compare a b) ∙ ap opposite e)
          (IsAscending-head (b, y) rest h))

merge_from-IsAscending :
    (ts : List Transfer) (merged : List (String × ℤ))
    → IsAscending merged
    → IsAscending (merge_from merged ts)
unfolding merge_from
merge_from-IsAscending [] merged h = h
merge_from-IsAscending (t ∷ ts) merged h =
    merge_from-IsAscending ts (add_amount (t.address, t.amount) merged)
      (add_amount-IsAscending (t.address, t.amount) merged h)

-- The merged amounts send to each address exactly the sum of what the transfers owe to it, and no
-- address stands in them twice.
pub merge_pays :
    (ts : List Transfer)
    → ((addr : String) → sum_by (sent_to addr) (merge_amounts ts) ≡ sum_by (due_to addr) ts)
      × IsAscending (merge_amounts ts)
unfolding merge_amounts sum_by
merge_pays ts = (
  λ addr. omega (int_laws, parts_of_eq (merge_from-sent addr ts [])),
  merge_from-IsAscending ts [] tt,
)
