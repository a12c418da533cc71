-- ===== src/Bytes.antt =====
-- Byte strings: lists of numbers below 256, and the numbers that they spell.
use mathlib.Core.List.{reverse-cons}
use native.Mathlib.Nat.{pow-suc}
use zcash_mining_pool.Prelude.{
  ℕ, zero, suc, ◌+◌, ◌*◌, ◌/◌, ◌%◌, ◌^◌, ◌<◌, ◌≡◌, refl, ap, sym, subst, ◌∙◌, List, [], ◌∷◌, ◌++◌,
  reverse, arith, length, length-append, All, replicate,
}

abbrev pub IsByte : ℕ → Type 0
IsByte b = b < 256

abbrev pub IsBytes : List ℕ → Type 0
IsBytes bs = All IsByte bs

-- `to_le_bytes` of a `k`-byte integer; what does not fit is cut off, as by `as`.
unfoldable pub to_le_bytes : ℕ → ℕ → List ℕ
to_le_bytes zero n = []
to_le_bytes (suc k) n = n % 256 ∷ to_le_bytes k (n / 256)

-- `from_le_bytes`, and `from_be_bytes`.
unfoldable pub le_value : List ℕ → ℕ
le_value [] = 0
le_value (b ∷ bs) = b + 256 * le_value bs

unfoldable pub be_value : List ℕ → ℕ
be_value [] = 0
be_value (b ∷ bs) = b * 256 ^ length bs + be_value bs

pub length-to_le_bytes : (k n : ℕ) → length (to_le_bytes k n) ≡ k
unfolding to_le_bytes
length-to_le_bytes zero n = refl
length-to_le_bytes (suc k) n = ap suc (length-to_le_bytes k (n / 256))

pub to_le_bytes-IsBytes : (k n : ℕ) → IsBytes (to_le_bytes k n)
unfolding to_le_bytes
to_le_bytes-IsBytes zero n = tt
to_le_bytes-IsBytes (suc k) n = (omega arith, to_le_bytes-IsBytes k (n / 256))

-- The largest value of `k` bytes, and one.
unfoldable pub capacity : ℕ → ℕ
capacity zero = 1
capacity (suc k) = 256 * capacity k

pub le_value-to_le_bytes : (k n : ℕ) → n < capacity k → le_value (to_le_bytes k n) ≡ n
unfolding to_le_bytes le_value capacity
le_value-to_le_bytes zero n h = omega arith
le_value-to_le_bytes (suc k) n h = omega (arith, le_value-to_le_bytes k (n / 256) (omega arith))

pub capacity-pow : (k : ℕ) → capacity k ≡ 256 ^ k
unfolding capacity
capacity-pow zero = refl
capacity-pow (suc k) = rw (pow-suc, capacity-pow k) (omega arith)

pub be_value-zeros : (k : ℕ) (bs : List ℕ) → be_value (replicate k 0 ++ bs) ≡ be_value bs
unfolding be_value
be_value-zeros zero bs = refl
be_value-zeros (suc k) bs = omega (arith, be_value-zeros k bs)

pub be_value-lt : (bs : List ℕ) → IsBytes bs → be_value bs < 256 ^ length bs
unfolding be_value
be_value-lt [] h = omega arith
be_value-lt (b ∷ bs) h = rw pow-suc (grind (arith, be_value-lt bs h.1, h.0))

shift : (c b p v : ℕ) → c * (p * 256) + (v * 256 + b) ≡ (c * p + v) * 256 + b
shift c b p v = grind arith

length-snoc : (bs : List ℕ) (b : ℕ) → length (bs ++ b ∷ []) ≡ suc (length bs)
length-snoc bs b = omega (arith, length-append bs (b ∷ []))

be_value-snoc : (bs : List ℕ) (b : ℕ) → be_value (bs ++ b ∷ []) ≡ be_value bs * 256 + b
unfolding be_value
be_value-snoc [] b = omega arith
be_value-snoc (c ∷ bs) b =
    rw (length-snoc bs b, pow-suc, be_value-snoc bs b) (shift c b (256 ^ length bs) (be_value bs))

pub le_value-reverse : (bs : List ℕ) → be_value (reverse bs) ≡ le_value bs
unfolding le_value be_value
le_value-reverse [] = refl
le_value-reverse (b ∷ bs) =
    ap be_value (reverse-cons b bs)
    ∙ be_value-snoc (reverse bs) b
    ∙ omega (arith, le_value-reverse bs)

IsBytes-append : (bs cs : List ℕ) → IsBytes bs → IsBytes cs → IsBytes (bs ++ cs)
IsBytes-append [] cs p q = q
IsBytes-append (b ∷ bs) cs p q = (p.0, IsBytes-append bs cs p.1 q)

pub IsBytes-reverse : (bs : List ℕ) → IsBytes bs → IsBytes (reverse bs)
IsBytes-reverse [] p = p
IsBytes-reverse (b ∷ bs) p =
    subst IsBytes (sym (reverse-cons b bs))
      (IsBytes-append (reverse bs) (b ∷ []) (IsBytes-reverse bs p.1) (p.0, tt))
