-- ===== src/Wire/Trips.antt =====
-- crates/pool-core/src/share.rs and coinbase.rs: writing and reading compactSize integers.
use zcash_mining_pool.Prelude.{
  ℕ, suc, ◌+◌, ◌<◌, List, [], ◌∷◌, ◌++◌, ◌≡◌, refl, ap, sym, ◌∙◌, inl, inr, ltb, leb, arith,
  Bool-cases, length, take, length-append, take-length-append, drop-length-append, Result, ok,
  ◌>>=◌, subst,
}
use zcash_mining_pool.Bytes.{to_le_bytes, length-to_le_bytes, le_value-to_le_bytes, capacity}
use zcash_mining_pool.Stratum.{other}
use zcash_mining_pool.Wire.{
  word, compact_size, wide, size_prefix, sliced, strip_compact_size, read_front, read_compact_size,
  swapped,
}

take-to_le_bytes : (k n : ℕ) (rest : List ℕ) → take k (to_le_bytes k n ++ rest) ≡ to_le_bytes k n
take-to_le_bytes k n rest =
    subst (λ j. take j (to_le_bytes k n ++ rest) ≡ to_le_bytes k n) (length-to_le_bytes k n)
      (take-length-append (to_le_bytes k n) rest)

-- A wide integer is read off what it was written as.
wide-to_le_bytes :
    {E : Type 0} (k : ℕ) (e : E) (n : ℕ) (rest : List ℕ)
    → n < capacity k
    → wide k e (to_le_bytes k n ++ rest) ≡ ok (k + 1, n)
unfolding wide
wide-to_le_bytes k e n rest h =
    rw (take-to_le_bytes k n rest, le_value-to_le_bytes k n h)
      (ground (arith, length-append (to_le_bytes k n) rest, length-to_le_bytes k n))

-- A written size, taken apart: its first byte and the rest.
IsSize : {E : Type 0} → E → ℕ → List ℕ → Type 0
IsSize e n bs =
    (b : ℕ) × (cs : List ℕ) × (bs ≡ b ∷ cs)
    × ((rest : List ℕ) → size_prefix e b (cs ++ rest) ≡ ok (length bs, n))

compact_size-IsSize : {E : Type 0} (e : E) (n : ℕ) → n < word → IsSize e n (compact_size n)
unfolding IsSize compact_size size_prefix capacity
compact_size-IsSize {E} e n h = elim (Bool-cases (ltb n 253)) [
  | inl s ↦ rw s (n, [], refl, λ rest. ground arith)
  | inr s ↦ rw s (elim (Bool-cases (leb n 65535)) [
    | inl s' ↦
        rw s' (
          253,
          to_le_bytes 2 n,
          refl,
          λ rest. wide-to_le_bytes 2 e n rest (ground arith) ∙ sized 2 n,
        )
    | inr s' ↦ rw s' (elim (Bool-cases (leb n 4294967295)) [
      | inl s'' ↦ rw s'' (
        254,
        to_le_bytes 4 n,
        refl,
        λ rest. wide-to_le_bytes 4 e n rest (ground arith) ∙ sized 4 n,
      )
      | inr s'' ↦ rw s'' (
        255,
        to_le_bytes 8 n,
        refl,
        λ rest. wide-to_le_bytes 8 e n rest (omega arith) ∙ sized 8 n,
      )
    ])
  ])
]
  where
    sized :
        {E : Type 0} (k n : ℕ)
        → ◌≡◌ {A = Result E (ℕ × ℕ)} (ok (k + 1, n)) (ok (suc (length (to_le_bytes k n)), n))
    sized k n = ap (λ j. ok (j, n)) (omega (arith, length-to_le_bytes k n))

-- The slice between the prefix and the end.
cut :
    (before payload extra : List ℕ)
    → length before + length payload < word
    → sliced (before ++ (payload ++ extra)) (length before, length payload) ≡ ok payload
cut before payload extra h =
    rw (drop-length-append before (payload ++ extra), take-length-append payload extra)
      (ground (arith, length-append before (payload ++ extra), length-append payload extra))

-- What follows a written size is stripped of it, whatever comes after the declared payload.
pub strip-compact_size :
    (payload extra : List ℕ)
    → length (compact_size (length payload)) + length payload < word
    → strip_compact_size (compact_size (length payload) ++ (payload ++ extra)) ≡ ok payload
unfolding IsSize strip_compact_size
strip-compact_size payload extra h =
    let (b, cs, e, p) =
      compact_size-IsSize (other "Truncated compactSize") (length payload) (omega arith) in
    ap strip_compact_size (ap (λ bs. bs ++ (payload ++ extra)) e)
    ∙ ap (λ m. m >>= sliced (b ∷ cs ++ (payload ++ extra))) (p (payload ++ extra))
    ∙ ap
        (λ bs.
          sliced (bs ++ (payload ++ extra))
            (length (compact_size (length payload)), length payload))
        (sym e)
    ∙ cut (compact_size (length payload)) payload extra h

-- A size that is written at an offset is read back there, with its length.
pub read-compact_size :
    (before rest : List ℕ) (n : ℕ)
    → n < word
    → read_compact_size (before ++ (compact_size n ++ rest)) (length before)
      ≡ ok (n, length (compact_size n))
unfolding IsSize read_compact_size read_front
read-compact_size before rest n h =
    let (b, cs, e, p) = compact_size-IsSize "Truncated compactSize" n h in
    rw (drop-length-append before (compact_size n ++ rest))
      (ap (λ bs. read_front (bs ++ rest)) e ∙ ap (λ m. m >>= swapped) (p rest))
