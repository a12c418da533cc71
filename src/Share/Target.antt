-- ===== src/Share/Target.antt =====
-- crates/pool-core/src/share.rs: the comparison of a hash with a target, and the targets that the
-- node sends. A `[u8; 32]` is a list of 32 bytes; `hex::decode` is a parameter.
use native.Mathlib.Nat.{mul-le-mul_right, suc-mul}
use zcash_mining_pool.Prelude.{
  ℕ, ◌+◌, ◌*◌, ◌-◌, ◌^◌, ◌≤◌, ◌<◌, ◌≡◌, refl, ap, sym, ◌∙◌, ◌↔◌, ◌⊎◌, Bool, true, false, String,
  Option, some, none, List, [], ◌∷◌, ◌++◌, reverse, arith, ltb, ltb→lt, Bool-cases, inl, inr,
  if◌then◌else◌, length, length-append, length-reverse, length-replicate, replicate, Result, ok,
  err,
}
use zcash_mining_pool.Bytes.{
  IsBytes, le_value, be_value, be_value-lt, le_value-reverse, IsBytes-reverse, be_value-zeros,
}

-- The loop of `meets_target`: the bytes are compared from the most significant one on.
unfoldable pub compare_bytes : List ℕ → List ℕ → Bool
compare_bytes [] ts = true
compare_bytes (h ∷ hs) [] = true
compare_bytes (h ∷ hs) (t ∷ ts) =
    let rest = compare_bytes hs ts in if ltb h t then true else if ltb t h then false else rest

-- `meets_target`; the byte `hash[31 - i]` is the byte `i` of the reversed hash.
unfoldable pub meets_target : List ℕ → List ℕ → Bool
meets_target hash target = compare_bytes (reverse hash) target

-- `parse_target`
unfoldable pub pad_target : Option (List ℕ) → Result String (List ℕ)
pad_target none = err "Invalid target hex"
pad_target (some bytes) =
    if ltb 32 (length bytes)
    then err "Target too long"
    else ok (replicate (32 - length bytes) 0 ++ bytes)

unfoldable pub parse_target : (String → Option (List ℕ)) → String → Result String (List ℕ)
unfolding pad_target
parse_target decode text = pad_target (decode text)

-- A smaller leading digit outweighs what follows.
leading : (a b p v w : ℕ) → a < b → v < p → a * p + v < b * p + w
leading a b p v w h h' = omega (arith, mul-le-mul_right p h, suc-mul a p)

compare_bytes-value :
    (hs ts : List ℕ)
    → length hs ≡ length ts
    → IsBytes hs
    → IsBytes ts
    → (compare_bytes hs ts ≡ true) ↔ (be_value hs ≤ be_value ts)
unfolding compare_bytes be_value
compare_bytes-value [] [] e p q = ground arith
compare_bytes-value [] (t ∷ ts) e p q = ground arith
compare_bytes-value (h ∷ hs) [] e p q = ground arith
compare_bytes-value (h ∷ hs) (t ∷ ts) e p q =
    let same : length hs ≡ length ts = omega (arith, e) in
    rw same (
      digit h t (256 ^ length ts) (be_value hs) (be_value ts) (compare_bytes hs ts)
        (rw (sym same) (be_value-lt hs p.1)) (be_value-lt ts q.1)
        (compare_bytes-value hs ts same p.1 q.1))
  where
    same : (h t : ℕ) → ltb h t ≡ false → ltb t h ≡ false → h ≡ t
    same h t e e' = ground arith

    digit :
        (h t p v w : ℕ) (rest : Bool)
        → v < p
        → w < p
        → (rest ≡ true) ↔ (v ≤ w)
        → ((if ltb h t then true else if ltb t h then false else rest) ≡ true)
          ↔ (h * p + v ≤ t * p + w)
    digit h t p v w rest a b r = elim (Bool-cases (ltb h t)) [
      | inl e ↦ rw e ((λ _. omega (arith, leading h t p v w (ltb→lt h t e) a)), λ _. refl)
      | inr e ↦ rw e (elim (Bool-cases (ltb t h)) [
        | inl e' ↦
            rw e' ((λ z. cc), λ z. absurd (omega (arith, z, leading t h p w v (ltb→lt t h e') b)))
        | inr e' ↦ rw e' (
          (λ z. omega (arith, r.0 z, ap (λ x. x * p) (same h t e e'))),
          λ z. r.1 (omega (arith, ap (λ x. x * p) (same h t e e'))),
        )
      ])
    ]

-- `meets_target` compares the hash, as a little-endian number, with the target, as a big-endian one.
pub meets_target-value :
    (hash target : List ℕ)
    → length hash ≡ length target
    → IsBytes hash
    → IsBytes target
    → (meets_target hash target ≡ true) ↔ (le_value hash ≤ be_value target)
unfolding meets_target
meets_target-value hash target e p q =
    rw (sym (le_value-reverse hash)) (
      compare_bytes-value (reverse hash) target (length-reverse hash ∙ e) (IsBytes-reverse hash p)
        q)

-- What a text comes to, by the bytes that it decodes to.
abbrev pub Parses : Option (List ℕ) → Result String (List ℕ) → Type 0
Parses none r = r ≡ err "Invalid target hex"
Parses (some bytes) r =
    ((32 < length bytes) × (r ≡ err "Target too long"))
    ⊎ ((length bytes ≤ 32)
        × (target : List ℕ) × (r ≡ ok target)
        × (length target ≡ 32)
        × (be_value target ≡ be_value bytes))

pad_target-Parses : (o : Option (List ℕ)) → Parses o (pad_target o)
unfolding pad_target
pad_target-Parses none = refl
pad_target-Parses (some bytes) = elim (Bool-cases (ltb 32 (length bytes))) [
  | inl long ↦ inl (ground (arith, long), rw long refl)
  | inr short ↦
      let fits : length bytes ≤ 32 = ground (arith, short) in
      inr (
        fits,
        replicate (32 - length bytes) 0 ++ bytes,
        rw short refl,
        omega (
          arith,
          fits,
          length-append (replicate {A = ℕ} (32 - length bytes) 0) bytes,
          length-replicate {A = ℕ} (32 - length bytes) 0,
        ),
        be_value-zeros (32 - length bytes) bytes,
      )
]

-- `parse_target` pads up to 32 bytes to 32 and keeps the number that the bytes spell; it refuses
-- more bytes, and a text that is no hex.
pub parse_target-value :
    (decode : String → Option (List ℕ)) (text : String)
    → Parses (decode text) (parse_target decode text)
unfolding parse_target
parse_target-value decode text = pad_target-Parses (decode text)
