-- ===== src/Coinbase/Tag.antt =====
-- crates/pool-core/src/coinbase.rs: what the injection of a tag makes of a serialized coinbase.
use mathlib.Core.List.{append_assoc}
use zcash_mining_pool.Prelude.{
  ℕ, ◌+◌, ◌-◌, ◌≤◌, ◌<◌, ◌≡◌, refl, sym, ap, subst, ◌∙◌, true, false, List, [], ◌∷◌, ◌++◌, arith,
  length, take, drop, length-append, take-length-append, drop-length-append, ltb, leb, none, some,
  ok,
}
use zcash_mining_pool.Text.{begins}
use zcash_mining_pool.Wire.{word, compact_size, read_compact_size, compact_size_byte}
use zcash_mining_pool.Wire.Trips.{read-compact_size}
use zcash_mining_pool.Coinbase.{
  append_tag, has_window, any_window, locate, locate_end, extend, extend_script_sig,
}

-- A transaction with one input: a header, the outpoint, the scriptSig behind its length, and the rest.
abbrev pub before_sig : List ℕ → List ℕ → List ℕ
before_sig header prevout = header ++ (1 ∷ prevout)

abbrev pub transaction : List ℕ → List ℕ → List ℕ → List ℕ → List ℕ
transaction header prevout sig rest =
    before_sig header prevout ++ (compact_size (length sig) ++ (sig ++ rest))

begins-append : (tag after : List ℕ) → begins tag (tag ++ after) ≡ true
begins-append [] after = refl
begins-append (c ∷ cs) after = ground (arith, begins-append cs after)

has_window_front : (tag cs : List ℕ) → begins tag cs ≡ true → has_window tag cs ≡ true
unfolding has_window
has_window_front tag [] h = h
has_window_front tag (c ∷ cs) h = rw h refl

-- A window may start anywhere.
pub has_window-append :
    (tag before after : List ℕ) → has_window tag (before ++ (tag ++ after)) ≡ true
unfolding has_window
has_window-append tag [] after = has_window_front tag (tag ++ after) (begins-append tag after)
has_window-append tag (c ∷ cs) after = ground (arith, has_window-append tag cs after)

module _ (header prevout sig rest : List ℕ) (outpoint : length prevout ≡ 36)
    (small : length sig ≤ 100) (fits : length (transaction header prevout sig rest) < word) where
  abbrev data_ : List ℕ
  data_ = transaction header prevout sig rest

  abbrev front : List ℕ
  front = before_sig header prevout

  length-front : length front ≡ length header + 37
  length-front = omega (arith, length-append header (1 ∷ prevout))

  one_byte : compact_size (length sig) ≡ length sig ∷ []
  unfolding compact_size
  one_byte = ground arith

  length-data : length data_ ≡ length header + 38 + length sig + length rest
  length-data = rw one_byte (
      omega (
        arith,
        length-append front (length sig ∷ (sig ++ rest)),
        length-front,
        length-append sig rest,
      ))

  reads_count : read_compact_size data_ (length header) ≡ ok (1, 1)
  unfolding compact_size
  reads_count =
      ap (λ d. read_compact_size d (length header))
        (append_assoc header (1 ∷ prevout) (compact_size (length sig) ++ (sig ++ rest)))
      ∙ read-compact_size header (prevout ++ (compact_size (length sig) ++ (sig ++ rest))) 1
          (omega arith)

  reads_length : read_compact_size data_ (length header + 1 + 36) ≡ ok (length sig, 1)
  reads_length =
      let off : length front ≡ length header + 1 + 36 = omega (arith, length-front) in
      let n : length (compact_size (length sig)) ≡ 1 = ap length one_byte in
      subst (λ k. read_compact_size data_ k ≡ ok (length sig, 1)) off
        (read-compact_size front (sig ++ rest) (length sig) (omega arith)
          ∙ ap (λ k. ok (length sig, k)) n)

  locate_end_ok :
      locate_end data_ (length header + 1 + 36) (length sig, 1)
      ≡ ok (length header + 37, length header + 38, length header + 38 + length sig)
  locate_end_ok = ground (arith, length-data, fits)

  locate_ok :
      locate data_ (length header)
      ≡ ok (length header + 37, length header + 38, length header + 38 + length sig)
  unfolding locate
  locate_ok =
      let long : ltb (length data_) (length header + 1) ≡ false = ground (arith, length-data) in
      let long' : ltb (length data_) (length header + 1 + 36 + 1) ≡ false =
        ground (arith, length-data) in
      rw (long, reads_count, long', reads_length) locate_end_ok

  -- The three parts that the offsets cut out.
  split_at : data_ ≡ (front ++ (length sig ∷ [])) ++ (sig ++ rest)
  split_at =
      ap (λ n. front ++ (n ++ (sig ++ rest))) one_byte
      ∙ sym (append_assoc front (length sig ∷ []) (sig ++ rest))

  length-head : length (front ++ (length sig ∷ [])) ≡ length header + 38
  length-head = omega (arith, length-append front (length sig ∷ []), length-front)

  drop-head : drop (length header + 38) data_ ≡ sig ++ rest
  drop-head =
      ap (drop (length header + 38)) split_at
      ∙ subst (λ n. drop n ((front ++ (length sig ∷ [])) ++ (sig ++ rest)) ≡ sig ++ rest)
          length-head (drop-length-append (front ++ (length sig ∷ [])) (sig ++ rest))

  take-front : take (length header + 37) data_ ≡ front
  take-front =
      subst (λ n. take n data_ ≡ front) length-front
        (take-length-append front (compact_size (length sig) ++ (sig ++ rest)))

  drop-sig : drop (length header + 38 + length sig) data_ ≡ rest
  drop-sig =
      let whole : data_ ≡ ((front ++ (length sig ∷ [])) ++ sig) ++ rest =
        split_at ∙ sym (append_assoc (front ++ (length sig ∷ [])) sig rest) in
      let n : length ((front ++ (length sig ∷ [])) ++ sig) ≡ length header + 38 + length sig =
        omega (arith, length-append (front ++ (length sig ∷ [])) sig, length-head) in
      ap (drop (length header + 38 + length sig)) whole
      ∙ subst (λ k. drop k (((front ++ (length sig ∷ [])) ++ sig) ++ rest) ≡ rest) n
          (drop-length-append ((front ++ (length sig ∷ [])) ++ sig) rest)

  cut_sig :
      take
        (length header + 38 + length sig - (length header + 38))
        (drop (length header + 38) data_)
      ≡ sig
  cut_sig =
      let n : length sig ≡ length header + 38 + length sig - (length header + 38) = omega arith in
      rw drop-head (subst (λ k. take k (sig ++ rest) ≡ sig) n (take-length-append sig rest))

  module _ (tag : List ℕ) where
    abbrev offsets : ℕ × ℕ × ℕ
    offsets = (length header + 37, length header + 38, length header + 38 + length sig)

    extend_present : any_window tag sig ≡ ok true → extend tag data_ offsets ≡ ok none
    extend_present there = rw (cut_sig, there) refl

    extend_absent :
        any_window tag sig ≡ ok false
        → length sig + length tag ≤ 100
        → extend tag data_ offsets
          ≡ ok (
              some (record {
                new_data = transaction header prevout (sig ++ tag) rest;
                new_cs = length (sig ++ tag);
                new_script_sig = sig ++ tag;
              }))
    unfolding compact_size_byte compact_size
    extend_absent new short =
        let n = length-append sig tag in
        let allowed : ltb 100 (length header + 38 + length sig - (length header + 38) + length tag)
            ≡ false =
          ground arith in
        let byte : leb 253 (length (sig ++ tag)) ≡ false = ground (arith, n) in
        let size : compact_size (length (sig ++ tag)) ≡ length (sig ++ tag) ∷ [] =
          ground (arith, n) in
        rw (cut_sig, new, append_tag, cut_sig, allowed, byte, take-front, drop-sig)
          (ap
            (λ cs. ok (
              some (record {
                new_data = front ++ (cs ++ ((sig ++ tag) ++ rest));
                new_cs = length (sig ++ tag);
                new_script_sig = sig ++ tag;
              })))
            (sym size))

-- A tag that no window of a list is, is not empty.
any_window-absent : (tag sig : List ℕ) → has_window tag sig ≡ false → any_window tag sig ≡ ok false
unfolding any_window has_window
any_window-absent [] [] h = absurd cc
any_window-absent [] (c ∷ cs) h = absurd cc
any_window-absent (t ∷ ts) sig h = rw h refl

-- A tag that the scriptSig of a well-formed coinbase does not hold, and for which the limit of 100 bytes
-- has room, is put behind the scriptSig, and only that and its length change: the result is the
-- serialization of the same transaction with the longer scriptSig.
pub extend_adds :
    (header prevout sig rest tag : List ℕ)
    → length prevout ≡ 36
    → length (transaction header prevout sig rest) < word
    → has_window tag sig ≡ false
    → length sig + length tag ≤ 100
    → extend_script_sig tag (transaction header prevout sig rest) (length header)
      ≡ ok (
          some (record {
            new_data = transaction header prevout (sig ++ tag) rest;
            new_cs = length (sig ++ tag);
            new_script_sig = sig ++ tag;
          }))
unfolding extend_script_sig
extend_adds header prevout sig rest tag outpoint fits new short =
    rw (locate_ok header prevout sig rest outpoint (omega arith) fits) (
      extend_absent header prevout sig rest outpoint (omega arith) fits tag
        (any_window-absent tag sig new) short)

-- A well-formed coinbase whose scriptSig of at most 100 bytes has the tag, which is not empty, in any
-- place is left as it is by the injection of the tag; one that the tag was put behind among them.
pub extend_once :
    (header prevout before after rest : List ℕ) (t : ℕ) (ts : List ℕ)
    → let sig = before ++ ((t ∷ ts) ++ after) in
      length prevout ≡ 36
      → length (transaction header prevout sig rest) < word
      → length sig ≤ 100
      → extend_script_sig (t ∷ ts) (transaction header prevout sig rest) (length header) ≡ ok none
unfolding extend_script_sig any_window
extend_once header prevout before after rest t ts outpoint fits short =
    let sig = before ++ ((t ∷ ts) ++ after) in
    let there : any_window (t ∷ ts) sig ≡ ok true =
      ap ok (has_window-append (t ∷ ts) before after) in
    rw (locate_ok header prevout sig rest outpoint short fits)
      (extend_present header prevout sig rest outpoint short fits (t ∷ ts) there)
