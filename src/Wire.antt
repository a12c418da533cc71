-- ===== src/Wire.antt =====
-- The compactSize integers of crates/pool-core/src/share.rs and crates/pool-core/src/coinbase.rs.
-- A `usize` is a 64-bit number.
pub mod Trips
use zcash_mining_pool.Prelude.{
  ℕ, ◌+◌, ◌<◌, String, Bool, true, false, ◌&&◌, List, [], ◌∷◌, ◌++◌, ltb, leb, if◌then◌else◌,
  length, take, drop, Result, ok, err, ◌>>=◌,
}
use zcash_mining_pool.Bytes.{to_le_bytes, le_value}
use zcash_mining_pool.Stratum.{StratumError, other}

-- `usize::MAX + 1`
abbrev pub word : ℕ
word = 18446744073709551616

-- `compact_size`
unfoldable pub compact_size : ℕ → List ℕ
compact_size n =
    if ltb n 253
    then n ∷ []
    else if leb n 65535
    then 253 ∷ to_le_bytes 2 n
    else if leb n 4294967295
    then 254 ∷ to_le_bytes 4 n
    else 255 ∷ to_le_bytes 8 n

-- A little-endian integer of `k` bytes at the front of `bs`, with the bytes that it and the tag take.
unfoldable pub wide : {E : Type 0} → ℕ → E → List ℕ → Result E (ℕ × ℕ)
wide k e bs = if ltb (length bs) k then err e else ok (k + 1, le_value (take k bs))

-- The length of the prefix that starts with the byte `b`, and the size that it declares.
unfoldable pub size_prefix : {E : Type 0} → E → ℕ → List ℕ → Result E (ℕ × ℕ)
size_prefix e b bs =
    if leb b 252
    then ok (1, b)
    else if leb b 253
    then wide 2 e bs
    else if leb b 254
    then wide 4 e bs
    else wide 8 e bs

-- `strip_compact_size`; the test on `word` is `checked_add`.
abbrev pub sliced : List ℕ → ℕ × ℕ → Result StratumError (List ℕ)
sliced bs (n, size) =
    if ltb (n + size) word && leb (n + size) (length bs)
    then ok (take size (drop n bs))
    else err (other "Solution shorter than declared size")

unfoldable pub strip_compact_size : List ℕ → Result StratumError (List ℕ)
strip_compact_size [] = err (other "Empty solution")
strip_compact_size (b ∷ bs) = size_prefix (other "Truncated compactSize") b bs >>= sliced (b ∷ bs)

-- `read_compact_size`: the value and the bytes that it takes.
abbrev pub swapped : {E : Type 0} → ℕ × ℕ → Result E (ℕ × ℕ)
swapped (n, size) = ok (size, n)

unfoldable pub read_front : List ℕ → Result String (ℕ × ℕ)
read_front [] = err "read_compact_size: offset beyond data"
read_front (b ∷ bs) = size_prefix "Truncated compactSize" b bs >>= swapped

unfoldable pub read_compact_size : List ℕ → ℕ → Result String (ℕ × ℕ)
read_compact_size bs offset = read_front (drop offset bs)

-- `compact_size_byte`
unfoldable pub compact_size_byte : ℕ → Result String ℕ
compact_size_byte n = if leb 253 n then err "value too large for 1 byte" else ok n
