-- ===== src/Coinbase.antt =====
-- crates/pool-core/src/coinbase.rs: the pool's tag in the scriptSig of a coinbase transaction, and the hashes
-- that follow from it. Bytes are numbers; hex, BLAKE2b and SHA-256d are parameters, and so is what
-- zebra-chain does for transactions of version 6.
pub mod Tag
pub mod Merkle
use zcash_mining_pool.Prelude.{
  ℕ, zero, suc, ◌+◌, ◌-◌, ◌*◌, ◌%◌, String, Bool, true, false, ◌||◌, List, [], ◌∷◌, ◌++◌, reverse,
  length, take, drop, replicate, ltb, leb, ◌==◌, if◌then◌else◌, Option, none, some, Result, ok, err,
  guard, ◌>>=◌, ◌>>◌, ok_or, get_or,
}
use zcash_mining_pool.Text.{begins}
use zcash_mining_pool.Wire.{word, read_compact_size, compact_size_byte}

abbrev pub max_script_sig_len : ℕ
max_script_sig_len = 100

-- Whether some window of the list is the tag, which is not empty.
unfoldable pub has_window : List ℕ → List ℕ → Bool
has_window tag [] = begins tag []
has_window tag (c ∷ cs) = begins tag (c ∷ cs) || has_window tag cs

-- `windows(tag.len()).any(..)`; a window of length 0 panics.
unfoldable pub any_window : List ℕ → List ℕ → Result String Bool
any_window [] cs = err "panic"
any_window (t ∷ ts) cs = ok (has_window (t ∷ ts) cs)

-- The offsets of the scriptSig's length, of the scriptSig, and of what follows. A `usize` wraps
-- around, and a slice that ends before it starts panics.
abbrev pub locate_end : List ℕ → ℕ → ℕ × ℕ → Result String (ℕ × ℕ × ℕ)
locate_end data_ offset (sig_len, cs_len) =
    let start = offset + cs_len in
    let end_ = (start + sig_len) % word in
    if ltb (length data_) end_
    then err "Coinbase too short for scriptSig"
    else if ltb end_ start
    then err "panic"
    else ok (offset, start, end_)

abbrev pub locate_sig : List ℕ → ℕ → ℕ × ℕ → Result String (ℕ × ℕ × ℕ)
locate_sig data_ header_len (count, cs_len) =
    if count == 1
    then (let offset = header_len + cs_len + 36 in
        if ltb (length data_) (offset + 1)
        then err "Coinbase too short for prevout"
        else read_compact_size data_ offset >>= locate_end data_ offset)
    else err "Expected 1 txin in coinbase"

unfoldable pub locate : List ℕ → ℕ → Result String (ℕ × ℕ × ℕ)
locate data_ header_len =
    if ltb (length data_) (header_len + 1)
    then err "Coinbase too short for header"
    else read_compact_size data_ header_len >>= locate_sig data_ header_len

-- What an injection changes: the transaction, and the scriptSig with its length byte.
pub record Injected : Type 0 where
  pub new_data : List ℕ
  pub new_cs : ℕ
  pub new_script_sig : List ℕ

-- The scriptSig with the tag behind it; nothing where it has the tag already.
abbrev pub append_tag : List ℕ → List ℕ → ℕ × ℕ × ℕ → Bool → Result String (Option Injected)
append_tag tag data_ (offset, start, end_) true = ok none
append_tag tag data_ (offset, start, end_) false =
    let sig = take (end_ - start) (drop start data_) in
    if ltb max_script_sig_len (end_ - start + length tag)
    then err "scriptSig would be too long"
    else compact_size_byte (length (sig ++ tag)) >>= λ cs. ok (
        some (record {
          new_data = take offset data_ ++ (cs ∷ (sig ++ tag) ++ drop end_ data_);
          new_cs = cs;
          new_script_sig = sig ++ tag;
        }))

abbrev pub extend : List ℕ → List ℕ → ℕ × ℕ × ℕ → Result String (Option Injected)
extend tag data_ (offset, start, end_) =
    any_window tag (take (end_ - start) (drop start data_))
    >>= append_tag tag data_ (offset, start, end_)

unfoldable pub extend_script_sig : List ℕ → List ℕ → ℕ → Result String (Option Injected)
extend_script_sig tag data_ header_len = locate data_ header_len >>= extend tag data_

pub record Hashes : Type 0 where
  -- personalization, data
  pub blake2b_256 : List ℕ → List ℕ → List ℕ
  pub sha256d : List ℕ → List ℕ
  pub hex_decode : String → Option (List ℕ)
  pub hex_encode : List ℕ → String

-- `InjectionResult`
pub record InjectionResult : Type 0 where
  pub new_coinbase_hex : String
  pub new_txid : Option String
  pub new_block_commitments : Option String

abbrev pub zero_hash : List ℕ
zero_hash = replicate 32 0

abbrev pub at_least : ℕ → ℕ → ℕ → ℕ
at_least zero p n = p
at_least (suc rounds) p n = let more = at_least rounds (2 * p) n in if ltb p n then more else p

-- `next_power_of_two`: doublings of one, at most `n` of them
unfoldable pub next_power_of_two : ℕ → ℕ
next_power_of_two n = at_least n 1 n

abbrev pub padded : List (List ℕ) → List (List ℕ)
padded leaves = leaves ++ replicate (next_power_of_two (length leaves) - length leaves) zero_hash

module _ (H : Hashes) (ascii : String → List ℕ) where
  open H use {blake2b_256, sha256d, hex_decode, hex_encode}

  -- `compute_coinbase_auth_digest`
  unfoldable pub compute_coinbase_auth_digest : List ℕ → ℕ → List ℕ → List ℕ
  compute_coinbase_auth_digest branch_id cs sig =
      let scripts = blake2b_256 (ascii "ZTxAuthTransHash") (cs ∷ sig) in
      let sapling = blake2b_256 (ascii "ZTxAuthSapliHash") [] in
      let orchard = blake2b_256 (ascii "ZTxAuthOrchaHash") [] in
      blake2b_256 (ascii "ZTxAuthHash_" ++ branch_id) (scripts ++ (sapling ++ orchard))

  -- `chunks(2)` of an even number of nodes, each pair hashed
  unfoldable pub hash_pairs : List (List ℕ) → List (List ℕ)
  hash_pairs [] = []
  hash_pairs (a ∷ []) = []
  hash_pairs (a ∷ b ∷ rest) = blake2b_256 (ascii "ZcashAuthDatHash") (a ++ b) ∷ hash_pairs rest

  -- The loop that halves the level; `none` means that the fuel ran out.
  unfoldable pub merkle_loop : ℕ → List (List ℕ) → Option (List ℕ)
  merkle_loop fuel [] = some zero_hash
  merkle_loop fuel (a ∷ []) = some a
  merkle_loop zero (a ∷ b ∷ rest) = none
  merkle_loop (suc fuel) (a ∷ b ∷ rest) = merkle_loop fuel (hash_pairs (a ∷ b ∷ rest))

  -- `auth_data_merkle_root`, with a round for each leaf
  unfoldable pub auth_data_merkle_root : List (List ℕ) → Option (List ℕ)
  auth_data_merkle_root [] = some zero_hash
  auth_data_merkle_root (leaf ∷ more) = merkle_loop (length (leaf ∷ more)) (padded (leaf ∷ more))

  -- 32 bytes that RPC shows backwards
  unfoldable pub read_digest : String → Result String (List ℕ)
  read_digest text = ok_or (hex_decode text) "Invalid hex" >>= λ bytes.
      if length bytes == 32 then ok (reverse bytes) else err "expected 32 bytes"

  unfoldable pub read_digests : List String → Result String (List (List ℕ))
  read_digests [] = ok []
  read_digests (t ∷ ts) = read_digest t >>= λ d. read_digests ts >>= λ ds. ok (d ∷ ds)

  -- The commitment over the chain history, the authorizations and a terminator.
  abbrev pub commitment : List ℕ → List ℕ → List ℕ
  commitment history root =
      reverse (blake2b_256 (ascii "ZcashBlockCommit") (history ++ (root ++ zero_hash)))

  abbrev pub finish_v5 : List ℕ → String → List String → Injected → Result String InjectionResult
  finish_v5 data_ history_hex digests i = read_digests digests >>= λ leaves.
      ok_or
        (auth_data_merkle_root
          (compute_coinbase_auth_digest (take 4 (drop 8 data_)) i.new_cs i.new_script_sig ∷ leaves))
        "out of fuel"
      >>= λ root. read_digest history_hex >>= λ history. ok (record {
        new_coinbase_hex = hex_encode i.new_data;
        new_txid = none;
        new_block_commitments = some (hex_encode (commitment history root));
      })

  abbrev pub finish_v4 : Injected → Result String InjectionResult
  finish_v4 i = ok (record {
    new_coinbase_hex = hex_encode i.new_data;
    new_txid = some (hex_encode (reverse (sha256d i.new_data)));
    new_block_commitments = none;
  })

  abbrev pub unchanged : String → InjectionResult
  unchanged coinbase_hex = record {
    new_coinbase_hex = coinbase_hex;
    new_txid = none;
    new_block_commitments = none;
  }

  abbrev pub on_extended :
      String
      → (Injected → Result String InjectionResult)
      → Option Injected
      → Result String InjectionResult
  on_extended coinbase_hex finish none = ok (unchanged coinbase_hex)
  on_extended coinbase_hex finish (some i) = finish i

  module _ (inject_v6 : List ℕ → List ℕ → String → List String → Result String InjectionResult)
      (tag : List ℕ) (history_hex : String) (digests : List String) where
    abbrev pub inject_data : String → List ℕ → Result String InjectionResult
    inject_data coinbase_hex data_ =
        if ltb (length data_) 4
        then err "Coinbase too short"
        else if begins (6 ∷ 0 ∷ 0 ∷ 128 ∷ []) data_
        then inject_v6 data_ tag history_hex digests
        else if begins (5 ∷ 0 ∷ 0 ∷ 128 ∷ []) data_
        then extend_script_sig tag data_ 20
          >>= on_extended coinbase_hex (finish_v5 data_ history_hex digests)
        else if begins (4 ∷ 0 ∷ 0 ∷ 128 ∷ []) data_
        then extend_script_sig tag data_ 8 >>= on_extended coinbase_hex finish_v4
        else err "Unknown tx version"

    -- `inject_coinbase_tag`
    unfoldable pub inject_coinbase_tag : String → Result String InjectionResult
    inject_coinbase_tag coinbase_hex =
        ok_or (hex_decode coinbase_hex) "Invalid coinbase hex" >>= inject_data coinbase_hex
