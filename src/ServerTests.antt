-- ===== src/ServerTests.antt =====
-- Connections of crates/stratum/src/server.rs and coinbases of crates/pool-core/src/coinbase.rs on concrete
-- inputs, and the theorems applied to them.
use zcash_mining_pool.Prelude.{
  ℕ, ◌^◌, ◌≡◌, refl, String, true, false, List, [], ◌∷◌, ◌++◌, arith, length, replicate, Option,
  some, none, ok,
}
use zcash_mining_pool.ShareTests.{thousandths}
use zcash_mining_pool.Stratum.Request.{Json, RawMessage}
use zcash_mining_pool.Stratum.Server.{Announced, Frame, serve}
use zcash_mining_pool.Stratum.Server.Guarded.{Follows, serve_guards}
use zcash_mining_pool.Stratum.Connections.{
  Connections, accept, release, serving, arrive, depart, start, next, IsLimited, Reach-IsLimited,
}
use zcash_mining_pool.Wire.{compact_size}
use zcash_mining_pool.Coinbase.{
  Hashes, has_window, extend_script_sig, padded, auth_data_merkle_root,
}
use zcash_mining_pool.Coinbase.Tag.{transaction, extend_adds, extend_once}
use zcash_mining_pool.Coinbase.Merkle.{tree, merkle_root_ends}

-- Texts and arrays of texts in place of JSON.
data Value : Type 0 where
  null : Value
  text : String → Value
  texts : List String → Value

abbrev as_text : Value → Option String
as_text (text s) = some s
as_text null = none
as_text (texts ss) = none

abbrev values : List String → List Value
values [] = []
values (s ∷ ss) = text s ∷ values ss

abbrev as_texts : Value → Option (List Value)
as_texts (texts ss) = some (values ss)
as_texts null = none
as_texts (text s) = none

abbrev plain : Json
plain = record {
  Value = Value;
  null = null;
  as_str = as_text;
  as_u64 = λ v. none;
  as_array = as_texts;
}

abbrev call : String → List String → RawMessage plain
call method params = record { id = none; method = some method; params = some (texts params) }

abbrev calls : List (RawMessage plain)
calls =
    call "mining.subscribe" []
    ∷ call "mining.authorize" ("tm1.rig" ∷ "x" ∷ [])
    ∷ call "mining.submit" ("tm1.rig" ∷ "7" ∷ "t" ∷ "n2" ∷ "sol" ∷ [])
    ∷ call "mining.submit" ("other" ∷ "7" ∷ "t" ∷ "n2" ∷ "sol" ∷ [])
    ∷ []

-- The answers to the last message cannot be written.
abbrev frames : List (RawMessage plain) → List (Frame thousandths plain)
frames [] = []
frames (raw ∷ []) = (record { raw = raw; writable = false }) ∷ []
frames (raw ∷ more) = (record { raw = raw; writable = true }) ∷ frames more

abbrev announced : Announced thousandths plain
announced = record { nonce1_size = 4; initial = (8192000, "0000"); latest_notify = none }

serve_guards_example : Follows thousandths plain "s1" "de810000" true [] (
    serve thousandths plain announced (frames calls) (record {
      session_id = "s1";
      nonce_1 = "de810000";
      authorized_workers = [];
      subscribed = false;
    }))
serve_guards_example = serve_guards thousandths plain announced (frames calls) "s1" "de810000" false

abbrev nobody : Connections
nobody = record { counts = λ ip. 0; tasks = [] }

Reach-IsLimited_example : IsLimited (release 3 (accept 3 (accept 3 nobody)))
unfolding accept serving
Reach-IsLimited_example = Reach-IsLimited (
    next (next (next start (arrive 3 nobody)) (arrive 3 (accept 3 nobody)))
      (depart 3 (accept 3 (accept 3 nobody)) (omega arith)))

abbrev header : List ℕ
header = 4 ∷ 0 ∷ 0 ∷ 128 ∷ 1 ∷ 2 ∷ 3 ∷ 4 ∷ []

abbrev outpoint : List ℕ
outpoint = replicate 36 255

abbrev tag : List ℕ
tag = 47 ∷ 112 ∷ 47 ∷ []

extend_adds_example :
    extend_script_sig tag (transaction header outpoint (3 ∷ 9 ∷ []) (0 ∷ 0 ∷ [])) 8
    ≡ ok (
        some (record {
          new_data = transaction header outpoint (3 ∷ 9 ∷ 47 ∷ 112 ∷ 47 ∷ []) (0 ∷ 0 ∷ []);
          new_cs = 5;
          new_script_sig = 3 ∷ 9 ∷ 47 ∷ 112 ∷ 47 ∷ [];
        }))
unfolding has_window compact_size
extend_adds_example =
    extend_adds header outpoint (3 ∷ 9 ∷ []) (0 ∷ 0 ∷ []) tag refl (omega arith) refl (omega arith)

extend_once_example :
    extend_script_sig tag
      (transaction header outpoint ((3 ∷ 9 ∷ []) ++ (tag ++ (8 ∷ []))) (0 ∷ 0 ∷ []))
      8
    ≡ ok none
unfolding compact_size
extend_once_example =
    extend_once header outpoint (3 ∷ 9 ∷ []) (8 ∷ []) (0 ∷ 0 ∷ []) 47 (112 ∷ 47 ∷ []) refl
      (omega arith) (omega arith)

abbrev plain_hashes : Hashes
plain_hashes = record {
  blake2b_256 = λ personal bytes. length personal ∷ bytes;
  sha256d = λ bytes. bytes;
  hex_decode = λ s. none;
  hex_encode = λ bytes. "";
}

abbrev no_letters : String → List ℕ
no_letters s = []

abbrev three : List (List ℕ)
three = (1 ∷ []) ∷ (2 ∷ []) ∷ (3 ∷ []) ∷ []

merkle_root_ends_example :
    (h : ℕ) × (length (padded three) ≡ 2 ^ h)
    × (auth_data_merkle_root plain_hashes no_letters three
        ≡ some (tree plain_hashes no_letters h (padded three)))
merkle_root_ends_example = merkle_root_ends plain_hashes no_letters three
