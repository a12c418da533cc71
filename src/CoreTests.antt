-- ===== src/CoreTests.antt =====
-- Concrete bytes, targets, lines and samples for crates/pool-core and crates/stratum, and the theorems
-- applied to them.
use zcash_mining_pool.Prelude.{
  ℕ, ◌≤◌, ◌≡◌, ◌↔◌, refl, true, String, Option, some, List, [], ◌∷◌, ◌++◌, arith, ok,
}
use zcash_mining_pool.Bytes.{le_value, be_value}
use zcash_mining_pool.Stratum.Codec.{decode, encode, decode-encode}
use zcash_mining_pool.Lag.{
  Sample, LagKind, Holds, record_history, new_lag_tracker, record_history-Holds,
}
use zcash_mining_pool.Wire.{compact_size, strip_compact_size}
use zcash_mining_pool.Wire.Trips.{strip-compact_size}
use zcash_mining_pool.Share.Target.{
  meets_target, parse_target, Parses, meets_target-value, parse_target-value,
}

strip-compact_size_example :
    strip_compact_size (compact_size 3 ++ ((7 ∷ 8 ∷ 9 ∷ []) ++ (1 ∷ 2 ∷ []))) ≡ ok (7 ∷ 8 ∷ 9 ∷ [])
unfolding compact_size
strip-compact_size_example = strip-compact_size (7 ∷ 8 ∷ 9 ∷ []) (1 ∷ 2 ∷ []) (omega arith)

meets_target-value_example :
    (meets_target (9 ∷ 1 ∷ []) (2 ∷ 0 ∷ []) ≡ true)
    ↔ (le_value (9 ∷ 1 ∷ []) ≤ be_value (2 ∷ 0 ∷ []))
meets_target-value_example =
    meets_target-value (9 ∷ 1 ∷ []) (2 ∷ 0 ∷ []) refl (omega arith, (omega arith, tt))
      (omega arith, (omega arith, tt))

abbrev read_nothing : String → Option (List ℕ)
read_nothing text = some (7 ∷ 255 ∷ [])

parse_target-value_example : Parses (some (7 ∷ 255 ∷ [])) (parse_target read_nothing "07ff")
parse_target-value_example = parse_target-value read_nothing "07ff"

decode-encode_example :
    decode some (encode (65 ∷ 66 ∷ []) [] ++ (67 ∷ [])) ≡ (ok (some (65 ∷ 66 ∷ [])), 67 ∷ [])
decode-encode_example =
    decode-encode some 65 (66 ∷ []) (67 ∷ []) (65 ∷ 66 ∷ []) (refl, (refl, tt)) refl

abbrev lags : List Sample
lags =
    (record { recorded_at = 1; lag = 12; height = 7; kind = LagKind.empty_block })
    ∷ (record { recorded_at = 2; lag = 30; height = 7; kind = LagKind.full_template })
    ∷ []

record_history-Holds_example : Holds lags (record_history lags new_lag_tracker)
record_history-Holds_example = record_history-Holds lags
