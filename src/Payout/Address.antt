-- ===== src/Payout/Address.antt =====
-- `is_valid_zcash_address` of crates/pool-dashboard/src/main.rs. Base58check, of the `bs58` crate, is a
-- parameter: the decoded bytes, where the checksum holds.
use Prim.Native.String.{len}
use zcash_mining_pool.Text.{chars, begins}
use zcash_mining_pool.Prelude.{
  ℕ, ◌≡◌, String, Bool, true, false, not, ◌&&◌, ◌||◌, List, [], ◌∷◌, arith, leb, ◌==◌, str_eq,
  if◌then◌else◌, Option, none, some, length, drop,
}

abbrev pub is_in : List ℕ → ℕ → Bool
is_in [] n = false
is_in (c ∷ cs) n = (c == n) || is_in cs n

abbrev pub all_in : List ℕ → List ℕ → Bool
all_in set [] = true
all_in set (c ∷ cs) = is_in set c && all_in set cs

-- What stands behind the first, or the last, '1'.
unfoldable pub after_first : List ℕ → Option (List ℕ)
after_first [] = none
after_first (c ∷ cs) = let rest = after_first cs in if c == 49 then some cs else rest

abbrev first_of : Option (List ℕ) → Option (List ℕ) → Option (List ℕ)
first_of none other = other
first_of (some cs) other = some cs

unfoldable pub after_last : List ℕ → Option (List ℕ)
after_last [] = none
after_last (c ∷ cs) = first_of (after_last cs) (if c == 49 then some cs else none)

-- `&addr[hrp_end + 1..]`, where a missing '1' counts as position 0
abbrev pub data_part : Option (List ℕ) → List ℕ → List ℕ
data_part none cs = drop 1 cs
data_part (some data_) cs = data_

unfoldable pub charset : List ℕ
unfolding chars
charset = chars "qpzry9x8gf2tvdw0s3jn54khce6mua7l"

abbrev pub has_length : ℕ → Option (List ℕ) → Bool
has_length n none = false
has_length n (some bytes) = length bytes == n

-- What is asked of an address with the code points `cs`, on the main network or another.
module _ (decode : String → Option (List ℕ)) (mainnet : Bool) (addr : String) (cs : List ℕ) where
  abbrev pub transparent : Bool
  transparent =
      (if mainnet
        then begins (116 ∷ 49 ∷ []) cs || begins (116 ∷ 51 ∷ []) cs
        else begins (116 ∷ 109 ∷ []) cs || begins (116 ∷ 50 ∷ []) cs)
      && has_length 22 (decode addr)

  -- "zs1" and "ztestsapling1"
  abbrev pub sapling : Bool
  sapling =
      (if mainnet
        then begins (122 ∷ 115 ∷ 49 ∷ []) cs
        else begins (122 ∷ 116 ∷ 101 ∷ 115 ∷ 116 ∷ 115 ∷ 97 ∷ 112 ∷ 108 ∷ 105 ∷ 110 ∷ 103 ∷ 49 ∷ [])
            cs)
      && all_in charset (data_part (after_last cs) cs)
      && (len addr == (if mainnet then 78 else 88))

  -- "u1", "utest" and "utest1". Where the set of characters fits, a character is a byte.
  abbrev pub unified : Bool
  unified =
      (if mainnet
        then begins (117 ∷ 49 ∷ []) cs && not (begins (117 ∷ 116 ∷ 101 ∷ 115 ∷ 116 ∷ []) cs)
        else begins (117 ∷ 116 ∷ 101 ∷ 115 ∷ 116 ∷ 49 ∷ []) cs)
      && all_in charset (data_part (after_first cs) cs)
      && leb 50 (length (data_part (after_first cs) cs))
      && leb (len addr) 320

  unfoldable pub is_valid_form : Bool
  is_valid_form =
      if begins (116 ∷ []) cs
      then transparent
      else if begins (122 ∷ []) cs
      then sapling
      else if begins (117 ∷ []) cs
      then unified
      else false

unfoldable pub is_valid_zcash_address : (String → Option (List ℕ)) → String → String → Bool
is_valid_zcash_address decode addr network =
    is_valid_form decode (str_eq network "mainnet") addr (chars addr)

disjoint_forms :
    (decode : String → Option (List ℕ)) (addr : String) (cs : List ℕ)
    → is_valid_form decode true addr cs ≡ true
    → is_valid_form decode false addr cs ≡ false
unfolding is_valid_form
disjoint_forms decode addr [] h = cc
disjoint_forms decode addr (x ∷ []) h = ground arith
disjoint_forms decode addr (x ∷ y ∷ cs) h = ground arith

-- No address is valid both on the main network and on another one: for whatever the base58 decoder
-- answers, an address that is accepted for "mainnet" is refused for every other network name.
pub networks_disjoint :
    (decode : String → Option (List ℕ)) (addr network : String)
    → str_eq network "mainnet" ≡ false
    → is_valid_zcash_address decode addr "mainnet" ≡ true
    → is_valid_zcash_address decode addr network ≡ false
unfolding is_valid_zcash_address
networks_disjoint decode addr network other h = rw other (disjoint_forms decode addr (chars addr) h)
