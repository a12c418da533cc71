-- ===== src/Stratum/Codec.antt =====
-- crates/stratum/src/codec.rs: lines of JSON on a stream of bytes. The parser is a parameter.
use mathlib.Core.List.{append_assoc}
use zcash_mining_pool.Prelude.{
  ℕ, ◌≡◌, refl, ap, ◌∙◌, false, Option, some, none, List, [], ◌∷◌, ◌++◌, ◌==◌, ltb, if◌then◌else◌,
  length, All, Result, ok, err,
}

pub data CodecError : Type 0 where
  json line_too_long : CodecError

-- MAX_LINE_LENGTH and b'\n'
abbrev pub max_line_length : ℕ
max_line_length = 65536

abbrev pub newline : ℕ
newline = 10

-- `position` and `split_to`: the bytes before the first newline and those after it.
abbrev pub behind : ℕ → Option (List ℕ × List ℕ) → Option (List ℕ × List ℕ)
behind b none = none
behind b (some (line, rest)) = some (b ∷ line, rest)

unfoldable pub split_line : List ℕ → Option (List ℕ × List ℕ)
split_line [] = none
split_line (b ∷ bs) =
    let later = split_line bs in if b == newline then some ([], bs) else behind b later

module _ {M : Type 0} (parse : List ℕ → Option M) where
  -- A line that is not empty is parsed.
  unfoldable pub parse_line : List ℕ → Result CodecError (Option M)
  parse_line [] = ok none
  parse_line (b ∷ bs) = elim (parse (b ∷ bs)) [ none ↦ err json | some m ↦ ok (some m) ]

  unfoldable pub on_split :
      List ℕ → Option (List ℕ × List ℕ) → Result CodecError (Option M) × List ℕ
  on_split buffer (some (line, rest)) = (parse_line line, rest)
  on_split buffer none =
      (if ltb max_line_length (length buffer) then err line_too_long else ok none, buffer)

  -- `decode`, with the buffer that it leaves
  unfoldable pub decode : List ℕ → Result CodecError (Option M) × List ℕ
  decode buffer = on_split buffer (split_line buffer)

-- `encode`, onto the bytes that are to be sent
unfoldable pub encode : List ℕ → List ℕ → List ℕ
encode item sent = sent ++ item ++ newline ∷ []

split_line-append :
    (line rest : List ℕ)
    → All (λ b. (b == newline) ≡ false) line
    → split_line (line ++ (newline ∷ rest)) ≡ some (line, rest)
unfolding split_line
split_line-append [] rest h = refl
split_line-append (b ∷ bs) rest h = rw (h.0, split_line-append bs rest h.1) refl

parse_line-some :
    {M : Type 0} (parse : List ℕ → Option M) (b : ℕ) (bs : List ℕ) (m : M)
    → parse (b ∷ bs) ≡ some m
    → parse_line parse (b ∷ bs) ≡ ok (some m)
unfolding parse_line
parse_line-some parse b bs m e = rw (parse_line, e) refl

-- A message that was written without a newline in it is read back as what the parser makes of it, and
-- the bytes after it stay in the buffer.
pub decode-encode :
    {M : Type 0} (parse : List ℕ → Option M) (b : ℕ) (bs rest : List ℕ) (m : M)
    → All (λ c. (c == newline) ≡ false) (b ∷ bs)
    → parse (b ∷ bs) ≡ some m
    → decode parse (encode (b ∷ bs) [] ++ rest) ≡ (ok (some m), rest)
unfolding decode encode on_split parse_line
decode-encode parse b bs rest m h e =
    ap (decode parse) (append_assoc (b ∷ bs) (newline ∷ []) rest)
    ∙ ap (on_split parse ((b ∷ bs) ++ (newline ∷ rest))) (split_line-append (b ∷ bs) rest h)
    ∙ ap (λ r. (r, rest)) (parse_line-some parse b bs m e)
