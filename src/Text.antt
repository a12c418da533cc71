-- ===== src/Text.antt =====
-- Texts as lists of code points (Rust's `chars`), and prefixes of lists.
use Prim.Native.Char.{code}
use Prim.Native.String
use zcash_mining_pool.Prelude.{ℕ, String, Bool, true, false, ◌&&◌, ◌==◌, List, [], ◌∷◌}

unfoldable pub chars : String → List ℕ
chars String.[] = []
chars (String.◌∷◌ c s) = code c ∷ chars s

-- `starts_with`
abbrev pub begins : List ℕ → List ℕ → Bool
begins [] cs = true
begins (p ∷ ps) [] = false
begins (p ∷ ps) (c ∷ cs) = (p == c) && begins ps cs

abbrev pub concat : String → String → String
concat s t = String.◌++◌ s t
