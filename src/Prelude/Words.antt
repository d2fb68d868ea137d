-- ===== src/Prelude/Words.antt =====
-- `word in text.lower()`, for texts of ASCII, and the order of texts.
use Prim.Native.Nat.{ℕ, ◌+◌}
use Prim.Native.Char.{code}
use Prim.Native.String.{String}
use mathlib.Core.Path.{◌≡◌, refl}
use mathlib.Core.Bool.{Bool, true, false, ◌&&◌, ◌||◌}
use mathlib.Core.List.{List, [], ◌∷◌}
use ai_ent.Prelude.Tests.{ltb, leb, ◌==◌, if◌then◌else◌}

abbrev pub codes : String → List ℕ
codes String.[] = []
codes (String.◌∷◌ c s) = code c ∷ codes s

abbrev lower : ℕ → ℕ
lower c = if leb b'A' c && leb c b'Z' then c + 32 else c

abbrev lower_codes : String → List ℕ
lower_codes String.[] = []
lower_codes (String.◌∷◌ c s) = lower (code c) ∷ lower_codes s

begins_with : List ℕ → List ℕ → Bool
begins_with [] text = true
begins_with (c ∷ cs) [] = false
begins_with (c ∷ cs) (d ∷ ds) = (c == d) && begins_with cs ds

occurs_in : List ℕ → List ℕ → Bool
occurs_in word [] = begins_with word []
occurs_in word (d ∷ ds) = begins_with word (d ∷ ds) || occurs_in word ds

unfoldable pub mentions : String → String → Bool
unfolding begins_with occurs_in
mentions word text = occurs_in (codes word) (lower_codes text)

abbrev dashed : ℕ → ℕ
dashed c = if c == b'_' then b'-' else c

abbrev dashed_codes : List ℕ → List ℕ
dashed_codes [] = []
dashed_codes (c ∷ cs) = dashed c ∷ dashed_codes cs

-- `word in text.lower().replace("_", "-")`
unfoldable pub mentions_dashed : String → String → Bool
unfolding begins_with occurs_in
mentions_dashed word text = occurs_in (codes word) (dashed_codes (lower_codes text))

same_codes : List ℕ → List ℕ → Bool
same_codes [] [] = true
same_codes (c ∷ cs) (d ∷ ds) = (c == d) && same_codes cs ds
same_codes _ _ = false

-- `text.lower() == word`
unfoldable pub reads_as : String → String → Bool
unfolding same_codes
reads_as word text = same_codes (codes word) (lower_codes text)

unfoldable pub codes_leb : List ℕ → List ℕ → Bool
codes_leb [] text = true
codes_leb (c ∷ cs) [] = false
codes_leb (c ∷ cs) (d ∷ ds) = ltb c d || ((c == d) && codes_leb cs ds)

-- The order of texts, by their code points.
unfoldable pub text_leb : String → String → Bool
unfolding codes_leb
text_leb a b = codes_leb (codes a) (codes b)

scope_is_mentioned : mentions "scope" "Bad SCOPE here" ≡ true
unfolding mentions
scope_is_mentioned = refl
