-- ===== src/Db/Search/Tests.antt =====
-- A query with operators in it.
use baby.Common.{ℕ, ◌≡◌, refl, Bool, false, ◌&&◌, some, [], ◌∷◌, leb}
use baby.Text.Words.{Codes}
use baby.Db.Search.{fts_match, tokens}
use baby.Db.Search.RoundTrip.{phrases, WordsOf, fts_match-phrases}

abbrev is_letter : ℕ → Bool
is_letter c = leb 97 c && leb c 122

-- ab" OR -c*
abbrev query : Codes
query = 97 ∷ 98 ∷ 34 ∷ 32 ∷ 79 ∷ 82 ∷ 32 ∷ 45 ∷ 99 ∷ 42 ∷ []

-- "ab" "c"*
matched : fts_match is_letter query ≡ 34 ∷ 97 ∷ 98 ∷ 34 ∷ 32 ∷ 34 ∷ 99 ∷ 34 ∷ 42 ∷ []
unfolding fts_match
matched = refl

fts_match-phrases_example :
    (phrases false (fts_match is_letter query) ≡ some ([], tokens is_letter query))
    × WordsOf is_letter query (tokens is_letter query)
fts_match-phrases_example = fts_match-phrases is_letter query refl
