-- ===== src/Text/Regex/Tests.antt =====
-- Patterns of core/safety.py at concrete texts.
use baby.Common.{◌≡◌, refl, true, false, ◌&&◌, ◌||◌, leb, [], ◌∷◌, ◌==◌, some, none}
use baby.Text.{codes, is_space}
use baby.Text.Search.{Unicode}
use baby.Text.Regex.{Regex, word_edge, ◌then◌, lit, opt, any_of, plus, space, search, search_from}

abbrev ascii : Unicode
ascii = record {
  lower = λ s. s;
  is_word =
      λ c. (leb 97 c && leb c 122) || (leb 65 c && leb c 90) || (leb 48 c && leb c 57) || c == 95;
  is_alpha = λ c. (leb 97 c && leb c 122) || (leb 65 c && leb c 90);
  is_digit = λ c. leb 48 c && leb c 57;
  lower_codes = λ s. s;
}

abbrev powershell : Regex
powershell = word_edge then any_of ("powershell" ∷ "pwsh" ∷ []) then opt (lit ".exe") then word_edge

search_hit : search ascii powershell (codes "run PowerShell.EXE now") ≡ true
unfolding search
search_hit = refl

search_miss : search ascii powershell (codes "run powershells now") ≡ false
unfolding search
search_miss = refl

search-rest :
    search_from ascii
      (lit "cmd" then plus space then lit "/c" then plus space)
      none
      (codes "x cmd  /c  dir")
    ≡ some (codes "dir")
unfolding search_from is_space
search-rest = refl
