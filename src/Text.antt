-- ===== src/Text.antt =====
-- What the program uses of Python's `str`: a text is a sequence of code points.
pub mod Search
pub mod Words
pub mod Regex
use Prim.Native.Char.{code}
use baby.Common.{ℕ, suc, Bool, false, ◌&&◌, ◌||◌, not, String, leb, ◌==◌, List, [], ◌∷◌}

abbrev pub codes : String → List ℕ
codes String.[] = []
codes (String.◌∷◌ c s) = code c ∷ codes s

-- `len(s)`
abbrev pub len : String → ℕ
len String.[] = 0
len (String.◌∷◌ c s) = suc (len s)

-- the code points that `str.strip` and `str.split` take for white space
unfoldable pub is_space : ℕ → Bool
is_space c =
    (leb 9 c && leb c 13)
    || (leb 28 c && leb c 32)
    || c == 0x85
    || c == 0xa0
    || c == 0x1680
    || (leb 0x2000 c && leb c 0x200a)
    || c == 0x2028
    || c == 0x2029
    || c == 0x202f
    || c == 0x205f
    || c == 0x3000

-- `s.strip() != ""`
unfoldable pub has_text : String → Bool
unfolding is_space
has_text String.[] = false
has_text (String.◌∷◌ c s) = not (is_space (code c)) || has_text s
