-- ===== src/Text/Regex.antt =====
-- What the program uses of Python's `re`, with the flag `(?i)` throughout: a backtracking matcher that
-- tries the alternatives in Python's order. A continuation gets the character before and the rest of
-- the text. The loop of `star` takes fuel, a round for each character: a round that takes none ends it.
mod Tests
use baby.Common.{
  ℕ, zero, suc, ◌+◌, Bool, true, false, ◌&&◌, ◌||◌, not, String, Option, none, some, List, [], ◌∷◌,
  ◌==◌, leb, ltb, any, length, if◌then◌else◌,
}
use baby.Text.{codes, is_space}
use baby.Text.Search.{Unicode}

pub data Regex : Type 0 where
  one : (ℕ → Bool) → Regex
  empty never word_edge text_start text_end : Regex
  ◌then◌ ◌or◌ : Regex → Regex → Regex
  star : Regex → Regex
  not_after : (ℕ → Bool) → Regex

infixr 40 ◌then◌
infixr 30 ◌or◌
abbrev pub opt : Regex → Regex
opt r = r or empty

abbrev pub plus : Regex → Regex
plus r = r then star r

-- Letters without regard to case: the four code points outside ASCII are those that Python takes for
-- `i`, `s` and `k`.
abbrev pub fold_case : ℕ → ℕ
fold_case c =
    if leb 65 c && leb c 90
    then c + 32
    else if c == 0x130 || c == 0x131
    then 105
    else if c == 0x17f
    then 115
    else if c == 0x212a
    then 107
    else c

abbrev pub lit_codes : List ℕ → Regex
lit_codes [] = empty
lit_codes (c ∷ cs) = one (λ x. fold_case x == c) then lit_codes cs

-- a text in lower case
abbrev pub lit : String → Regex
lit s = lit_codes (codes s)

abbrev pub any_of : List String → Regex
any_of [] = never
any_of (s ∷ ss) = lit s or any_of ss

-- `[...]` with the characters of a text
abbrev pub char_of : String → Regex
char_of s = one (λ c. any (λ x. fold_case c == x) (codes s))

abbrev pub not_in : String → Regex
not_in s = one (λ c. not (any (λ x. c == x) (codes s)))

-- `[a-z]`
abbrev pub letter : Regex
letter = one (λ c. leb 97 (fold_case c) && leb (fold_case c) 122)

abbrev pub space : Regex
space = one is_space

abbrev pub non_space : Regex
non_space = one (λ c. not (is_space c))

-- `.` without `re.DOTALL`
abbrev pub dot : Regex
dot = one (λ c. not (c == 10))

abbrev pub Next : Type 0
Next = Option ℕ → List ℕ → Option (List ℕ)

abbrev pub Matcher : Type 0
Matcher = Next → Next

abbrev pub or_else : Option (List ℕ) → Option (List ℕ) → Option (List ℕ)
or_else (some r) other = some r
or_else none other = other

abbrev pub loop : ℕ → Matcher → Matcher
loop zero body k prev s = k prev s
loop (suc fuel) body k prev s =
    or_else
      (body (λ prev' s'. if ltb (length s') (length s) then loop fuel body k prev' s' else none)
        prev s)
      (k prev s)

abbrev pub is_word_at : (ℕ → Bool) → List ℕ → Bool
is_word_at is_word [] = false
is_word_at is_word (c ∷ cs) = is_word c

abbrev pub is_word_before : (ℕ → Bool) → Option ℕ → Bool
is_word_before is_word none = false
is_word_before is_word (some c) = is_word c

abbrev pub xor : Bool → Bool → Bool
xor true b = not b
xor false b = b

-- `$` matches before a final newline too.
abbrev pub at_end : List ℕ → Bool
at_end [] = true
at_end (c ∷ []) = c == 10
at_end _ = false

abbrev pub at_start : Option ℕ → Bool
at_start none = true
at_start (some c) = false

unfoldable pub matches : Unicode → Regex → Matcher
matches u (one p) k prev [] = none
matches u (one p) k prev (c ∷ cs) = if p c then k (some c) cs else none
matches u empty k prev s = k prev s
matches u never k prev s = none
matches u word_edge k prev s =
    if xor (is_word_before u.is_word prev) (is_word_at u.is_word s) then k prev s else none
matches u text_start k prev s = if at_start prev then k prev s else none
matches u text_end k prev s = if at_end s then k prev s else none
matches u (a then b) k prev s = matches u a (matches u b k) prev s
matches u (a or b) k prev s = or_else (matches u a k prev s) (matches u b k prev s)
matches u (star r) k prev s = loop (suc (length s)) (matches u r) k prev s
matches u (not_after p) k prev s = if is_word_before p prev then none else k prev s

abbrev pub rest_of_text : Next
rest_of_text prev s = some s

-- What follows the leftmost match.
unfoldable pub search_from : Unicode → Regex → Option ℕ → List ℕ → Option (List ℕ)
unfolding matches
search_from u r prev [] = matches u r rest_of_text prev []
search_from u r prev (c ∷ cs) =
    or_else (matches u r rest_of_text prev (c ∷ cs)) (search_from u r (some c) cs)

abbrev pub is_some : Option (List ℕ) → Bool
is_some none = false
is_some (some r) = true

-- `pattern.search(s)` and `pattern.match(s)`, as tests
unfoldable pub search : Unicode → Regex → List ℕ → Bool
unfolding search_from
search u r s = is_some (search_from u r none s)

unfoldable pub match_at_start : Unicode → Regex → List ℕ → Bool
unfolding matches
match_at_start u r s = is_some (matches u r rest_of_text none s)
