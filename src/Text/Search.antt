-- ===== src/Text/Search.antt =====
-- Searching a text, and printing a number: what the router and the task queue use of Python's `str`
-- and `re`. The tables of Unicode (`str.lower`, which characters are letters, which make up words)
-- are Python's, so they are the parameter `Unicode`.
use baby.Common.{ℕ, Bool, true, false, ◌&&◌, ◌||◌, not, String, ◌==◌, List, [], ◌∷◌, any, count}
use baby.Text.{codes}

pub record Unicode : Type 0 where
  pub lower : String → String
  pub is_word : ℕ → Bool
  pub is_alpha : ℕ → Bool
  pub is_digit : ℕ → Bool
  -- `lower` on the code points
  pub lower_codes : List ℕ → List ℕ

-- What is left of a text behind a prefix; a word must end where no word character follows.
abbrev pub ends_word : (ℕ → Bool) → List ℕ → Bool
ends_word is_word [] = true
ends_word is_word (c ∷ cs) = not (is_word c)

unfoldable pub starts_with : (List ℕ → Bool) → List ℕ → List ℕ → Bool
starts_with rest [] s = rest s
starts_with rest (p ∷ ps) [] = false
starts_with rest (p ∷ ps) (c ∷ cs) = c == p && starts_with rest ps cs

-- `sub in s`
unfoldable pub contains_codes : List ℕ → List ℕ → Bool
unfolding starts_with
contains_codes sub [] = starts_with (λ _. true) sub []
contains_codes sub (c ∷ cs) = starts_with (λ _. true) sub (c ∷ cs) || contains_codes sub cs

unfoldable pub contains : String → String → Bool
unfolding contains_codes
contains sub s = contains_codes (codes sub) (codes s)

-- `re.search(r"\bword\b", s)` for a word; `before` tells whether a word character came before.
unfoldable pub word_at : (ℕ → Bool) → List ℕ → Bool → List ℕ → Bool
unfolding starts_with
word_at is_word word before [] = false
word_at is_word word before (c ∷ cs) =
    (not before && starts_with (ends_word is_word) word (c ∷ cs))
    || word_at is_word word (is_word c) cs

unfoldable pub has_any_word : (ℕ → Bool) → List String → String → Bool
unfolding word_at
has_any_word is_word words s = any (λ w. word_at is_word (codes w) false (codes s)) words

-- `sum(p(c) for c in s)`
abbrev pub count_codes : (ℕ → Bool) → String → ℕ
count_codes p s = count p (codes s)
