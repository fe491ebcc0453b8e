-- ===== src/Text/Words.antt =====
-- Texts as code points, and what the program uses of `str.strip`, `str.split` and the like.
use baby.Common.{
  ℕ, ◌≡◌, refl, arith, Bool, true, false, ◌&&◌, ◌||◌, List, [], ◌∷◌, ◌++◌, ◌==◌, leb, any,
  if◌then◌else◌,
}
use baby.Message.{is_empty}
use baby.Text.{is_space}

abbrev pub Codes : Type 0
Codes = List ℕ

-- `str.strip` of the characters with a property
abbrev pub strip_start : (ℕ → Bool) → Codes → Codes
strip_start p [] = []
strip_start p (c ∷ cs) = if p c then strip_start p cs else c ∷ cs

abbrev pub strip_end : (ℕ → Bool) → Codes → Codes
strip_end p [] = []
strip_end p (c ∷ cs) = let rest = strip_end p cs in if is_empty rest && p c then [] else c ∷ rest

unfoldable pub strip_of : (ℕ → Bool) → Codes → Codes
strip_of p s = strip_end p (strip_start p s)

unfoldable pub strip : Codes → Codes
unfolding strip_of is_space
strip s = strip_of is_space s

abbrev pub is_quote : ℕ → Bool
is_quote c = c == 34 || c == 39

-- `s.split()[0]` of a text that begins with no space
abbrev pub first_word : Codes → Codes
first_word [] = []
first_word (c ∷ cs) = if is_space c then [] else c ∷ first_word cs

-- `s.rsplit(sep, 1)[-1]`
abbrev pub after_last : ℕ → Codes → Codes
after_last sep [] = []
after_last sep (c ∷ cs) =
    if any (λ x. x == sep) cs then after_last sep cs else if c == sep then cs else c ∷ cs

abbrev pub same : Codes → Codes → Bool
same [] [] = true
same (c ∷ cs) (d ∷ ds) = c == d && same cs ds
same _ _ = false

abbrev pub removesuffix : Codes → Codes → Codes
removesuffix suffix [] = []
removesuffix suffix (c ∷ cs) = if same (c ∷ cs) suffix then [] else c ∷ removesuffix suffix cs

-- `s.split()`: the words between runs of white space
abbrev pub start_word : Codes → List Codes → List Codes
start_word [] ws = ws
start_word (c ∷ cs) ws = (c ∷ cs) ∷ ws

-- the word that goes on at the front of a text, and the words after it
abbrev pub words_from : Codes → Codes × List Codes
words_from [] = ([], [])
words_from (c ∷ cs) =
    let rest = words_from cs in
    if is_space c then ([], start_word rest.0 rest.1) else (c ∷ rest.0, rest.1)

unfoldable pub words : Codes → List Codes
unfolding is_space
words s = start_word (words_from s).0 (words_from s).1

-- `" ".join(ws)`
abbrev pub join_words : List Codes → Codes
join_words [] = []
join_words (w ∷ []) = w
join_words (w ∷ v ∷ ws) = w ++ (32 ∷ join_words (v ∷ ws))

-- `" ".join(s.split())`
unfoldable pub squeeze : Codes → Codes
unfolding words
squeeze s = join_words (words s)

-- the characters at which `str.splitlines` splits
abbrev pub is_line_break : ℕ → Bool
is_line_break c =
    (leb 10 c && leb c 13) || (leb 28 c && leb c 30) || c == 0x85 || c == 0x2028 || c == 0x2029

-- `s.splitlines()[0]`
abbrev pub first_line : Codes → Codes
first_line [] = []
first_line (c ∷ cs) = if is_line_break c then [] else c ∷ first_line cs

pub same_eq : (a b : Codes) → same a b ≡ true → a ≡ b
same_eq [] [] h = refl
same_eq [] (d ∷ ds) h = absurd (cc)
same_eq (c ∷ cs) [] h = absurd (cc)
same_eq (c ∷ cs) (d ∷ ds) h = ground (arith, same_eq cs ds, h)

pub same_refl : (a : Codes) → same a a ≡ true
same_refl [] = refl
same_refl (c ∷ cs) = ground (arith, same_refl cs)

pub same_comm : (a b : Codes) → same a b ≡ same b a
same_comm [] [] = refl
same_comm [] (d ∷ ds) = refl
same_comm (c ∷ cs) [] = refl
same_comm (c ∷ cs) (d ∷ ds) = ground (arith, same_comm cs ds)
