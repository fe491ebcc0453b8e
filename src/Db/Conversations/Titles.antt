-- ===== src/Db/Conversations/Titles.antt =====
-- The titles that the history shows.
use baby.Common.{
  ℕ, suc, ◌≡◌, refl, ◌∙◌, Bool, true, false, ◌&&◌, not, List, [], ◌∷◌, any, take, All, arith,
  Bool-cases, inl, inr,
}
use baby.Message.{is_empty}
use baby.Text.{is_space}
use baby.Text.Words.{
  Codes, strip, strip_of, strip_start, strip_end, squeeze, words, words_from, start_word,
  join_words, first_line, is_line_break,
}
use baby.Db.Conversations.{MetaRow, conversation_meta, or_empty}

abbrev pub is_blank : Codes → Bool
is_blank s = not (any (λ c. not (is_space c)) s)

break_is_space : (c : ℕ) → is_line_break c ≡ true → is_space c ≡ true
unfolding is_space
break_is_space c h = ground (arith, h)

-- The first line of a stripped text is not empty, if the text is not.
first_line-strip : (s : Codes) → is_empty (first_line (strip s)) ≡ is_empty (strip s)
unfolding strip strip_of
first_line-strip s = go s
  where
    inner : (c : ℕ) → is_space c ≡ false → is_line_break c ≡ false
    inner c h = elim (Bool-cases (is_line_break c)) [
      | inl b ↦ let s = break_is_space c b in cc
      | inr b ↦ b
    ]

    ends :
        (c : ℕ) (cs : Codes)
        → is_space c ≡ false
        → is_empty (first_line (strip_end is_space (c ∷ cs)))
          ≡ is_empty (strip_end is_space (c ∷ cs))
    ends c cs h = ground (arith, h, inner c h)

    go :
        (s : Codes)
        → is_empty (first_line (strip_end is_space (strip_start is_space s)))
          ≡ is_empty (strip_end is_space (strip_start is_space s))
    go [] = refl
    go (c ∷ cs) = elim (Bool-cases (is_space c)) [
      | inl gap ↦ rw gap (go cs)
      | inr char ↦ rw char (ends c cs char)
    ]

is_empty-start_word :
    (w : Codes) (ws : List Codes) → is_empty (start_word w ws) ≡ is_empty w && is_empty ws
is_empty-start_word [] ws = refl
is_empty-start_word (c ∷ w) ws = refl

words_from_blank :
    (s : Codes) → (is_empty (words_from s).0 && is_empty (words_from s).1) ≡ is_blank s
words_from_blank [] = refl
words_from_blank (c ∷ cs) = elim (Bool-cases (is_space c)) [
  | inl gap ↦
      rw (gap, is_empty-start_word (words_from cs).0 (words_from cs).1) (words_from_blank cs)
  | inr char ↦ rw char refl
]

abbrev IsWord : Codes → Type 0
IsWord w = is_empty w ≡ false

start_word-All : (w : Codes) (ws : List Codes) → All IsWord ws → All IsWord (start_word w ws)
start_word-All [] ws h = h
start_word-All (c ∷ w) ws h = (refl, h)

words_from-All : (s : Codes) → All IsWord (words_from s).1
words_from-All [] = tt
words_from-All (c ∷ cs) = elim (Bool-cases (is_space c)) [
  | inl gap ↦ rw gap (start_word-All (words_from cs).0 (words_from cs).1 (words_from-All cs))
  | inr char ↦ rw char (words_from-All cs)
]

is_empty-join_words : (ws : List Codes) → All IsWord ws → is_empty (join_words ws) ≡ is_empty ws
is_empty-join_words [] h = refl
is_empty-join_words ([] ∷ ws) h = absurd (cc)
is_empty-join_words ((c ∷ w) ∷ []) h = refl
is_empty-join_words ((c ∷ w) ∷ v ∷ ws) h = refl

-- A text is squeezed to nothing exactly if it has nothing but white space.
squeeze-blank : (s : Codes) → is_empty (squeeze s) ≡ is_blank s
unfolding squeeze words
squeeze-blank s =
    is_empty-join_words (start_word (words_from s).0 (words_from s).1)
      (start_word-All (words_from s).0 (words_from s).1 (words_from-All s))
    ∙ is_empty-start_word (words_from s).0 (words_from s).1
    ∙ words_from_blank s

is_empty-take : (n : ℕ) (s : Codes) → is_empty (take (suc n) s) ≡ is_empty s
is_empty-take n [] = refl
is_empty-take n (c ∷ s) = refl

-- A conversation is shown without a title exactly if its own title and its summary are blank, and its
-- first message is blank but not empty. (Of an empty one, and without one, it is "New chat".)
pub conversation_meta_untitled :
    (r : MetaRow)
    → is_empty (conversation_meta r).title ≡ (
        is_empty (strip (or_empty r.conversation.title))
        && is_empty (strip (or_empty r.conversation.summary))
        && not (is_empty (or_empty r.first_user))
        && is_blank (or_empty r.first_user))
unfolding conversation_meta
conversation_meta_untitled r = ground (
  arith,
  is_empty-take 79 (first_line (strip (or_empty r.conversation.summary))),
  first_line-strip (or_empty r.conversation.summary),
  is_empty-take 59 (squeeze (or_empty r.first_user)),
  squeeze-blank (or_empty r.first_user),
)
