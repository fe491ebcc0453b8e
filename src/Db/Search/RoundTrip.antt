-- ===== src/Db/Search/RoundTrip.antt =====
-- The search string reads back as the words of the query.
use baby.Common.{
  ℕ, ◌≡◌, refl, ap, ◌∙◌, Bool, true, false, ◌||◌, Option, none, some, List, [], ◌∷◌, ◌++◌,
  append_assoc, All, sym, subst, arith, if◌then◌else◌, ◌==◌, Bool-cases, inl, inr,
}
use baby.Message.{is_empty}
use baby.Text.Words.{Codes, start_word, join_words}
use baby.Db.Search.{tokens_from, tokens, quote, quoted, fts_match}

abbrev pub in_phrase : ℕ → Option (Codes × List Codes) → Option (Codes × List Codes)
in_phrase c none = none
in_phrase c (some (w, ws)) = some (c ∷ w, ws)

abbrev pub end_phrase : Option (Codes × List Codes) → Option (Codes × List Codes)
end_phrase none = none
end_phrase (some (w, ws)) = some ([], w ∷ ws)

-- A reader of quoted phrases: between them stand blanks and stars only, and each is closed. It gives
-- the rest of the open phrase, and the phrases after it.
abbrev pub phrases : Bool → Codes → Option (Codes × List Codes)
phrases true [] = none
phrases false [] = some ([], [])
phrases true (c ∷ cs) =
    let closed = phrases false cs in
    let further = in_phrase c (phrases true cs) in if c == 34 then closed else further
phrases false (c ∷ cs) =
    let opened = end_phrase (phrases true cs) in
    let further = phrases false cs in
    if c == 34 then opened else if c == 32 || c == 42 then further else none

-- The text begins with no word character.
abbrev pub AtGap : (ℕ → Bool) → Codes → Type 0
AtGap is_word [] = Unit {0}
AtGap is_word (c ∷ cs) = is_word c ≡ false

-- A text that starts with one whole word: characters of words, at least one, and then a gap or the
-- end. `rest` is what follows the word.
pub record StartsWith (is_word : ℕ → Bool) (w rest s : Codes) : Type 0 where
  pub whole : s ≡ w ++ rest
  pub some_text : is_empty w ≡ false
  pub letters : All (λ c. is_word c ≡ true) w
  pub ends : AtGap is_word rest

-- The words of a text, in order: a gap, which may be empty at the start, a whole word, and so on, and
-- a gap at the end.
pub data WordsOf (is_word : ℕ → Bool) : Codes → List Codes → Type 0 where
  no_word : WordsOf is_word [] []
  gap :
      (c : ℕ) (s : Codes) (ws : List Codes)
      → is_word c ≡ false
      → WordsOf is_word s ws
      → WordsOf is_word (c ∷ s) ws
  word :
      (w rest s : Codes) (ws : List Codes)
      → StartsWith is_word w rest s
      → WordsOf is_word rest ws
      → WordsOf is_word s (w ∷ ws)

close_phrase :
    (t rest : Codes) (ws : List Codes)
    → All (λ c. (c == 34) ≡ false) t
    → phrases false rest ≡ some ([], ws)
    → phrases true (t ++ (34 ∷ rest)) ≡ some (t, ws)
close_phrase [] rest ws h e = rw e refl
close_phrase (c ∷ t) rest ws h e = rw (h.0, close_phrase t rest ws h.1 e)

one_phrase :
    (t rest : Codes) (ws : List Codes)
    → All (λ c. (c == 34) ≡ false) t
    → phrases false rest ≡ some ([], ws)
    → phrases false (quote t ++ rest) ≡ some ([], t ∷ ws)
one_phrase t rest ws h e = rw (append_assoc t (34 ∷ []) rest, close_phrase t rest ws h e)

join-quoted :
    (t s : Codes) (ts : List Codes)
    → join_words (quoted (t ∷ s ∷ ts)) ≡ quote t ++ (32 ∷ join_words (quoted (s ∷ ts)))
join-quoted t s [] = refl
join-quoted t s (r ∷ ts) = refl

read_back :
    (ts : List Codes)
    → All (All (λ c. (c == 34) ≡ false)) ts
    → phrases false (join_words (quoted ts)) ≡ some ([], ts)
read_back [] h = refl
read_back (t ∷ []) h = one_phrase t (42 ∷ []) [] h.0 refl
read_back (t ∷ s ∷ ts) h =
    ap (phrases false) (join-quoted t s ts)
    ∙ one_phrase t (32 ∷ join_words (quoted (s ∷ ts))) (s ∷ ts) h.0 (read_back (s ∷ ts) h.1)

module _ (is_word : ℕ → Bool) where
  abbrev IsWord : Codes → Type 0
  IsWord = All (λ c. is_word c ≡ true)

  start_word-All :
      (w : Codes) (ws : List Codes) → IsWord w → All IsWord ws → All IsWord (start_word w ws)
  start_word-All [] ws h k = k
  start_word-All (c ∷ w) ws h k = (h, k)

  tokens_from-All :
      (q : Codes) → IsWord (tokens_from is_word q).0 × All IsWord (tokens_from is_word q).1
  tokens_from-All [] = (tt, tt)
  tokens_from-All (c ∷ cs) =
      let rest = tokens_from-All cs in
      elim (Bool-cases (is_word c)) [
        | inl letter ↦ rw letter ((letter, rest.0), rest.1)
        | inr space ↦
            rw space (
              tt,
              start_word-All (tokens_from is_word cs).0 (tokens_from is_word cs).1 rest.0 rest.1,
            )
      ]

  -- The first component is the word that the text starts with, if any.
  Opened : Codes → Codes × List Codes → Type 0
  Opened q r = (rest : Codes) × (q ≡ r.0 ++ rest) × AtGap is_word rest × WordsOf is_word rest r.1

  start_word-WordsOf :
      (q w rest : Codes) (ws : List Codes)
      → q ≡ w ++ rest
      → IsWord w
      → AtGap is_word rest
      → WordsOf is_word rest ws
      → WordsOf is_word q (start_word w ws)
  start_word-WordsOf q [] rest ws e h g k = subst (λ s. WordsOf is_word s ws) (sym e) k
  start_word-WordsOf q (c ∷ w) rest ws e h g k =
      word (c ∷ w) rest q ws (record { whole = e; some_text = refl; letters = h; ends = g }) k

  tokens_from-Opened : (q : Codes) → Opened q (tokens_from is_word q)
  unfolding Opened
  tokens_from-Opened [] = ([], refl, tt, no_word)
  tokens_from-Opened (c ∷ cs) =
      let (rest, e, g, k) = tokens_from-Opened cs in
      elim (Bool-cases (is_word c)) [
        | inl letter ↦ rw letter (rest, ap (λ s. c ∷ s) e, g, k)
        | inr space ↦ rw space (
          c ∷ cs,
          refl,
          space,
          gap c cs (start_word (tokens_from is_word cs).0 (tokens_from is_word cs).1) space (
              start_word-WordsOf cs (tokens_from is_word cs).0 rest (tokens_from is_word cs).1 e
                (tokens_from-All cs).0 g k),
        )
      ]

  tokens-WordsOf : (q : Codes) → WordsOf is_word q (tokens is_word q)
  unfolding Opened
  tokens-WordsOf q =
      let (rest, e, g, k) = tokens_from-Opened q in
      start_word-WordsOf q (tokens_from is_word q).0 rest (tokens_from is_word q).1 e
        (tokens_from-All q).0 g k

  unquoted :
      (ws : List Codes) → is_word 34 ≡ false → All IsWord ws → All (All (λ c. (c == 34) ≡ false)) ws
  unquoted [] q h = tt
  unquoted (w ∷ ws) q h = (letters w q h.0, unquoted ws q h.1)
    where
      letters : (w : Codes) → is_word 34 ≡ false → IsWord w → All (λ c. (c == 34) ≡ false) w
      letters [] q h = tt
      letters (c ∷ w) q h = (
        elim (Bool-cases (c == 34)) [
          | inl mark ↦ let e : c ≡ 34 = ground (arith, mark) in cc
          | inr other ↦ other
        ],
        letters w q h.1,
      )

  -- If the quotation mark is no word character, the search string of a query reads as closed phrases
  -- with nothing but blanks and stars between them, whatever operators and marks the query holds; and
  -- the phrases are the words of the query in order, each a whole run of word characters.
  pub fts_match-phrases :
      (query : Codes)
      → is_word 34 ≡ false
      → (phrases false (fts_match is_word query) ≡ some ([], tokens is_word query))
        × WordsOf is_word query (tokens is_word query)
  unfolding fts_match
  fts_match-phrases query q =
      let from = tokens_from is_word query in
      let all = tokens_from-All query in
      (
        read_back (tokens is_word query)
            (unquoted (tokens is_word query) q (start_word-All from.0 from.1 all.0 all.1)),
        tokens-WordsOf query,
      )
