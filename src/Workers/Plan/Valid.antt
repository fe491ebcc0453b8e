-- ===== src/Workers/Plan/Valid.antt =====
-- What a plan holds, and that prose around the JSON does not matter.
use baby.Common.{
  ℕ, ◌⊎◌, zero, suc, ◌+◌, ◌-◌, ◌≤◌, ◌≡◌, refl, sym, ap, ◌∙◌, false, ◌||◌, Option, none, some, List,
  [], ◌∷◌, ◌++◌, append_assoc, take, drop, length, leb, take-append, length-append, any, All, arith,
  ◌==◌, Bool-cases, Option-cases, inl, inr,
}
use baby.Message.{Role, is_empty}
use baby.Text.Words.{Codes, strip}
use baby.Workers.Plan.{
  find_char, rfind_char, Item, no_dict, dict, Loaded, unreadable, no_list, items, Subtask, collect,
  bounded, read_items, braces, parse_plan, read_text, or_retry, Answer, said, raises, is_cancelled,
  Planned, plan, with_plan, first_call, second_call, second_try, first_try, make_plan,
}

-- A title and a spec that are not empty.
abbrev pub IsUsable : Subtask → Type 0
IsUsable s = (is_empty s.title ≡ false) × (is_empty s.spec ≡ false)

-- Usable subtasks, at most `n`, and, if `n` is not 0, one at least.
abbrev pub Bounded : ℕ → List Subtask → Type 0
Bounded n ps = All IsUsable ps × (length ps ≤ n) × ((n ≡ 0) ⊎ (is_empty ps ≡ false))

abbrev pub IsPlan : ℕ → Option (List Subtask) → Type 0
IsPlan n none = Unit {0}
IsPlan n (some ps) = Bounded n ps

abbrev AllUsable : Option (List Subtask) → Type 0
AllUsable none = Unit {0}
AllUsable (some ps) = All IsUsable ps

collect_usable : (raw : List Item) → AllUsable (collect raw)
collect_usable [] = tt
collect_usable (no_dict ∷ rest) = tt
collect_usable (dict t s ∷ rest) = elim (Bool-cases (is_empty (strip t) || is_empty (strip s))) [
  | inl blank ↦ rw blank tt
  | inr full ↦ rw full (more (collect rest) (collect_usable rest) (ground (arith, full)))
]
  where
    more :
        (o : Option (List Subtask))
        → AllUsable o
        → IsUsable (record { title = strip t; spec = strip s })
        → AllUsable (elim o [
          | none ↦ none
          | some ps ↦ some ((record { title = strip t; spec = strip s }) ∷ ps)
        ])
    more none h u = tt
    more (some ps) h u = (u, h)

take-IsUsable :
    (n : ℕ) (ps : List Subtask)
    → All IsUsable ps
    → All IsUsable (take n ps) × (length (take n ps) ≤ n)
take-IsUsable zero ps h = (tt, omega arith)
take-IsUsable (suc n) [] h = (tt, omega arith)
take-IsUsable (suc n) (p ∷ ps) h =
    let rest = take-IsUsable n ps h.1 in ((h.0, rest.0), omega (arith, rest.1))

bounded-IsPlan : (n : ℕ) (o : Option (List Subtask)) → AllUsable o → IsPlan n (bounded n o)
bounded-IsPlan n none h = tt
bounded-IsPlan n (some []) h = tt
bounded-IsPlan zero (some (p ∷ ps)) h = (tt, omega arith, inl refl)
bounded-IsPlan (suc n) (some (p ∷ ps)) h =
    let rest = take-IsUsable (suc n) (p ∷ ps) h in (rest.0, rest.1, inr refl)

read_items-IsPlan : (n : ℕ) (l : Loaded) → IsPlan n (read_items n l)
read_items-IsPlan n unreadable = tt
read_items-IsPlan n no_list = tt
read_items-IsPlan n (items raw) = bounded-IsPlan n (collect raw) (collect_usable raw)

parse_plan-IsPlan :
    (loads : Codes → Loaded) (text : Codes) (n : ℕ) → IsPlan n (parse_plan loads text n)
unfolding parse_plan
parse_plan-IsPlan loads text n = go (braces (find_char 123 text) (rfind_char 125 text) text)
  where
    go : (o : Option Codes) → IsPlan n (read_text loads n o)
    go none = tt
    go (some json) = read_items-IsPlan n (loads json)

find_char_first :
    (c : ℕ) (pre rest : Codes)
    → any (λ d. d == c) pre ≡ false
    → find_char c (pre ++ (c ∷ rest)) ≡ some (length pre)
find_char_first c [] rest h = elim (Option-cases (find_char c rest)) [
  | inl last ↦ ground (arith, last)
  | inr (i, more) ↦ ground (arith, more)
]
find_char_first c (d ∷ pre) rest h = ground (arith, find_char_first c pre rest, h)

rfind_char-none : (c : ℕ) (s : Codes) → any (λ d. d == c) s ≡ false → rfind_char c s ≡ none
rfind_char-none c [] h = refl
rfind_char-none c (d ∷ s) h = ground (arith, rfind_char-none c s, h)

rfind_char_last :
    (c : ℕ) (pre rest : Codes)
    → any (λ d. d == c) rest ≡ false
    → rfind_char c (pre ++ (c ∷ rest)) ≡ some (length pre)
rfind_char_last c [] rest h = ground (arith, rfind_char-none c rest h)
rfind_char_last c (d ∷ pre) rest h = ground (arith, rfind_char_last c pre rest h)

drop-append : (pre rest : Codes) → drop (length pre) (pre ++ rest) ≡ rest
drop-append [] rest = refl
drop-append (c ∷ pre) rest = drop-append pre rest

-- an object of JSON, with what is between its braces
abbrev pub object : Codes → Codes
object mid = 123 ∷ (mid ++ (125 ∷ []))

-- the slice from the first place to the last
cut_between :
    (pre mid suf : Codes) (last : ℕ)
    → last ≡ length pre + suc (length mid)
    → braces (some (length pre)) (some last) (pre ++ (object mid ++ suf)) ≡ some (object mid)
cut_between pre mid suf last e =
    let beyond : leb last (length pre) ≡ false = ground (arith, e) in
    let size : suc last - length pre ≡ length (object mid) =
      omega (arith, e, length-append mid (125 ∷ [])) in
    rw (beyond, drop-append pre (object mid ++ suf), size, take-append (object mid) suf) refl

cut_out :
    (pre mid suf : Codes)
    → any (λ d. d == 123) pre ≡ false
    → any (λ d. d == 125) suf ≡ false
    → braces
        (find_char 123 (pre ++ (object mid ++ suf)))
        (rfind_char 125 (pre ++ (object mid ++ suf)))
        (pre ++ (object mid ++ suf))
      ≡ some (object mid)
cut_out pre mid suf h k =
    let text = pre ++ (object mid ++ suf) in
    let shape : text ≡ (pre ++ (123 ∷ mid)) ++ (125 ∷ suf) =
      ap (λ s. pre ++ (123 ∷ s)) (append_assoc mid (125 ∷ []) suf)
      ∙ sym (append_assoc pre (123 ∷ mid) (125 ∷ suf)) in
    ap (λ o. braces o (rfind_char 125 text) text)
      (find_char_first 123 pre ((mid ++ (125 ∷ [])) ++ suf) h)
    ∙ ap (λ o. braces (some (length pre)) o text)
        (ap (rfind_char 125) shape ∙ rfind_char_last 125 (pre ++ (123 ∷ mid)) suf k)
    ∙ cut_between pre mid suf (length (pre ++ (123 ∷ mid))) (length-append pre (123 ∷ mid))

-- Prose and fences around the object of JSON do not matter, as long as there is no opening brace before
-- it and no closing brace after it; and whatever the text, a plan that is read has at most `n` subtasks,
-- each with a title and a spec that are not empty, and at least one if `n` is not 0.
pub parse_plan_lem :
    (loads : Codes → Loaded) (n : ℕ) (pre mid suf text : Codes)
    → any (λ d. d == 123) pre ≡ false
    → any (λ d. d == 125) suf ≡ false
    → (parse_plan loads (pre ++ (object mid ++ suf)) n ≡ read_items n (loads (object mid)))
      × IsPlan n (parse_plan loads text n)
unfolding parse_plan
parse_plan_lem loads n pre mid suf text h k =
    (ap (read_text loads n) (cut_out pre mid suf h k), parse_plan-IsPlan loads text n)

-- What is made of a plan is what a parsed one is.
abbrev pub IsMade : ℕ → Planned → Type 0
IsMade n (plan ps) = Bounded n ps
IsMade n _ = Unit {0}

module _ (loads : Codes → Loaded) (plan_prompt : ℕ → Codes) (retry_prompt : Codes)
    (chat : List (Role × Codes) → Answer) where
  with_plan-IsMade : (n : ℕ) (o : Option (List Subtask)) → IsPlan n o → IsMade n (with_plan o)
  with_plan-IsMade n none h = tt
  with_plan-IsMade n (some ps) h = h

  second_try-IsMade :
      (n : ℕ) (a : Answer) → IsMade n (second_try loads plan_prompt retry_prompt chat n a)
  second_try-IsMade n (said text) =
      with_plan-IsMade n (parse_plan loads text n) (parse_plan-IsPlan loads text n)
  second_try-IsMade n (raises e) = tt
  second_try-IsMade n is_cancelled = tt

  or_retry-IsMade :
      (n : ℕ) (spec text : Codes) (o : Option (List Subtask))
      → IsPlan n o
      → IsMade n (or_retry loads plan_prompt retry_prompt chat n spec text o)
  or_retry-IsMade n spec text none h =
      second_try-IsMade n (chat (second_call loads plan_prompt retry_prompt chat n spec text))
  or_retry-IsMade n spec text (some ps) h = h

  first_try-IsMade :
      (n : ℕ) (spec : Codes) (a : Answer)
      → IsMade n (first_try loads plan_prompt retry_prompt chat n spec a)
  first_try-IsMade n spec (said text) =
      or_retry-IsMade n spec text (parse_plan loads text n) (parse_plan-IsPlan loads text n)
  first_try-IsMade n spec (raises e) = tt
  first_try-IsMade n spec is_cancelled = tt

  -- A plan that `make_plan` gives, after one call or two, has at most `n` subtasks, each with a title and a
  -- spec that are not empty, and at least one if `n` is not 0.
  pub make_plan-IsMade :
      (n : ℕ) (spec : Codes) → IsMade n (make_plan loads plan_prompt retry_prompt chat n spec)
  unfolding make_plan
  make_plan-IsMade n spec =
      first_try-IsMade n spec (chat (first_call loads plan_prompt retry_prompt chat n spec))
