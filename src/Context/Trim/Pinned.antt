-- ===== src/Context/Trim/Pinned.antt =====
-- What `trim` does to a list of rows as a whole: it drops whole turns from the front of the history,
-- and stops before the last user row.
use mathlib.Core.List.{map-append}
use baby.Common.{
  leb→le, take-append_le, drop-append_le, length-drop_nil, ℕ, zero, suc, ◌+◌, ◌≤◌, ◌<◌, ◌≡◌, refl,
  ap, ◌∙◌, sym, true, none, some, List, [], ◌∷◌, ◌++◌, ◌==◌, leb, length, take, drop,
  take-append-drop, arith, Bool-cases, inl, inr, ◌⊎◌, Option-cases, subst, append-nil,
}
use baby.Message.{Message, is_user}
use baby.Context.{take_tools, drop_tools}
use baby.Context.Valid.{StartsNoTool}
use baby.Context.Trim.{
  Indexed, enumerate, messages_of, indices_of, total_len, estimate_tokens, blocks, last_user,
  droppable, drop_groups, history, trim,
}
use baby.Context.Trim.Skip.{skip, turns, survivors, messages_of-numbered, survivors-eq-skip}
use baby.Context.Trim.Groups.{Whole, none_left, single, call, Dropped, drop_groups-Dropped}

Whole-le : {n : ℕ} (ms : List Message) → Whole n ms → n ≤ length ms
Whole-le ms none_left = omega arith
Whole-le _ (single m {ms = ms} c w) = omega (arith, Whole-le ms w)
Whole-le _ (call {n = n} m {ms = ms} c w e) =
    omega (arith, Whole-le (drop_tools ms) w, tools_split ms)
  where
    tools_split : (ms : List Message) → length (take_tools ms) + length (drop_tools ms) ≡ length ms
    tools_split [] = omega arith
    tools_split (m ∷ ms) = ground (arith, tools_split ms)

take_tools-append : (xs ys : List Message) → StartsNoTool ys → take_tools (xs ++ ys) ≡ take_tools xs
take_tools-append [] [] h = refl
take_tools-append [] (y ∷ ys) h = rw h
take_tools-append (x ∷ xs) ys h = ground (arith, take_tools-append xs ys h)

drop_tools-append :
    (xs ys : List Message) → StartsNoTool ys → drop_tools (xs ++ ys) ≡ drop_tools xs ++ ys
drop_tools-append [] [] h = refl
drop_tools-append [] (y ∷ ys) h = rw h
drop_tools-append (x ∷ xs) ys h = ground (arith, drop_tools-append xs ys h)

Whole-append : {n : ℕ} (xs ys : List Message) → StartsNoTool ys → Whole n xs → Whole n (xs ++ ys)
Whole-append xs ys st none_left = none_left
Whole-append _ ys st (single m {ms = ms} c w) = single m c (Whole-append ms ys st w)
Whole-append _ ys st (call {n = n} m {ms = ms} c w e) =
    call {n = n} m c (rw (drop_tools-append ms ys st) (Whole-append (drop_tools ms) ys st w))
      (rw (take_tools-append ms ys st) e)

last_user-some :
    (xs : List Indexed) (k : ℕ)
    → last_user xs ≡ some k
    → (u : Indexed) × (r : List Indexed) × (drop k xs ≡ u ∷ r) × (is_user u.message ≡ true)
unfolding last_user
last_user-some [] k h = absurd (cc)
last_user-some (x ∷ xs) k h = elim (Option-cases (last_user xs)) [
  | inl e ↦ (x, xs, ground arith, ground arith)
  | inr (j, e) ↦ let (u, r, d, t) = last_user-some xs j e in (u, r, ground arith, t)
]

-- The rows before the last user row, and those from it on.
record Cut (xs : List Indexed) : Type 0 where
  kept_rows : List Indexed
  split : xs ≡ droppable xs ++ kept_rows
  start : StartsNoTool (messages_of kept_rows)

droppable-none : (xs : List Indexed) → last_user xs ≡ none → droppable xs ≡ xs
unfolding droppable
droppable-none xs e = ground arith

pub droppable-some : (xs : List Indexed) (k : ℕ) → last_user xs ≡ some k → droppable xs ≡ take k xs
unfolding droppable
droppable-some xs k e = ground arith

droppable-Cut : (xs : List Indexed) → Cut xs
droppable-Cut xs = elim (Option-cases (last_user xs)) [
  | inl e ↦ record {
    kept_rows = [];
    split = sym (append-nil xs) ∙ ap (λ ys. ys ++ []) (sym (droppable-none xs e));
    start = tt;
  }
  | inr (k, e) ↦
      let (u, r, d, t) = last_user-some xs k e in
      record {
        kept_rows = drop k xs;
        split =
            sym (take-append-drop k xs) ∙ ap (λ ys. ys ++ drop k xs) (sym (droppable-some xs k e));
        start = rw d (ground arith);
      }
]

total_len-append : (xs ys : List Message) → total_len (xs ++ ys) ≡ total_len xs + total_len ys
total_len-append [] ys = omega arith
total_len-append (x ∷ xs) ys = omega (arith, total_len-append xs ys)

drop-messages_of : (n : ℕ) (xs : List Indexed) → drop n (messages_of xs) ≡ messages_of (drop n xs)
drop-messages_of zero xs = refl
drop-messages_of (suc n) [] = refl
drop-messages_of (suc n) (x ∷ xs) = drop-messages_of n xs

length-messages_of : (xs : List Indexed) → length (messages_of xs) ≡ length xs
length-messages_of [] = refl
length-messages_of (x ∷ xs) = ap suc (length-messages_of xs)

-- What is left of the history fits the budget, or it is the current turn alone.
abbrev pub Enough : List Message → ℕ → ℕ → Type 0
Enough ms budget n =
    (estimate_tokens (drop n (turns ms)) ≤ budget) ⊎ (n ≡ length (droppable (history ms)))

-- What is known of every call of `trim`.
pub record Trimmed (ms : List Message) (budget : ℕ) : Type 0 where
  pub count : ℕ
  pub result : trim ms budget ≡ skip count ms
  pub whole : Whole count (turns ms)
  pub within : count ≤ length (droppable (history ms))
  pub fits : 0 < budget → Enough ms budget count

module _ (ms : List Message) (budget : ℕ) where
  abbrev rows : List Indexed
  rows = history ms

  abbrev old : List Indexed
  old = droppable rows

  abbrev tokens : ℕ
  tokens = estimate_tokens (messages_of rows)

  abbrev loop : List ℕ
  loop = drop_groups budget tokens (blocks (suc (length old)) old)

  trim-loop : 0 < budget → budget < tokens → trim ms budget ≡ survivors loop (enumerate 0 ms)
  unfolding trim
  trim-loop pos over = ground arith

  trim-same : (budget ≡ 0) ⊎ (tokens ≤ budget) → trim ms budget ≡ ms
  unfolding trim
  trim-same h = ground arith

  unchanged : (budget ≡ 0) ⊎ (tokens ≤ budget) → Trimmed ms budget
  unchanged h = record {
    count = 0;
    result = trim-same h ∙ (unfold skip in refl);
    whole = none_left;
    within = omega arith;
    fits = λ pos. inl (rw (← messages_of-numbered 0 ms) (omega arith));
  }

  module _ (d : Dropped budget tokens loop old) (c : Cut rows) (le : d.count ≤ length old) where
    rest : List Message
    rest = messages_of c.kept_rows

    turns-split : turns ms ≡ messages_of old ++ rest
    unfolding rest
    turns-split =
        sym (messages_of-numbered 0 ms)
        ∙ ap messages_of c.split
        ∙ map-append (λ (x : Indexed). x.message) old c.kept_rows

    take-rows : take d.count old ≡ take d.count rows
    take-rows = sym (take-append_le d.count old c.kept_rows le) ∙ ap (take d.count) (sym c.split)

    drop-turns : drop d.count (turns ms) ≡ messages_of (drop d.count old) ++ rest
    drop-turns =
        ap (drop d.count) turns-split
        ∙ drop-append_le d.count (messages_of old) rest (omega (arith, length-messages_of old))
        ∙ ap (λ xs. xs ++ rest) (drop-messages_of d.count old)

    loop-Enough : Enough ms budget d.count
    loop-Enough =
        elim (d.fits (total_len rest) (
          omega (
            arith,
            ap total_len turns-split,
            ap total_len (messages_of-numbered 0 ms),
            total_len-append (messages_of old) rest,
          ))) [
            | inl fits ↦ inl (
                omega (
                  arith,
                  ap total_len drop-turns,
                  total_len-append (messages_of (drop d.count old)) rest,
                ))
            | inr all ↦ inr (omega (arith, length-drop_nil d.count old all))
          ]

    loop-Trimmed : 0 < budget → budget < tokens → Trimmed ms budget
    loop-Trimmed pos over = record {
      count = d.count;
      result =
          trim-loop pos over
          ∙ ap (λ gone. survivors gone (enumerate 0 ms)) (d.prefix ∙ ap indices_of take-rows)
          ∙ survivors-eq-skip d.count 0 ms;
      whole =
          subst (Whole d.count) (sym turns-split)
            (Whole-append (messages_of old) rest (unfold rest in c.start) d.whole);
      within = le;
      fits = λ _. loop-Enough;
    }

  changed : 0 < budget → budget < tokens → Trimmed ms budget
  changed pos over =
      let d : Dropped budget tokens loop old =
        drop_groups-Dropped budget tokens (suc (length old)) old (omega arith) in
      loop-Trimmed d (droppable-Cut rows)
        (omega (arith, Whole-le (messages_of old) d.whole, length-messages_of old)) pos over

  pub trim-Trimmed : Trimmed ms budget
  trim-Trimmed = elim (Bool-cases (budget == 0)) [
    | inl z ↦ unchanged (inl (ground arith))
    | inr nz ↦ elim (Bool-cases (leb tokens budget)) [
      | inl fits ↦ unchanged (inr (leb→le tokens budget fits))
      | inr over ↦ changed (ground arith) (ground arith)
    ]
  ]
