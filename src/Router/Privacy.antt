-- ===== src/Router/Privacy.antt =====
-- What a cloud brain can learn of the results of pinned tools.
use baby.Common.{
  ℕ, ◌≡◌, refl, ap, ap₂, sym, ◌∙◌, Bool, true, ◌&&◌, String, eq_iff, Option, List, [], ◌∷◌, map,
  arith, All, All-imp, ◌⊎◌, inl, inr, if◌then◌else◌,
}
use baby.Message.{Message, Call, is_tool, is_empty, content_len}
use baby.Router.{
  Settings, calls_in, name_of, tool_name, one_of, names_in, pinned_tools_in, redact_row,
  redact_pinned, text_of,
}
use baby.Router.Named.{IsPinnedResult, tool_name-pinned}

-- The two rows are the same, or both are the result of a pinned tool and differ in nothing but the
-- text, which has the same length.
abbrev pub Alike : List Call → List String → Message → Message → Type 0
Alike calls pins m m' =
    (m ≡ m')
    ⊎ ((is_tool m ≡ true)
        × (one_of (tool_name calls m) pins ≡ true)
        × (content_len m ≡ content_len m')
        × (m' ≡ record m { content = m'.content }))

abbrev pub AllAlike : List Call → List String → List Message → List Message → Type 0
AllAlike calls pins [] [] = Unit {0}
AllAlike calls pins (m ∷ ms) (m' ∷ ms') = Alike calls pins m m' × AllAlike calls pins ms ms'
AllAlike calls pins _ _ = ⊥

abbrev pub is_pinned : List Call → List String → Message → Bool
is_pinned calls pins m = is_tool m && one_of (tool_name calls m) pins

Alike-fields :
    (calls : List Call) (pins : List String) (m m' : Message)
    → Alike calls pins m m'
    → (m.role ≡ m'.role) × (m.tool_calls ≡ m'.tool_calls) × (m.tool_call_id ≡ m'.tool_call_id)
Alike-fields calls pins m m' h = elim h [
  | inl e ↦ (ap (λ r. r.role) e, ap (λ r. r.tool_calls) e, ap (λ r. r.tool_call_id) e)
  | inr (t, p, l, e) ↦
      (sym (ap (λ r. r.role) e), sym (ap (λ r. r.tool_calls) e), sym (ap (λ r. r.tool_call_id) e))
]

module _ (calls : List Call) (pins : List String) where
  calls_in-AllAlike :
      (ms ms' : List Message) → AllAlike calls pins ms ms' → calls_in ms ≡ calls_in ms'
  calls_in-AllAlike [] [] h = refl
  calls_in-AllAlike [] (m' ∷ ms') h = absurd h
  calls_in-AllAlike (m ∷ ms) [] h = absurd h
  calls_in-AllAlike (m ∷ ms) (m' ∷ ms') h =
      let (r, c, i) = Alike-fields calls pins m m' h.0 in
      ground (arith, calls_in-AllAlike ms ms' h.1)

  names_in-AllAlike :
      (ms ms' : List Message)
      → AllAlike calls pins ms ms'
      → names_in calls pins ms ≡ names_in calls pins ms'
  names_in-AllAlike [] [] h = refl
  names_in-AllAlike [] (m' ∷ ms') h = absurd h
  names_in-AllAlike (m ∷ ms) [] h = absurd h
  names_in-AllAlike (m ∷ ms) (m' ∷ ms') h =
      let (r, c, i) = Alike-fields calls pins m m' h.0 in
      let same : tool_name calls m ≡ tool_name calls m' = ap (λ x. text_of (name_of x calls)) i in
      ground (arith, names_in-AllAlike ms ms' h.1)

  -- the rows whose names are among those found
  abbrev IsFound : List String → Message → Type 0
  IsFound found m = is_pinned calls pins m ≡ true → one_of (tool_name calls m) found ≡ true

  names_in-IsFound : (ms : List Message) → All (IsFound (names_in calls pins ms)) ms
  names_in-IsFound [] = tt
  names_in-IsFound (m ∷ ms) = (
    λ p. rw p (ground (arith, eq_iff (tool_name calls m) (tool_name calls m))),
    All-imp (IsFound (names_in calls pins ms)) (IsFound (names_in calls pins (m ∷ ms))) ms
        (λ x h p. ground (arith, h p)) (names_in-IsFound ms),
  )

module _ (placeholder : String → ℕ → String) (calls : List Call) (pins found : List String) where
  redact_row-content :
      (m : Message) (text : Option String)
      → is_pinned calls pins m ≡ true
      → IsFound calls pins found m
      → content_len m ≡ content_len (record m { content = text })
      → redact_row placeholder calls found m
        ≡ redact_row placeholder calls found (record m { content = text })
  redact_row-content m text p f l = ground (arith, f p, ap (placeholder (tool_name calls m)) l)

  redact_row-Alike :
      (m m' : Message)
      → Alike calls pins m m'
      → IsFound calls pins found m
      → redact_row placeholder calls found m ≡ redact_row placeholder calls found m'
  redact_row-Alike m m' h f = elim h [
    | inl e ↦ ap (redact_row placeholder calls found) e
    | inr (t, p, l, e) ↦
        redact_row-content m m'.content (ground arith) f (l ∙ ap content_len e)
        ∙ ap (redact_row placeholder calls found) (sym e)
  ]

  map-redact_row :
      (ms ms' : List Message)
      → AllAlike calls pins ms ms'
      → All (IsFound calls pins found) ms
      → map (redact_row placeholder calls found) ms ≡ map (redact_row placeholder calls found) ms'
  map-redact_row [] [] h f = refl
  map-redact_row [] (m' ∷ ms') h f = absurd h
  map-redact_row (m ∷ ms) [] h f = absurd h
  map-redact_row (m ∷ ms) (m' ∷ ms') h f =
      ap₂ ◌∷◌ (redact_row-Alike m m' h.0 f.0) (map-redact_row ms ms' h.1 f.1)

names_in-nil : (calls : List Call) (ms : List Message) → names_in calls [] ms ≡ []
names_in-nil calls [] = refl
names_in-nil calls (m ∷ ms) = ground (arith, names_in-nil calls ms)

pub pinned_tools_in-names_in :
    (cfg : Settings) (ms : List Message)
    → pinned_tools_in cfg ms ≡ names_in (calls_in ms) cfg.privacy_pins ms
unfolding pinned_tools_in
pinned_tools_in-names_in cfg ms = go cfg.privacy_pins
  where
    go :
        (pins : List String)
        → (if is_empty pins then [] else names_in (calls_in ms) pins ms)
          ≡ names_in (calls_in ms) pins ms
    go [] = sym (names_in-nil (calls_in ms) ms)
    go (p ∷ ps) = refl

module _ (placeholder : String → ℕ → String) where
  map-redact_row_nil :
      (calls : List Call) (ms : List Message) → map (redact_row placeholder calls []) ms ≡ ms
  map-redact_row_nil calls [] = refl
  map-redact_row_nil calls (m ∷ ms) = ground (arith, map-redact_row_nil calls ms)

  pub redact_pinned-map :
      (cfg : Settings) (ms : List Message)
      → redact_pinned placeholder cfg ms
        ≡ map (redact_row placeholder (calls_in ms) (names_in (calls_in ms) cfg.privacy_pins ms)) ms
  unfolding redact_pinned
  redact_pinned-map cfg ms =
      rw (pinned_tools_in-names_in cfg ms) (go (names_in (calls_in ms) cfg.privacy_pins ms))
    where
      go :
          (found : List String)
          → (if is_empty found then ms else map (redact_row placeholder (calls_in ms) found) ms)
            ≡ map (redact_row placeholder (calls_in ms) found) ms
      go [] = sym (map-redact_row_nil (calls_in ms) ms)
      go (n ∷ ns) = refl

redact_pinned-AllAlike :
    (placeholder : String → ℕ → String) (cfg : Settings) (ms ms' : List Message)
    → AllAlike (calls_in ms) cfg.privacy_pins ms ms'
    → redact_pinned placeholder cfg ms ≡ redact_pinned placeholder cfg ms'
redact_pinned-AllAlike placeholder cfg ms ms' h =
    let calls = calls_in ms in
    let pins = cfg.privacy_pins in
    let found = names_in calls pins ms in
    let same_calls : calls ≡ calls_in ms' = calls_in-AllAlike calls pins ms ms' h in
    let same_found : found ≡ names_in calls pins ms' = names_in-AllAlike calls pins ms ms' h in
    redact_pinned-map placeholder cfg ms
    ∙ map-redact_row placeholder calls pins found ms ms' h (names_in-IsFound calls pins ms)
    ∙ ap (λ f. map (redact_row placeholder calls f) ms') same_found
    ∙ ap (λ c. map (redact_row placeholder c (names_in c pins ms')) ms') same_calls
    ∙ sym (redact_pinned-map placeholder cfg ms')

-- The rows are the same, or the first is the result of a pinned tool in the conversation `all`, and the
-- second differs from it in nothing but the text, which has the same length.
abbrev pub DifferInSecret : List String → List Message → Message → Message → Type 0
DifferInSecret pins all m m' =
    (m ≡ m')
    ⊎ (IsPinnedResult pins all m
        × (content_len m ≡ content_len m')
        × (m' ≡ record m { content = m'.content }))

abbrev pub AllDifferInSecret : List String → List Message → List Message → List Message → Type 0
AllDifferInSecret pins all [] [] = Unit {0}
AllDifferInSecret pins all (m ∷ ms) (m' ∷ ms') =
    DifferInSecret pins all m m' × AllDifferInSecret pins all ms ms'
AllDifferInSecret pins all _ _ = ⊥

AllDifferInSecret-AllAlike :
    (pins : List String) (all ms ms' : List Message)
    → AllDifferInSecret pins all ms ms'
    → AllAlike (calls_in all) pins ms ms'
AllDifferInSecret-AllAlike pins all [] [] h = tt
AllDifferInSecret-AllAlike pins all [] (m' ∷ ms') h = absurd h
AllDifferInSecret-AllAlike pins all (m ∷ ms) [] h = absurd h
AllDifferInSecret-AllAlike pins all (m ∷ ms) (m' ∷ ms') (inl same, h) =
    (inl same, AllDifferInSecret-AllAlike pins all ms ms' h)
AllDifferInSecret-AllAlike pins all (m ∷ ms) (m' ∷ ms') (inr (r, len, e), h) = (
  inr (r.result, tool_name-pinned pins all m r, len, e),
  AllDifferInSecret-AllAlike pins all ms ms' h,
)

-- Two conversations that differ in nothing but the texts of results of pinned tools, where the id of
-- such a result is that of a call of the pinned tool and of no call of another tool, and the texts have
-- the same lengths, are the same to a cloud brain.
pub redact_pinned_hides :
    (placeholder : String → ℕ → String) (cfg : Settings) (ms ms' : List Message)
    → AllDifferInSecret cfg.privacy_pins ms ms ms'
    → redact_pinned placeholder cfg ms ≡ redact_pinned placeholder cfg ms'
redact_pinned_hides placeholder cfg ms ms' h =
    redact_pinned-AllAlike placeholder cfg ms ms'
      (AllDifferInSecret-AllAlike cfg.privacy_pins ms ms ms' h)
