-- ===== src/Context/Sanitize.antt =====
-- What `sanitize_messages` returns is valid, whatever it was given.
use baby.Common.{
  ℕ, zero, suc, ◌≡◌, refl, Bool, true, false, String, List, [], ◌∷◌, ◌++◌, All, arith, map,
  Bool-cases, inl, inr, length,
}
use baby.Message.{Call, Message, is_tool, is_assistant, is_caller, is_known, has_content}
use baby.Context.{
  Staged, kept, dropped, stage, repair, add_staged, normalise, valid_json, pair_up, take_tools,
  drop_tools, sanitize_messages, answer_block,
}
use baby.Context.Valid.{StartsNoTool, Valid, done, plain}
use baby.Context.Answers.{IsRow, answer_block-Valid}

module _ (loads : String → Bool) where
  -- what pass 1 leaves: calls with arguments that parse, and rows that are not blank
  record Clean (m : Message) : Type 0 where
    arguments : is_caller m ≡ true → All (λ c. valid_json loads c.arguments ≡ true) m.tool_calls
    rows : is_caller m ≡ false → (is_known m ≡ true) × (has_content m ≡ true)

  repair-loads : loads "{}" ≡ true → (c : Call) → valid_json loads (repair loads c).arguments ≡ true
  unfolding repair
  repair-loads h c = ground arith

  map-repair :
      loads "{}" ≡ true
      → (cs : List Call) → All (λ c. valid_json loads c.arguments ≡ true) (map (repair loads) cs)
  map-repair h [] = tt
  map-repair h (c ∷ cs) = (repair-loads h c, map-repair h cs)

  stage-Clean : loads "{}" ≡ true → (m m' : Message) → stage loads m ≡ kept m' → Clean m'
  unfolding stage
  stage-Clean h m m' e = elim (Bool-cases (is_caller m)) [
    | inl c ↦
        let e' : m'.tool_calls ≡ map (repair loads) m.tool_calls = ground arith in
        record { arguments = λ _. rw e' (map-repair h m.tool_calls); rows = λ n. ground arith }
    | inr n ↦ record { arguments = λ c. ground arith; rows = λ _. ground arith }
  ]

  normalise-Clean : loads "{}" ≡ true → (ms : List Message) → All Clean (normalise loads ms).0
  unfolding normalise
  normalise-Clean h [] = tt
  normalise-Clean h (m ∷ ms) = go (stage loads m) refl (normalise-Clean h ms)
    where
      go :
          (s : Staged)
          → stage loads m ≡ s
          → All Clean (normalise loads ms).0
          → All Clean (add_staged m s (normalise loads ms)).0
      go (kept m') e ih = (stage-Clean h m m' e, ih)
      go (dropped w) e ih = ih

  take_tools-IsRow : (ms : List Message) → All Clean ms → All IsRow (take_tools ms)
  take_tools-IsRow [] h = tt
  take_tools-IsRow (m ∷ ms) h = elim (Bool-cases (is_tool m)) [
    | inl t ↦ rw t ((t, (h.0.rows (ground arith)).1), take_tools-IsRow ms h.1)
    | inr n ↦ rw n tt
  ]

  drop_tools-Clean : (ms : List Message) → All Clean ms → All Clean (drop_tools ms)
  drop_tools-Clean [] h = tt
  drop_tools-Clean (m ∷ ms) h = elim (Bool-cases (is_tool m)) [
    | inl t ↦ rw t (drop_tools-Clean ms h.1)
    | inr n ↦ rw n h
  ]

  answer_block-StartsNoTool :
      (m : Message) (run rest : List Message)
      → is_assistant m ≡ true
      → StartsNoTool rest
      → StartsNoTool ((answer_block m run).0 ++ rest)
  unfolding answer_block has_content
  answer_block-StartsNoTool m run rest a h = ground arith

  pair_up-StartsNoTool : (fuel : ℕ) (ms : List Message) → StartsNoTool (pair_up fuel ms).0
  unfolding pair_up
  pair_up-StartsNoTool zero ms = tt
  pair_up-StartsNoTool (suc fuel) [] = tt
  pair_up-StartsNoTool (suc fuel) (m ∷ ms) = elim (Bool-cases (is_caller m)) [
    | inl c ↦ rw c (
        answer_block-StartsNoTool m (take_tools ms) (pair_up fuel (drop_tools ms)).0 (ground arith)
          (pair_up-StartsNoTool fuel (drop_tools ms)))
    | inr n ↦ rw n (elim (Bool-cases (is_tool m)) [
      | inl t ↦ rw t (pair_up-StartsNoTool fuel ms)
      | inr p ↦ rw p p
    ])
  ]

  pair_up-Valid : (fuel : ℕ) (ms : List Message) → All Clean ms → Valid loads (pair_up fuel ms).0
  unfolding pair_up
  pair_up-Valid zero ms h = done
  pair_up-Valid (suc fuel) [] h = done
  pair_up-Valid (suc fuel) (m ∷ ms) h = elim (Bool-cases (is_caller m)) [
    | inl c ↦ rw c (
        answer_block-Valid loads m (take_tools ms) (pair_up fuel (drop_tools ms)).0 (ground arith)
          (h.0.arguments c) (take_tools-IsRow ms h.1) (pair_up-StartsNoTool fuel (drop_tools ms))
          (pair_up-Valid fuel (drop_tools ms) (drop_tools-Clean ms h.1)))
    | inr n ↦ rw n (elim (Bool-cases (is_tool m)) [
      | inl t ↦ rw t (pair_up-Valid fuel ms h.1)
      | inr p ↦ rw p (plain m (ground (arith, h.0.rows n)) (pair_up-Valid fuel ms h.1))
    ])
  ]

-- Whatever it is given, `sanitize_messages` returns a valid sequence; all that it asks of the JSON
-- parser is that it takes "{}".
pub sanitize_messages-Valid :
    (loads : String → Bool) (ms : List Message)
    → loads "{}" ≡ true
    → Valid loads (sanitize_messages loads ms).0
unfolding sanitize_messages
sanitize_messages-Valid loads ms h =
    let staged = (normalise loads ms).0 in
    pair_up-Valid loads (suc (length staged)) staged (normalise-Clean loads h ms)
