-- ===== src/Context/Idempotent.antt =====
-- `sanitize_messages` leaves a valid sequence alone, and reports every row that it drops.
use baby.Common.{
  ℕ, zero, suc, ◌+◌, ◌<◌, ◌≡◌, refl, ap, Bool, true, String, List, [], ◌∷◌, ◌++◌, All, All-append,
  All-imp, arith, map, length, length-append, filter, filter-eq_self,
}
use baby.Message.{Call, Message, Id?, has, is_caller}
use baby.Context.{
  Outcome, note, kept, stage, repair, normalise, valid_json, pair_up, take_tools, drop_tools,
  sanitize_messages, answer_block, split_answers, append_outcome, call_ids, answer_ids,
  orphaned_answer,
}
use baby.Context.Valid.{
  is_plain, is_answer, Unseen, Answers, StartsNoTool, Valid, done, plain, block,
}
use baby.Context.Sanitize.{sanitize_messages-Valid}

split_answers-id :
    (ids seen : List Id?) (rows : List Message)
    → All (λ a. is_answer ids a ≡ true) rows
    → Unseen seen rows
    → split_answers ids seen rows ≡ (rows, [])
unfolding split_answers
split_answers-id ids seen [] h u = refl
split_answers-id ids seen (a ∷ r) h u =
    ground (arith, split_answers-id ids (a.tool_call_id ∷ seen) r h.1 u.1)

answer_block-id :
    (m : Message) (rows : List Message)
    → is_caller m ≡ true
    → Answers m.tool_calls rows
    → answer_block m rows ≡ (m ∷ rows, [])
unfolding answer_block
answer_block-id m rows c a =
    rw (filter-eq_self (λ (d : Call). has d.id (answer_ids rows)) m.tool_calls a.each_call)
      (rw (split_answers-id (call_ids m.tool_calls) [] rows a.each_row a.no_repeat) (ground arith))

module _ (ids : List Id?) where
  pub take_tools-answers :
      (rows rest : List Message)
      → All (λ a. is_answer ids a ≡ true) rows
      → StartsNoTool rest
      → take_tools (rows ++ rest) ≡ rows
  take_tools-answers [] [] h st = refl
  take_tools-answers [] (m ∷ ms) h st = rw st
  take_tools-answers (a ∷ r) rest h st = ground (arith, take_tools-answers r rest h.1 st)

  pub drop_tools-answers :
      (rows rest : List Message)
      → All (λ a. is_answer ids a ≡ true) rows
      → StartsNoTool rest
      → drop_tools (rows ++ rest) ≡ rest
  drop_tools-answers [] [] h st = refl
  drop_tools-answers [] (m ∷ ms) h st = rw st
  drop_tools-answers (a ∷ r) rest h st = ground (arith, drop_tools-answers r rest h.1 st)

module _ (loads : String → Bool) where
  map-repair_id :
      (cs : List Call)
      → All (λ c. valid_json loads c.arguments ≡ true) cs
      → map (repair loads) cs ≡ cs
  unfolding repair
  map-repair_id [] h = refl
  map-repair_id (c ∷ cs) h = ground (arith, map-repair_id cs h.1)

  stage-plain : (m : Message) → is_plain m ≡ true → stage loads m ≡ kept m
  unfolding stage
  stage-plain m h = ground arith

  stage-answer : (ids : List Id?) (m : Message) → is_answer ids m ≡ true → stage loads m ≡ kept m
  unfolding stage
  stage-answer ids m h = ground arith

  stage-caller :
      (m : Message)
      → is_caller m ≡ true
      → All (λ c. valid_json loads c.arguments ≡ true) m.tool_calls
      → stage loads m ≡ kept m
  unfolding stage
  stage-caller m c h = rw (map-repair_id m.tool_calls h) (ground arith)

  normalise-id :
      (ms : List Message) → All (λ m. stage loads m ≡ kept m) ms → normalise loads ms ≡ (ms, [])
  unfolding normalise
  normalise-id [] h = refl
  normalise-id (m ∷ ms) h = rw (h.0, normalise-id ms h.1)

  Valid-staged : (ms : List Message) → Valid loads ms → All (λ m. stage loads m ≡ kept m) ms
  Valid-staged _ done = tt
  Valid-staged _ (plain m p v) = (stage-plain m p, Valid-staged _ v)
  Valid-staged _ (block m answers rest c args a st v e) = (
    stage-caller m c args,
    rw e (
        All-append (λ m. stage loads m ≡ kept m) answers rest
          (All-imp (λ a. is_answer (call_ids m.tool_calls) a ≡ true) (λ m. stage loads m ≡ kept m)
            answers (λ x h. stage-answer (call_ids m.tool_calls) x h) a.each_row)
          (Valid-staged _ v)),
  )

  pair_up-id :
      (fuel : ℕ) (ms : List Message)
      → Valid loads ms
      → length ms < fuel
      → pair_up fuel ms ≡ (ms, [])
  unfolding pair_up
  pair_up-id zero ms v h = absurd (omega arith)
  pair_up-id (suc fuel) _ done h = refl
  pair_up-id (suc fuel) _ (plain m {ms = ms} p v) h = ground (arith, pair_up-id fuel ms v)
  pair_up-id (suc fuel) _ (block m answers rest {ms = ms} c args a st v e) h = rw c (
      rw e (
        rw (
          take_tools-answers (call_ids m.tool_calls) answers rest a.each_row st,
          drop_tools-answers (call_ids m.tool_calls) answers rest a.each_row st,
          answer_block-id m answers c a,
          pair_up-id fuel rest v (omega (arith, ap length e, length-append answers rest)),
        )))

-- A valid sequence passes through unchanged, with nothing to report.
pub sanitize_messages-id :
    (loads : String → Bool) (ms : List Message)
    → Valid loads ms
    → sanitize_messages loads ms ≡ (ms, [])
unfolding sanitize_messages
sanitize_messages-id loads ms v = rw (
  normalise-id loads ms (Valid-staged loads ms v),
  pair_up-id loads (suc (length ms)) ms v (omega arith),
)

-- To sanitize twice is to sanitize once; the second run reports nothing.
pub sanitize_messages_idempotent :
    (loads : String → Bool) (ms : List Message)
    → loads "{}" ≡ true
    → let out = (sanitize_messages loads ms).0 in sanitize_messages loads out ≡ (out, [])
sanitize_messages_idempotent loads ms h =
    sanitize_messages-id loads (sanitize_messages loads ms).0 (sanitize_messages-Valid loads ms h)

-- the rows that come out and the rows that are reported
abbrev size : Outcome → ℕ
size r = length r.0 + length r.1

size-append : (a b : Outcome) → size (append_outcome a b) ≡ size a + size b
size-append a b = omega (arith, length-append a.0 b.0, length-append a.1 b.1)

size-split_answers :
    (ids seen : List Id?) (run : List Message) → size (split_answers ids seen run) ≡ length run
unfolding split_answers
size-split_answers ids seen [] = refl
size-split_answers ids seen (a ∷ r) =
    ground (arith, size-split_answers ids (a.tool_call_id ∷ seen) r)

length-map {ℓ κ} :
    {A : Type ℓ} {B : Type κ} (f : A → B) (xs : List A) → length (map f xs) ≡ length xs
length-map f [] = refl
length-map f (x ∷ xs) = ap suc (length-map f xs)

size-answer_block :
    (m : Message) (run : List Message) → size (answer_block m run) ≡ suc (length run)
unfolding answer_block
size-answer_block m run = ground (
  arith,
  size-split_answers (call_ids (filter (λ (c : Call). has c.id (answer_ids run)) m.tool_calls)) []
      run,
  length-map (λ (a : Message). note a orphaned_answer) run,
)

size-normalise : (loads : String → Bool) (ms : List Message) → size (normalise loads ms) ≡ length ms
unfolding normalise
size-normalise loads [] = refl
size-normalise loads (m ∷ ms) = ground (arith, size-normalise loads ms)

tools_split : (ms : List Message) → length (take_tools ms) + length (drop_tools ms) ≡ length ms
tools_split [] = omega arith
tools_split (m ∷ ms) = ground (arith, tools_split ms)

size-pair_up :
    (fuel : ℕ) (ms : List Message) → length ms < fuel → size (pair_up fuel ms) ≡ length ms
unfolding pair_up
size-pair_up zero ms h = absurd (omega arith)
size-pair_up (suc fuel) [] h = refl
size-pair_up (suc fuel) (m ∷ ms) h = ground (
  arith,
  size-append (answer_block m (take_tools ms)) (pair_up fuel (drop_tools ms)),
  size-answer_block m (take_tools ms),
  size-pair_up fuel ms,
  size-pair_up fuel (drop_tools ms),
  tools_split ms,
)

-- No row is lost unseen: each row of the input comes out or is reported as dropped.
pub sanitize_messages_accounts :
    (loads : String → Bool) (ms : List Message)
    → length (sanitize_messages loads ms).0 + length (sanitize_messages loads ms).1 ≡ length ms
unfolding sanitize_messages
sanitize_messages_accounts loads ms =
    let staged = (normalise loads ms).0 in
    omega (
      arith,
      size-normalise loads ms,
      size-pair_up (suc (length staged)) staged,
      length-append (normalise loads ms).1 (pair_up (suc (length staged)) staged).1,
    )
