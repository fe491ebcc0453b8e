-- ===== src/Context/Trim/Laws.antt =====
-- What `trim` keeps, and what it achieves.
use Prim.Native.Nat.add
use baby.Common.{
  ℕ, zero, suc, ◌+◌, ◌≤◌, ◌<◌, ◌≡◌, refl, ap, ◌∙◌, sym, Bool, true, false, none, some, List, [],
  ◌∷◌, ◌++◌, String, length, filter, take, drop, arith, All, Bool-cases, inl, inr, ◌⊎◌, subst,
}
use baby.Message.{Message, Id?, is_system, is_user, is_caller}
use baby.Context.{take_tools, drop_tools, call_ids}
use baby.Context.Valid.{StartsNoTool, Valid, done, plain, block, is_answer}
use baby.Context.Idempotent.{take_tools-answers, drop_tools-answers}
use baby.Context.Trim.{estimate_tokens, last_user, droppable, history, trim}
use baby.Context.Trim.Skip.{skip, turns, numbered}
use baby.Context.Trim.Groups.{Whole, single, call}
use baby.Context.Trim.Pinned.{Trimmed, trim-Trimmed, droppable-some}

systems-skip : (n : ℕ) (ms : List Message) → filter is_system (skip n ms) ≡ filter is_system ms
unfolding skip
systems-skip zero ms = refl
systems-skip (suc n) [] = refl
systems-skip (suc n) (m ∷ ms) = ground (arith, systems-skip (suc n) ms, systems-skip n ms)

-- Every system row stays, and in order, whatever the budget.
pub trim-systems :
    (ms : List Message) (budget : ℕ) → filter is_system (trim ms budget) ≡ filter is_system ms
trim-systems ms budget =
    let t : Trimmed ms budget = trim-Trimmed ms budget in
    ap (filter is_system) t.result ∙ systems-skip t.count ms

turns-skip : (n : ℕ) (ms : List Message) → turns (skip n ms) ≡ drop n (turns ms)
unfolding skip
turns-skip zero ms = refl
turns-skip (suc n) [] = refl
turns-skip (suc n) (m ∷ ms) = ground (arith, turns-skip (suc n) ms, turns-skip n ms)

-- A whole number of groups is dropped from a valid sequence.
module _ (loads : String → Bool) where
  StartsNoTool-turns : (ms : List Message) → Valid loads ms → StartsNoTool (turns ms)
  StartsNoTool-turns _ done = tt
  StartsNoTool-turns _ (plain m {ms = ms} p v) = ground (arith, StartsNoTool-turns ms v)
  StartsNoTool-turns _ (block m answers rest c args a st v e) = ground arith

  turns-answers :
      (ids : List Id?) (rows rest : List Message)
      → All (λ a. is_answer ids a ≡ true) rows
      → turns (rows ++ rest) ≡ rows ++ turns rest
  turns-answers ids [] rest h = refl
  turns-answers ids (a ∷ r) rest h = ground (arith, turns-answers ids r rest h.1)

  skip-answers :
      (ids : List Id?) (n : ℕ) (rows rest : List Message)
      → All (λ a. is_answer ids a ≡ true) rows
      → skip (length rows + n) (rows ++ rest) ≡ skip n rest
  unfolding skip
  skip-answers ids n [] rest h = rw (add.zero n)
  skip-answers ids n (a ∷ r) rest h =
      let visible : is_system a ≡ false = ground arith in
      rw (add.suc (length r) n, visible) (skip-answers ids n r rest h.1)

  Whole-single :
      {n : ℕ} {m : Message} {ms : List Message}
      → Whole (suc n) (m ∷ ms)
      → is_caller m ≡ false
      → Whole n ms
  Whole-single (single m c w) h = w
  Whole-single (call m c w e) h = absurd (cc)

  Whole-call :
      {n : ℕ} {m : Message} {ms : List Message}
      → Whole (suc n) (m ∷ ms)
      → is_caller m ≡ true
      → (k : ℕ) × Whole k (drop_tools ms) × (n ≡ length (take_tools ms) + k)
  Whole-call (single m c w) h = absurd (cc)
  Whole-call (call {n = k} m c w e) h = (k, w, omega arith)

  skip-Valid :
      (n : ℕ) (ms : List Message) → Valid loads ms → Whole n (turns ms) → Valid loads (skip n ms)
  unfolding skip
  skip-Valid zero ms v w = v
  skip-Valid (suc n) _ done w = done
  skip-Valid (suc n) _ (plain m {ms = ms} p v) w = elim (Bool-cases (is_system m)) [
    | inl s ↦ rw s (plain m p (skip-Valid (suc n) ms v (rw s at w)))
    | inr t ↦ rw t (skip-Valid n ms v (Whole-single (rw t at w) (ground arith)))
  ]
  skip-Valid (suc n) _ (block m answers rest {ms = ms} c args a st v e) w =
      let ids = call_ids m.tool_calls in
      let visible : is_system m ≡ false = ground arith in
      let shown : turns ms ≡ answers ++ turns rest =
        ap turns e ∙ turns-answers ids answers rest a.each_row in
      let after : StartsNoTool (turns rest) = StartsNoTool-turns rest v in
      let (k, w', len) = Whole-call (rw visible at w) c in
      let left : drop_tools (turns ms) ≡ turns rest =
        ap drop_tools shown ∙ drop_tools-answers ids answers (turns rest) a.each_row after in
      let taken : take_tools (turns ms) ≡ answers =
        ap take_tools shown ∙ take_tools-answers ids answers (turns rest) a.each_row after in
      rw visible (
        rw (len, taken, e, skip-answers ids k answers rest a.each_row)
          (skip-Valid k rest v (subst (Whole k) left w')))

-- Trimming a valid sequence leaves a valid one: no call is parted from its answers.
pub trim-Valid :
    (loads : String → Bool) (ms : List Message) (budget : ℕ)
    → Valid loads ms
    → Valid loads (trim ms budget)
trim-Valid loads ms budget v =
    let t : Trimmed ms budget = trim-Trimmed ms budget in
    subst (Valid loads) (sym t.result) (skip-Valid loads t.count ms v t.whole)

-- The current turn: a user row with no user row behind it.
module _ (before : List Message) (u : Message) (after : List Message) (asked : is_user u ≡ true)
    (last : All (λ m. is_user m ≡ false) after) where
  abbrev conversation : List Message
  conversation = before ++ u ∷ after

  last_user-none :
      (i : ℕ) (ms : List Message)
      → All (λ m. is_user m ≡ false) ms
      → last_user (numbered i ms) ≡ none
  unfolding last_user
  last_user-none i [] h = refl
  last_user-none i (m ∷ ms) h = ground (arith, last_user-none (suc i) ms h.1)

  last_user-at :
      (i : ℕ) (ms : List Message)
      → last_user (numbered i (ms ++ u ∷ after)) ≡ some (length (turns ms))
  unfolding last_user
  last_user-at i [] = ground (arith, last_user-none (suc i) after last)
  last_user-at i (m ∷ ms) = ground (arith, last_user-at (suc i) ms)

  numbered-append :
      (i : ℕ) (xs : List Message)
      → length (take (length (turns xs)) (numbered i (xs ++ u ∷ after))) ≡ length (turns xs)
  numbered-append i [] = refl
  numbered-append i (m ∷ ms) = ground (arith, numbered-append (suc i) ms)

  length-droppable : length (droppable (history conversation)) ≡ length (turns before)
  length-droppable =
      ap length
        (droppable-some (history conversation) (length (turns before)) (last_user-at 0 before))
      ∙ numbered-append 0 before

  skip-before :
      (n : ℕ) (xs ys : List Message) → n ≤ length (turns xs) → skip n (xs ++ ys) ≡ skip n xs ++ ys
  unfolding skip
  skip-before zero xs ys h = refl
  skip-before (suc n) [] ys h = absurd (omega arith)
  skip-before (suc n) (x ∷ xs) ys h = ground (arith, skip-before (suc n) xs ys, skip-before n xs ys)

  drop-turns : drop (length (turns before)) (turns conversation) ≡ u ∷ turns after
  drop-turns = go before
    where
      go :
          (xs : List Message) → drop (length (turns xs)) (turns (xs ++ u ∷ after)) ≡ u ∷ turns after
      go [] = ground arith
      go (x ∷ xs) = ground (arith, go xs)

  -- The current turn survives whole, even if it alone is over the budget: rows are dropped only
  -- before it. If the budget is positive, either the history that is left fits it, or nothing but
  -- the current turn is left of the history.
  pub trim-current_turn :
      (budget : ℕ)
      → let out = trim conversation budget in
        ((kept : List Message) × (out ≡ kept ++ u ∷ after))
        × (0 < budget → (estimate_tokens (turns out) ≤ budget) ⊎ (turns out ≡ u ∷ turns after))
  trim-current_turn budget =
      let t : Trimmed conversation budget = trim-Trimmed conversation budget in
      let shown : turns (trim conversation budget) ≡ drop t.count (turns conversation) =
        ap turns t.result ∙ turns-skip t.count conversation in
      (
        (
          skip t.count before,
          t.result
              ∙ skip-before t.count before (u ∷ after) (omega (arith, t.within, length-droppable)),
        ),
        λ pos. elim (t.fits pos) [
          | inl small ↦ inl (rw shown small)
          | inr all ↦
              inr (
                shown ∙ ap (λ n. drop n (turns conversation)) (all ∙ length-droppable) ∙ drop-turns)
        ],
      )
