-- ===== src/Workers/Plan.antt =====
-- The plan of a project: `parse_plan` and `_plan` of workers/orchestrator.py. What `json.loads` and `str`
-- make of a text is a parameter, and so is the model.
pub mod Valid
mod Tests
use baby.Common.{
  ℕ, suc, ◌-◌, Bool, true, false, ◌||◌, Option, none, some, List, [], ◌∷◌, ◌++◌, take, drop, leb,
  if◌then◌else◌, ◌==◌,
}
use baby.Message.{Role, system, user, assistant, is_empty}
use baby.Text.Words.{Codes, strip}

-- `s.find(c)`
abbrev pub find_char : ℕ → Codes → Option ℕ
find_char c [] = none
find_char c (d ∷ s) = elim (find_char c s) [
  | none ↦ if d == c then some 0 else none
  | some i ↦ some (if d == c then 0 else suc i)
]

-- `s.rfind(c)`
abbrev pub rfind_char : ℕ → Codes → Option ℕ
rfind_char c [] = none
rfind_char c (d ∷ s) = elim (rfind_char c s) [
  | none ↦ if d == c then some 0 else none
  | some i ↦ some (suc i)
]

-- An entry of the list: a dict with `str(item.get("title") or "")` and the same of its spec, or not.
pub data Item : Type 0 where
  no_dict : Item
  dict : Codes → Codes → Item

-- What `json.loads` makes of the text, seen through `data.get("subtasks")`.
pub data Loaded : Type 0 where
  unreadable : Loaded
  no_list : Loaded
  items : List Item → Loaded

pub record Subtask : Type 0 where
  pub title : Codes
  pub spec : Codes

-- The loop over the list; `none` where an entry is bad.
abbrev pub collect : List Item → Option (List Subtask)
collect [] = some []
collect (no_dict ∷ rest) = none
collect (dict t s ∷ rest) =
    let title = strip t in
    let spec = strip s in
    let further = collect rest in
    if is_empty title || is_empty spec then none else elim further [
      | none ↦ none
      | some ps ↦ some ((record { title = title; spec = spec }) ∷ ps)
    ]

abbrev pub bounded : ℕ → Option (List Subtask) → Option (List Subtask)
bounded n none = none
bounded n (some ps) = if is_empty ps then none else some (take n ps)

abbrev pub read_items : ℕ → Loaded → Option (List Subtask)
read_items n unreadable = none
read_items n no_list = none
read_items n (items raw) = bounded n (collect raw)

-- the text between the first `{` (123) and the last `}` (125)
abbrev pub braces : Option ℕ → Option ℕ → Codes → Option Codes
braces none last text = none
braces (some first) none text = none
braces (some first) (some last) text =
    if leb last first then none else some (take (suc last - first) (drop first text))

abbrev pub read_text : (Codes → Loaded) → ℕ → Option Codes → Option (List Subtask)
read_text loads n none = none
read_text loads n (some json) = read_items n (loads json)

unfoldable pub parse_plan : (Codes → Loaded) → Codes → ℕ → Option (List Subtask)
parse_plan loads text n = read_text loads n (braces (find_char 123 text) (rfind_char 125 text) text)

-- What a call of the model ends with: a text, stripped, or an error, or a cancellation.
pub data Answer : Type 0 where
  said : Codes → Answer
  raises : Codes → Answer
  is_cancelled : Answer

pub data Planned : Type 0 where
  plan : List Subtask → Planned
  no_plan : Planned
  plan_raises : Codes → Planned
  plan_cancelled : Planned

abbrev pub with_plan : Option (List Subtask) → Planned
with_plan none = no_plan
with_plan (some ps) = plan ps

-- The prompts are `_PLAN_PROMPT` with the bound, and `_RETRY_PROMPT`; "(empty)" stands for no text.
module _ (loads : Codes → Loaded) (plan_prompt : ℕ → Codes) (retry_prompt : Codes)
    (chat : List (Role × Codes) → Answer) where
  abbrev pub first_call : ℕ → Codes → List (Role × Codes)
  first_call n spec = (system, plan_prompt n) ∷ (user, spec) ∷ []

  abbrev pub text_or_empty : Codes → Codes
  text_or_empty [] = 40 ∷ 101 ∷ 109 ∷ 112 ∷ 116 ∷ 121 ∷ 41 ∷ []
  text_or_empty (c ∷ cs) = c ∷ cs

  abbrev pub second_call : ℕ → Codes → Codes → List (Role × Codes)
  second_call n spec text =
      first_call n spec ++ ((assistant, text_or_empty text) ∷ (system, retry_prompt) ∷ [])

  abbrev pub second_try : ℕ → Answer → Planned
  second_try n (said text) = with_plan (parse_plan loads text n)
  second_try n (raises e) = plan_raises e
  second_try n is_cancelled = plan_cancelled

  -- a text that was read, or the second try
  abbrev pub or_retry : ℕ → Codes → Codes → Option (List Subtask) → Planned
  or_retry n spec text (some ps) = plan ps
  or_retry n spec text none = second_try n (chat (second_call n spec text))

  abbrev pub first_try : ℕ → Codes → Answer → Planned
  first_try n spec (said text) = or_retry n spec text (parse_plan loads text n)
  first_try n spec (raises e) = plan_raises e
  first_try n spec is_cancelled = plan_cancelled

  unfoldable pub make_plan : ℕ → Codes → Planned
  make_plan n spec = first_try n spec (chat (first_call n spec))
