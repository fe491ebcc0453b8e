-- ===== src/Context.antt =====
-- core/context.py: the gate that keeps debris out of provider calls, and the trimming of a history
-- to the token budget of a brain.
pub mod Valid
pub mod Answers
pub mod Sanitize
pub mod Idempotent
pub mod Trim
mod Tests
use baby.Common.{
  ℕ, zero, suc, Bool, false, ◌&&◌, not, String, Option, none, some, List, [], ◌∷◌, ◌++◌, map,
  length, filter, if◌then◌else◌,
}
use baby.Message.{
  Role, Call, Message, Id?, has, is_tool, is_known, is_empty, is_caller, has_content,
}

-- why a row was dropped
pub data Why : Type 0 where
  unknown_role empty_tool_content empty_content all_unanswered orphaned_answer mismatched_answer
        orphaned_row :
      Why

-- an entry of `report`
pub record Drop : Type 0 where
  pub why : Why
  pub role : Role
  pub tool_call_id : Id?

abbrev pub note : Message → Why → Drop
note m why = record { why = why; role = m.role; tool_call_id = m.tool_call_id }

-- pass 1 of `sanitize_messages` on one row; `loads` tells whether `json.loads` takes a text
pub data Staged : Type 0 where
  kept : Message → Staged
  dropped : Why → Staged

-- `_valid_json`
abbrev pub valid_json : (String → Bool) → Option String → Bool
valid_json loads none = false
valid_json loads (some s) = loads s

unfoldable pub repair : (String → Bool) → Call → Call
repair loads c = if valid_json loads c.arguments then c else record c { arguments = some "{}" }

unfoldable pub stage : (String → Bool) → Message → Staged
unfolding repair has_content
stage loads m =
    if not (is_known m)
    then dropped unknown_role
    else if is_caller m
    then kept (record m { tool_calls = map (repair loads) m.tool_calls })
    else if is_tool m
    then (if has_content m then kept m else dropped empty_tool_content)
    else if has_content m
    then kept m
    else dropped empty_content

abbrev pub Outcome : Type 0
Outcome = List Message × List Drop

abbrev pub add_staged : Message → Staged → Outcome → Outcome
add_staged m (kept m') r = (m' ∷ r.0, r.1)
add_staged m (dropped why) r = (r.0, note m why ∷ r.1)

unfoldable pub normalise : (String → Bool) → List Message → Outcome
unfolding stage
normalise loads [] = ([], [])
normalise loads (m ∷ ms) = add_staged m (stage loads m) (normalise loads ms)

-- the contiguous run of tool rows, `staged[i + 1 : j]`, and what follows it
abbrev pub take_tools : List Message → List Message
take_tools [] = []
take_tools (m ∷ ms) = if is_tool m then m ∷ take_tools ms else []

abbrev pub drop_tools : List Message → List Message
drop_tools [] = []
drop_tools (m ∷ ms) = if is_tool m then drop_tools ms else m ∷ ms

abbrev pub answer_ids : List Message → List Id?
answer_ids = map (λ m. m.tool_call_id)

abbrev pub call_ids : List Call → List Id?
call_ids = map (λ c. c.id)

-- The answers of the calls that are kept, the first for each id; `seen` holds the ids of the rows
-- before, so that a row is the one in `answers` if its id is not among them.
unfoldable pub split_answers : List Id? → List Id? → List Message → Outcome
split_answers ids seen [] = ([], [])
split_answers ids seen (a ∷ r) =
    let rest = split_answers ids (a.tool_call_id ∷ seen) r in
    if has a.tool_call_id ids && not (has a.tool_call_id seen)
    then (a ∷ rest.0, rest.1)
    else (rest.0, note a mismatched_answer ∷ rest.1)

abbrev pub append_outcome : Outcome → Outcome → Outcome
append_outcome a b = (a.0 ++ b.0, a.1 ++ b.1)

-- One assistant row with its run of answers.
unfoldable pub answer_block : Message → List Message → Outcome
unfolding split_answers has_content
answer_block m run =
    let kept_calls = filter (λ c. has c.id (answer_ids run)) m.tool_calls in
    if is_empty kept_calls
    then append_outcome
        (if has_content m
          then ((record m { tool_calls = [] }) ∷ [], [])
          else ([], note m all_unanswered ∷ []))
        ([], map (λ a. note a orphaned_answer) run)
    else append_outcome ((record m { tool_calls = kept_calls }) ∷ [], [])
        (split_answers (call_ids kept_calls) [] run)

-- pass 2, with fuel for the loop over the index
unfoldable pub pair_up : ℕ → List Message → Outcome
unfolding answer_block
pair_up zero ms = ([], [])
pair_up (suc fuel) [] = ([], [])
pair_up (suc fuel) (m ∷ ms) =
    let after_block =
      append_outcome (answer_block m (take_tools ms)) (pair_up fuel (drop_tools ms)) in
    let after_orphan = append_outcome ([], note m orphaned_row ∷ []) (pair_up fuel ms) in
    let after_plain = append_outcome (m ∷ [], []) (pair_up fuel ms) in
    if is_caller m then after_block else if is_tool m then after_orphan else after_plain

unfoldable pub sanitize_messages : (String → Bool) → List Message → Outcome
unfolding normalise pair_up
sanitize_messages loads ms =
    let (staged, drops) = normalise loads ms in
    append_outcome ([], drops) (pair_up (suc (length staged)) staged)
