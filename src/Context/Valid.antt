-- ===== src/Context/Valid.antt =====
-- The sequences of messages that a strict provider takes: every assistant row with tool calls is
-- followed at once by the answers to all of them, one for each id, and no other tool row is there.
use baby.Common.{
  ◌≡◌, Bool, true, false, ◌&&◌, not, String, List, [], ◌∷◌, ◌++◌, All, All-imp, arith,
}
use baby.Message.{Call, Message, Id?, has, is_tool, is_caller, is_known, has_content, id_eq_refl}
use baby.Context.{valid_json, answer_ids, call_ids}

-- a row of text: no tool row, no tool calls, and not blank
abbrev pub is_plain : Message → Bool
is_plain m = is_known m && (not (is_caller m) && (not (is_tool m) && has_content m))

-- No id occurs twice among the rows, nor is it one of `seen`.
abbrev pub Unseen : List Id? → List Message → Type 0
Unseen seen [] = Unit {0}
Unseen seen (a ∷ r) = (has a.tool_call_id seen ≡ false) × Unseen (a.tool_call_id ∷ seen) r

abbrev pub is_answer : List Id? → Message → Bool
is_answer ids a = is_tool a && (has_content a && has a.tool_call_id ids)

-- The rows answer the calls: each row one of them, and each call in one row.
pub record Answers (calls : List Call) (rows : List Message) : Type 0 where
  pub each_row : All (λ a. is_answer (call_ids calls) a ≡ true) rows
  pub no_repeat : Unseen [] rows
  pub each_call : All (λ c. has c.id (answer_ids rows) ≡ true) calls

abbrev pub StartsNoTool : List Message → Type 0
StartsNoTool [] = Unit {0}
StartsNoTool (m ∷ ms) = is_tool m ≡ false

pub data Valid (loads : String → Bool) : List Message → Type 0 where
  done : Valid loads []
  plain :
      (m : Message) {ms : List Message} → is_plain m ≡ true → Valid loads ms → Valid loads (m ∷ ms)
  block :
      (m : Message) (answers rest : List Message) {ms : List Message}
      → is_caller m ≡ true
      → All (λ c. valid_json loads c.arguments ≡ true) m.tool_calls
      → Answers m.tool_calls answers
      → StartsNoTool rest
      → Valid loads rest
      → ms ≡ answers ++ rest
      → Valid loads (m ∷ ms)

-- Every call has an id that is one of the calls' ids.
pub has_self : (cs : List Call) → All (λ c. has c.id (call_ids cs) ≡ true) cs
has_self [] = tt
has_self (c ∷ cs) = (
  ground (arith, id_eq_refl c.id),
  All-imp (λ d. has d.id (call_ids cs) ≡ true) (λ d. has d.id (c.id ∷ call_ids cs) ≡ true) cs
      (λ d h. ground arith) (has_self cs),
)
