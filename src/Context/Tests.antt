-- ===== src/Context/Tests.antt =====
-- The sanitizer and `trim` at concrete conversations, and the theorems about them there.
use baby.Common.{
  ◌≡◌, ◌≤◌, ◌<◌, ◌⊎◌, ◌++◌, refl, Bool, ◌||◌, some, none, List, [], ◌∷◌, String, str_eq,
}
use baby.Message.{Message, Call, system, user, assistant, tool, has_content}
use baby.Context.{sanitize_messages, orphaned_row, mismatched_answer, empty_content}
use baby.Context.Valid.{Valid, done, plain, block}
use baby.Context.Sanitize.{sanitize_messages-Valid}
use baby.Context.Idempotent.{sanitize_messages-id}
use baby.Context.Trim.{trim, estimate_tokens}
use baby.Context.Trim.Skip.{turns}
use baby.Context.Trim.Laws.{trim-Valid, trim-current_turn}

-- a parser that takes two texts
abbrev loads : String → Bool
loads s = str_eq s "{}" || str_eq s "[1]"

abbrev says : String → Message
says s = record { role = user; content = some s; tool_calls = []; tool_call_id = none }

abbrev rule : Message
rule = record { role = system; content = some "be brief"; tool_calls = []; tool_call_id = none }

abbrev call_of : String → String → Call
call_of id args = record { id = some id; name = "get_time"; arguments = some args }

abbrev calls : List Call → Message
calls cs = record { role = assistant; content = none; tool_calls = cs; tool_call_id = none }

abbrev answer : String → String → Message
answer id s = record { role = tool; content = some s; tool_calls = []; tool_call_id = some id }

-- an orphan, a call with bad arguments, one that nothing answers, a second answer, a blank row
abbrev debris : List Message
debris =
    answer "z" "stray"
    ∷ calls (call_of "a" "{oops" ∷ call_of "b" "{}" ∷ [])
    ∷ answer "a" "12:00"
    ∷ answer "a" "12:01"
    ∷ says "  "
    ∷ says "thanks"
    ∷ []

abbrev clean : List Message
clean = calls (call_of "a" "{}" ∷ []) ∷ answer "a" "12:00" ∷ says "thanks" ∷ []

sanitize-debris : sanitize_messages loads debris ≡ (
  clean,
  (record { why = empty_content; role = user; tool_call_id = none })
      ∷ (record { why = orphaned_row; role = tool; tool_call_id = some "z" })
      ∷ (record { why = mismatched_answer; role = tool; tool_call_id = some "a" })
      ∷ [],
)
unfolding sanitize_messages
sanitize-debris = refl

clean-Valid : Valid loads clean
unfolding has_content
clean-Valid =
    block (calls (call_of "a" "{}" ∷ [])) (answer "a" "12:00" ∷ []) (says "thanks" ∷ []) refl
      (refl, tt) (record { each_row = (refl, tt); no_repeat = (refl, tt); each_call = (refl, tt) })
      refl (plain (says "thanks") refl done) refl

sanitize_messages-Valid_example : Valid loads (sanitize_messages loads debris).0
sanitize_messages-Valid_example = sanitize_messages-Valid loads debris refl

sanitize_messages-id_example : sanitize_messages loads clean ≡ (clean, [])
sanitize_messages-id_example = sanitize_messages-id loads clean clean-Valid

abbrev earlier : List Message
earlier = rule ∷ says "a long first question" ∷ clean ++ rule ∷ []

abbrev working : List Message
working = calls (call_of "b" "{}" ∷ []) ∷ answer "b" "13:00" ∷ []

abbrev dialogue : List Message
dialogue = earlier ++ says "what now?" ∷ working

-- With a budget of 5 tokens the first question goes, and the first call with its answer.
trim-dialogue : trim dialogue 5 ≡ rule ∷ says "thanks" ∷ rule ∷ says "what now?" ∷ working
unfolding trim
trim-dialogue = refl

trim-Valid_example : Valid loads (trim clean 1)
trim-Valid_example = trim-Valid loads clean 1 clean-Valid

trim-current_turn_example :
    let out = trim dialogue 5 in
    ((kept : List Message) × (out ≡ kept ++ says "what now?" ∷ working))
    × (0 < 5 → (estimate_tokens (turns out) ≤ 5) ⊎ (turns out ≡ says "what now?" ∷ turns working))
trim-current_turn_example =
    trim-current_turn earlier (says "what now?") working refl (refl, (refl, tt)) 5
