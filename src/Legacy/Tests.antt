-- ===== src/Legacy/Tests.antt =====
-- A turn about a plan, and the calls after it.
use baby.Common.{
  ℕ, String, ◌≡◌, ◌≢◌, refl, true, false, leb, ◌&&◌, none, some, List, [], ◌∷◌, arith,
}
use baby.Message.{Message, user}
use baby.Text.{codes}
use baby.Text.Search.{Unicode, contains, contains_codes, starts_with, has_any_word, word_at}
use baby.Router.{trailing_user_text}
use baby.Legacy.{
  Brain, daily, heavy, cloud, planning_task, retry_after_failure, Config, RouterState, new, pick,
  triggers, BrainStream, finishes, fails, chat_from,
}
use baby.Legacy.Turns.{Call, picks, same_turn}
use baby.Legacy.Failover.{IsAnswered, chat_from-IsAnswered}

abbrev unicode : Unicode
unicode = record {
  lower = λ s. s;
  is_word = λ c. leb 97 c && leb c 122;
  is_alpha = λ c. true;
  is_digit = λ c. leb 48 c && leb c 57;
  lower_codes = λ s. s;
}

abbrev config : Config
config = record {
  has_heavy = true;
  has_cloud = true;
  escalate_on = planning_task ∷ retry_after_failure ∷ [];
  escalation_order = heavy ∷ cloud ∷ [];
  long_context_tokens = 4096;
  explicit_phrases = [];
  min_free_ram = 22;
  history_budget = λ b. 0;
  trim_enabled = false;
}

abbrev asks : String → List Message
asks text = record { role = user; content = some text; tool_calls = []; tool_call_id = none } ∷ []

abbrev call : ℕ → String → Call
call ram text = record {
  env = (record { free_ram = ram; is_healthy = λ b. true });
  opts = (record { is_best = false; has_max_tokens = false; has_tools = true });
  messages = asks text;
}

abbrev pick_call : Call → RouterState → Brain × RouterState
pick_call c s = pick unicode codes config c.env c.opts c.messages s

-- with enough memory the heavy brain, and later too, with too little
heavy_first : (pick_call (call 30 "plan it") new).0 ≡ heavy
unfolding pick triggers trailing_user_text contains contains_codes starts_with has_any_word word_at
heavy_first = refl

same_turn_example :
    (pick_call (call 1 "plan it") (
      picks unicode codes config
        (call 1 "hello" ∷ call 1 "well" ∷ [])
        (pick_call (call 30 "plan it") new).1)).0
    ≡ (pick_call (call 30 "plan it") new).0
same_turn_example =
    same_turn unicode codes config (call 30 "plan it") (call 1 "plan it")
      (call 1 "hello" ∷ call 1 "well" ∷ []) new refl refl refl (omega arith)

abbrev only_local : Brain → List Message → BrainStream
only_local daily ms = finishes
only_local heavy ms = fails
only_local cloud ms = fails
only_local Brain.unknown ms = fails

chat_from-IsAnswered_example : IsAnswered (chat_from config only_local (asks "hello") heavy)
chat_from-IsAnswered_example =
    chat_from-IsAnswered config only_local (asks "hello") heavy refl not_broken
  where
    not_broken : (b : Brain) → only_local b (asks "hello") ≢ BrainStream.breaks
    not_broken daily = λ e. cc
    not_broken heavy = λ e. cc
    not_broken cloud = λ e. cc
    not_broken Brain.unknown = λ e. cc
