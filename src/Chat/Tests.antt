-- ===== src/Chat/Tests.antt =====
-- `chat` at concrete calls, and the theorems about it there.
use baby.Common.{◌≡◌, ◌≢◌, refl, Bool, true, false, List, [], ◌∷◌, some, none, All, inl, inr}
use baby.Message.{Message, user, assistant, tool}
use baby.Health
use baby.Router.{Tier, daily, nim_primary, nim_heavy, backstop, Opts}
use baby.Chat.{World, Config, Session, Stream, finished, status, silent, returned}
use baby.Chat.Rungs.{chat, is_task}
use baby.Router.{ladder, pinned_tools_in}
use baby.Health.{cooling_down, note_failure}
use baby.Ratelimit.{try_acquire}
use baby.Context.Trim.{trim}
use baby.Router.Named.{HoldsPinned}
use baby.Chat.Private.{StaysLocal, StaysOut, private-StaysLocal, game_mode-StaysOut}
use baby.Chat.Answer.{Heard, game_mode_answers}
use baby.Chat.Reply.{local_brain_answers}

abbrev config : Bool → Config
config game = record {
  unicode = record {
    lower = λ s. s;
    is_word = λ c. true;
    is_alpha = λ c. true;
    is_digit = λ c. false;
    lower_codes = λ s. s;
  };
  settings = record {
    explicit_phrases = "think hard" ∷ [];
    privacy_pins = "read_document" ∷ [];
    language_pin_enabled = true;
    threshold_num = 3;
    threshold_den = 10;
  };
  placeholder = λ name size. "[local-only content redacted]";
  trim_enabled = true;
  history_budget = λ t. 1000;
  game_mode = game;
}

-- NIM answers 429 to everything, the backstop says nothing, the local brain answers.
abbrev streams : Tier → Stream
streams daily = record { late = true; chunks = "hello" ∷ []; ending = finished }
streams nim_primary = record { late = false; chunks = []; ending = status 429 }
streams nim_heavy = record { late = false; chunks = []; ending = status 429 }
streams backstop = record { late = true; chunks = []; ending = silent }

abbrev world : World
world = record {
  present = λ t. true;
  healthy = λ t. true;
  begins = λ t. 1000;
  ends = λ t. 2000;
  stream = λ t p. streams t;
}

abbrev opts : Opts
opts = record {
  pin_local = false;
  pin_reason = none;
  max_tokens = 0;
  best = false;
  channel = "voice";
}

abbrev before : Session
before = record {
  monitor = Health.new 3 90000;
  bucket = record { rpm = 40; share_num = 1; share_den = 2; stamps = [] };
  notes = [];
}

abbrev turn : List Message
turn = record { role = user; content = some "hi"; tool_calls = []; tool_call_id = none } ∷ []

-- the user asks for a document, which is read
abbrev reading : List Message
reading =
    record { role = user; content = some "read it"; tool_calls = []; tool_call_id = none }
    ∷ record {
      role = assistant;
      content = none;
      tool_calls = record { id = some "a"; name = "read_document"; arguments = some "{}" } ∷ [];
      tool_call_id = none;
    }
    ∷ record { role = tool; content = some "secret"; tool_calls = []; tool_call_id = some "a" }
    ∷ []

chat-chunks : (chat world (config false) turn true opts before).chunks ≡ "hello" ∷ []
unfolding chat ladder cooling_down try_acquire note_failure is_task trim
chat-chunks = refl

chat-cooldown :
    (chat world (config false) turn true opts before).session.monitor.cooldown_until ≡ 92000
unfolding chat ladder cooling_down try_acquire note_failure is_task trim
chat-cooldown = refl

reading-HoldsPinned : HoldsPinned ("read_document" ∷ []) reading
reading-HoldsPinned = record {
  row = record { role = tool; content = some "secret"; tool_calls = []; tool_call_id = some "a" };
  held = inr (inr (inl refl));
  is_result = record {
    result = refl;
    call = record { id = some "a"; name = "read_document"; arguments = some "{}" };
    made = inr (inl (refl, inl refl));
    answers = refl;
    pinned = refl;
    alone = (inl refl, (inr (λ e. refl, tt), (inl refl, tt)));
  };
}

private-StaysLocal_example :
    All StaysLocal (chat world (config true) reading true opts before).session.notes
private-StaysLocal_example =
    private-StaysLocal world (config true) reading true opts before (inr reading-HoldsPinned) tt

game_mode-StaysOut_example :
    All StaysOut (chat world (config true) turn true opts before).session.notes
unfolding pinned_tools_in
game_mode-StaysOut_example =
    game_mode-StaysOut world (config true) turn true opts before refl refl tt

game_mode_answers_example : Heard (chat world (config true) turn true opts before)
game_mode_answers_example = game_mode_answers world (config true) turn true opts before refl

-- A brain that has no chunk need not finish; one that has, does.
streams_finish : (t : Tier) → (streams t).chunks ≢ [] → (streams t).ending ≡ finished
streams_finish daily c = refl
streams_finish nim_primary c = absurd (c refl)
streams_finish nim_heavy c = absurd (c refl)
streams_finish backstop c = absurd (c refl)

local_brain_answers_example : (chat world (config false) turn true opts before).end ≡ returned
local_brain_answers_example =
    local_brain_answers world (config false) turn true opts before refl refl
      (λ p. refl, λ t p c. streams_finish t c)
