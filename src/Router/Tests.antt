-- ===== src/Router/Tests.antt =====
-- The router's redaction at concrete conversations, and the theorems about it there.
use baby.Common.{ℕ, ◌≡◌, refl, true, String, List, [], ◌∷◌, ◌++◌, some, none, inl, inr, arith}
use baby.Message.{Message, assistant, tool}
use baby.Router.{Settings, redact_pinned, pinned_tools_in}
use baby.Router.Named.{IsPinnedResult}
use baby.Router.Privacy.{redact_pinned_hides}
use baby.Router.ReusedId.{reused_id_hides_pin}

abbrev settings : Settings
settings = record {
  explicit_phrases = "think hard" ∷ [];
  privacy_pins = "read_document" ∷ [];
  language_pin_enabled = true;
  threshold_num = 3;
  threshold_den = 10;
}

abbrev placeholder : String → ℕ → String
placeholder name size = "[local-only content redacted]"

abbrev calls : String → String → Message
calls id name = record {
  role = assistant;
  content = none;
  tool_calls = record { id = some id; name = name; arguments = some "{}" } ∷ [];
  tool_call_id = none;
}

abbrev answer : String → String → Message
answer id text = record {
  role = tool;
  content = some text;
  tool_calls = [];
  tool_call_id = some id;
}

abbrev reading : String → List Message
reading text = calls "call_0" "read_document" ∷ answer "call_0" text ∷ []

redacted :
    redact_pinned placeholder settings (reading "secret") ≡ reading "[local-only content redacted]"
unfolding redact_pinned
redacted = refl

-- a second round under the same id
reused :
    redact_pinned placeholder settings
      (reading "secret" ++ calls "call_0" "get_time" ∷ answer "call_0" "noon" ∷ [])
    ≡ reading "secret" ++ calls "call_0" "get_time" ∷ answer "call_0" "noon" ∷ []
unfolding redact_pinned
reused = refl

secret-IsPinnedResult :
    IsPinnedResult ("read_document" ∷ []) (reading "secret") (answer "call_0" "secret")
secret-IsPinnedResult = record {
  result = refl;
  call = record { id = some "call_0"; name = "read_document"; arguments = some "{}" };
  made = inl (refl, inl refl);
  answers = refl;
  pinned = refl;
  alone = (inr (λ e. refl, tt), (inl refl, tt));
}

redact_pinned_hides_example :
    redact_pinned placeholder settings (reading "secret")
    ≡ redact_pinned placeholder settings (reading "public")
redact_pinned_hides_example =
    redact_pinned_hides placeholder settings (reading "secret") (reading "public")
      (inl refl, (inr (secret-IsPinnedResult, refl, refl), tt))

reused_id_hides_pin_example :
    let conversation =
      reading "secret" ++ calls "call_0" "get_time" ∷ answer "call_0" "noon" ∷ [] in
    (pinned_tools_in settings conversation ≡ [])
    × (redact_pinned placeholder settings conversation ≡ conversation)
reused_id_hides_pin_example =
    reused_id_hides_pin placeholder settings (reading "secret") (answer "call_0" "noon" ∷ [])
      (calls "call_0" "get_time")
      (record { id = some "call_0"; name = "get_time"; arguments = some "{}" }) refl refl refl refl
      ((λ t. ground arith), ((λ t. refl), ((λ t. ground arith), ((λ t. refl), tt))))
