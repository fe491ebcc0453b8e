-- ===== src/Router/ReusedId.antt =====
-- Ids of tool calls that come back in one turn. A provider that sends no ids is given `call_0` and
-- so on, anew in every round (core/providers/base.py), so this happens.
use baby.Common.{
  ℕ, ◌≡◌, refl, ap, ◌∙◌, sym, true, false, String, some, List, [], ◌∷◌, ◌++◌, All, append_assoc,
  Bool-cases, inl, inr, if◌then◌else◌,
}
use baby.Message.{Message, Call, Id?, id_eq_refl, is_tool, is_assistant}
use baby.Router.{
  Settings, calls_in, name_of, tool_name, one_of, names_in, pinned_tools_in, redact_pinned, text_of,
}
use baby.Router.Privacy.{pinned_tools_in-names_in}

calls_in-append : (xs ys : List Message) → calls_in (xs ++ ys) ≡ calls_in xs ++ calls_in ys
calls_in-append [] ys = refl
calls_in-append (m ∷ ms) ys =
    rw (calls_in-append ms ys)
      (sym (append_assoc (if is_assistant m then m.tool_calls else []) (calls_in ms) (calls_in ys)))

name_of-last : (xs : List Call) (c : Call) → name_of c.id (xs ++ c ∷ []) ≡ some c.name
name_of-last [] c = rw (id_eq_refl c.id)
name_of-last (x ∷ xs) c = rw (name_of-last xs c)

module _ (calls : List Call) (pins : List String) (id : Id?) (name : String)
    (means : name_of id calls ≡ some name) (free : one_of name pins ≡ false) where
  names_in-free :
      (ms : List Message)
      → All (λ r. is_tool r ≡ true → r.tool_call_id ≡ id) ms
      → names_in calls pins ms ≡ []
  names_in-free [] h = refl
  names_in-free (m ∷ ms) h = elim (Bool-cases (is_tool m)) [
    | inl t ↦
        let named : tool_name calls m ≡ name =
          ap (λ x. text_of (name_of x calls)) (h.0 t) ∙ ap text_of means in
        rw (t, named, free) (names_in-free ms h.1)
    | inr n ↦ rw n (names_in-free ms h.1)
  ]

-- Where every result answers one id, the last call under that id names them all. If that call is of
-- a tool that is not pinned, no result counts as pinned, whatever tools the calls before were of:
-- the conversation is sent to a cloud brain as it is.
pub reused_id_hides_pin :
    (placeholder : String → ℕ → String) (cfg : Settings) (ms rest : List Message) (m : Message)
    (late : Call)
    → is_assistant m ≡ true
    → m.tool_calls ≡ late ∷ []
    → one_of late.name cfg.privacy_pins ≡ false
    → calls_in rest ≡ []
    → All (λ r. is_tool r ≡ true → r.tool_call_id ≡ late.id) (ms ++ m ∷ rest)
    → let conversation = ms ++ m ∷ rest in
      (pinned_tools_in cfg conversation ≡ [])
      × (redact_pinned placeholder cfg conversation ≡ conversation)
reused_id_hides_pin placeholder cfg ms rest m late a c free none_later answers =
    let conversation = ms ++ m ∷ rest in
    let calls = calls_in conversation in
    let shape : calls ≡ calls_in ms ++ late ∷ [] =
      calls_in-append ms (m ∷ rest) ∙ (rw (a, c, none_later)) in
    let means : name_of late.id calls ≡ some late.name =
      ap (name_of late.id) shape ∙ name_of-last (calls_in ms) late in
    let found : pinned_tools_in cfg conversation ≡ [] =
      pinned_tools_in-names_in cfg conversation
      ∙ names_in-free calls cfg.privacy_pins late.id late.name means free conversation answers in
    (found, unfold redact_pinned in rw found)
