-- ===== src/Message.antt =====
-- The messages that core/context.py and core/router.py work on: dicts in the form of the OpenAI
-- API, with the keys that the two modules read.
mod Ids
pub use Ids.*
use baby.Common.{
  ℕ, Bool, true, false, ◌&&◌, not, String, Option, none, some, List, [], ◌∷◌, if◌then◌else◌,
}
use baby.Text.{has_text, len}

-- `other` is a role outside `_ROLES`.
pub data Role : Type 0 where
  system user assistant tool other : Role

-- One entry of `tool_calls`. `arguments` is `none` where it is missing or no string.
pub record Call : Type 0 where
  pub id : Id?
  pub name : String
  pub arguments : Option String

-- A `content` of `none` is Python's `None`; a missing `tool_calls` is the empty list.
pub record Message : Type 0 where
  pub role : Role
  pub content : Option String
  pub tool_calls : List Call
  pub tool_call_id : Id?

abbrev pub is_system : Message → Bool
is_system m = elim m.role [ system ↦ true | _ ↦ false ]

abbrev pub is_user : Message → Bool
is_user m = elim m.role [ user ↦ true | _ ↦ false ]

abbrev pub is_assistant : Message → Bool
is_assistant m = elim m.role [ assistant ↦ true | _ ↦ false ]

abbrev pub is_tool : Message → Bool
is_tool m = elim m.role [ tool ↦ true | _ ↦ false ]

abbrev pub is_known : Message → Bool
is_known m = elim m.role [ other ↦ false | _ ↦ true ]

abbrev pub is_empty {ℓ} : {A : Type ℓ} → List A → Bool
is_empty [] = true
is_empty (_ ∷ _) = false

-- `m.get("role") == "assistant" and m.get("tool_calls")`
abbrev pub is_caller : Message → Bool
is_caller m = is_assistant m && not (is_empty m.tool_calls)

abbrev pub text_or_blank : Option String → Bool
text_or_blank none = false
text_or_blank (some s) = has_text s

-- `_has_content`
unfoldable pub has_content : Message → Bool
unfolding has_text
has_content m = text_or_blank m.content

-- `len(str(m.get("content") or ""))`
abbrev pub content_len : Message → ℕ
content_len m = elim m.content [ none ↦ 0 | some s ↦ len s ]
