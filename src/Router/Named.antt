-- ===== src/Router/Named.antt =====
-- Which rows are results of pinned tools, told by the calls that they answer.
use baby.Common.{
  IsIn-left, IsIn-right, All-append, Bool, ◌⊎◌, if◌then◌else◌, IsIn, ◌≡◌, refl, sym, ap, ◌∙◌, true,
  false, ◌&&◌, inl, inr, none, some, String, List, [], ◌∷◌, All, arith, Bool-cases, Option-cases,
}
use baby.Message.{Message, Call, Id?, id_eq, id_eq_refl, id_eq→eq, is_tool, is_assistant, is_empty}
use baby.Router.{calls_in, name_of, tool_name, one_of, names_in, text_of}

-- No call of the id is of another tool.
abbrev pub NamesOne : Id? → String → List Call → Type 0
NamesOne id name calls = All (λ c. c.id ≡ id → c.name ≡ name) calls

-- An assistant row of the conversation makes the call.
abbrev pub Makes : Call → List Message → Type 0
Makes c [] = ⊥
Makes c (m ∷ ms) = ((is_assistant m ≡ true) × IsIn c m.tool_calls) ⊎ Makes c ms

-- No assistant row makes a call of the id to another tool.
abbrev pub AllNameOne : Id? → String → List Message → Type 0
AllNameOne id name ms = All (λ m. (is_assistant m ≡ false) ⊎ NamesOne id name m.tool_calls) ms

-- The row is the result of a call of a pinned tool in the conversation, and the call's id is not that
-- of a call of another tool.
pub record IsPinnedResult (pins : List String) (ms : List Message) (m : Message) : Type 0 where
  pub result : is_tool m ≡ true
  pub call : Call
  pub made : Makes call ms
  pub answers : m.tool_call_id ≡ call.id
  pub pinned : one_of call.name pins ≡ true
  pub alone : AllNameOne call.id call.name ms

-- Some row of the conversation is such a result.
pub record HoldsPinned (pins : List String) (ms : List Message) : Type 0 where
  pub row : Message
  pub held : IsIn row ms
  pub is_result : IsPinnedResult pins ms row

calls_in-Makes : (c : Call) (ms : List Message) → Makes c ms → IsIn c (calls_in ms)
calls_in-Makes c [] h = absurd h
calls_in-Makes c (m ∷ ms) (inl (a, h)) =
    IsIn-left c (if is_assistant m then m.tool_calls else []) (calls_in ms) (rw a h)
calls_in-Makes c (m ∷ ms) (inr h) =
    IsIn-right c (if is_assistant m then m.tool_calls else []) (calls_in ms) (calls_in-Makes c ms h)

calls_in-NamesOne :
    (id : Id?) (name : String) (ms : List Message)
    → AllNameOne id name ms
    → NamesOne id name (calls_in ms)
calls_in-NamesOne id name [] h = tt
calls_in-NamesOne id name (m ∷ ms) h =
    All-append (λ c. c.id ≡ id → c.name ≡ name) (if is_assistant m then m.tool_calls else [])
      (calls_in ms) (of_row (is_assistant m) h.0) (calls_in-NamesOne id name ms h.1)
  where
    of_row :
        (a : Bool)
        → (a ≡ false) ⊎ NamesOne id name m.tool_calls
        → NamesOne id name (if a then m.tool_calls else [])
    of_row false k = tt
    of_row true (inl e) = absurd (cc)
    of_row true (inr k) = k

name_of-name :
    (id : Id?) (name n : String) (calls : List Call)
    → NamesOne id name calls
    → name_of id calls ≡ some n
    → n ≡ name
name_of-name id name n [] h e = absurd (cc)
name_of-name id name n (c ∷ cs) h e = elim (Option-cases (name_of id cs)) [
  | inr (k, later) ↦
      let same : some k ≡ some n = sym (rw later refl) ∙ e in
      name_of-name id name n cs h.1 (later ∙ same)
  | inl last ↦ elim (Bool-cases (id_eq id c.id)) [
    | inl mine ↦
        let here : some c.name ≡ some n = sym (rw (last, mine) refl) ∙ e in
        let named = h.0 (sym (id_eq→eq id c.id mine)) in cc
    | inr other ↦ let nothing : none ≡ some n = sym (rw (last, other) refl) ∙ e in absurd (cc)
  ]
]

name_of-some :
    (c : Call) (calls : List Call)
    → IsIn c calls
    → (name : String) × (name_of c.id calls ≡ some name)
name_of-some c [] h = absurd h
name_of-some c (x ∷ xs) h = elim (Option-cases (name_of c.id xs)) [
  | inr (k, later) ↦ (k, rw later refl)
  | inl last ↦ elim h [
    | inl here ↦
        let mine : id_eq c.id x.id ≡ true = rw here (id_eq_refl c.id) in
        (x.name, rw (last, mine) refl)
    | inr inside ↦ let (k, later) = name_of-some c xs inside in absurd (cc)
  ]
]

-- The code finds the tool of such a result.
pub tool_name-pinned :
    (pins : List String) (ms : List Message) (m : Message)
    → IsPinnedResult pins ms m
    → one_of (tool_name (calls_in ms) m) pins ≡ true
tool_name-pinned pins ms m r =
    let calls = calls_in ms in
    let (name, found) = name_of-some r.call calls (calls_in-Makes r.call ms r.made) in
    let same =
      name_of-name r.call.id r.call.name name calls
        (calls_in-NamesOne r.call.id r.call.name ms r.alone) found in
    let named : name_of m.tool_call_id calls ≡ some r.call.name =
      ap (λ i. name_of i calls) r.answers ∙ found ∙ ap some same in
    ap (λ o. one_of (text_of o) pins) named ∙ r.pinned

pub names_in-found :
    (calls : List Call) (pins : List String) (m : Message) (ms : List Message)
    → IsIn m ms
    → is_tool m ≡ true
    → one_of (tool_name calls m) pins ≡ true
    → is_empty (names_in calls pins ms) ≡ false
names_in-found calls pins m [] h t p = absurd h
names_in-found calls pins m (x ∷ xs) h t p =
    elim (Bool-cases (is_tool x && one_of (tool_name calls x) pins)) [
      | inl hit ↦ rw hit refl
      | inr miss ↦ elim h [
        | inl here ↦
            let yes : is_tool x && one_of (tool_name calls x) pins ≡ true =
              ap (λ r. is_tool r && one_of (tool_name calls r) pins) here ∙ ground (arith, t, p) in
            absurd (cc)
        | inr inside ↦ rw miss (names_in-found calls pins m xs inside t p)
      ]
    ]
