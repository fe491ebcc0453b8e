-- ===== src/Context/Answers.antt =====
-- The answers that pass 2 keeps for one assistant row.
use baby.Common.{
  ◌≡◌, refl, Bool, true, false, String, List, [], ◌∷◌, ◌++◌, All, All-both, arith, map, Bool-cases,
  inl, inr, if◌then◌else◌, filter, filter-All, All-filter, subst,
}
use baby.Message.{
  Call, Message, Id?, has, is_tool, is_assistant, has_content, id_eq, id_eq→eq, is_empty,
}
use baby.Context.{
  valid_json, answer_ids, call_ids, split_answers, answer_block, append_outcome, note,
  all_unanswered, orphaned_answer,
}
use baby.Context.Valid.{Unseen, is_answer, Answers, StartsNoTool, Valid, plain, block, has_self}

-- a tool row that pass 1 has let through
abbrev pub IsRow : Message → Type 0
IsRow a = (is_tool a ≡ true) × (has_content a ≡ true)

split_answers-is_answer :
    (ids seen : List Id?) (run : List Message)
    → All IsRow run
    → All (λ a. is_answer ids a ≡ true) (split_answers ids seen run).0
unfolding split_answers
split_answers-is_answer ids seen [] h = tt
split_answers-is_answer ids seen (a ∷ r) h =
    ground (arith, split_answers-is_answer ids (a.tool_call_id ∷ seen) r h.1)

Unseen-anti :
    (small big : List Id?) (rows : List Message)
    → ((x : Id?) → has x big ≡ false → has x small ≡ false)
    → Unseen big rows
    → Unseen small rows
Unseen-anti small big [] sub h = tt
Unseen-anti small big (a ∷ r) sub h = (
  sub a.tool_call_id h.0,
  Unseen-anti (a.tool_call_id ∷ small) (a.tool_call_id ∷ big) r (λ x e. ground (arith, sub x)) h.1,
)

split_answers-Unseen :
    (ids seen : List Id?) (run : List Message) → Unseen seen (split_answers ids seen run).0
unfolding split_answers
split_answers-Unseen ids seen [] = tt
split_answers-Unseen ids seen (a ∷ r) = ground (
  arith,
  split_answers-Unseen ids (a.tool_call_id ∷ seen) r,
  Unseen-anti seen (a.tool_call_id ∷ seen) (split_answers ids (a.tool_call_id ∷ seen) r).0
      (λ x e. ground arith),
)

has-split_answers :
    (x : Id?) (ids seen : List Id?) (run : List Message)
    → has x ids ≡ true
    → has x seen ≡ false
    → has x (answer_ids run) ≡ true
    → has x (answer_ids (split_answers ids seen run).0) ≡ true
unfolding split_answers
has-split_answers x ids seen [] i s h = h
has-split_answers x ids seen (a ∷ r) i s h = elim (Bool-cases (id_eq x a.tool_call_id)) [
  | inl same ↦
      let e = id_eq→eq x a.tool_call_id same in
      let i' : has a.tool_call_id ids ≡ true = subst (λ y. has y ids ≡ true) e i in
      let s' : has a.tool_call_id seen ≡ false = subst (λ y. has y seen ≡ false) e s in ground arith
  | inr differ ↦ ground (arith, has-split_answers x ids (a.tool_call_id ∷ seen) r i)
]

kept_calls-Answers :
    (calls : List Call) (run : List Message)
    → All IsRow run
    → let kept = filter (λ c. has c.id (answer_ids run)) calls in
      Answers kept (split_answers (call_ids kept) [] run).0
kept_calls-Answers calls run h =
    let kept = filter (λ (c : Call). has c.id (answer_ids run)) calls in
    let ids = call_ids kept in
    record {
      each_row = split_answers-is_answer ids [] run h;
      no_repeat = split_answers-Unseen ids [] run;
      each_call =
          All-both (λ c. has c.id ids ≡ true) (λ c. has c.id (answer_ids run) ≡ true)
            (λ c. has c.id (answer_ids (split_answers ids [] run).0) ≡ true) kept
            (λ c i r. has-split_answers c.id ids [] run i refl r) (has_self kept)
            (filter-All (λ c. has c.id (answer_ids run)) calls);
    }

-- What pass 2 makes of an assistant row and its run of answers is valid, whatever follows it.
pub answer_block-Valid :
    (loads : String → Bool) (m : Message) (run rest : List Message)
    → is_assistant m ≡ true
    → All (λ c. valid_json loads c.arguments ≡ true) m.tool_calls
    → All IsRow run
    → StartsNoTool rest
    → Valid loads rest
    → Valid loads ((answer_block m run).0 ++ rest)
unfolding answer_block has_content
answer_block-Valid loads m run rest c args rows st v =
    go (filter (λ (c : Call). has c.id (answer_ids run)) m.tool_calls) (has_content m) refl refl
      (All-filter (λ (c : Call). valid_json loads c.arguments ≡ true)
        (λ (c : Call). has c.id (answer_ids run)) m.tool_calls args)
      (kept_calls-Answers m.tool_calls run rows)
  where
    go :
        (kept : List Call) (b : Bool)
        → kept ≡ filter (λ (c : Call). has c.id (answer_ids run)) m.tool_calls
        → b ≡ has_content m
        → All (λ c. valid_json loads c.arguments ≡ true) kept
        → Answers kept (split_answers (call_ids kept) [] run).0
        → Valid loads (
            (if is_empty kept
              then append_outcome
                  (if b
                    then ((record m { tool_calls = [] }) ∷ [], [])
                    else ([], note m all_unanswered ∷ []))
                  ([], map (λ a. note a orphaned_answer) run)
              else append_outcome
                  ((record m { tool_calls = kept }) ∷ [], [])
                  (split_answers (call_ids kept) [] run)).0
            ++ rest)
    go [] true e1 e2 a k = plain (record m { tool_calls = [] }) (ground arith) v
    go [] false e1 e2 a k = v
    go (x ∷ xs) b e1 e2 a k =
        block (record m { tool_calls = x ∷ xs }) (split_answers (call_ids (x ∷ xs)) [] run).0 rest
          (ground arith) a k st v refl
