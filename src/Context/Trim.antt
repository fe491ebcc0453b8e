-- ===== src/Context/Trim.antt =====
-- `trim` of core/context.py: the oldest turns are dropped until the history fits a token budget.
-- A missing budget is 0. Rows are numbered as in `enumerate`; the loop over the index in `_blocks`
-- takes fuel, one round for each row.
pub mod Skip
pub mod Groups
pub mod Pinned
pub mod Laws
use baby.Common.{
  ℕ, zero, suc, ◌+◌, ◌-◌, ◌/◌, Bool, true, false, not, Option, none, some, List, [], ◌∷◌, ◌++◌, map,
  ◌||◌, ◌==◌, leb, length, filter, take, if◌then◌else◌,
}
use baby.Message.{Message, is_system, is_user, is_tool, is_caller, content_len}

pub record Indexed : Type 0 where
  pub index : ℕ
  pub message : Message

abbrev pub enumerate : ℕ → List Message → List Indexed
enumerate i [] = []
enumerate i (m ∷ ms) = (record { index = i; message = m }) ∷ enumerate (suc i) ms

abbrev pub messages_of : List Indexed → List Message
messages_of = map (λ x. x.message)

abbrev pub indices_of : List Indexed → List ℕ
indices_of = map (λ x. x.index)

abbrev pub total_len : List Message → ℕ
total_len [] = 0
total_len (m ∷ ms) = content_len m + total_len ms

abbrev pub estimate_tokens : List Message → ℕ
estimate_tokens ms = total_len ms / 4

abbrev pub take_answers : List Indexed → List Indexed
take_answers [] = []
take_answers (x ∷ xs) = if is_tool x.message then x ∷ take_answers xs else []

abbrev pub drop_answers : List Indexed → List Indexed
drop_answers [] = []
drop_answers (x ∷ xs) = if is_tool x.message then drop_answers xs else x ∷ xs

-- `_blocks`
unfoldable pub blocks : ℕ → List Indexed → List (List Indexed)
blocks zero xs = []
blocks (suc fuel) [] = []
blocks (suc fuel) (x ∷ xs) =
    let call = (x ∷ take_answers xs) ∷ blocks fuel (drop_answers xs) in
    let single = (x ∷ []) ∷ blocks fuel xs in if is_caller x.message then call else single

-- the position of the last user row, from the end
unfoldable pub last_user : List Indexed → Option ℕ
last_user [] = none
last_user (x ∷ xs) = elim (last_user xs) [
  | some k ↦ some (suc k)
  | none ↦ if is_user x.message then some 0 else none
]

unfoldable pub droppable : List Indexed → List Indexed
unfolding last_user
droppable xs = elim (last_user xs) [ none ↦ xs | some k ↦ take k xs ]

-- the loop over the groups, oldest first: the numbers of the rows to drop
unfoldable pub drop_groups : ℕ → ℕ → List (List Indexed) → List ℕ
drop_groups budget remaining [] = []
drop_groups budget remaining (g ∷ gs) =
    let more =
      indices_of g ++ drop_groups budget (remaining - estimate_tokens (messages_of g)) gs in
    if leb remaining budget then [] else more

-- `i in drop`
abbrev pub elem : ℕ → List ℕ → Bool
elem i [] = false
elem i (j ∷ js) = i == j || elem i js

abbrev pub history : List Message → List Indexed
history ms = filter (λ x. not (is_system x.message)) (enumerate 0 ms)

unfoldable pub trim : List Message → ℕ → List Message
unfolding blocks droppable drop_groups
trim ms budget =
    let non_sys = history ms in
    let remaining = estimate_tokens (messages_of non_sys) in
    let old = droppable non_sys in
    let drop = drop_groups budget remaining (blocks (suc (length old)) old) in
    if budget == 0
    then ms
    else if leb remaining budget
    then ms
    else messages_of (filter (λ x. not (elem x.index drop)) (enumerate 0 ms))
