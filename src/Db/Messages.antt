-- ===== src/Db/Messages.antt =====
-- The table `messages` of db/database.py: rows grouped into turns, of which only those with the
-- status `ok` are ever loaded.
pub mod Reconcile
pub mod Turns
pub mod CutOff
mod Tests
use baby.Common.{
  ℕ, zero, suc, ◌<◌, Bool, true, false, ◌&&◌, ◌||◌, not, Option, none, some, List, [], ◌∷◌, ◌++◌,
  map, max, any, filter, leb, ltb, ◌==◌, latest, if◌then◌else◌,
}
use baby.Message.{Role, system, user, assistant, tool, other, is_empty}
use baby.Text.Words.{Codes}
use baby.Db.Table.{first_id, next_id, update_where, delete_where}

pub data Status : Type 0 where
  ok failed quarantined : Status

pub record Row : Type 0 where
  pub id : ℕ
  pub conversation_id : ℕ
  pub role : Role
  pub content : Codes
  pub turn_id : Option ℕ
  pub status : Status
  pub created_at : ℕ

abbrev pub is_ok : Status → Bool
is_ok ok = true
is_ok _ = false

abbrev pub same_status : Status → Status → Bool
same_status ok ok = true
same_status failed failed = true
same_status quarantined quarantined = true
same_status _ _ = false

abbrev pub same_role : Role → Role → Bool
same_role system system = true
same_role user user = true
same_role assistant assistant = true
same_role tool tool = true
same_role other other = true
same_role _ _ = false

abbrev pub in_roles : List Role → Role → Bool
in_roles roles r = any (same_role r) roles

-- `role IN ('user', 'assistant')`
abbrev pub is_spoken : Role → Bool
is_spoken r = in_roles (user ∷ assistant ∷ []) r

abbrev pub is_turn : ℕ → Option ℕ → Bool
is_turn t none = false
is_turn t (some n) = n == t

-- the row is of the conversation, and of the turn
abbrev pub in_conversation : ℕ → Row → Bool
in_conversation c r = r.conversation_id == c

abbrev pub in_turn : ℕ → ℕ → Row → Bool
in_turn c t r = in_conversation c r && is_turn t r.turn_id

unfoldable pub add_message : ℕ → ℕ → Role → Codes → Option ℕ → Status → List Row → ℕ × List Row
add_message now c role content turn_id status rows =
    let id = next_id (λ (r : Row). r.id) rows in
    (
      id,
      rows
          ++ (record {
            id = id;
            conversation_id = c;
            role = role;
            content = content;
            turn_id = turn_id;
            status = status;
            created_at = now;
          })
            ∷ [],
    )

abbrev pub turn_or_zero : Option ℕ → ℕ
turn_or_zero none = 0
turn_or_zero (some t) = t

-- `COALESCE(MAX(turn_id), 0)` over the rows of a conversation
abbrev pub max_turn : ℕ → List Row → ℕ
max_turn c [] = 0
max_turn c (r ∷ rows) =
    let rest = max_turn c rows in
    if in_conversation c r then max (turn_or_zero r.turn_id) rest else rest

unfoldable pub next_turn_id : ℕ → List Row → ℕ
next_turn_id c rows = suc (max_turn c rows)

abbrev pub set_status : Status → Row → Row
set_status status r = record r { status = status }

unfoldable pub mark_turn : ℕ → ℕ → Status → List Row → List Row
mark_turn c t status rows = update_where (in_turn c t) (set_status status) rows

unfoldable pub quarantine_messages : List ℕ → List Row → List Row
quarantine_messages ids rows =
    if is_empty ids
    then rows
    else update_where (λ r. any (λ i. r.id == i) ids) (set_status quarantined) rows

-- the subquery of `_reconcile_incomplete_turns`: the turn has a row of the assistant
abbrev pub is_answer : ℕ → ℕ → Row → Bool
is_answer c t r = in_turn c t r && same_role r.role assistant

abbrev pub is_answered : List Row → ℕ → Option ℕ → Bool
is_answered rows c none = true
is_answered rows c (some t) = any (is_answer c t) rows

abbrev pub is_incomplete : List Row → Row → Bool
is_incomplete rows r = is_ok r.status && not (is_answered rows r.conversation_id r.turn_id)

unfoldable pub reconcile_incomplete_turns : List Row → List Row
reconcile_incomplete_turns rows = update_where (is_incomplete rows) (set_status failed) rows

unfoldable pub list_messages_by_status : ℕ → Status → ℕ → List Row → List Row
list_messages_by_status c status limit rows =
    latest limit (filter (λ r. in_conversation c r && same_status r.status status) rows)

-- No roles stand for all.
abbrev pub loads : ℕ → List Role → ℕ → Row → Bool
loads c roles after r =
    in_conversation c r
    && is_ok r.status
    && (is_empty roles || in_roles roles r.role)
    && (after == 0 || ltb after r.id)

unfoldable pub get_messages : ℕ → ℕ → List Role → ℕ → List Row → List (Role × Codes)
get_messages c limit roles after rows =
    map (λ (r : Row). (r.role, r.content)) (latest limit (filter (loads c roles after) rows))

unfoldable pub messages_since : ℕ → ℕ → List Role → List Row → List Row
messages_since c after roles rows =
    filter (λ r. in_conversation c r && ltb after r.id && is_ok r.status && in_roles roles r.role)
      rows

unfoldable pub first_incomplete_message : ℕ → ℕ → ℕ → List Row → Option ℕ
first_incomplete_message c after upto rows =
    first_id (λ (r : Row). r.id)
      (filter
        (λ r.
          in_conversation c r
          && ltb after r.id
          && leb r.id upto
          && not (is_ok r.status)
          && is_spoken r.role)
        rows)

unfoldable pub get_history : ℕ → ℕ → List Row → List Row
get_history c limit rows =
    latest limit (filter (λ r. in_conversation c r && is_spoken r.role && is_ok r.status) rows)

-- `DELETE FROM messages WHERE conversation_id = ?`
unfoldable pub delete_messages : ℕ → List Row → List Row
delete_messages c rows = delete_where (in_conversation c) rows
