-- ===== src/Db/Conversations.antt =====
-- The table `conversations` of db/database.py, with the metadata that the history shows.
pub mod Titles
mod Tests
use baby.Common.{
  ℕ, max, Bool, true, false, ◌&&◌, ◌||◌, not, Option, none, some, List, [], ◌∷◌, ◌++◌, filter,
  length, take, drop, map, ltb, if◌then◌else◌, ◌==◌,
}
use baby.Message.{is_empty, user}
use baby.Text.Words.{Codes, same, strip, squeeze, first_line}
use baby.Db.Table.{find, next_id, update_where}
use baby.Db.Messages as Messages
use baby.Db.Messages.{is_ok, is_spoken, same_role, in_conversation}
use baby.Db.Tasks.{newest_first}
use baby.Db.Audit.{sorted_by}

pub record Conversation : Type 0 where
  pub id : ℕ
  pub channel : Codes
  pub started_at : ℕ
  pub summary : Option Codes
  pub summarized_upto : ℕ
  pub extracted_upto : ℕ
  pub message_embedded_upto : ℕ
  pub title : Option Codes
  pub archived : Bool

abbrev pub conversation_id : Conversation → ℕ
conversation_id c = c.id

unfoldable pub create_conversation : ℕ → Codes → List Conversation → ℕ × List Conversation
create_conversation now channel rows =
    let id = next_id conversation_id rows in
    (
      id,
      rows
          ++ (record {
            id = id;
            channel = channel;
            started_at = now;
            summary = none;
            summarized_upto = 0;
            extracted_upto = 0;
            message_embedded_upto = 0;
            title = none;
            archived = false;
          })
            ∷ [],
    )

abbrev pub latest_id : Codes → List Conversation → Option ℕ
latest_id channel [] = none
latest_id channel (c ∷ rows) = elim (latest_id channel rows) [
  | some i ↦ some i
  | none ↦ if same c.channel channel then some c.id else none
]

-- The table stands in the order of the ids.
unfoldable pub latest_conversation : Codes → List Conversation → Option ℕ
latest_conversation channel rows = latest_id channel rows

-- One row of `_CONV_META_SELECT`.
pub record MetaRow : Type 0 where
  pub conversation : Conversation
  pub message_count : ℕ
  pub last_message_at : Option ℕ
  pub first_user : Option Codes

abbrev pub newest : List Messages.Row → Option ℕ
newest [] = none
newest (r ∷ rows) = elim (newest rows) [
  | none ↦ some r.created_at
  | some t ↦ some (max r.created_at t)
]

abbrev pub first_content : List Messages.Row → Option Codes
first_content [] = none
first_content (r ∷ rows) = some r.content

abbrev pub is_shown : ℕ → Messages.Row → Bool
is_shown c r = in_conversation c r && is_ok r.status && is_spoken r.role

abbrev pub is_asked : ℕ → Messages.Row → Bool
is_asked c r = in_conversation c r && same_role r.role user && is_ok r.status

abbrev pub meta_row : List Messages.Row → Conversation → MetaRow
meta_row messages c =
    let shown = filter (is_shown c.id) messages in
    record {
      conversation = c;
      message_count = length shown;
      last_message_at = newest shown;
      first_user = first_content (filter (is_asked c.id) messages);
    }

pub record Meta : Type 0 where
  pub id : ℕ
  pub channel : Codes
  pub title : Codes
  pub started_at : ℕ
  pub last_message_at : Option ℕ
  pub message_count : ℕ
  pub archived : Bool

-- "New chat"
abbrev pub new_chat : Codes
new_chat = 78 ∷ 101 ∷ 119 ∷ 32 ∷ 99 ∷ 104 ∷ 97 ∷ 116 ∷ []

-- `s or ""`
abbrev pub or_empty : Option Codes → Codes
or_empty none = []
or_empty (some s) = s

abbrev pub derived_title : Codes → Codes → Codes → Codes
derived_title title summary asked =
    if not (is_empty title)
    then title
    else if not (is_empty summary)
    then take 80 (first_line summary)
    else if not (is_empty asked)
    then take 60 (squeeze asked)
    else new_chat

unfoldable pub conversation_meta : MetaRow → Meta
unfolding strip squeeze
conversation_meta r = record {
  id = r.conversation.id;
  channel = r.conversation.channel;
  title =
      derived_title (strip (or_empty r.conversation.title))
        (strip (or_empty r.conversation.summary)) (or_empty r.first_user);
  started_at = r.conversation.started_at;
  last_message_at = r.last_message_at;
  message_count = r.message_count;
  archived = r.conversation.archived;
}

-- `COALESCE(last_message_at, c.started_at)`
abbrev pub activity : MetaRow → ℕ
activity r = elim r.last_message_at [ none ↦ r.conversation.started_at | some t ↦ t ]

abbrev pub on_channel : Option Codes → Conversation → Bool
on_channel none c = true
on_channel (some s) c = same c.channel s

unfoldable pub list_conversations :
    Option Codes → ℕ → ℕ → Bool → List Messages.Row → List Conversation → List Meta
unfolding conversation_meta
list_conversations channel limit offset include_archived messages rows =
    let chosen = filter (λ c. on_channel channel c && (include_archived || not c.archived)) rows in
    let used = filter (λ (r : MetaRow). ltb 0 r.message_count) (map (meta_row messages) chosen) in
    map conversation_meta (take limit (drop offset (newest_first (sorted_by activity used))))

unfoldable pub get_conversation_meta : ℕ → List Messages.Row → List Conversation → Option Meta
unfolding conversation_meta
get_conversation_meta id messages rows = elim (find conversation_id id rows) [
  | none ↦ none
  | some c ↦ some (conversation_meta (meta_row messages c))
]

abbrev pub update_conversation :
    ℕ → (Conversation → Conversation) → List Conversation → List Conversation
update_conversation id f rows = update_where (λ c. conversation_id c == id) f rows

unfoldable pub rename_conversation : ℕ → Codes → List Conversation → List Conversation
rename_conversation id title rows =
    update_conversation id (λ c. record c { title = some title }) rows

unfoldable pub set_conversation_archived : ℕ → Bool → List Conversation → List Conversation
set_conversation_archived id archived rows =
    update_conversation id (λ c. record c { archived = archived }) rows

unfoldable pub get_summary_state : ℕ → List Conversation → Option Codes × ℕ
get_summary_state id rows = elim (find conversation_id id rows) [
  | none ↦ (none, 0)
  | some c ↦ (c.summary, c.summarized_upto)
]

unfoldable pub set_summary : ℕ → Codes → ℕ → List Conversation → List Conversation
set_summary id summary upto rows =
    update_conversation id (λ c. record c { summary = some summary; summarized_upto = upto }) rows

unfoldable pub get_extracted_upto : ℕ → List Conversation → ℕ
get_extracted_upto id rows = elim (find conversation_id id rows) [
  | none ↦ 0
  | some c ↦ c.extracted_upto
]

unfoldable pub set_extracted_upto : ℕ → ℕ → List Conversation → List Conversation
set_extracted_upto id upto rows =
    update_conversation id (λ c. record c { extracted_upto = upto }) rows

unfoldable pub get_message_embedded_upto : ℕ → List Conversation → ℕ
get_message_embedded_upto id rows = elim (find conversation_id id rows) [
  | none ↦ 0
  | some c ↦ c.message_embedded_upto
]

unfoldable pub set_message_embedded_upto : ℕ → ℕ → List Conversation → List Conversation
set_message_embedded_upto id upto rows =
    update_conversation id (λ c. record c { message_embedded_upto = upto }) rows

unfoldable pub list_conversation_ids : List Conversation → List ℕ
list_conversation_ids rows = map conversation_id rows
