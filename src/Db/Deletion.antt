-- ===== src/Db/Deletion.antt =====
-- The deletion of a conversation from all tables of db/database.py that hold rows of it.
pub mod Traces
pub mod Orphans
mod Tests
use baby.Common.{ℕ, Bool, List, [], ◌∷◌, length, map, filter, any, if◌then◌else◌, ◌==◌}
use baby.Message.{is_empty}
use baby.Db.Table.{delete_where}
use baby.Db.Messages as Messages
use baby.Db.Messages.{in_conversation, delete_messages}
use baby.Db.Usage.{UsageRow}
use baby.Db.Conversations.{Conversation, conversation_id}

-- A row of `message_vectors` or of `message_embeddings`.
pub record Vector : Type 0 where
  pub message_id : ℕ
  pub embedding : List ℕ

-- The tables of vectors are those of the memory. Whether a statement on some ids raises an
-- `OperationalError` is SQLite's affair: it does where the table is missing, where the extension for
-- `vec0` is not loaded, or where the ids are more than a statement may have.
pub record VectorTable : Type 0 where
  pub rows : List Vector
  pub raises : List ℕ → Bool

pub record Tables : Type 0 where
  pub messages : List Messages.Row
  pub message_vectors : VectorTable
  pub message_embeddings : VectorTable
  pub usage_log : List UsageRow
  pub conversations : List Conversation

-- The error is swallowed, and the rows stay.
abbrev pub purge : List ℕ → VectorTable → VectorTable
purge ids t =
    if is_empty ids
    then t
    else if t.raises ids
    then t
    else record t { rows = delete_where (λ v. any (λ i. v.message_id == i) ids) t.rows }

-- the reply, `messages`, and the tables
unfoldable pub delete_conversation : ℕ → Tables → ℕ × Tables
unfolding delete_messages
delete_conversation c t =
    let ids = map (λ (r : Messages.Row). r.id) (filter (in_conversation c) t.messages) in
    (
      length ids,
      record {
        messages = delete_messages c t.messages;
        message_vectors = purge ids t.message_vectors;
        message_embeddings = purge ids t.message_embeddings;
        usage_log = delete_where (λ (u : UsageRow). u.conversation_id == c) t.usage_log;
        conversations = delete_where (λ r. conversation_id r == c) t.conversations;
      },
    )
