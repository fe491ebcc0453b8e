-- ===== src/Db/Deletion/Tests.antt =====
-- The deletion of one of two conversations.
use baby.Common.{
  inl, inr, ℕ, ◌≡◌, refl, ◌==◌, if◌then◌else◌, true, false, none, some, [], ◌∷◌, filter,
}
use baby.Message.{Role, user, assistant}
use baby.Db.Messages as Messages
use baby.Db.Messages.{get_messages, ok}
use baby.Db.Conversations.{Conversation, get_conversation_meta}
use baby.Db.Usage.{UsageRow}
use baby.Db.Deletion.{Tables, delete_conversation}
use baby.Db.Deletion.Traces.{delete_conversation_isolates}
use baby.Db.Deletion.Orphans.{NoOrphans, delete_conversation-NoOrphans}

abbrev said : ℕ → ℕ → Role → Messages.Row
said i c role = record {
  id = i;
  conversation_id = c;
  role = role;
  content = i ∷ [];
  turn_id = some 1;
  status = ok;
  created_at = i;
}

abbrev started : ℕ → Conversation
started i = record {
  id = i;
  channel = [];
  started_at = i;
  summary = none;
  summarized_upto = 0;
  extracted_upto = 0;
  message_embedded_upto = 0;
  title = some (97 ∷ []);
  archived = false;
}

abbrev tables : Tables
tables = record {
  messages = said 1 1 user ∷ said 2 1 assistant ∷ said 3 2 user ∷ said 4 1 user ∷ [];
  message_vectors = record {
    rows =
        record { message_id = 2; embedding = 5 ∷ [] }
        ∷ record { message_id = 3; embedding = 6 ∷ [] }
        ∷ [];
    raises = λ ids. false;
  };
  message_embeddings = record { rows = []; raises = λ ids. true };
  usage_log = [];
  conversations = started 1 ∷ started 2 ∷ [];
}

two_deleted :
    (delete_conversation 2 tables).1.message_vectors.rows
    ≡ record { message_id = 2; embedding = 5 ∷ [] } ∷ []
unfolding delete_conversation
two_deleted = refl

-- a table that was filled in an earlier run, with the extension not loaded in this one
orphan_left :
    (delete_conversation 2 (record tables {
      message_vectors = record tables.message_vectors { raises = λ ids. true };
    })).1.message_vectors.rows
    ≡ tables.message_vectors.rows
unfolding delete_conversation
orphan_left = refl

delete_conversation_isolates_example :
    (get_messages 1 50 [] 0 (delete_conversation 2 tables).1.messages
      ≡ (if 2 == 1 then [] else get_messages 1 50 [] 0 tables.messages))
    × (get_conversation_meta 1
          (delete_conversation 2 tables).1.messages
          (delete_conversation 2 tables).1.conversations
        ≡ (if 2 == 1 then none else get_conversation_meta 1 tables.messages tables.conversations))
    × (filter (λ (u : UsageRow). u.conversation_id == 1) (delete_conversation 2 tables).1.usage_log
        ≡ (if 2 == 1
            then []
            else filter (λ (u : UsageRow). u.conversation_id == 1) tables.usage_log))
delete_conversation_isolates_example = delete_conversation_isolates 2 1 50 [] 0 tables

delete_conversation-NoOrphans_example :
    NoOrphans
      (delete_conversation 1 tables).1.messages
      (delete_conversation 1 tables).1.message_vectors
    × NoOrphans
        (delete_conversation 1 tables).1.messages
        (delete_conversation 1 tables).1.message_embeddings
delete_conversation-NoOrphans_example =
    delete_conversation-NoOrphans 1 tables (inr refl) (inl refl) (refl, (refl, tt)) tt
