-- ===== src/Db/Deletion/Traces.antt =====
-- What is left of a conversation after its deletion, and of the others.
use baby.Common.{
  ℕ, ◌≡◌, ◌≢◌, refl, sym, ap, ◌∙◌, Bool, true, false, Option, none, some, List, [], ◌∷◌, filter,
  map, latest, latest_all, arith, Bool-cases, inl, inr, if◌then◌else◌, ◌==◌,
}
use baby.Message.{Role}
use baby.Text.Words.{Codes}
use baby.Db.Table.{delete_where, find}
use baby.Db.Messages as Messages
use baby.Db.Messages.{in_conversation, delete_messages, loads, get_messages}
use baby.Db.Conversations.{
  Conversation, conversation_id, get_conversation_meta, meta_row, is_shown, is_asked,
  conversation_meta, Meta,
}
use baby.Db.Usage.{UsageRow}
use baby.Db.Deletion.{Tables, delete_conversation}

module _ {A : Type 0} (p q : A → Bool) where
  filter-delete_other :
      ((r : A) → p r ≡ true → q r ≡ false)
      → (rows : List A) → filter p (delete_where q rows) ≡ filter p rows
  filter-delete_other h [] = refl
  filter-delete_other h (r ∷ rows) = elim (Bool-cases (p r)) [
    | inl kept ↦ ground (arith, kept, h r kept, filter-delete_other h rows)
    | inr gone ↦ ground (arith, gone, filter-delete_other h rows)
  ]

  filter-delete_same :
      ((r : A) → p r ≡ true → q r ≡ true) → (rows : List A) → filter p (delete_where q rows) ≡ []
  filter-delete_same h [] = refl
  filter-delete_same h (r ∷ rows) = elim (Bool-cases (p r)) [
    | inl hit ↦ ground (arith, hit, h r hit, filter-delete_same h rows)
    | inr miss ↦ ground (arith, miss, filter-delete_same h rows)
  ]

loads-in :
    (c : ℕ) (roles : List Role) (after : ℕ) (r : Messages.Row)
    → loads c roles after r ≡ true
    → r.conversation_id ≡ c
loads-in c roles after r h = ground (arith, h)

find-delete :
    (c d : ℕ) (rows : List Conversation)
    → find conversation_id d (delete_where (λ r. conversation_id r == c) rows)
      ≡ (if c == d then none else find conversation_id d rows)
find-delete c d [] = ground arith
find-delete c d (r ∷ rows) = ground (arith, find-delete c d rows)

-- the metadata reads only the messages of the conversation
meta-delete :
    (c : ℕ) (k : Conversation) (messages : List Messages.Row)
    → k.id ≢ c
    → meta_row (delete_where (in_conversation c) messages) k ≡ meta_row messages k
meta-delete c k messages h =
    rw
      (
        filter-delete_other (is_shown k.id) (in_conversation c) (λ r e. ground (arith, e)) messages,
        filter-delete_other (is_asked k.id) (in_conversation c) (λ r e. ground (arith, e)) messages,
      )
      refl

loads-delete :
    (c d : ℕ) (roles : List Role) (after : ℕ) (messages : List Messages.Row)
    → filter (loads d roles after) (delete_where (in_conversation c) messages)
      ≡ (if c == d then [] else filter (loads d roles after) messages)
loads-delete c d roles after messages = elim (Bool-cases (c == d)) [
  | inl mine ↦ rw mine (
      filter-delete_same (loads d roles after) (in_conversation c)
        (λ r h. ground (arith, mine, loads-in d roles after r h)) messages)
  | inr other ↦ rw other (
      filter-delete_other (loads d roles after) (in_conversation c)
        (λ r h. ground (arith, other, loads-in d roles after r h)) messages)
]

usage-delete :
    (c d : ℕ) (rows : List UsageRow)
    → filter
        (λ (u : UsageRow). u.conversation_id == d)
        (delete_where (λ (u : UsageRow). u.conversation_id == c) rows)
      ≡ (if c == d then [] else filter (λ (u : UsageRow). u.conversation_id == d) rows)
usage-delete c d rows = elim (Bool-cases (c == d)) [
  | inl mine ↦ rw mine (
      filter-delete_same (λ (u : UsageRow). u.conversation_id == d)
        (λ (u : UsageRow). u.conversation_id == c) (λ r h. ground (arith, mine, h)) rows)
  | inr other ↦ rw other (
      filter-delete_other (λ (u : UsageRow). u.conversation_id == d)
        (λ (u : UsageRow). u.conversation_id == c) (λ r h. ground (arith, other, h)) rows)
]

found :
    (d : ℕ) (rows : List Conversation) (k : Conversation)
    → find conversation_id d rows ≡ some k
    → k.id ≡ d
found d [] k e = absurd (cc)
found d (r ∷ rows) k e = ground (arith, found d rows k, e)

-- the metadata of what a lookup gave
abbrev meta_of : List Messages.Row → Option Conversation → Option Meta
meta_of messages none = none
meta_of messages (some k) = some (conversation_meta (meta_row messages k))

meta_of-delete :
    (c d : ℕ) (messages : List Messages.Row) (o : Option Conversation)
    → ((k : Conversation) → o ≡ some k → k.id ≡ d)
    → meta_of (delete_where (in_conversation c) messages) (if c == d then none else o)
      ≡ (if c == d then none else meta_of messages o)
meta_of-delete c d messages none h = ground arith
meta_of-delete c d messages (some k) h = elim (Bool-cases (c == d)) [
  | inl mine ↦ rw mine refl
  | inr other ↦ rw (other, meta-delete c k messages (λ e. ground (arith, other, h k refl, e))) refl
]

get_meta-delete :
    (c d : ℕ) (messages : List Messages.Row) (rows : List Conversation)
    → get_conversation_meta d
        (delete_where (in_conversation c) messages)
        (delete_where (λ r. conversation_id r == c) rows)
      ≡ (if c == d then none else get_conversation_meta d messages rows)
unfolding get_conversation_meta
get_meta-delete c d messages rows =
    as_meta (find conversation_id d (delete_where (λ r. conversation_id r == c) rows))
      (delete_where (in_conversation c) messages)
    ∙ ap (meta_of (delete_where (in_conversation c) messages)) (find-delete c d rows)
    ∙ meta_of-delete c d messages (find conversation_id d rows) (found d rows)
    ∙ ap (λ o. if c == d then none else o) (sym (as_meta (find conversation_id d rows) messages))
  where
    as_meta :
        (o : Option Conversation) (ms : List Messages.Row)
        → elim o [ none ↦ none | some k ↦ some (conversation_meta (meta_row ms k)) ] ≡ meta_of ms o
    as_meta none ms = refl
    as_meta (some k) ms = refl

-- After the deletion of a conversation nothing of it is loaded, it has no metadata and none of
-- its usage is left; every other conversation loads and shows exactly what it did, and keeps its usage.
pub delete_conversation_isolates :
    (c d limit : ℕ) (roles : List Role) (after : ℕ) (t : Tables)
    → (get_messages d limit roles after (delete_conversation c t).1.messages
        ≡ (if c == d then [] else get_messages d limit roles after t.messages))
      × (get_conversation_meta d
            (delete_conversation c t).1.messages
            (delete_conversation c t).1.conversations
          ≡ (if c == d then none else get_conversation_meta d t.messages t.conversations))
      × (filter (λ (u : UsageRow). u.conversation_id == d) (delete_conversation c t).1.usage_log
          ≡ (if c == d then [] else filter (λ (u : UsageRow). u.conversation_id == d) t.usage_log))
unfolding delete_conversation delete_messages get_messages
delete_conversation_isolates c d limit roles after t = (
  ap (λ rs. map {B = Role × Codes} (λ r. (r.role, r.content)) (latest limit rs))
        (loads-delete c d roles after t.messages)
      ∙ split_if (c == d),
  get_meta-delete c d t.messages t.conversations,
  usage-delete c d t.usage_log,
)
  where
    split_if :
        (b : Bool)
        → map {B = Role × Codes}
            (λ r. (r.role, r.content))
            (latest limit (if b then [] else filter (loads d roles after) t.messages))
          ≡ (if b
              then []
              else map {B = Role × Codes}
                  (λ r. (r.role, r.content))
                  (latest limit (filter (loads d roles after) t.messages)))
    split_if true =
        ap (map {B = Role × Codes} (λ r. (r.role, r.content))) (latest_all limit [] (omega arith))
    split_if false = refl
