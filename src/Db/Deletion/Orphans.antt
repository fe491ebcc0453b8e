-- ===== src/Db/Deletion/Orphans.antt =====
-- The vectors of messages after the deletion of a conversation.
use baby.Common.{
  ℕ, ◌≡◌, refl, true, false, List, [], ◌∷◌, filter, map, any, arith, All, Bool-cases, inl, inr,
  ◌==◌, ◌⊎◌,
}
use baby.Message.{is_empty}
use baby.Db.Table.{delete_where}
use baby.Db.Messages as Messages
use baby.Db.Messages.{in_conversation, delete_messages}
use baby.Db.Deletion.{Tables, Vector, VectorTable, purge, delete_conversation}

-- The vector is of a message that is there.
abbrev pub HasMessage : List Messages.Row → Vector → Type 0
HasMessage messages v = any (λ (r : Messages.Row). r.id == v.message_id) messages ≡ true

abbrev pub ids_of : ℕ → List Messages.Row → List ℕ
ids_of c messages = map (λ (r : Messages.Row). r.id) (filter (in_conversation c) messages)

-- Every vector of the table is of a message that is there.
abbrev pub NoOrphans : List Messages.Row → VectorTable → Type 0
NoOrphans messages t = All (HasMessage messages) t.rows

-- The table has no vectors, or SQLite can delete those of the conversation.
abbrev pub CanPurge : ℕ → List Messages.Row → VectorTable → Type 0
CanPurge c messages t = (t.rows ≡ []) ⊎ (t.raises (ids_of c messages) ≡ false)

-- A message with the id stays, or its id is among the ids of the conversation.
stays_or_listed :
    (c i : ℕ) (messages : List Messages.Row)
    → any (λ (r : Messages.Row). r.id == i) messages ≡ true
    → any (λ j. i == j) (map (λ (r : Messages.Row). r.id) (filter (in_conversation c) messages))
      ≡ false
    → any (λ (r : Messages.Row). r.id == i) (delete_where (in_conversation c) messages) ≡ true
stays_or_listed c i [] h k = absurd (cc)
stays_or_listed c i (r ∷ messages) h k = elim (Bool-cases (in_conversation c r)) [
  | inl mine ↦ ground (arith, mine, h, k, stays_or_listed c i messages)
  | inr other ↦ ground (arith, other, h, k, stays_or_listed c i messages)
]

purged :
    (c : ℕ) (messages : List Messages.Row) (vs : List Vector)
    → All (HasMessage messages) vs
    → All (HasMessage (delete_where (in_conversation c) messages)) (
        delete_where
          (λ v.
            any
              (λ i. v.message_id == i)
              (map (λ (r : Messages.Row). r.id) (filter (in_conversation c) messages)))
          vs)
purged c messages [] h = tt
purged c messages (v ∷ vs) h =
    let ids = map (λ (r : Messages.Row). r.id) (filter (in_conversation c) messages) in
    elim (Bool-cases (any (λ i. v.message_id == i) ids)) [
      | inl listed ↦ rw listed (purged c messages vs h.1)
      | inr free ↦
          rw free (stays_or_listed c v.message_id messages h.0 free, purged c messages vs h.1)
    ]

-- Without a message of the conversation nothing is purged, and nothing is deleted.
nothing_listed :
    (c : ℕ) (messages : List Messages.Row)
    → is_empty (map (λ (r : Messages.Row). r.id) (filter (in_conversation c) messages)) ≡ true
    → delete_where (in_conversation c) messages ≡ messages
nothing_listed c [] h = refl
nothing_listed c (r ∷ messages) h = elim (Bool-cases (in_conversation c r)) [
  | inl mine ↦ ground (arith, mine, h)
  | inr other ↦ ground (arith, other, h, nothing_listed c messages)
]

no_vectors : (ids : List ℕ) (t : VectorTable) → t.rows ≡ [] → (purge ids t).rows ≡ []
no_vectors ids t e = elim (Bool-cases (is_empty ids)) [
  | inl none_listed ↦ rw none_listed e
  | inr listed ↦ elim (Bool-cases (t.raises ids)) [
    | inl fails ↦ rw (listed, fails) e
    | inr works ↦ rw (listed, works, e) refl
  ]
]

purge-NoOrphans :
    (c : ℕ) (messages : List Messages.Row) (t : VectorTable)
    → CanPurge c messages t
    → NoOrphans messages t
    → NoOrphans (delete_where (in_conversation c) messages) (purge (ids_of c messages) t)
purge-NoOrphans c messages t (inl e) h = rw (no_vectors (ids_of c messages) t e) tt
purge-NoOrphans c messages t (inr works) h = elim (Bool-cases (is_empty (ids_of c messages))) [
  | inl empty ↦ rw (empty, nothing_listed c messages empty) h
  | inr listed ↦ rw (listed, works) (purged c messages t.rows h)
]

-- If every vector belongs to a message before the deletion of a conversation, every vector left does
-- after it, in both tables of vectors, provided that each is empty or SQLite can delete the vectors
-- of the conversation from it.
pub delete_conversation-NoOrphans :
    (c : ℕ) (t : Tables)
    → CanPurge c t.messages t.message_vectors
    → CanPurge c t.messages t.message_embeddings
    → NoOrphans t.messages t.message_vectors
    → NoOrphans t.messages t.message_embeddings
    → NoOrphans (delete_conversation c t).1.messages (delete_conversation c t).1.message_vectors
      × NoOrphans
          (delete_conversation c t).1.messages
          (delete_conversation c t).1.message_embeddings
unfolding delete_conversation delete_messages
delete_conversation-NoOrphans c t can can' h k = (
  purge-NoOrphans c t.messages t.message_vectors can h,
  purge-NoOrphans c t.messages t.message_embeddings can' k,
)
