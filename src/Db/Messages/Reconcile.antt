-- ===== src/Db/Messages/Reconcile.antt =====
-- What the repair at boot leaves.
use baby.Common.{
  ℕ, ◌⊎◌, ◌≡◌, ◌≢◌, refl, ap, sym, ◌∙◌, Bool, true, false, Option, none, some, List, [], ◌∷◌, any,
  arith, Bool-cases, Option-cases, inl, inr,
}
use baby.Message.{Role, system, user, assistant, tool, other}
use baby.Db.Table.{update_where}
use baby.Db.Messages.{
  Row, Status, ok, failed, quarantined, is_ok, is_turn, in_conversation, same_role, set_status,
  is_answer, is_incomplete, reconcile_incomplete_turns,
}

-- A row of the assistant stands in the table with the row's conversation and turn.
abbrev pub HasAnswer : List Row → Row → Type 0
HasAnswer [] r = ⊥
HasAnswer (s ∷ rows) r =
    ((s.conversation_id ≡ r.conversation_id) × (s.turn_id ≡ r.turn_id) × (s.role ≡ assistant))
    ⊎ HasAnswer rows r

-- The row is not loaded, is of no turn, or its turn has an answer.
abbrev pub IsComplete : List Row → Row → Type 0
IsComplete rows r = (r.status ≢ ok) ⊎ ((r.turn_id ≡ none) ⊎ HasAnswer rows r)

-- The second row is what is due for the first in the table: itself if it is complete, and if it is
-- not, the row with the status `failed`.
abbrev pub IsRepaired : List Row → Row → Row → Type 0
IsRepaired rows r r' =
    (IsComplete rows r × (r' ≡ r)) ⊎ ((IsComplete rows r → ⊥) × (r' ≡ record r { status = failed }))

abbrev pub AllRepaired : List Row → List Row → List Row → Type 0
AllRepaired all [] [] = Unit {0}
AllRepaired all (r ∷ rows) (r' ∷ rows') = IsRepaired all r r' × AllRepaired all rows rows'
AllRepaired all _ _ = ⊥

same_role-eq : (r : Role) → same_role r assistant ≡ true → r ≡ assistant
same_role-eq system h = absurd (cc)
same_role-eq user h = absurd (cc)
same_role-eq assistant h = refl
same_role-eq tool h = absurd (cc)
same_role-eq other h = absurd (cc)

is_turn-eq : (t : ℕ) (o : Option ℕ) → is_turn t o ≡ true → o ≡ some t
is_turn-eq t none h = absurd (cc)
is_turn-eq t (some n) h = let e : n ≡ t = ground (arith, h) in ap some e

is_turn_self : (t : ℕ) → is_turn t (some t) ≡ true
is_turn_self t = ground arith

is_ok-eq : (s : Status) → is_ok s ≡ true → s ≡ ok
is_ok-eq ok h = refl
is_ok-eq failed h = absurd (cc)
is_ok-eq quarantined h = absurd (cc)

-- The test of the update finds the answers, and only those.
answered-HasAnswer :
    (t : ℕ) (r : Row) (rows : List Row)
    → r.turn_id ≡ some t
    → any (is_answer r.conversation_id t) rows ≡ true
    → HasAnswer rows r
answered-HasAnswer t r [] e h = absurd (cc)
answered-HasAnswer t r (s ∷ rows) e h = elim (Bool-cases (is_answer r.conversation_id t s)) [
  | inl answer ↦
      let c : s.conversation_id ≡ r.conversation_id = ground (arith, answer) in
      let i : is_turn t s.turn_id ≡ true = ground (arith, answer) in
      let a : same_role s.role assistant ≡ true = ground (arith, answer) in
      inl (c, is_turn-eq t s.turn_id i ∙ sym e, same_role-eq s.role a)
  | inr not_it ↦ inr (answered-HasAnswer t r rows e (ground (arith, h, not_it)))
]

HasAnswer-answered :
    (t : ℕ) (r : Row) (rows : List Row)
    → r.turn_id ≡ some t
    → HasAnswer rows r
    → any (is_answer r.conversation_id t) rows ≡ true
HasAnswer-answered t r [] e h = absurd h
HasAnswer-answered t r (s ∷ rows) e (inl (c, i, a)) =
    let turn : is_turn t s.turn_id ≡ true = rw (i, e) (is_turn_self t) in
    let role : same_role s.role assistant ≡ true = rw a refl in
    let conv : in_conversation r.conversation_id s ≡ true = ground (arith, c) in
    rw (conv, turn, role) refl
HasAnswer-answered t r (s ∷ rows) e (inr h) = ground (arith, HasAnswer-answered t r rows e h)

complete-left_alone : (all : List Row) (r : Row) → IsComplete all r → is_incomplete all r ≡ false
complete-left_alone all r (inl not_ok) = elim (Bool-cases (is_ok r.status)) [
  | inl fine ↦ absurd (not_ok (is_ok-eq r.status fine))
  | inr bad ↦ rw bad refl
]
complete-left_alone all r (inr (inl no_turn)) = elim (Bool-cases (is_ok r.status)) [
  | inl fine ↦ rw (fine, no_turn) refl
  | inr bad ↦ rw bad refl
]
complete-left_alone all r (inr (inr answer)) = elim (Option-cases r.turn_id) [
  | inl no_turn ↦ elim (Bool-cases (is_ok r.status)) [
    | inl fine ↦ rw (fine, no_turn) refl
    | inr bad ↦ rw bad refl
  ]
  | inr (t, e) ↦
      let found = HasAnswer-answered t r all e answer in
      elim (Bool-cases (is_ok r.status)) [
        | inl fine ↦ rw (fine, e, found) refl
        | inr bad ↦ rw bad refl
      ]
]

left_alone-IsComplete : (all : List Row) (r : Row) → is_incomplete all r ≡ false → IsComplete all r
left_alone-IsComplete all r h = elim (Bool-cases (is_ok r.status)) [
  | inr bad ↦ inl (λ e. ground (arith, bad, ap is_ok e))
  | inl fine ↦ elim (Option-cases r.turn_id) [
    | inl no_turn ↦ inr (inl no_turn)
    | inr (t, e) ↦ elim (Bool-cases (any (is_answer r.conversation_id t) all)) [
      | inl found ↦ inr (inr (answered-HasAnswer t r all e found))
      | inr missing ↦
          let hit : is_incomplete all r ≡ true = rw (fine, e, missing) refl in
          absurd (ground (arith, hit, h))
    ]
  ]
]

repaired :
    (all rows : List Row)
    → AllRepaired all rows (update_where (is_incomplete all) (set_status failed) rows)
repaired all [] = tt
repaired all (r ∷ rows) = elim (Bool-cases (is_incomplete all r)) [
  | inl hit ↦
      let missing : IsComplete all r → ⊥ = λ c. ground (arith, hit, complete-left_alone all r c) in
      rw hit (inr (missing, refl), repaired all rows)
  | inr miss ↦ rw miss (inl (left_alone-IsComplete all r miss, refl), repaired all rows)
]

-- Answers do not depend on the status of rows.
answers_stay :
    (p : Row → Bool) (s : Status) (r : Row) (rows : List Row)
    → HasAnswer rows r
    → HasAnswer (update_where p (set_status s) rows) r
answers_stay p s r [] h = h
answers_stay p s r (x ∷ rows) (inl here) = elim (Bool-cases (p x)) [
  | inl hit ↦ rw hit (inl here)
  | inr miss ↦ rw miss (inl here)
]
answers_stay p s r (x ∷ rows) (inr later) = elim (Bool-cases (p x)) [
  | inl hit ↦ rw hit (inr (answers_stay p s r rows later))
  | inr miss ↦ rw miss (inr (answers_stay p s r rows later))
]

stays-IsComplete :
    (p : Row → Bool) (s : Status) (all : List Row) (r : Row)
    → IsComplete all r
    → IsComplete (update_where p (set_status s) all) r
stays-IsComplete p s all r (inl not_ok) = inl not_ok
stays-IsComplete p s all r (inr (inl no_turn)) = inr (inl no_turn)
stays-IsComplete p s all r (inr (inr answer)) = inr (inr (answers_stay p s r all answer))

nothing_to_do :
    (all' all rows : List Row)
    → ((r : Row) → IsComplete all r → IsComplete all' r)
    → update_where
        (is_incomplete all')
        (set_status failed)
        (update_where (is_incomplete all) (set_status failed) rows)
      ≡ update_where (is_incomplete all) (set_status failed) rows
nothing_to_do all' all [] keeps = refl
nothing_to_do all' all (r ∷ rows) keeps = elim (Bool-cases (is_incomplete all r)) [
  | inl hit ↦ rw (hit, nothing_to_do all' all rows keeps) refl
  | inr miss ↦
      let still = complete-left_alone all' r (keeps r (left_alone-IsComplete all r miss)) in
      rw (miss, still, nothing_to_do all' all rows keeps) refl
]

-- The repair at boot leaves every row as it is that is not `ok`, is of no turn, or whose turn has a row of
-- the assistant in the row's own conversation; every other row is failed, and else unchanged; and a
-- second repair changes nothing.
pub reconcile_incomplete_turns-AllRepaired :
    (rows : List Row)
    → AllRepaired rows rows (reconcile_incomplete_turns rows)
      × (reconcile_incomplete_turns (reconcile_incomplete_turns rows)
          ≡ reconcile_incomplete_turns rows)
unfolding reconcile_incomplete_turns
reconcile_incomplete_turns-AllRepaired rows = (
  repaired rows rows,
  nothing_to_do (update_where (is_incomplete rows) (set_status failed) rows) rows rows
      (stays-IsComplete (is_incomplete rows) failed rows),
)
