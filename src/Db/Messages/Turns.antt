-- ===== src/Db/Messages/Turns.antt =====
-- The rows of one turn: a new turn's id, and the status that a whole turn is given.
use baby.Common.{
  ℕ, suc, ◌≡◌, ◌<◌, refl, false, ◌&&◌, not, Option, none, some, List, [], ◌∷◌, any, filter, arith,
  Bool-cases, inl, inr, latest, map, ap,
}
use baby.Message.{Role}
use baby.Db.Table.{update_where}
use baby.Db.Messages.{
  Row, Status, is_ok, in_turn, in_conversation, max_turn, turn_or_zero, next_turn_id, mark_turn,
  set_status, loads, get_messages,
}

-- one row whose turn is an earlier one, or none
row_not_in_turn :
    (c t : ℕ) (r : Row) (o : Option ℕ) → r.turn_id ≡ o → turn_or_zero o < t → in_turn c t r ≡ false
row_not_in_turn c t r none e h = rw e (ground arith)
row_not_in_turn c t r (some n) e h = rw e (ground arith)

not_in_turn : (c t : ℕ) (rows : List Row) → max_turn c rows < t → any (in_turn c t) rows ≡ false
not_in_turn c t [] h = refl
not_in_turn c t (r ∷ rows) h = elim (Bool-cases (in_conversation c r)) [
  | inr other ↦ ground (arith, not_in_turn c t rows)
  | inl mine ↦ ground (arith, row_not_in_turn c t r r.turn_id refl, not_in_turn c t rows)
]

-- The id of a new turn is that of no row of the conversation.
pub next_turn_id_fresh :
    (c : ℕ) (rows : List Row) → any (in_turn c (next_turn_id c rows)) rows ≡ false
unfolding next_turn_id
next_turn_id_fresh c rows = not_in_turn c (suc (max_turn c rows)) rows (omega arith)

pub loads-set_status :
    (c : ℕ) (roles : List Role) (after : ℕ) (s : Status) (r : Row)
    → is_ok s ≡ false
    → loads c roles after (set_status s r) ≡ false
loads-set_status c roles after s r e = ground arith

filter-marked :
    (c : ℕ) (roles : List Role) (after c' t : ℕ) (s : Status) (rows : List Row)
    → is_ok s ≡ false
    → filter (loads c roles after) (update_where (in_turn c' t) (set_status s) rows)
      ≡ filter (λ r. loads c roles after r && not (in_turn c' t r)) rows
filter-marked c roles after c' t s [] e = refl
filter-marked c roles after c' t s (r ∷ rows) e =
    let rest = filter-marked c roles after c' t s rows e in
    elim (Bool-cases (in_turn c' t r)) [
      | inl hit ↦ ground (arith, loads-set_status c roles after s r e, rest)
      | inr miss ↦ ground (arith, rest)
    ]

-- A turn that is marked as failed or quarantined is never loaded, whatever the conversation, the
-- roles and the watermark; and the rows of all other turns are loaded as before.
pub get_messages-mark_turn :
    (c limit : ℕ) (roles : List Role) (after c' t : ℕ) (s : Status) (rows : List Row)
    → is_ok s ≡ false
    → get_messages c limit roles after (mark_turn c' t s rows)
      ≡ map
          (λ (r : Row). (r.role, r.content))
          (latest limit (filter (λ r. loads c roles after r && not (in_turn c' t r)) rows))
unfolding get_messages mark_turn
get_messages-mark_turn c limit roles after c' t s rows e =
    ap (λ rs. map (λ (r : Row). (r.role, r.content)) (latest limit rs))
      (filter-marked c roles after c' t s rows e)
