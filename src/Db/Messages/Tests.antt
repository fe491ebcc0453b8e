-- ===== src/Db/Messages/Tests.antt =====
-- A table of two conversations, one of whose turns was cut off.
use baby.Common.{ℕ, ◌≡◌, refl, Option, none, some, List, [], ◌∷◌, ◌++◌}
use baby.Message.{Role, user, assistant, tool}
use baby.Db.Messages.{Row, ok, reconcile_incomplete_turns, get_messages, next_turn_id}
use baby.Db.Messages.Reconcile.{AllRepaired, reconcile_incomplete_turns-AllRepaired}
use baby.Db.Messages.CutOff.{cut_off_turn}

abbrev said : ℕ → ℕ → Role → Option ℕ → Row
said i c role turn = record {
  id = i;
  conversation_id = c;
  role = role;
  content = i ∷ [];
  turn_id = turn;
  status = ok;
  created_at = i;
}

abbrev table : List Row
table =
    said 1 1 user (some 1)
    ∷ said 2 1 assistant (some 1)
    ∷ said 3 2 user none
    ∷ said 4 2 user (some 1)
    ∷ said 5 2 assistant (some 1)
    ∷ []

-- the second turn of conversation 1, without an answer; conversation 2 has no second turn
abbrev cut_off : List Row
cut_off = said 6 1 user (some 2) ∷ said 7 1 tool (some 2) ∷ []

not_loaded :
    get_messages 1 50 [] 0 (reconcile_incomplete_turns (table ++ cut_off))
    ≡ (user, 1 ∷ []) ∷ (assistant, 2 ∷ []) ∷ []
unfolding get_messages reconcile_incomplete_turns
not_loaded = refl

reconcile_incomplete_turns-AllRepaired_example :
    AllRepaired
      (table ++ cut_off)
      (table ++ cut_off)
      (reconcile_incomplete_turns (table ++ cut_off))
    × (reconcile_incomplete_turns (reconcile_incomplete_turns (table ++ cut_off))
        ≡ reconcile_incomplete_turns (table ++ cut_off))
reconcile_incomplete_turns-AllRepaired_example =
    reconcile_incomplete_turns-AllRepaired (table ++ cut_off)

cut_off_turn_example :
    get_messages 1 50 (user ∷ []) 0 (reconcile_incomplete_turns (table ++ cut_off))
    ≡ get_messages 1 50 (user ∷ []) 0 (reconcile_incomplete_turns table)
unfolding next_turn_id
cut_off_turn_example =
    cut_off_turn 1 50 (user ∷ []) 0 1 table cut_off ((refl, refl, refl), ((refl, refl, refl), tt))
