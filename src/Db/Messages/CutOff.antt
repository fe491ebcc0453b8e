-- ===== src/Db/Messages/CutOff.antt =====
-- A turn that was cut off leaves no trace after the repair at boot.
use baby.Common.{
  ℕ, ◌≡◌, refl, ap, ◌∙◌, fun_ext, Bool, true, false, ◌&&◌, not, Option, none, some, List, [], ◌∷◌,
  ◌++◌, any, filter, filter-append, append-nil, latest, map, arith, All, Bool-cases, inl, inr,
}
use baby.Message.{Role, assistant}
use baby.Db.Table.{update_where}
use baby.Db.Messages.{
  Row, failed, is_ok, same_role, in_turn, set_status, is_answer, is_answered, is_incomplete,
  reconcile_incomplete_turns, loads, get_messages, next_turn_id,
}
use baby.Db.Messages.Turns.{next_turn_id_fresh, loads-set_status}

-- The rows of a turn that was cut off before the assistant's.
abbrev pub IsCutOff : ℕ → ℕ → Row → Type 0
IsCutOff c t r =
    (r.conversation_id ≡ c) × (r.turn_id ≡ some t) × (same_role r.role assistant ≡ false)

any-CutOff :
    (c t c' t' : ℕ) (rows xs : List Row)
    → All (IsCutOff c t) xs
    → any (is_answer c' t') (rows ++ xs) ≡ any (is_answer c' t') rows
any-CutOff c t c' t' [] [] h = refl
any-CutOff c t c' t' [] (x ∷ xs) h =
    let silent : is_answer c' t' x ≡ false =
      quiet (in_turn c' t' x) (same_role x.role assistant) h.0.2 in
    rw (silent, any-CutOff c t c' t' [] xs h.1)
  where
    quiet : (a b : Bool) → b ≡ false → a && b ≡ false
    quiet true b e = e
    quiet false b e = refl
any-CutOff c t c' t' (r ∷ rows) xs h = rw (any-CutOff c t c' t' rows xs h)

is_answered-CutOff :
    (c t c' : ℕ) (t' : Option ℕ) (rows xs : List Row)
    → All (IsCutOff c t) xs
    → is_answered (rows ++ xs) c' t' ≡ is_answered rows c' t'
is_answered-CutOff c t c' none rows xs h = refl
is_answered-CutOff c t c' (some t') rows xs h = any-CutOff c t c' t' rows xs h

update_where-append :
    (p : Row → Bool) (f : Row → Row) (rows xs : List Row)
    → update_where p f (rows ++ xs) ≡ update_where p f rows ++ update_where p f xs
update_where-append p f [] xs = refl
update_where-append p f (r ∷ rows) xs = rw (update_where-append p f rows xs)

no_answer :
    (c t : ℕ) (rows : List Row) → any (in_turn c t) rows ≡ false → any (is_answer c t) rows ≡ false
no_answer c t [] h = refl
no_answer c t (r ∷ rows) h = ground (arith, no_answer c t rows)

-- Rows that are all incomplete, or not `ok` before, are not loaded after.
filter-CutOff :
    (c : ℕ) (roles : List Role) (after c' t : ℕ) (all xs : List Row)
    → any (is_answer c' t) all ≡ false
    → All (IsCutOff c' t) xs
    → filter (loads c roles after) (update_where (is_incomplete all) (set_status failed) xs) ≡ []
filter-CutOff c roles after c' t all [] silent h = refl
filter-CutOff c roles after c' t all (x ∷ xs) silent h =
    let rest = filter-CutOff c roles after c' t all xs silent h.1 in
    let unanswered : is_answered all x.conversation_id x.turn_id ≡ false =
      rw (h.0.0, h.0.1) silent in
    elim (Bool-cases (is_ok x.status)) [
      | inl fine ↦
          ground (arith, loads-set_status c roles after failed x refl, rest, unanswered, fine)
      | inr not_ok ↦ ground (arith, rest, not_ok)
    ]

-- The rows of a new turn that was cut off before its answer: after the repair at boot every load, of
-- whatever conversation, gives what it would give had the turn not been.
pub cut_off_turn :
    (c limit : ℕ) (roles : List Role) (after c' : ℕ) (rows xs : List Row)
    → All (IsCutOff c' (next_turn_id c' rows)) xs
    → get_messages c limit roles after (reconcile_incomplete_turns (rows ++ xs))
      ≡ get_messages c limit roles after (reconcile_incomplete_turns rows)
unfolding reconcile_incomplete_turns get_messages
cut_off_turn c limit roles after c' rows xs h =
    let t = next_turn_id c' rows in
    let same : is_incomplete (rows ++ xs) ≡ is_incomplete rows = fun_ext (λ r.
      ap (λ b. is_ok r.status && not b)
        (is_answered-CutOff c' t r.conversation_id r.turn_id rows xs h)) in
    let repaired = update_where (is_incomplete rows) (set_status failed) in
    ap (λ rs. map (λ (r : Row). (r.role, r.content)) (latest limit rs))
      (ap (λ p. filter (loads c roles after) (update_where p (set_status failed) (rows ++ xs))) same
        ∙ ap (filter (loads c roles after))
            (update_where-append (is_incomplete rows) (set_status failed) rows xs)
        ∙ filter-append (loads c roles after) (repaired rows) (repaired xs)
        ∙ ap (λ ys. filter (loads c roles after) (repaired rows) ++ ys)
            (filter-CutOff c roles after c' t rows xs
              (no_answer c' t rows (next_turn_id_fresh c' rows)) h)
        ∙ append-nil (filter (loads c roles after) (repaired rows)))
