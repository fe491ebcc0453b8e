-- ===== src/Safety/Shell/Groups.antt =====
-- The groups that the code finds in a command, and its pieces.
use baby.Common.{
  IsIn, IsIn-left, IsIn-right, ℕ, zero, suc, ◌≤◌, ◌≡◌, refl, sym, ap, ◌∙◌, subst, Bool, true, false,
  not, Option, none, some, List, [], ◌∷◌, ◌++◌, ◌==◌, arith, filter, length, length-append,
  Bool-cases, inl, inr,
}
use baby.Message.{is_empty}
use baby.Text.Search.{Unicode}
use baby.Text.Regex.{search_from}
use baby.Text.Words.{Codes, strip}
use baby.Safety.Patterns.{cmd_c}
use baby.Safety.Shell.{
  group, find_groups, find_all, at_subexpr, at_scriptblock, split, cmd_segments, pieces_of, pieces,
}
use baby.Safety.Shell.Parts.{
  PieceOf, split-PieceOf, begins_with, GroupOf, IsBody, here, past, next, stopped, Inside, itself,
  subexpression, script_block, cmd_slash_c,
}

same_code : (c : ℕ) → c == c ≡ true
same_code c = ground arith

module _ (opening : Codes) (stop : ℕ → Bool) (close : ℕ) where
  group-IsBody :
      (g after : Codes)
      → IsBody opening stop close g
      → group stop close (g ++ (close ∷ after)) ≡ some (g, after)
  group-IsBody [] after h = rw (same_code close) refl
  group-IsBody (c ∷ g) after h = rw (h.0.0, h.0.1, group-IsBody g after h.1) refl

  group_stopped :
      (g : Codes) (x : ℕ) (after : Codes)
      → IsBody opening stop close g
      → x == close ≡ false
      → stop x ≡ true
      → group stop close (g ++ (x ∷ after)) ≡ none
  group_stopped [] x after h ne s = rw (ne, s) refl
  group_stopped (c ∷ g) x after h ne s = rw (h.0.0, h.0.1, group_stopped g x after h.1 ne s) refl

  module _ (at : Codes → Option (Codes × Codes))
      (opens : (r : Codes) → at (opening ++ r) ≡ group stop close r)
      (misses : (s : Codes) → begins_with opening s ≡ false → at s ≡ none) where
    found_at :
        (fuel : ℕ) (s g after : Codes)
        → s ≡ opening ++ (g ++ (close ∷ after))
        → IsBody opening stop close g
        → length s ≤ suc fuel
        → (find_groups at (suc fuel) s ≡ g ∷ find_groups at fuel after) × (length after ≤ fuel)
    found_at fuel [] g after e b le = absurd (
        omega (
          arith,
          ap length e,
          length-append opening (g ++ (close ∷ after)),
          length-append g (close ∷ after),
        ))
    found_at fuel (c ∷ cs) g after e b le =
        let hit : at (c ∷ cs) ≡ some (g, after) =
          ap at e ∙ opens (g ++ (close ∷ after)) ∙ group-IsBody g after b in
        (
          rw (find_groups, hit) refl,
          omega (
            arith,
            ap length e,
            length-append opening (g ++ (close ∷ after)),
            length-append g (close ∷ after),
            le,
          ),
        )

    passed_by :
        (fuel c : ℕ) (s : Codes)
        → at (c ∷ s) ≡ none
        → find_groups at (suc fuel) (c ∷ s) ≡ find_groups at fuel s
    passed_by fuel c s e = rw (find_groups, e) refl

    find_groups-GroupOf :
        (fuel : ℕ) {s g : Codes}
        → GroupOf opening stop close s g
        → length s ≤ fuel
        → IsIn g (find_groups at fuel s)
    find_groups-GroupOf zero (here s g after e b) le = absurd (
        omega (
          arith,
          ap length e,
          length-append opening (g ++ (close ∷ after)),
          length-append g (close ∷ after),
          le,
        ))
    find_groups-GroupOf (suc fuel) (here s g after e b) le =
        let (found, less) = found_at fuel s g after e b le in subst (IsIn g) (sym found) (inl refl)
    find_groups-GroupOf zero (past s g passed after e b h) le = absurd (
        omega (
          arith,
          ap length e,
          length-append opening (passed ++ (close ∷ after)),
          length-append passed (close ∷ after),
          le,
        ))
    find_groups-GroupOf (suc fuel) (past s g passed after e b h) le =
        let (found, less) = found_at fuel s passed after e b le in
        subst (IsIn g) (sym found) (inr (find_groups-GroupOf fuel h less))
    find_groups-GroupOf zero (next c s g closed h) le = absurd (omega (arith, le))
    find_groups-GroupOf (suc fuel) (next c s g closed h) le =
        subst (IsIn g) (sym (passed_by fuel c s (misses (c ∷ s) closed)))
          (find_groups-GroupOf fuel h (omega (arith, le)))
    find_groups-GroupOf zero (stopped c s g passed after x e b ne st h) le =
        absurd (omega (arith, le))
    find_groups-GroupOf (suc fuel) (stopped c s g passed after x e b ne st h) le =
        let no_group : at (c ∷ s) ≡ none =
          ap at e ∙ opens (passed ++ (x ∷ after)) ∙ group_stopped passed x after b ne st in
        subst (IsIn g) (sym (passed_by fuel c s no_group))
          (find_groups-GroupOf fuel h (omega (arith, le)))

subexpr_misses : (s : Codes) → begins_with (36 ∷ 40 ∷ []) s ≡ false → at_subexpr s ≡ none
subexpr_misses [] h = refl
subexpr_misses (c ∷ []) h = refl
subexpr_misses (c ∷ d ∷ s) h = ground (arith, h)

scriptblock_misses : (s : Codes) → begins_with (123 ∷ []) s ≡ false → at_scriptblock s ≡ none
scriptblock_misses [] h = refl
scriptblock_misses (c ∷ s) h = ground (arith, h)

pieces_of-split :
    (s p : Codes) (ss : List Codes)
    → IsIn s ss
    → IsIn p (filter (λ q. not (is_empty (strip q))) (split s))
    → IsIn p (pieces_of ss)
pieces_of-split s p [] h k = absurd h
pieces_of-split s p (t ∷ ss) (inl e) k =
    IsIn-left p (filter (λ q. not (is_empty (strip q))) (split t)) (pieces_of ss)
      (subst (λ x. IsIn p (filter (λ q. not (is_empty (strip q))) (split x))) (sym e) k)
pieces_of-split s p (t ∷ ss) (inr h) k =
    IsIn-right p (filter (λ q. not (is_empty (strip q))) (split t)) (pieces_of ss)
      (pieces_of-split s p ss h k)

abbrev all_of : Unicode → Codes → List Codes
all_of u cmd =
    cmd ∷ cmd_segments (search_from u cmd_c none cmd)
    ++ find_all at_subexpr cmd
    ++ find_all at_scriptblock cmd

all_of-Inside : (u : Unicode) (cmd s : Codes) → Inside u cmd s → IsIn s (all_of u cmd)
unfolding find_all
all_of-Inside u cmd s itself = inl refl
all_of-Inside u cmd s (subexpression g h) =
    let subs = find_all at_subexpr cmd in
    let blocks = find_all at_scriptblock cmd in
    let cmds = cmd_segments (search_from u cmd_c none cmd) in
    inr (
      IsIn-left g (cmds ++ subs) blocks (
        IsIn-right g cmds subs (
          find_groups-GroupOf (36 ∷ 40 ∷ []) (λ x. false) 41 at_subexpr (λ r. refl) subexpr_misses
            (length cmd) h (omega arith))))
all_of-Inside u cmd s (script_block g h) =
    let subs = find_all at_subexpr cmd in
    let cmds = cmd_segments (search_from u cmd_c none cmd) in
    inr (
      IsIn-right g (cmds ++ subs) (find_all at_scriptblock cmd) (
        find_groups-GroupOf (123 ∷ []) (λ x. x == 123) 125 at_scriptblock (λ r. refl)
          scriptblock_misses (length cmd) h (omega arith)))
all_of-Inside u cmd s (cmd_slash_c rest e) =
    let cmds = cmd_segments (search_from u cmd_c none cmd) in
    let subs = find_all at_subexpr cmd in
    inr (
      IsIn-left s (cmds ++ subs) (find_all at_scriptblock cmd)
        (IsIn-left s cmds subs (subst (λ o. IsIn s (cmd_segments o)) (sym e) (inl refl))))

kept_unless_blank :
    (p : Codes) (ps : List Codes)
    → IsIn p ps
    → is_empty (strip p) ≡ false
    → IsIn p (filter (λ q. not (is_empty (strip q))) ps)
kept_unless_blank p [] h k = absurd h
kept_unless_blank p (q ∷ ps) (inl e) k =
    let stays : is_empty (strip q) ≡ false = ap (λ x. is_empty (strip x)) e ∙ k in rw stays (inl e)
kept_unless_blank p (q ∷ ps) (inr h) k = elim (Bool-cases (is_empty (strip q))) [
  | inl blank ↦ rw blank (kept_unless_blank p ps h k)
  | inr stays ↦ rw stays (inr (kept_unless_blank p ps h k))
]

-- Every stretch that is not blank, of every text to be looked at, is among the pieces.
pub pieces-PieceOf :
    (u : Unicode) (cmd s p : Codes)
    → Inside u cmd s
    → PieceOf s p
    → is_empty (strip p) ≡ false
    → IsIn p (pieces u cmd)
unfolding pieces
pieces-PieceOf u cmd s p i h k =
    pieces_of-split s p (all_of u cmd) (all_of-Inside u cmd s i)
      (kept_unless_blank p (split s) (split-PieceOf h) k)
