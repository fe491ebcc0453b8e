-- ===== src/Safety/Shell/Parts.antt =====
-- The stretches of a command line that are classed, told without the code's own splitting.
use baby.Common.{
  IsIn, ℕ, ◌≡◌, refl, sym, ap, ◌∙◌, subst, Bool, true, false, ◌&&◌, ◌||◌, none, some, List, [], ◌∷◌,
  ◌++◌, ◌==◌, All, Bool-cases, inl, inr,
}
use baby.Text.Search.{Unicode}
use baby.Text.Regex.{search_from}
use baby.Text.Words.{Codes, strip, strip_of, is_quote}
use baby.Safety.Patterns.{cmd_c}
use baby.Safety.Shell.{add_code, split}

-- `;`, `|`, `&` and the line feed
abbrev pub parts_commands : ℕ → Bool
parts_commands c = c == 59 || c == 124 || c == 38 || c == 10

abbrev pub AtCut : Codes → Type 0
AtCut [] = Unit {0}
AtCut (c ∷ cs) = parts_commands c ≡ true

-- A stretch of a text from its start, or from behind a separator, up to the next one or the end.
pub data PieceOf : Codes → Codes → Type 0 where
  first :
      (s p after : Codes)
      → s ≡ p ++ after
      → All (λ c. parts_commands c ≡ false) p
      → AtCut after
      → PieceOf s p
  behind :
      (s p before : Codes) (c : ℕ) (after : Codes)
      → s ≡ before ++ (c ∷ after)
      → parts_commands c ≡ true
      → PieceOf after p
      → PieceOf s p

abbrev pub begins_with : Codes → Codes → Bool
begins_with [] s = true
begins_with (c ∷ cs) [] = false
begins_with (c ∷ cs) (d ∷ ds) = d == c && begins_with cs ds

-- A group of a text, read from the left: an opening, no closing and no character that stops it, and a
-- closing; a group that is read is passed whole.
module _ (opening : Codes) (stop : ℕ → Bool) (close : ℕ) where
  abbrev pub IsBody : Codes → Type 0
  IsBody g = All (λ c. (c == close ≡ false) × (stop c ≡ false)) g

  pub data GroupOf : Codes → Codes → Type 0 where
    here : (s g after : Codes) → s ≡ opening ++ (g ++ (close ∷ after)) → IsBody g → GroupOf s g
    past :
        (s g passed after : Codes)
        → s ≡ opening ++ (passed ++ (close ∷ after))
        → IsBody passed
        → GroupOf after g
        → GroupOf s g
    next :
        (c : ℕ) (s g : Codes)
        → begins_with opening (c ∷ s) ≡ false
        → GroupOf s g
        → GroupOf (c ∷ s) g
    stopped :
        (c : ℕ) (s g passed after : Codes) (x : ℕ)
        → c ∷ s ≡ opening ++ (passed ++ (x ∷ after))
        → IsBody passed
        → x == close ≡ false
        → stop x ≡ true
        → GroupOf s g
        → GroupOf (c ∷ s) g

-- What is looked at of a command: itself, each `$(...)`, each `{...}` with no other in it, and what
-- `cmd /c` is to run.
pub data Inside (u : Unicode) (cmd : Codes) : Codes → Type 0 where
  itself : Inside u cmd cmd
  subexpression : (g : Codes) → GroupOf (36 ∷ 40 ∷ []) (λ x. false) 41 cmd g → Inside u cmd g
  script_block : (g : Codes) → GroupOf (123 ∷ []) (λ x. x == 123) 125 cmd g → Inside u cmd g
  cmd_slash_c :
      (rest : Codes)
      → search_from u cmd_c none cmd ≡ some rest
      → Inside u cmd (strip_of is_quote (strip rest))

-- The pieces of `split`: all but the first, too.
abbrev rest_of : List Codes → List Codes
rest_of [] = []
rest_of (p ∷ ps) = ps

rest_of-add_code : (c : ℕ) (ps : List Codes) → rest_of (add_code c ps) ≡ rest_of ps
rest_of-add_code c [] = refl
rest_of-add_code c (p ∷ ps) = refl

IsIn-rest_of : (p : Codes) (ps : List Codes) → IsIn p (rest_of ps) → IsIn p ps
IsIn-rest_of p [] h = absurd h
IsIn-rest_of p (q ∷ ps) h = inr h

split_first :
    (p after : Codes)
    → All (λ c. parts_commands c ≡ false) p
    → AtCut after
    → split (p ++ after) ≡ p ∷ rest_of (split (p ++ after))
split_first [] [] h cut = refl
split_first [] (c ∷ after) h cut = rw cut refl
split_first (c ∷ p) after h cut =
    let ps = split (p ++ after) in
    rw h.0 (
      ap (add_code c) (split_first p after h.1 cut)
      ∙ ap (λ r. (c ∷ p) ∷ r) (sym (rest_of-add_code c ps)))

split_behind :
    (p before : Codes) (c : ℕ) (after : Codes)
    → parts_commands c ≡ true
    → IsIn p (split after)
    → IsIn p (rest_of (split (before ++ (c ∷ after))))
split_behind p [] c after cut h = rw cut h
split_behind p (d ∷ before) c after cut h =
    let inside = split_behind p before c after cut h in
    elim (Bool-cases (parts_commands d)) [
      | inl also ↦ rw also (IsIn-rest_of p (split (before ++ (c ∷ after))) inside)
      | inr within ↦
          rw within
            (subst (IsIn p) (sym (rest_of-add_code d (split (before ++ (c ∷ after))))) inside)
    ]

pub split-PieceOf : {s p : Codes} → PieceOf s p → IsIn p (split s)
split-PieceOf (first s p after e h cut) =
    subst (λ t. IsIn p (split t)) (sym e)
      (subst (IsIn p) (sym (split_first p after h cut)) (inl refl))
split-PieceOf (behind s p before c after e cut h) =
    subst (λ t. IsIn p (split t)) (sym e)
      (IsIn-rest_of p (split (before ++ (c ∷ after)))
        (split_behind p before c after cut (split-PieceOf h)))
