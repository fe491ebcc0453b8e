-- ===== src/Workers/Plan/Tests.antt =====
-- An answer of the model with prose around the object.
use baby.Common.{◌≡◌, refl, none, some, [], ◌∷◌, ◌++◌}
use baby.Text.{codes, is_space}
use baby.Text.Words.{Codes, strip, strip_of}
use baby.Workers.Plan.{Loaded, items, no_list, dict, parse_plan, read_items}
use baby.Workers.Plan.Valid.{object, IsPlan, parse_plan_lem}

-- a reader that knows one object
abbrev loads : Codes → Loaded
loads [] = no_list
loads (c ∷ cs) = items (
    dict (codes " a ") (codes "do a")
    ∷ dict (codes "b") (codes "do b")
    ∷ dict (codes "c") (codes "c")
    ∷ [])

read_two :
    parse_plan loads (codes "Sure: {x} ok") 2
    ≡ some (
        (record { title = codes "a"; spec = codes "do a" })
        ∷ (record { title = codes "b"; spec = codes "do b" })
        ∷ [])
unfolding parse_plan strip strip_of is_space
read_two = refl

no_braces : parse_plan loads (codes "no plan }{") 2 ≡ none
unfolding parse_plan
no_braces = refl

parse_plan_lem_example :
    (parse_plan loads (codes "Sure: " ++ (object (codes "x") ++ codes " ok")) 2
      ≡ read_items 2 (loads (object (codes "x"))))
    × IsPlan 2 (parse_plan loads (codes "{") 2)
parse_plan_lem_example =
    parse_plan_lem loads 2 (codes "Sure: ") (codes "x") (codes " ok") (codes "{") refl refl
