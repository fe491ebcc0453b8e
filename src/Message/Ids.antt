-- ===== src/Message/Ids.antt =====
-- The ids that join a tool call to its answer; a missing id is `None`, a key like any other.
use baby.Common.{
  Bool, true, false, ◌||◌, String, str_eq, eq_iff, Option, none, some, List, [], ◌∷◌, ◌≡◌, refl,
  arith, ap,
}

abbrev pub Id? : Type 0
Id? = Option String

abbrev pub id_eq : Id? → Id? → Bool
id_eq none none = true
id_eq (some a) (some b) = str_eq a b
id_eq _ _ = false

-- `x in ids`
abbrev pub has : Id? → List Id? → Bool
has x [] = false
has x (y ∷ ys) = id_eq x y || has x ys

pub id_eq_refl : (x : Id?) → id_eq x x ≡ true
id_eq_refl none = refl
id_eq_refl (some a) = (eq_iff a a).1 refl

pub id_eq→eq : (x y : Id?) → id_eq x y ≡ true → x ≡ y
id_eq→eq none none h = refl
id_eq→eq none (some b) h = ground arith
id_eq→eq (some a) none h = ground arith
id_eq→eq (some a) (some b) h = ap some ((eq_iff a b).0 h)
