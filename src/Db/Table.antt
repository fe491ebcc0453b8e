-- ===== src/Db/Table.antt =====
-- What the tables share: new ids, updates and lookups by a condition.
use baby.Common.{
  ℕ, suc, ◌≤◌, ◌<◌, ◌≡◌, refl, Bool, true, Option, none, some, List, [], ◌∷◌, ◌++◌, map, max, ltb,
  arith, All, All-imp, if◌then◌else◌, Bool-cases, inl, inr, ◌==◌,
}

module _ {A : Type 0} (id_of : A → ℕ) where
  abbrev pub max_id : List A → ℕ
  max_id [] = 0
  max_id (r ∷ rs) = max (id_of r) (max_id rs)

  -- the id of the next row
  abbrev pub next_id : List A → ℕ
  next_id rs = suc (max_id rs)

  -- `SELECT * FROM t WHERE id = ?`
  abbrev pub find : ℕ → List A → Option A
  find i [] = none
  find i (r ∷ rs) = if id_of r == i then some r else find i rs

  -- `MIN(id)` of the rows
  abbrev pub first_id : List A → Option ℕ
  first_id [] = none
  first_id (r ∷ rs) = elim (first_id rs) [
    | none ↦ some (id_of r)
    | some i ↦ some (if ltb (id_of r) i then id_of r else i)
  ]

  -- The ids rise, as they stand in the list.
  abbrev pub Ascending : List A → Type 0
  Ascending [] = Unit {0}
  Ascending (r ∷ rs) = All (λ s. id_of r < id_of s) rs × Ascending rs

  pub max_id_bounds : (rs : List A) → All (λ r. id_of r ≤ max_id rs) rs
  max_id_bounds [] = tt
  max_id_bounds (r ∷ rs) = (
    omega arith,
    All-imp (λ s. id_of s ≤ max_id rs) (λ s. id_of s ≤ max_id (r ∷ rs)) rs (λ s h. omega (arith, h))
        (max_id_bounds rs),
  )

  All-snoc :
      (n : ℕ) (rs : List A) (r : A)
      → All (λ s. n < id_of s) rs
      → n < id_of r
      → All (λ s. n < id_of s) (rs ++ r ∷ [])
  All-snoc n [] r h lt = (lt, tt)
  All-snoc n (s ∷ rs) r h lt = (h.0, All-snoc n rs r h.1 lt)

  -- A new row keeps the order.
  pub append-Ascending :
      (rs : List A) (r : A)
      → Ascending rs
      → All (λ s. id_of s < id_of r) rs
      → Ascending (rs ++ r ∷ [])
  append-Ascending [] r h below = (tt, tt)
  append-Ascending (s ∷ rs) r h below =
      (All-snoc (id_of s) rs r h.0 below.0, append-Ascending rs r h.1 below.1)

module _ {A : Type 0} where
  -- `UPDATE t SET … WHERE …`
  abbrev pub update_where : (A → Bool) → (A → A) → List A → List A
  update_where p f [] = []
  update_where p f (r ∷ rs) = (if p r then f r else r) ∷ update_where p f rs

  -- `DELETE FROM t WHERE …`
  abbrev pub delete_where : (A → Bool) → List A → List A
  delete_where p [] = []
  delete_where p (r ∷ rs) = let rest = delete_where p rs in if p r then rest else r ∷ rest

  -- An update that leaves a field alone in each row leaves the rows' field alone.
  pub map-update_where {κ} :
      {B : Type κ} (g : A → B) (p : A → Bool) (f : A → A)
      → ((r : A) → g (f r) ≡ g r)
      → (rs : List A) → map g (update_where p f rs) ≡ map g rs
  map-update_where g p f same [] = refl
  map-update_where g p f same (r ∷ rs) = elim (Bool-cases (p r)) [
    | inl hit ↦ rw (hit, same r, map-update_where g p f same rs)
    | inr miss ↦ rw (miss, map-update_where g p f same rs)
  ]

  -- A property of rows that the update keeps.
  pub update_where-All :
      (P : A → Type 0) (p : A → Bool) (f : A → A)
      → ((r : A) → p r ≡ true → P r → P (f r))
      → (rs : List A) → All P rs
      → All P (update_where p f rs)
  update_where-All P p f keep [] h = tt
  update_where-All P p f keep (r ∷ rs) h = elim (Bool-cases (p r)) [
    | inl hit ↦ rw hit (keep r hit h.0, update_where-All P p f keep rs h.1)
    | inr miss ↦ rw miss (h.0, update_where-All P p f keep rs h.1)
  ]
