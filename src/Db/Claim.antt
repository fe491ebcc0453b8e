-- ===== src/Db/Claim.antt =====
-- The claim of the oldest queued row, by which db/database.py hands out tasks and projects:
-- `UPDATE … WHERE id = (SELECT id … WHERE status = 'queued' ORDER BY id LIMIT 1) RETURNING *`.
use baby.Common.{
  ℕ, ◌<◌, ◌≡◌, refl, Bool, true, false, ◌&&◌, Option, none, some, List, [], ◌∷◌, filter, any, arith,
  All, if◌then◌else◌, Bool-cases, Option-cases, inl, inr, ◌==◌,
}
use baby.Db.Table.{max_id, find, first_id, update_where, Ascending}

module _ {A : Type 0} (id_of : A → ℕ) (is_queued : A → Bool) (start : A → A) where
  abbrev pub claim_next : List A → Option A × List A
  claim_next rows = elim (first_id id_of (filter is_queued rows)) [
    | none ↦ (none, rows)
    | some i ↦
        let after = update_where (λ r. id_of r == i) start rows in (find id_of i after, after)
  ]

  pub claim_next_idle :
      (rows : List A)
      → first_id id_of (filter is_queued rows) ≡ none
      → claim_next rows ≡ (none, rows)
  claim_next_idle rows e = ground (arith, e)

  pub claim_next_busy :
      (rows : List A) (i : ℕ)
      → first_id id_of (filter is_queued rows) ≡ some i
      → claim_next rows ≡ (
        find id_of i (update_where (λ r. id_of r == i) start rows),
        update_where (λ r. id_of r == i) start rows,
      )
  claim_next_busy rows i e = ground (arith, e)

  -- the first queued row of the list
  abbrev pub claim_head : List A → Option A × List A
  claim_head [] = (none, [])
  claim_head (r ∷ rows) =
      let rest = claim_head rows in
      if is_queued r then (some (start r), start r ∷ rows) else (rest.0, r ∷ rest.1)

module _ {A : Type 0} (id_of : A → ℕ) (is_queued : A → Bool) where
  -- A queued row has the id.
  abbrev pub waits : ℕ → A → Bool
  waits i r = id_of r == i && is_queued r

  pub first_id-waits :
      (i : ℕ) (rows : List A)
      → first_id id_of (filter is_queued rows) ≡ some i
      → any (waits i) rows ≡ true
  first_id-waits i [] e = cc
  first_id-waits i (r ∷ rows) e = elim (Bool-cases (is_queued r)) [
    | inr idle ↦ ground (arith, first_id-waits i rows, e, idle)
    | inl queued ↦ elim (Option-cases (first_id id_of (filter is_queued rows))) [
      | inl last ↦ ground (arith, e, queued, last)
      | inr (j, more) ↦ ground (arith, first_id-waits i rows, e, queued, more)
    ]
  ]

  -- An update of some rows by a function that keeps their ids and queues none.
  module _ (f : A → A) (keeps : (r : A) → id_of (f r) ≡ id_of r) where
    pub max_id-update_where :
        (p : A → Bool) (rows : List A) → max_id id_of (update_where p f rows) ≡ max_id id_of rows
    max_id-update_where p [] = refl
    max_id-update_where p (r ∷ rows) = elim (Bool-cases (p r)) [
      | inl hit ↦ rw (hit, keeps r, max_id-update_where p rows)
      | inr miss ↦ rw (miss, max_id-update_where p rows)
    ]

    module _ (idle : (r : A) → is_queued (f r) ≡ false) where
      pub still_idle :
          (p : A → Bool) (i : ℕ) (rows : List A)
          → any (waits i) rows ≡ false
          → any (waits i) (update_where p f rows) ≡ false
      still_idle p i [] h = refl
      still_idle p i (r ∷ rows) h = ground (arith, idle r, still_idle p i rows, h)

      -- No row of the id waits once all rows of the id are updated.
      pub now_idle :
          (i : ℕ) (rows : List A) → any (waits i) (update_where (λ r. id_of r == i) f rows) ≡ false
      now_idle i [] = refl
      now_idle i (r ∷ rows) = ground (arith, idle r, now_idle i rows)

  -- An id beyond all others is no row's.
  pub none_waits : (i : ℕ) (rows : List A) → max_id id_of rows < i → any (waits i) rows ≡ false
  none_waits i [] h = refl
  none_waits i (r ∷ rows) h = ground (arith, none_waits i rows)

module _ {A : Type 0} (id_of : A → ℕ) (is_queued : A → Bool) (start : A → A)
    (keeps : (r : A) → id_of (start r) ≡ id_of r) where
  untouched :
      (i : ℕ) (rows : List A)
      → All (λ s. i < id_of s) rows
      → update_where (λ r. id_of r == i) start rows ≡ rows
  untouched i [] h = refl
  untouched i (r ∷ rows) h = ground (arith, untouched i rows, h)

  -- The least id of a filter is beyond what all ids are beyond.
  first_id_above :
      (i j : ℕ) (rows : List A)
      → All (λ s. i < id_of s) rows
      → first_id id_of (filter is_queued rows) ≡ some j
      → i < j
  first_id_above i j [] h e = absurd (cc)
  first_id_above i j (r ∷ rows) h e = elim (Bool-cases (is_queued r)) [
    | inr idle ↦ ground (arith, first_id_above i j rows h.1, e, idle)
    | inl queued ↦ elim (Option-cases (first_id id_of (filter is_queued rows))) [
      | inl last ↦ ground (arith, e, queued, last, h.0)
      | inr (k, more) ↦ ground (arith, first_id_above i k rows h.1 more, e, queued, more, h.0)
    ]
  ]

  first_id_head :
      (r : A) (rows : List A)
      → All (λ s. id_of r < id_of s) rows
      → is_queued r ≡ true
      → first_id id_of (filter is_queued (r ∷ rows)) ≡ some (id_of r)
  first_id_head r rows h queued = elim (Option-cases (first_id id_of (filter is_queued rows))) [
    | inl last ↦ rw (queued, last)
    | inr (k, more) ↦ ground (arith, first_id_above (id_of r) k rows h more, queued, more)
  ]

  -- In a table whose ids rise the claim takes the first queued row, and no other row changes.
  pub claim_next-claim_head :
      (rows : List A)
      → Ascending id_of rows
      → claim_next id_of is_queued start rows ≡ claim_head id_of is_queued start rows
  claim_next-claim_head [] h = refl
  claim_next-claim_head (r ∷ rows) h =
      let rest = claim_next-claim_head rows h.1 in
      elim (Bool-cases (is_queued r)) [
        | inl queued ↦
            ground (
              arith,
              first_id_head r rows h.0 queued,
              queued,
              untouched (id_of r) rows h.0,
              keeps r,
            )
        | inr idle ↦ elim (Option-cases (first_id id_of (filter is_queued rows))) [
          | inl none_left ↦ ground (arith, idle, none_left, rest)
          | inr (i, more) ↦
              ground (arith, idle, more, first_id_above (id_of r) i rows h.0 more, rest)
        ]
      ]
