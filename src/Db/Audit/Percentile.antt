-- ===== src/Db/Audit/Percentile.antt =====
-- The percentiles of the durations: they lie among the samples, in the order of the shares.
use baby.Common.{
  ℕ, zero, suc, ◌+◌, ◌-◌, ◌*◌, ◌/◌, ◌%◌, ◌≤◌, ◌<◌, ◌≡◌, min, refl, ap, ◌∙◌, List, [], ◌∷◌, length,
  All, All-imp, leb, leb→le, arith, Bool-cases, inl, inr, some, none, Option,
}
use native.Mathlib.Decide.{dec_lt}
use baby.Db.Audit.{insert_by, sorted_by, nth, interpolate, percentile}

abbrev Sorted : List ℕ → Type 0
Sorted [] = Unit {0}
Sorted (x ∷ xs) = All (λ y. x ≤ y) xs × Sorted xs

abbrev sort : List ℕ → List ℕ
sort = sorted_by (λ (n : ℕ). n)

insert-All :
    (m x : ℕ) (ys : List ℕ)
    → m ≤ x
    → All (λ y. m ≤ y) ys
    → All (λ y. m ≤ y) (insert_by (λ (n : ℕ). n) x ys)
insert-All m x [] h k = (h, tt)
insert-All m x (y ∷ ys) h k = elim (Bool-cases (leb x y)) [
  | inl first ↦ rw first (h, k)
  | inr later ↦ rw later (k.0, insert-All m x ys h k.1)
]

insert-Sorted : (x : ℕ) (ys : List ℕ) → Sorted ys → Sorted (insert_by (λ (n : ℕ). n) x ys)
insert-Sorted x [] h = (tt, tt)
insert-Sorted x (y ∷ ys) h = elim (Bool-cases (leb x y)) [
  | inl first ↦ rw first (
    (
      leb→le x y first,
      All-imp (λ z. y ≤ z) (λ z. x ≤ z) ys (λ z k. omega (arith, k, leb→le x y first)) h.0,
    ),
    h,
  )
  | inr later ↦ rw later (insert-All y x ys (ground (arith, later)) h.0, insert-Sorted x ys h.1)
]

sort-Sorted : (xs : List ℕ) → Sorted (sort xs)
sort-Sorted [] = tt
sort-Sorted (x ∷ xs) = insert-Sorted x (sort xs) (sort-Sorted xs)

nth-All : (m i : ℕ) (xs : List ℕ) → All (λ y. m ≤ y) xs → i < length xs → m ≤ nth xs i
nth-All m i [] h lt = absurd (omega arith)
nth-All m zero (x ∷ xs) h lt = h.0
nth-All m (suc i) (x ∷ xs) h lt = nth-All m i xs h.1 (omega arith)

nth_mono : (i j : ℕ) (xs : List ℕ) → Sorted xs → i ≤ j → j < length xs → nth xs i ≤ nth xs j
nth_mono i j [] h le lt = absurd (omega arith)
nth_mono zero zero (x ∷ xs) h le lt = omega arith
nth_mono zero (suc j) (x ∷ xs) h le lt = nth-All x j xs h.0 (omega arith)
nth_mono (suc i) zero (x ∷ xs) h le lt = absurd (omega arith)
nth_mono (suc i) (suc j) (x ∷ xs) h le lt = nth_mono i j xs h.1 (omega arith) (omega arith)

mul_mono : (d a b : ℕ) → a ≤ b → d * a ≤ d * b
mul_mono d a b h = grind arith

-- The value between two neighbours lies between them.
between :
    (a b r : ℕ)
    → a ≤ b
    → r ≤ 100
    → (a * 100 ≤ a * 100 + (b - a) * r) × (a * 100 + (b - a) * r ≤ b * 100)
between a b r h le = (omega arith, omega (arith, mul_mono (b - a) r 100 le))

interpolate_bounds :
    (xs : List ℕ) (k : ℕ)
    → Sorted xs
    → k / 100 < length xs
    → (nth xs (k / 100) * 100 ≤ interpolate xs k)
      × (interpolate xs k ≤ nth xs (min (k / 100 + 1) (length xs - 1)) * 100)
interpolate_bounds xs k h lt =
    between (nth xs (k / 100)) (nth xs (min (k / 100 + 1) (length xs - 1))) (k % 100)
      (nth_mono (k / 100) (min (k / 100 + 1) (length xs - 1)) xs h (omega arith) (omega arith))
      (omega arith)

interpolate_mono :
    (xs : List ℕ) (k m : ℕ)
    → Sorted xs
    → k ≤ m
    → m / 100 < length xs
    → interpolate xs k ≤ interpolate xs m
interpolate_mono xs k m h le lt = elim (dec_lt (k / 100) (m / 100)) [
  | yes apart ↦ omega (
    arith,
    (interpolate_bounds xs k h (omega arith)).1,
    (interpolate_bounds xs m h lt).0,
    nth_mono (min (k / 100 + 1) (length xs - 1)) (m / 100) xs h (omega arith) lt,
  )
  | no same_place ↦
      let place : k / 100 ≡ m / 100 = omega arith in
      let lo = nth xs (m / 100) in
      let hi = nth xs (min (m / 100 + 1) (length xs - 1)) in
      rw place (omega (arith, mul_mono (hi - lo) (k % 100) (m % 100) (omega arith)))
]

length-insert : (x : ℕ) (ys : List ℕ) → length (insert_by (λ (n : ℕ). n) x ys) ≡ suc (length ys)
length-insert x [] = refl
length-insert x (y ∷ ys) = ground (arith, length-insert x ys)

length-sort : (xs : List ℕ) → length (sort xs) ≡ length xs
length-sort [] = refl
length-sort (x ∷ xs) = length-insert x (sort xs) ∙ ap suc (length-sort xs)

abbrev pub AtMost : Option ℕ → Option ℕ → Type 0
AtMost none none = Unit {0}
AtMost (some a) (some b) = a ≤ b
AtMost _ _ = ⊥

-- Of any samples, a percentile of a lower share is at most one of a higher share up to 100: p50 never
-- exceeds p95, and both are there exactly if there is a sample.
pub percentile_mono :
    (samples : List ℕ) (p q : ℕ)
    → p ≤ q
    → q ≤ 100
    → AtMost (percentile samples p) (percentile samples q)
unfolding percentile
percentile_mono [] p q le cap = tt
percentile_mono (x ∷ xs) p q le cap =
    let ordered = sort (x ∷ xs) in
    let n = length ordered - 1 in
    interpolate_mono ordered (n * p) (n * q) (sort-Sorted (x ∷ xs)) (mul_mono n p q le)
      (omega (arith, mul_mono n q 100 cap, length-sort (x ∷ xs)))
