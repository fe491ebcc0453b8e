-- ===== src/Context/Trim/Groups.antt =====
-- The groups that `trim` drops: whole turns, with every call beside its answers.
use Prim.Native.Nat.add
use mathlib.Core.List.{map-append}
use baby.Common.{
  ℕ, zero, suc, ◌+◌, ◌-◌, ◌/◌, ◌≤◌, ◌<◌, ◌≡◌, refl, ap, true, false, List, [], ◌∷◌, ◌++◌, leb,
  length, take, drop, arith, Bool-cases, inl, inr, ◌⊎◌,
}
use baby.Message.{Message, is_tool, is_caller}
use baby.Context.{take_tools, drop_tools}
use baby.Context.Trim.{
  Indexed, messages_of, indices_of, total_len, estimate_tokens, take_answers, drop_answers, blocks,
  drop_groups,
}

-- A number of rows from the front that make up whole groups: no call is parted from its answers.
pub data Whole : ℕ → List Message → Type 0 where
  none_left : {ms : List Message} → Whole zero ms
  single :
      {n : ℕ} (m : Message) {ms : List Message}
      → is_caller m ≡ false
      → Whole n ms
      → Whole (suc n) (m ∷ ms)
  call :
      {n k : ℕ} (m : Message) {ms : List Message}
      → is_caller m ≡ true
      → Whole n (drop_tools ms)
      → k ≡ suc (length (take_tools ms) + n)
      → Whole k (m ∷ ms)

take_tools-messages_of :
    (xs : List Indexed) → take_tools (messages_of xs) ≡ messages_of (take_answers xs)
take_tools-messages_of [] = refl
take_tools-messages_of (x ∷ xs) = ground (arith, take_tools-messages_of xs)

drop_tools-messages_of :
    (xs : List Indexed) → drop_tools (messages_of xs) ≡ messages_of (drop_answers xs)
drop_tools-messages_of [] = refl
drop_tools-messages_of (x ∷ xs) = ground (arith, drop_tools-messages_of xs)

length-messages_of : (xs : List Indexed) → length (messages_of xs) ≡ length xs
length-messages_of [] = refl
length-messages_of (x ∷ xs) = ap suc (length-messages_of xs)

length-drop_answers : (xs : List Indexed) → length (drop_answers xs) ≤ length xs
length-drop_answers [] = omega arith
length-drop_answers (x ∷ xs) = ground (arith, length-drop_answers xs)

take-answers :
    (n : ℕ) (xs : List Indexed)
    → take (length (take_answers xs) + n) xs ≡ take_answers xs ++ take n (drop_answers xs)
take-answers n [] = rw (add.zero n)
take-answers n (x ∷ xs) = elim (Bool-cases (is_tool x.message)) [
  | inl t ↦ rw t (rw (add.suc (length (take_answers xs)) n, take-answers n xs))
  | inr f ↦ rw f (rw (add.zero n))
]

drop-answers :
    (n : ℕ) (xs : List Indexed) → drop (length (take_answers xs) + n) xs ≡ drop n (drop_answers xs)
drop-answers n [] = rw (add.zero n)
drop-answers n (x ∷ xs) = elim (Bool-cases (is_tool x.message)) [
  | inl t ↦ rw t (rw (add.suc (length (take_answers xs)) n, drop-answers n xs))
  | inr f ↦ rw f (rw (add.zero n))
]

total_len-answers :
    (xs : List Indexed)
    → total_len (messages_of xs)
      ≡ total_len (messages_of (take_answers xs)) + total_len (messages_of (drop_answers xs))
total_len-answers [] = omega arith
total_len-answers (x ∷ xs) = ground (arith, total_len-answers xs)

-- The tokens that are left beside `pinned` code points fit the budget, or no row is left.
abbrev pub Fits : ℕ → ℕ → List Indexed → Type 0
Fits budget pinned left = ((total_len (messages_of left) + pinned) / 4 ≤ budget) ⊎ (left ≡ [])

-- What the loop drops is a prefix of whole groups, after which the rest fits, or is empty.
pub record Dropped (budget remaining : ℕ) (gone : List ℕ) (xs : List Indexed) : Type 0 where
  pub count : ℕ
  pub prefix : gone ≡ indices_of (take count xs)
  pub whole : Whole count (messages_of xs)
  pub fits :
      (pinned : ℕ)
      → (total_len (messages_of xs) + pinned) / 4 ≤ remaining
      → Fits budget pinned (drop count xs)

module _ (budget remaining fuel : ℕ) (x : Indexed) (xs : List Indexed)
    (over : leb remaining budget ≡ false) where
  abbrev gone_from : ℕ → List Indexed → List ℕ
  gone_from r ys = drop_groups budget r (blocks fuel ys)

  abbrev group : List Indexed
  group = x ∷ take_answers xs

  drop_call :
      is_caller x.message ≡ true
      → let r = remaining - estimate_tokens (messages_of group) in
        Dropped budget r (gone_from r (drop_answers xs)) (drop_answers xs)
        → Dropped budget remaining
            (drop_groups budget remaining (blocks (suc fuel) (x ∷ xs)))
            (x ∷ xs)
  unfolding drop_groups blocks
  drop_call c ih = record {
    count = suc (length (take_answers xs) + ih.count);
    prefix =
        rw (take-answers ih.count xs, map-append (λ (y : Indexed). y.index))
          (ground (arith, ih.prefix));
    whole =
        call {n = ih.count} x.message c (rw (drop_tools-messages_of xs) ih.whole)
          (rw (take_tools-messages_of xs, length-messages_of (take_answers xs)));
    fits = λ pinned h.
        rw (drop-answers ih.count xs) (ih.fits pinned (omega (arith, total_len-answers xs)));
  }

  drop_single :
      is_caller x.message ≡ false
      → let r = remaining - estimate_tokens (x.message ∷ []) in
        Dropped budget r (gone_from r xs) xs
        → Dropped budget remaining
            (drop_groups budget remaining (blocks (suc fuel) (x ∷ xs)))
            (x ∷ xs)
  unfolding drop_groups blocks
  drop_single n ih = record {
    count = suc ih.count;
    prefix = ground (arith, ih.prefix);
    whole = single x.message n ih.whole;
    fits = λ pinned h. ih.fits pinned (omega arith);
  }

pub drop_groups-Dropped :
    (budget remaining fuel : ℕ) (xs : List Indexed)
    → length xs < fuel
    → Dropped budget remaining (drop_groups budget remaining (blocks fuel xs)) xs
drop_groups-Dropped budget remaining zero xs h = absurd (omega arith)
drop_groups-Dropped budget remaining (suc fuel) [] h =
    unfold drop_groups blocks in
    record { count = 0; prefix = refl; whole = none_left; fits = λ pinned h. inr refl }
drop_groups-Dropped budget remaining (suc fuel) (x ∷ xs) h =
    elim (Bool-cases (leb remaining budget)) [
      | inl fits ↦
          unfold drop_groups blocks in
          record {
            count = 0;
            prefix = ground arith;
            whole = none_left;
            fits = λ pinned k. inl (ground arith);
          }
      | inr over ↦ elim (Bool-cases (is_caller x.message)) [
        | inl c ↦ drop_call budget remaining fuel x xs over c (
            drop_groups-Dropped budget
              (remaining - estimate_tokens (messages_of (x ∷ take_answers xs))) fuel
              (drop_answers xs) (omega (arith, length-drop_answers xs)))
        | inr n ↦ drop_single budget remaining fuel x xs over n (
            drop_groups-Dropped budget (remaining - estimate_tokens (x.message ∷ [])) fuel xs
              (omega arith))
      ]
    ]
