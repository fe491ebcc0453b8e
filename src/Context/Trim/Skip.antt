-- ===== src/Context/Trim/Skip.antt =====
-- The rows that `trim` drops, without their numbers: the first so many that are no system rows.
use baby.Common.{
  ℕ, zero, suc, ◌≤◌, ◌<◌, ◌≡◌, refl, false, not, List, [], ◌∷◌, filter, take, if◌then◌else◌, arith,
  All,
}
use baby.Message.{Message, is_system}
use baby.Context.Trim.{Indexed, enumerate, messages_of, indices_of, elem}

unfoldable pub skip : ℕ → List Message → List Message
skip zero ms = ms
skip (suc n) [] = []
skip (suc n) (m ∷ ms) = if is_system m then m ∷ skip (suc n) ms else skip n ms

abbrev pub turns : List Message → List Message
turns = filter (λ m. not (is_system m))

abbrev pub numbered : ℕ → List Message → List Indexed
numbered i ms = filter (λ x. not (is_system x.message)) (enumerate i ms)

abbrev pub survivors : List ℕ → List Indexed → List Message
survivors gone xs = messages_of (filter (λ x. not (elem x.index gone)) xs)

pub messages_of-numbered : (i : ℕ) (ms : List Message) → messages_of (numbered i ms) ≡ turns ms
messages_of-numbered i [] = refl
messages_of-numbered i (m ∷ ms) = ground (arith, messages_of-numbered (suc i) ms)

-- numbers above a bound
abbrev Above : ℕ → List ℕ → Type 0
Above i = All (λ j. i < j)

elem-Above : (i j : ℕ) (js : List ℕ) → i ≤ j → Above j js → elem i js ≡ false
elem-Above i j [] h a = refl
elem-Above i j (k ∷ ks) h a = ground (arith, elem-Above i j ks h a.1)

Above-weaken : (i j : ℕ) (js : List ℕ) → i ≤ j → Above j js → Above i js
Above-weaken i j [] h a = tt
Above-weaken i j (k ∷ ks) h a = (omega arith, Above-weaken i j ks h a.1)

-- a number below all that stand in the list is of no account
survivors-cons :
    (i j : ℕ) (gone : List ℕ) (ms : List Message)
    → i < j
    → survivors (i ∷ gone) (enumerate j ms) ≡ survivors gone (enumerate j ms)
survivors-cons i j gone [] h = refl
survivors-cons i j gone (m ∷ ms) h = ground (arith, survivors-cons i (suc j) gone ms)

survivors-nil : (j : ℕ) (ms : List Message) → survivors [] (enumerate j ms) ≡ ms
survivors-nil j [] = refl
survivors-nil j (m ∷ ms) = rw (survivors-nil (suc j) ms)

Above-numbered :
    (i j n : ℕ) (ms : List Message) → i < j → Above i (indices_of (take n (numbered j ms)))
Above-numbered i j zero ms h = tt
Above-numbered i j (suc n) [] h = tt
Above-numbered i j (suc n) (m ∷ ms) h =
    ground (arith, Above-numbered i (suc j) (suc n) ms, Above-numbered i (suc j) n ms)

pub survivors-eq-skip :
    (n i : ℕ) (ms : List Message)
    → survivors (indices_of (take n (numbered i ms))) (enumerate i ms) ≡ skip n ms
unfolding skip
survivors-eq-skip zero i ms = survivors-nil i ms
survivors-eq-skip (suc n) i [] = refl
survivors-eq-skip (suc n) i (m ∷ ms) = ground (
  arith,
  survivors-eq-skip (suc n) (suc i) ms,
  survivors-eq-skip n (suc i) ms,
  survivors-cons i (suc i) (indices_of (take n (numbered (suc i) ms))) ms,
  elem-Above i i (indices_of (take (suc n) (numbered (suc i) ms))),
  Above-numbered i (suc i) (suc n) ms,
)
