-- ===== src/Safety/Confirm/Answer.antt =====
-- The first answer to a pending confirmation, and the kill switch.
use baby.Common.{
  ℕ, ◌<◌, ◌≡◌, refl, ap, ◌∙◌, Bool, true, false, String, some, List, [], ◌∷◌, ◌++◌, ◌==◌, arith,
  All, Bool-cases, inl, inr,
}
use baby.Safety.Confirm.{
  open_future, done, confirm_resolved, Ask, Manager, get, is_open, set_result, resolve, refuse_all,
  cancel_all, answered, wake, refused, Step, run,
}
use baby.Safety.Confirm.Kept.{GoesPast, run-Has}

eq_self : (n : ℕ) → n == n ≡ true
eq_self n = ground arith

resolve_open :
    (id : String) (b : Bool) (n : ℕ) (m : Manager)
    → get id m.pending ≡ some n
    → (m.asks n).future ≡ open_future
    → resolve id b m ≡ (true, record m { asks = set_result b n m.asks })
unfolding resolve
resolve_open id b n m g o = rw (resolve, g, o)

resolve_done :
    (id : String) (b b' : Bool) (n : ℕ) (m : Manager)
    → get id m.pending ≡ some n
    → (m.asks n).future ≡ done b
    → resolve id b' m ≡ (false, m)
unfolding resolve
resolve_done id b b' n m g d = rw (resolve, g, d)

wake_done :
    (b : Bool) (n : ℕ) (m : Manager)
    → (m.asks n).future ≡ done b
    → (wake n m).notes ≡ m.notes ++ confirm_resolved (m.asks n).confirm_id b (answered b) ∷ []
unfolding wake
wake_done b n m d = rw (wake, d)

set_result_self :
    (b : Bool) (n : ℕ) (all : ℕ → Ask) → set_result b n all n ≡ record (all n) { future = done b }
set_result_self b n all = rw (eq_self n)

-- The answer to a confirmation that is pending and open is taken, and a second answer is refused and
-- changes nothing. Whatever steps come after, other answers, other calls with the same id and the kill
-- switch among them, as long as the call that asked does not time out and is not cancelled: when
-- it goes on, it reports the first answer.
pub first_answer :
    (id : String) (b b' : Bool) (n : ℕ) (xs : List Step) (m : Manager)
    → n < m.fresh
    → get id m.pending ≡ some n
    → (m.asks n).future ≡ open_future
    → All (GoesPast n) xs
    → let m' = (resolve id b m).1 in
      let later = run m' xs in
      ((resolve id b m).0 ≡ true)
      × (resolve id b' m' ≡ (false, m'))
      × ((wake n later).notes
          ≡ later.notes ++ confirm_resolved (m.asks n).confirm_id b (answered b) ∷ [])
first_answer id b b' n xs m old g o past =
    let a : Ask = record (m.asks n) { future = done b } in
    let m1 : Manager = record m { asks = set_result b n m.asks } in
    let self = set_result_self b n m.asks in
    let d : (m1.asks n).future ≡ done b = ap (λ x. x.future) self in
    let later = run m1 xs in
    let has = run-Has n xs m1 a b refl past (self, old) in
    let named = ap (λ x. x.confirm_id) has.0 in
    rw (resolve_open id b n m g o) (
      refl,
      resolve_done id b b' n m1 g d,
      wake_done b n later (ap (λ x. x.future) has.0)
          ∙ ap (λ i. later.notes ++ confirm_resolved i b (answered b) ∷ []) named,
    )

-- The future of a pending call after the kill switch.
refuse_all-done :
    (xs : List (String × ℕ)) (all : ℕ → Ask) (n : ℕ)
    → (all n).future ≡ done false
    → (refuse_all xs all n).future ≡ done false
refuse_all-done [] all n h = h
refuse_all-done ((i, k) ∷ xs) all n h = elim (Bool-cases (is_open (all k).future)) [
  | inr over ↦ rw (refuse_all, over) (refuse_all-done xs all n h)
  | inl waits ↦
      rw (refuse_all, waits)
        (refuse_all-done xs (set_result false k all) n
          (elim (Bool-cases (n == k)) [ inl same ↦ rw same | inr other ↦ rw other h ]))
]

refuse_all-get :
    (id : String) (xs : List (String × ℕ)) (all : ℕ → Ask) (n : ℕ)
    → get id xs ≡ some n
    → (all n).future ≡ open_future
    → (refuse_all xs all n).future ≡ done false
refuse_all-get id [] all n g o = ground arith
refuse_all-get id ((i, k) ∷ xs) all n g o = elim (Bool-cases (n == k)) [
  | inl same ↦
      let at : k ≡ n = ground arith in
      let waits : is_open (all k).future ≡ true =
        ap (λ j. is_open (all j).future) at ∙ ap is_open o in
      rw (refuse_all, waits) (refuse_all-done xs (set_result false k all) n (rw same))
  | inr other ↦
      let rest : get id xs ≡ some n = ground arith in
      elim (Bool-cases (is_open (all k).future)) [
        | inr over ↦ rw (refuse_all, over) (refuse_all-get id xs all n rest o)
        | inl waits ↦
            rw (refuse_all, waits)
              (refuse_all-get id xs (set_result false k all) n rest (rw other o))
      ]
]

-- After the kill switch a confirmation that was pending and open takes no answer any more, and the
-- call that asked reports a refusal.
pub cancel_all_refuses :
    (id : String) (b : Bool) (n : ℕ) (m : Manager)
    → get id m.pending ≡ some n
    → (m.asks n).future ≡ open_future
    → let m' = cancel_all m in
      (resolve id b m' ≡ (false, m'))
      × ((wake n m').notes
          ≡ m.notes ++ confirm_resolved ((cancel_all m).asks n).confirm_id false refused ∷ [])
unfolding resolve wake cancel_all
cancel_all_refuses id b n m g o =
    let off = refuse_all-get id m.pending m.asks n g o in ((rw (resolve, g, off)), (rw (wake, off)))
