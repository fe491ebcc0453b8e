-- ===== src/Safety/Confirm/Tests.antt =====
-- The confirmation flow at concrete steps, and the theorems about it there.
use baby.Common.{◌≡◌, ◌++◌, refl, true, false, List, [], ◌∷◌, All, arith, str_eq, eq_iff}
use baby.Safety.Confirm.{
  Manager, confirm_request, confirm_resolved, refused, timeout, answered, Step, asks, resolves,
  cancels_all, wakes, times_out, new, run, resolve, wake,
}
use baby.Safety.Confirm.Yes.{Unapproved, run-Unapproved}
use baby.Safety.Confirm.Answer.{first_answer}

-- Two calls ask; one is answered, no first, the other runs into its time limit.
abbrev steps : List Step
steps =
    asks "a1"
    ∷ asks "b2"
    ∷ resolves "a1" false
    ∷ resolves "b2" true
    ∷ wakes 0
    ∷ times_out 1
    ∷ cancels_all
    ∷ []

steps-notes :
    (run new steps).notes
    ≡ confirm_request "a1"
      ∷ confirm_request "b2"
      ∷ confirm_resolved "a1" false refused
      ∷ confirm_resolved "b2" false timeout
      ∷ []
unfolding run
steps-notes = refl

run-Unapproved_example : All (Unapproved "a1") (run new steps).notes
run-Unapproved_example = run-Unapproved "a1" steps (
  tt,
  (
    tt,
    (
      tt,
      (
        (λ e. let same : str_eq "b2" "a1" ≡ true = (eq_iff "b2" "a1").1 e in ground arith),
        (tt, (tt, (tt, tt))),
      ),
    ),
  ),
)

abbrev asking : Manager
asking = run new (asks "a1" ∷ [])

-- another answer, the kill switch, and a call with the same id that runs into its time limit
abbrev meanwhile : List Step
meanwhile = resolves "a1" false ∷ cancels_all ∷ asks "a1" ∷ times_out 1 ∷ []

first_answer_example :
    let m' = (resolve "a1" true asking).1 in
    let later = run m' meanwhile in
    ((resolve "a1" true asking).0 ≡ true)
    × (resolve "a1" false m' ≡ (false, m'))
    × ((wake 0 later).notes
        ≡ later.notes ++ confirm_resolved (asking.asks 0).confirm_id true (answered true) ∷ [])
unfolding run
first_answer_example =
    first_answer "a1" true false 0 meanwhile asking (omega arith) refl refl
      (tt, (tt, (tt, ((λ e. ground arith), tt))))
