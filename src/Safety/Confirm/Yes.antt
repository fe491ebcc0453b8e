-- ===== src/Safety/Confirm/Yes.antt =====
-- What an approval takes.
use baby.Common.{
  ℕ, suc, ◌≡◌, ◌≢◌, ◌<◌, refl, sym, ap, ◌∙◌, Bool, true, false, String, str_eq, eq_iff, Option,
  none, some, List, [], ◌∷◌, ◌==◌, arith, All, All-append, Bool-cases, inl, inr,
}
use baby.Safety.Confirm.{
  Future, open_future, closed_future, done, Note, confirm_request, confirm_resolved, Resolution,
  Ask, Manager, new, set, get, pop, is_open, ask, set_result, resolve, refuse_all, cancel_all,
  finish, answered, wake, time_out, cancel, Step, asks, resolves, cancels_all, wakes, times_out,
  cancels, step, run, timeout, cancelled,
}

abbrev pub is_yes : Future → Bool
is_yes (done true) = true
is_yes _ = false

module _ (id : String) where
  -- The notice does not say that `id` is approved.
  abbrev pub Unapproved : Note → Type 0
  Unapproved (confirm_request i) = Unit {0}
  Unapproved (confirm_resolved i b how) = i ≡ id → b ≡ false

  -- The step is not the answer yes to `id`.
  abbrev pub NotYes : Step → Type 0
  NotYes (resolves i true) = i ≢ id
  NotYes _ = Unit {0}

  abbrev NoYes : Ask → Type 0
  NoYes a = a.confirm_id ≡ id → is_yes a.future ≡ false

  abbrev Named : (ℕ → Ask) → ℕ → String × ℕ → Type 0
  Named all fresh (i, n) = ((all n).confirm_id ≡ i) × (n < fresh)

  abbrev Inv : Manager → Type 0
  Inv m =
      ((n : ℕ) → NoYes (m.asks n)) × All (Named m.asks m.fresh) m.pending × All Unapproved m.notes

  set-NoYes :
      (all : ℕ → Ask) (n : ℕ) (a : Ask)
      → ((k : ℕ) → NoYes (all k))
      → NoYes a
      → (k : ℕ) → NoYes (set all n a k)
  set-NoYes all n a h ha k = elim (Bool-cases (k == n)) [
    | inl same ↦ rw same ha
    | inr other ↦ rw other (h k)
  ]

  set-confirm_id :
      (all : ℕ → Ask) (n : ℕ) (a : Ask) (k : ℕ)
      → a.confirm_id ≡ (all n).confirm_id
      → (set all n a k).confirm_id ≡ (all k).confirm_id
  set-confirm_id all n a k e = elim (Bool-cases (k == n)) [
    | inl same ↦
        let at : k ≡ n = ground arith in rw same (e ∙ ap (λ j. (all j).confirm_id) (sym at))
    | inr other ↦ rw other
  ]

  pop-All :
      (P : String × ℕ → Type 0) (i : String) (xs : List (String × ℕ)) → All P xs → All P (pop i xs)
  pop-All P i [] h = tt
  pop-All P i ((j, n) ∷ xs) h = elim (Bool-cases (str_eq i j)) [
    | inl same ↦ rw same (pop-All P i xs h.1)
    | inr other ↦ rw other (h.0, pop-All P i xs h.1)
  ]

  -- changing futures only
  Named-same :
      (all all' : ℕ → Ask) (fresh : ℕ) (xs : List (String × ℕ))
      → ((k : ℕ) → (all' k).confirm_id ≡ (all k).confirm_id)
      → All (Named all fresh) xs
      → All (Named all' fresh) xs
  Named-same all all' fresh [] e h = tt
  Named-same all all' fresh ((i, n) ∷ xs) e h =
      ((e n ∙ h.0.0, h.0.1), Named-same all all' fresh xs e h.1)

  -- a new call
  Named-fresh :
      (all : ℕ → Ask) (fresh : ℕ) (a : Ask) (xs : List (String × ℕ))
      → All (Named all fresh) xs
      → All (Named (set all fresh a) (suc fresh)) xs
  Named-fresh all fresh a [] h = tt
  Named-fresh all fresh a ((i, n) ∷ xs) h =
      let other : n == fresh ≡ false = ground (arith, h.0.1) in
      ((rw other h.0.0, omega (arith, h.0.1)), Named-fresh all fresh a xs h.1)

  get-Named :
      (all : ℕ → Ask) (fresh : ℕ) (i : String) (n : ℕ) (xs : List (String × ℕ))
      → All (Named all fresh) xs
      → get i xs ≡ some n
      → (all n).confirm_id ≡ i
  get-Named all fresh i n [] h g = ground arith
  get-Named all fresh i n ((j, k) ∷ xs) h g = elim (Bool-cases (str_eq i j)) [
    | inl same ↦ ground (arith, h.0.0, eq_iff i j)
    | inr other ↦ get-Named all fresh i n xs h.1 (ground arith)
  ]

  finish-Inv :
      (n : ℕ) (b : Bool) (how : Resolution) (m : Manager)
      → ((m.asks n).confirm_id ≡ id → b ≡ false)
      → Inv m
      → Inv (finish n b how m)
  finish-Inv n b how m ok (safe, named, notes) =
      let i = (m.asks n).confirm_id in
      let gone : Ask = record { confirm_id = i; future = closed_future } in
      (
        set-NoYes m.asks n gone safe (λ e. refl),
        pop-All (Named (set m.asks n gone) m.fresh) i m.pending (
            Named-same m.asks (set m.asks n gone) m.fresh m.pending
              (λ k. set-confirm_id m.asks n gone k refl) named),
        All-append Unapproved m.notes (confirm_resolved i b how ∷ []) notes (ok, tt),
      )

  ask-Inv : (i : String) (m : Manager) → Inv m → Inv (ask i m)
  unfolding ask
  ask-Inv i m (safe, named, notes) =
      let a : Ask = record { confirm_id = i; future = open_future } in
      let here : m.fresh == m.fresh ≡ true = ground arith in
      (
        set-NoYes m.asks m.fresh a safe (λ e. refl),
        (
          (rw here refl, omega arith),
          pop-All (Named (set m.asks m.fresh a) (suc m.fresh)) i m.pending
              (Named-fresh m.asks m.fresh a m.pending named),
        ),
        All-append Unapproved m.notes (confirm_request i ∷ []) notes (tt, tt),
      )

  -- only futures change, and none of them to a yes to `id`
  futures-Inv :
      (m : Manager) (all : ℕ → Ask)
      → ((k : ℕ) → (all k).confirm_id ≡ (m.asks k).confirm_id)
      → ((k : ℕ) → NoYes (all k))
      → Inv m
      → Inv (record m { asks = all })
  futures-Inv m all same ok (safe, named, notes) =
      (ok, Named-same m.asks all m.fresh m.pending same named, notes)

  set_result-NoYes :
      (b : Bool) (n : ℕ) (all : ℕ → Ask)
      → ((all n).confirm_id ≡ id → b ≡ false)
      → ((k : ℕ) → NoYes (all k))
      → (k : ℕ) → NoYes (set_result b n all k)
  set_result-NoYes b n all ok safe =
      set-NoYes all n (record (all n) { future = done b }) safe (λ e. rw (ok e))

  set_result-confirm_id :
      (b : Bool) (n : ℕ) (all : ℕ → Ask) (k : ℕ)
      → (set_result b n all k).confirm_id ≡ (all k).confirm_id
  set_result-confirm_id b n all k = set-confirm_id all n (record (all n) { future = done b }) k refl

  answer_ok : (i : String) (b : Bool) → NotYes (resolves i b) → i ≡ id → b ≡ false
  answer_ok i true h e = absurd (h e)
  answer_ok i false h e = refl

  resolve-Inv :
      (i : String) (b : Bool) (m : Manager) → NotYes (resolves i b) → Inv m → Inv (resolve i b m).1
  unfolding resolve
  resolve-Inv i b m h inv = go (get i m.pending) refl
    where
      go : (found : Option ℕ) → get i m.pending ≡ found → Inv (resolve i b m).1
      go none e = rw (resolve, e) inv
      go (some n) e = elim (Bool-cases (is_open (m.asks n).future)) [
        | inr over ↦ rw (resolve, e, over) inv
        | inl waits ↦
            rw (resolve, e, waits)
              (futures-Inv m (set_result b n m.asks) (set_result-confirm_id b n m.asks)
                (set_result-NoYes b n m.asks
                  (λ e'.
                    answer_ok i b h (sym (get-Named m.asks m.fresh i n m.pending inv.1 e) ∙ e'))
                  inv.0)
                inv)
      ]

  refuse_all-NoYes :
      (xs : List (String × ℕ)) (all : ℕ → Ask)
      → ((k : ℕ) → NoYes (all k))
      → ((k : ℕ) → NoYes (refuse_all xs all k))
        × ((k : ℕ) → (refuse_all xs all k).confirm_id ≡ (all k).confirm_id)
  refuse_all-NoYes [] all safe = (safe, λ k. refl)
  refuse_all-NoYes ((i, n) ∷ xs) all safe = elim (Bool-cases (is_open (all n).future)) [
    | inr over ↦ rw (refuse_all, over) (refuse_all-NoYes xs all safe)
    | inl waits ↦
        let (ok, same) =
          refuse_all-NoYes xs (set_result false n all)
            (set_result-NoYes false n all (λ e. refl) safe) in
        rw (refuse_all, waits) (ok, λ k. same k ∙ set_result-confirm_id false n all k)
  ]

  cancel_all-Inv : (m : Manager) → Inv m → Inv (cancel_all m)
  unfolding cancel_all
  cancel_all-Inv m inv =
      let (ok, same) = refuse_all-NoYes m.pending m.asks inv.0 in
      futures-Inv m (refuse_all m.pending m.asks) same ok inv

  result_ok :
      (n : ℕ) (b : Bool) (m : Manager)
      → Inv m
      → (m.asks n).future ≡ done b
      → (m.asks n).confirm_id ≡ id
      → b ≡ false
  result_ok n true m inv e i = ap is_yes (sym e) ∙ inv.0 n i
  result_ok n false m inv e i = refl

  wake-Inv : (n : ℕ) (m : Manager) → Inv m → Inv (wake n m)
  unfolding wake
  wake-Inv n m inv = go (m.asks n).future refl
    where
      go : (f : Future) → (m.asks n).future ≡ f → Inv (wake n m)
      go (done b) e = rw (wake, e) (finish-Inv n b (answered b) m (result_ok n b m inv e) inv)
      go open_future e = rw (wake, e) inv
      go closed_future e = rw (wake, e) inv

  time_out-Inv : (n : ℕ) (m : Manager) → Inv m → Inv (time_out n m)
  unfolding time_out
  time_out-Inv n m inv = go (m.asks n).future refl
    where
      go : (f : Future) → (m.asks n).future ≡ f → Inv (time_out n m)
      go (done b) e = rw (time_out, e) (finish-Inv n false timeout m (λ i. refl) inv)
      go open_future e = rw (time_out, e) (finish-Inv n false timeout m (λ i. refl) inv)
      go closed_future e = rw (time_out, e) inv

  cancel-Inv : (n : ℕ) (m : Manager) → Inv m → Inv (cancel n m)
  unfolding cancel
  cancel-Inv n m inv = go (m.asks n).future refl
    where
      go : (f : Future) → (m.asks n).future ≡ f → Inv (cancel n m)
      go (done b) e = rw (cancel, e) (finish-Inv n false cancelled m (λ i. refl) inv)
      go open_future e = rw (cancel, e) (finish-Inv n false cancelled m (λ i. refl) inv)
      go closed_future e = rw (cancel, e) inv

  step-Inv : (m : Manager) (x : Step) → NotYes x → Inv m → Inv (step m x)
  unfolding step
  step-Inv m (asks i) h inv = ask-Inv i m inv
  step-Inv m (resolves i b) h inv = resolve-Inv i b m h inv
  step-Inv m cancels_all h inv = cancel_all-Inv m inv
  step-Inv m (wakes n) h inv = wake-Inv n m inv
  step-Inv m (times_out n) h inv = time_out-Inv n m inv
  step-Inv m (cancels n) h inv = cancel-Inv n m inv

  run-Inv : (m : Manager) (xs : List Step) → All NotYes xs → Inv m → Inv (run m xs)
  unfolding run
  run-Inv m [] h inv = inv
  run-Inv m (x ∷ xs) h inv = run-Inv (step m x) xs h.1 (step-Inv m x h.0 inv)

-- Without the answer yes to an id, that id is never reported as approved, whatever else happens:
-- answers to other ids, refusals, time limits, the kill switch, calls under the same id again.
pub run-Unapproved :
    (id : String) (xs : List Step) → All (NotYes id) xs → All (Unapproved id) (run new xs).notes
run-Unapproved id xs h = (run-Inv id new xs h ((λ n e. refl), tt, tt)).2
