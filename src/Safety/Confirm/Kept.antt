-- ===== src/Safety/Confirm/Kept.antt =====
-- An answer stays with the call that it was given to.
use baby.Common.{
  ℕ, ◌<◌, ◌≡◌, ◌≢◌, refl, ap, ◌∙◌, Bool, true, false, String, Option, none, some, List, [], ◌∷◌,
  ◌==◌, arith, All, Bool-cases, inl, inr,
}
use baby.Safety.Confirm.{
  Future, open_future, closed_future, done, Resolution, timeout, cancelled, Ask, Manager, get, set,
  is_open, set_result, ask, resolve, refuse_all, cancel_all, answered, finish, wake, time_out,
  cancel, Step, asks, resolves, cancels_all, wakes, times_out, cancels, step, run,
}

module _ (n : ℕ) where
  -- The step does not end call number `n`: it neither runs into its time limit, nor is cancelled, nor
  -- goes on.
  abbrev pub GoesPast : Step → Type 0
  GoesPast (wakes k) = k ≢ n
  GoesPast (times_out k) = k ≢ n
  GoesPast (cancels k) = k ≢ n
  GoesPast _ = Unit {0}

  -- The call has its answer, and a new call gets another number.
  abbrev pub Has : Ask → Manager → Type 0
  Has a m = (m.asks n ≡ a) × (n < m.fresh)

  set-other : (all : ℕ → Ask) (k : ℕ) (x : Ask) → k ≢ n → set all k x n ≡ all n
  set-other all k x ne =
      let apart : n == k ≡ false = elim (Bool-cases (n == k)) [
        | inl same ↦ let e : k ≡ n = ground (arith, same) in absurd (ne e)
        | inr other ↦ other
      ] in
      rw apart refl

  open_elsewhere :
      (all : ℕ → Ask) (k : ℕ) (a : Ask) (b : Bool)
      → all n ≡ a
      → a.future ≡ done b
      → is_open (all k).future ≡ true
      → k ≢ n
  open_elsewhere all k a b e d o same =
      let f : (all k).future ≡ done b = ap (λ j. (all j).future) same ∙ ap (λ x. x.future) e ∙ d in
      let closed : is_open (all k).future ≡ false = ap is_open f in ground (arith, o, closed)

  refuse_all-other :
      (xs : List (String × ℕ)) (all : ℕ → Ask) (a : Ask) (b : Bool)
      → all n ≡ a
      → a.future ≡ done b
      → refuse_all xs all n ≡ a
  refuse_all-other [] all a b e d = e
  refuse_all-other ((i, k) ∷ xs) all a b e d = elim (Bool-cases (is_open (all k).future)) [
    | inr over ↦ rw (refuse_all, over) (refuse_all-other xs all a b e d)
    | inl waits ↦
        let kept =
          set-other all k (record (all k) { future = done false })
            (open_elsewhere all k a b e d waits) in
        rw (refuse_all, waits) (refuse_all-other xs (set_result false k all) a b (kept ∙ e) d)
  ]

  finish-Has :
      (k : ℕ) (b : Bool) (how : Resolution) (m : Manager) (a : Ask)
      → k ≢ n
      → Has a m
      → Has a (finish k b how m)
  finish-Has k b how m a ne h = (
    set-other m.asks k (record { confirm_id = (m.asks k).confirm_id; future = closed_future }) ne
        ∙ h.0,
    h.1,
  )

  ending-Has :
      (k : ℕ) (m : Manager) (a : Ask)
      → k ≢ n
      → Has a m
      → Has a (wake k m) × Has a (time_out k m) × Has a (cancel k m)
  unfolding wake time_out cancel
  ending-Has k m a ne h = by_future (m.asks k).future refl
    where
      by_future :
          (f : Future)
          → (m.asks k).future ≡ f
          → Has a (wake k m) × Has a (time_out k m) × Has a (cancel k m)
      by_future open_future e =
          rw (wake, time_out, cancel, e)
            (h, finish-Has k false timeout m a ne h, finish-Has k false cancelled m a ne h)
      by_future closed_future e = rw (wake, time_out, cancel, e) (h, h, h)
      by_future (done b) e =
          rw (wake, time_out, cancel, e)
            (
              finish-Has k b (answered b) m a ne h,
              finish-Has k false timeout m a ne h,
              finish-Has k false cancelled m a ne h,
            )

  resolve-Has :
      (i : String) (c : Bool) (m : Manager) (a : Ask) (b : Bool)
      → a.future ≡ done b
      → Has a m
      → Has a (resolve i c m).1
  unfolding resolve
  resolve-Has i c m a b d h = go (get i m.pending) refl
    where
      go : (found : Option ℕ) → get i m.pending ≡ found → Has a (resolve i c m).1
      go none e = rw (resolve, e) h
      go (some k) e = elim (Bool-cases (is_open (m.asks k).future)) [
        | inr over ↦ rw (resolve, e, over) h
        | inl waits ↦
            let kept =
              set-other m.asks k (record (m.asks k) { future = done c })
                (open_elsewhere m.asks k a b h.0 d waits) in
            rw (resolve, e, waits) (kept ∙ h.0, h.1)
      ]

  step-Has :
      (x : Step) (m : Manager) (a : Ask) (b : Bool)
      → a.future ≡ done b
      → GoesPast x
      → Has a m
      → Has a (step m x)
  unfolding step ask cancel_all
  step-Has (asks i) m a b d g h =
      let ne : m.fresh ≢ n = λ e. omega (arith, h.1, e) in
      (
        set-other m.asks m.fresh (record { confirm_id = i; future = open_future }) ne ∙ h.0,
        omega (arith, h.1),
      )
  step-Has (resolves i c) m a b d g h = resolve-Has i c m a b d h
  step-Has cancels_all m a b d g h = (refuse_all-other m.pending m.asks a b h.0 d, h.1)
  step-Has (wakes k) m a b d g h = (ending-Has k m a g h).0
  step-Has (times_out k) m a b d g h = (ending-Has k m a g h).1
  step-Has (cancels k) m a b d g h = (ending-Has k m a g h).2

  pub run-Has :
      (xs : List Step) (m : Manager) (a : Ask) (b : Bool)
      → a.future ≡ done b
      → All GoesPast xs
      → Has a m
      → Has a (run m xs)
  unfolding run
  run-Has [] m a b d g h = h
  run-Has (x ∷ xs) m a b d g h = run-Has xs (step m x) a b d g.1 (step-Has x m a b d g.0 h)
