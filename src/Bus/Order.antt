-- ===== src/Bus/Order.antt =====
-- What every queue of a bus keeps: the order of publication, and the bound.
use baby.Common.{
  ℕ, suc, ◌≡◌, ◌⊎◌, ◌≤◌, ◌<◌, refl, true, false, List, [], ◌∷◌, ◌++◌, map, any, length,
  length-append, ◌==◌, arith, All, All-append, Bool-cases, inl, inr,
}
use baby.Bus.{
  Event, Subscriber, Bus, new, full, put_nowait, drop_oldest, offer, subscribe, remove, unsubscribe,
  publish, take_from, take, Op, subscribes, unsubscribes, publishes, takes, step, run,
}

module _ {A : Type 0} where
  -- The numbers rise from event to event, and all are below `n`.
  abbrev pub Rising : ℕ → List (Event A) → Type 0
  Rising n [] = Unit {0}
  Rising n (e ∷ q) = (e.seq < n) × All (λ e'. e.seq < e'.seq) q × Rising n q

  Rising-drop_oldest : (n : ℕ) (q : List (Event A)) → Rising n q → Rising n (drop_oldest q)
  Rising-drop_oldest n [] h = tt
  Rising-drop_oldest n (e ∷ q) h = h.2

  Rising-below : (n : ℕ) (q : List (Event A)) → Rising n q → All (λ e. e.seq < n) q
  Rising-below n [] h = tt
  Rising-below n (e ∷ q) h = (h.0, Rising-below n q h.2)

  Rising-snoc :
      (q : List (Event A)) (e : Event A) → Rising e.seq q → Rising (suc e.seq) (q ++ e ∷ [])
  Rising-snoc [] e h = (omega arith, tt, tt)
  Rising-snoc (e' ∷ q) e h = (
    omega (arith, h.0),
    All-append (λ x. e'.seq < x.seq) q (e ∷ []) h.1 (h.0, tt),
    Rising-snoc q e h.2,
  )

  Rising-suc : (n : ℕ) (q : List (Event A)) → Rising n q → Rising (suc n) q
  Rising-suc n [] h = tt
  Rising-suc n (e ∷ q) h = (omega (arith, h.0), h.1, Rising-suc n q h.2)

  -- the bound of a queue, where there is one
  abbrev pub Fits : ℕ → List (Event A) → Type 0
  Fits maxsize q = 0 < maxsize → length q ≤ maxsize

  is_full :
      (maxsize : ℕ) (q : List (Event A))
      → full maxsize q ≡ true
      → (0 < maxsize) × (maxsize ≤ length q)
  unfolding full
  is_full maxsize q f = (ground arith, ground arith)

  has_room :
      (maxsize : ℕ) (q : List (Event A)) → full maxsize q ≡ false → 0 < maxsize → length q < maxsize
  unfolding full
  has_room maxsize q f p = ground arith

  not_full : (maxsize : ℕ) (q : List (Event A)) → length q < maxsize → full maxsize q ≡ false
  unfolding full
  not_full maxsize q lt = ground arith

  offer_has_room :
      (maxsize : ℕ) (e : Event A) (q : List (Event A))
      → full maxsize q ≡ false
      → offer maxsize e q ≡ q ++ e ∷ []
  unfolding offer put_nowait
  offer_has_room maxsize e q f = rw (offer, put_nowait, f)

  offer-full :
      (maxsize : ℕ) (e : Event A) (q : List (Event A))
      → full maxsize q ≡ true
      → full maxsize (drop_oldest q) ≡ false
      → offer maxsize e q ≡ drop_oldest q ++ e ∷ []
  unfolding offer put_nowait
  offer-full maxsize e q f f' = rw (offer, put_nowait, f, f')

  -- An event is appended, to a full queue after its oldest event is gone.
  pub offer-cases :
      (maxsize : ℕ) (e : Event A) (q : List (Event A))
      → Fits maxsize q
      → ((offer maxsize e q ≡ q ++ e ∷ []) × (0 < maxsize → length q < maxsize))
        ⊎ ((offer maxsize e q ≡ drop_oldest q ++ e ∷ []) × (maxsize ≡ length q) × (0 < maxsize))
  offer-cases maxsize e q h = elim (Bool-cases (full maxsize q)) [
    | inr room ↦ inl (offer_has_room maxsize e q room, has_room maxsize q room)
    | inl f ↦
        let (pos, le) = is_full maxsize q f in
        let fits : length q ≤ maxsize = h pos in
        inr (
          offer-full maxsize e q f (not_full maxsize (drop_oldest q) (shorter q pos le fits)),
          omega arith,
          pos,
        )
  ]
    where
      shorter :
          (q : List (Event A))
          → 0 < maxsize
          → maxsize ≤ length q
          → length q ≤ maxsize
          → length (drop_oldest q) < maxsize
      shorter [] pos le fits = omega arith
      shorter (x ∷ q) pos le fits = omega arith

  -- what holds of a queue when `n` is the next number
  abbrev pub Queue : ℕ → ℕ → List (Event A) → Type 0
  Queue maxsize n q = Rising n q × Fits maxsize q

  Fits-drop_oldest :
      (maxsize : ℕ) (q : List (Event A)) → Fits maxsize q → Fits maxsize (drop_oldest q)
  Fits-drop_oldest maxsize [] h = h
  Fits-drop_oldest maxsize (x ∷ q) h = λ p. omega (arith, h p)

  length-drop_oldest : (q : List (Event A)) → 0 < length q → suc (length (drop_oldest q)) ≡ length q
  length-drop_oldest [] h = omega arith
  length-drop_oldest (x ∷ q) h = refl

  offer-Queue :
      (maxsize : ℕ) (e : Event A) (q : List (Event A))
      → Queue maxsize e.seq q
      → Queue maxsize (suc e.seq) (offer maxsize e q)
  offer-Queue maxsize e q h = elim (offer-cases maxsize e q h.1) [
    | inl (same, room) ↦
        rw same (Rising-snoc q e h.0, λ p. omega (arith, length-append q (e ∷ []), room p))
    | inr (same, size, pos) ↦ rw same (
      Rising-snoc (drop_oldest q) e (Rising-drop_oldest e.seq q h.0),
      λ p.
          omega (arith, length-append (drop_oldest q) (e ∷ []), length-drop_oldest q (omega arith)),
    )
  ]

  -- what holds of a bus
  abbrev pub Ordered : Bus A → Type 0
  Ordered b = All (λ s. Queue b.maxsize b.seq s.queue) b.subscribers

  offered-Ordered :
      (maxsize : ℕ) (e : Event A) (ss : List (Subscriber A))
      → All (λ s. Queue maxsize e.seq s.queue) ss
      → All
          (λ s. Queue maxsize (suc e.seq) s.queue)
          (map {A = Subscriber A} (λ s. record s { queue = offer maxsize e s.queue }) ss)
  offered-Ordered maxsize e [] h = tt
  offered-Ordered maxsize e (s ∷ ss) h =
      (offer-Queue maxsize e s.queue h.0, offered-Ordered maxsize e ss h.1)

  take_from-Ordered :
      (maxsize n i : ℕ) (ss : List (Subscriber A))
      → All (λ s. Queue maxsize n s.queue) ss
      → All (λ s. Queue maxsize n s.queue) (map (take_from i) ss)
  take_from-Ordered maxsize n i [] h = tt
  take_from-Ordered maxsize n i (s ∷ ss) h = elim (Bool-cases (s.id == i)) [
    | inl yes_it ↦ rw yes_it (
      (Rising-drop_oldest n s.queue h.0.0, Fits-drop_oldest maxsize s.queue h.0.1),
      take_from-Ordered maxsize n i ss h.1,
    )
    | inr other ↦ rw other (h.0, take_from-Ordered maxsize n i ss h.1)
  ]

  remove-All :
      (P : Subscriber A → Type 0) (i : ℕ) (ss : List (Subscriber A))
      → All P ss
      → All P (remove i ss)
  remove-All P i [] h = tt
  remove-All P i (s ∷ ss) h = elim (Bool-cases (s.id == i)) [
    | inl it ↦ rw it h.1
    | inr other ↦ rw other (h.0, remove-All P i ss h.1)
  ]

  step-Ordered : (b : Bus A) (op : Op A) → Ordered b → Ordered (step b op)
  unfolding step subscribe unsubscribe publish take
  step-Ordered b subscribes h =
      All-append (λ s. Queue b.maxsize b.seq s.queue) b.subscribers
        (record { id = b.fresh; queue = [] } ∷ []) h ((tt, λ p. omega arith), tt)
  step-Ordered b (unsubscribes i) h = elim (Bool-cases (any (λ s. s.id == i) b.subscribers)) [
    | inl found ↦ rw found (remove-All (λ s. Queue b.maxsize b.seq s.queue) i b.subscribers h)
    | inr absent ↦ rw absent h
  ]
  step-Ordered b (publishes kind channel payload) h =
      offered-Ordered b.maxsize
        (record { kind = kind; channel = channel; payload = payload; seq = b.seq }) b.subscribers h
  step-Ordered b (takes i) h = take_from-Ordered b.maxsize b.seq i b.subscribers h

  run-from : (b : Bus A) (ops : List (Op A)) → Ordered b → Ordered (run b ops)
  unfolding run
  run-from b [] h = h
  run-from b (op ∷ ops) h = run-from (step b op) ops (step-Ordered b op h)

-- Whatever happens to a bus, every queue holds events in the order of publication, each once, and,
-- if the queues are bounded, no more than the bound.
pub run-Ordered : {A : Type 0} (maxsize : ℕ) (ops : List (Op A)) → Ordered (run (new maxsize) ops)
run-Ordered maxsize ops = run-from (new maxsize) ops tt
