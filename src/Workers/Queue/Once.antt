-- ===== src/Workers/Queue/Once.antt =====
-- Each task is announced once, whatever the order of the steps.
use baby.Common.{
  ℕ, ◌<◌, ◌≡◌, refl, sym, ap, subst, true, not, Option, none, some, List, [], ◌∷◌, ◌++◌, any,
  filter, count, count-append, arith, Bool-cases, Option-cases, inl, inr, ◌==◌,
}
use baby.Text.Words.{Codes}
use baby.Db.Table.{find, first_id, update_where}
use baby.Db.Claim.{claim_next_idle, claim_next_busy, waits, first_id-waits}
use baby.Db.Tasks.{
  Task, task_id, TaskStatus, cancelled, is_queued, is_terminal, add_task, claim_next_task,
  update_task, get_task, start_task, set_task,
}
use baby.Db.Tasks.Once.{add_task-IsSpent, updated-IsSpent, status_idle, found}
use baby.Workers.Queue.{
  Pool, Child, child_id, preparing, Outcome, outcome_status, outcome_text, cancel, cancel_read,
  cancel_queued, claim, launch, launch_first, prepare, finish, finish_child, is_working,
  finish_task, retire, child_of, without, is_running,
}
use baby.Workers.Queue.Tally.{
  Step, step, run, tally, Settled, settle, OnceAtMost, Settled-OnceAtMost, unheard, newly-IsSpent,
  count-without, count-set_working, child_of_counts, not_queued, found_waits, adds, claims,
  launches, prepares, finishes, retires, cancels,
}

claimed-Settled :
    (now i j : ℕ) (p : Pool)
    → any (waits task_id is_queued j) p.tasks ≡ true
    → Settled i p
    → (o : Option Task) → ((t : Task) → o ≡ some t → t.id ≡ j)
    → Settled i (elim o [
      | none ↦ record p { tasks = update_where (λ r. task_id r == j) (start_task now) p.tasks }
      | some t ↦ record p {
        tasks = update_where (λ r. task_id r == j) (start_task now) p.tasks;
        starting = p.starting ++ t ∷ [];
      }
    ])
claimed-Settled now i j p w h none known =
    settle i p (record p { tasks = update_where (λ r. task_id r == j) (start_task now) p.tasks })
      (omega arith)
      (updated-IsSpent (start_task now) (λ r. task_id r == j) p.tasks i (λ t. refl) (λ t. refl)) h
claimed-Settled now i j p w h (some t) known =
    let q : Pool = record p {
      tasks = update_where (λ r. task_id r == j) (start_task now) p.tasks;
      starting = p.starting ++ t ∷ [];
    } in
    let counted = count-append (λ t. task_id t == i) p.starting (t ∷ []) in
    elim (Bool-cases (t.id == i)) [
      | inl mine ↦
          let same : j ≡ i = ground (arith, known t refl, mine) in
          let none_yet =
            unheard i p (subst (λ k. any (waits task_id is_queued k) p.tasks ≡ true) same w) h in
          (
            ground (arith, counted, none_yet),
            inr (newly-IsSpent (start_task now) i j p.tasks (λ t. refl) (λ t. refl) same w),
          )
      | inr other ↦
          settle i p q (ground (arith, counted, other))
            (updated-IsSpent (start_task now) (λ r. task_id r == j) p.tasks i (λ t. refl)
              (λ t. refl))
            h
    ]

-- the pool after a claim that gave these
abbrev pub after_claim : Pool → Option Task × List Task → Pool
after_claim p r = elim r.0 [
  | none ↦ record p { tasks = r.1 }
  | some t ↦ record p { tasks = r.1; starting = p.starting ++ t ∷ [] }
]

claim-Settled : (now i : ℕ) (p : Pool) → Settled i p → Settled i (claim now p)
unfolding claim claim_next_task
claim-Settled now i p h = elim (Option-cases (first_id task_id (filter is_queued p.tasks))) [
  | inl idle ↦
      subst (λ r. Settled i (after_claim p r))
        (sym (claim_next_idle task_id is_queued (start_task now) p.tasks idle)) h
  | inr (j, next) ↦
      subst (λ r. Settled i (after_claim p r))
        (sym (claim_next_busy task_id is_queued (start_task now) p.tasks j next))
        (claimed-Settled now i j p (first_id-waits task_id is_queued j p.tasks next) h
          (find task_id j (update_where (λ r. task_id r == j) (start_task now) p.tasks))
          (found j (update_where (λ r. task_id r == j) (start_task now) p.tasks)))
]

launch-Settled :
    (i : ℕ) (p : Pool) (ts : List Task)
    → p.starting ≡ ts
    → Settled i p
    → Settled i (launch_first ts p)
launch-Settled i p [] e h = h
launch-Settled i p (t ∷ ts) e h =
    settle i p (launch_first (t ∷ ts) p)
      (ground (
        arith,
        ap (count (λ t. task_id t == i)) e,
        count-append (λ c. child_id c == i) p.children
            ((record { task = t; phase = preparing }) ∷ []),
      ))
      (λ s. s) h

prepare-Settled :
    (now : ℕ) (channel : Codes) (i j : ℕ) (p : Pool)
    → Settled i p
    → Settled i (prepare now channel j p)
unfolding prepare
prepare-Settled now channel i j p h = elim (Bool-cases (any (λ k. k == j) p.requests)) [
  | inl asked ↦ rw asked (
      settle i p (record p { children = without j p.children })
        (ground (arith, count-without i j p.children)) (λ s. s) h)
  | inr free ↦ rw (free, count-set_working i j p.children) h
]

module _ (status_json : TaskStatus → Codes) where
  finish_task-Settled :
      (now i : ℕ) (t : Task) (o : Outcome) (p : Pool)
      → 0 < count (λ c. child_id c == t.id) p.children
      → Settled i p
      → Settled i (finish_task status_json now t o p)
  unfolding finish_task update_task
  finish_task-Settled now i t o p runs h =
      settle i p (finish_task status_json now t o p)
        (elim (Bool-cases (t.id == i)) [
          | inl mine ↦
              let same : t.id ≡ i = ground (arith, mine) in
              ground (
                arith,
                mine,
                same,
                count-without i t.id p.children,
                subst (λ k. 0 < count (λ c. child_id c == k) p.children) same runs,
              )
          | inr other ↦ ground (arith, other, count-without i t.id p.children)
        ])
        (updated-IsSpent (set_task now (outcome_status o) (some (outcome_text o)))
          (λ u. task_id u == t.id) p.tasks i (λ u. refl)
          (λ u. status_idle now (outcome_status o) (some (outcome_text o)) u (not_queued o)))
        h

  finish_child-Settled :
      (now i : ℕ) (o : Outcome) (found_child : Option Child) (p : Pool)
      → ((c : Child) → found_child ≡ some c → 0 < count (λ k. child_id k == child_id c) p.children)
      → Settled i p
      → Settled i (finish_child status_json now o found_child p)
  finish_child-Settled now i o none p runs h = h
  finish_child-Settled now i o (some c) p runs h = elim (Bool-cases (is_working c.phase)) [
    | inl works ↦ rw works (finish_task-Settled now i c.task o p (runs c refl) h)
    | inr waits_yet ↦ rw waits_yet h
  ]

cancel_queued-Settled :
    (now i : ℕ) (t : Task) (p : Pool)
    → any (waits task_id is_queued t.id) p.tasks ≡ true
    → Settled i p
    → Settled i (cancel_queued now t p)
unfolding cancel_queued update_task
cancel_queued-Settled now i t p w h = elim (Bool-cases (t.id == i)) [
  | inl mine ↦
      let same : t.id ≡ i = ground (arith, mine) in
      let none_yet =
        unheard i p (subst (λ k. any (waits task_id is_queued k) p.tasks ≡ true) same w) h in
      (
        ground (arith, none_yet, mine),
        inr (
            newly-IsSpent (set_task now cancelled none) i t.id p.tasks (λ u. refl) (λ u. refl) same
              w),
      )
  | inr other ↦
      settle i p (cancel_queued now t p) (ground (arith, other))
        (updated-IsSpent (set_task now cancelled none) (λ u. task_id u == t.id) p.tasks i
          (λ u. refl) (λ u. refl))
        h
]

cancel_read-Settled :
    (now i j : ℕ) (o : Option Task) (p : Pool)
    → ((t : Task)
        → o ≡ some t
        → is_queued t ≡ true
        → any (waits task_id is_queued t.id) p.tasks ≡ true)
    → Settled i p
    → Settled i (cancel_read now j o p).1
unfolding cancel_read
cancel_read-Settled now i j none p w h = elim (Bool-cases (is_running j p)) [
  | inl runs ↦ rw runs h
  | inr not ↦ rw not h
]
cancel_read-Settled now i j (some t) p w h = elim (Bool-cases (is_terminal t.status)) [
  | inl over ↦ rw over h
  | inr open_yet ↦ elim (Bool-cases (is_running j p)) [
    | inl runs ↦ rw (open_yet, runs) h
    | inr idle ↦ elim (Bool-cases (is_queued t)) [
      | inl q ↦ rw (open_yet, idle, q) (cancel_queued-Settled now i t p (w t refl q) h)
      | inr started ↦ rw (open_yet, idle, started) h
    ]
  ]
]

cancel-Settled : (now i j : ℕ) (p : Pool) → Settled i p → Settled i (cancel now j p).1
unfolding cancel get_task
cancel-Settled now i j p h =
    cancel_read-Settled now i j (find task_id j p.tasks) p (found_waits j p.tasks) h

module _ (status_json : TaskStatus → Codes) where
  step-Settled :
      (now i : ℕ) (s : Step) (p : Pool) → Settled i p → Settled i (step status_json now s p)
  unfolding step
  step-Settled now i (adds title spec notify project) p h =
      settle i p (record p { tasks = (add_task now title spec notify project p.tasks).1 })
        (omega arith) (add_task-IsSpent now title spec notify project p.tasks i) h
  step-Settled now i claims p h = claim-Settled now i p h
  step-Settled now i launches p h = unfold launch in launch-Settled i p p.starting refl h
  step-Settled now i (prepares channel j) p h = prepare-Settled now channel i j p h
  step-Settled now i (finishes j o) p h =
      unfold finish in
      finish_child-Settled status_json now i o (child_of j p.children) p
        (λ c e. (child_of_counts j p.children c e).1) h
  step-Settled now i (retires j) p h = unfold retire in h
  step-Settled now i (cancels j) p h = cancel-Settled now i j p h

  run-Settled :
      (steps : List (ℕ × Step)) (i : ℕ) (p : Pool)
      → Settled i p
      → Settled i (run status_json steps p)
  unfolding run
  run-Settled [] i p h = h
  run-Settled ((now, s) ∷ steps) i p h =
      run-Settled steps i (step status_json now s p) (step-Settled now i s p h)

  -- From a pool that has claimed and announced nothing, whatever is on the board, and whatever the order
  -- in which tasks are added, claimed, run, cancelled and finished, as long as nothing comes between the
  -- read and the write of a cancel: the end of a task is never announced, or it is announced once and no
  -- row of the task is queued any more.
  pub run_announces_once :
      (steps : List (ℕ × Step)) (i : ℕ) (p : Pool)
      → tally i p ≡ 0
      → OnceAtMost i (run status_json steps p)
  run_announces_once steps i p fresh =
      Settled-OnceAtMost i (run status_json steps p)
        (run-Settled steps i p (omega (arith, fresh), inl fresh))
