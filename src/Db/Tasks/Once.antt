-- ===== src/Db/Tasks/Once.antt =====
-- No task is handed out twice.
use baby.Common.{
  ℕ, ◌≤◌, ◌≡◌, ◌≢◌, refl, sym, Bool, true, false, ◌||◌, Option, none, some, List, [], ◌∷◌, ◌++◌,
  filter, any, arith, All, All-imp, Option-cases, inl, inr, ◌==◌, max, subst,
}
use baby.Text.Words.{Codes}
use baby.Db.Table.{max_id, next_id, find, first_id, update_where}
use baby.Db.Claim.{
  claim_next, claim_next_idle, claim_next_busy, waits, first_id-waits, max_id-update_where,
  still_idle, now_idle, none_waits,
}
use baby.Db.Tasks.{
  TaskStatus, queued, running, done, failed, cancelled, Task, task_id, is_queued, Op, adds, claims,
  updates, Board, step, run, start_task, set_task, claim_next_task, update_task, add_task,
  record_claim,
}

abbrev pub Distinct : List ℕ → Type 0
Distinct [] = Unit {0}
Distinct (i ∷ is) = All (λ j. j ≢ i) is × Distinct is

-- The update does not put a task back into the queue.
abbrev pub QueuesNone : Op → Type 0
QueuesNone (updates id status result) = status ≢ queued
QueuesNone _ = Unit {0}

-- The id is one of the board's, or was, and no row with it is queued.
abbrev pub IsSpent : List Task → ℕ → Type 0
IsSpent rows i = (i ≤ max_id task_id rows) × (any (waits task_id is_queued i) rows ≡ false)

abbrev Claimed : Board → Type 0
Claimed b = All (IsSpent b.tasks) b.claimed × Distinct b.claimed

max_id-append :
    (rows : List Task) (t : Task) → max_id task_id (rows ++ t ∷ []) ≡ max (max_id task_id rows) t.id
max_id-append [] t = omega arith
max_id-append (r ∷ rows) t = ground (arith, max_id-append rows t)

any-append :
    (p : Task → Bool) (rows : List Task) (t : Task) → any p (rows ++ t ∷ []) ≡ any p rows || p t
any-append p [] t = ground arith
any-append p (r ∷ rows) t = ground (arith, any-append p rows t)

pub add_task-IsSpent :
    (now : ℕ) (title spec : Codes) (notify : ℕ) (project : Option ℕ) (rows : List Task) (i : ℕ)
    → IsSpent rows i
    → IsSpent (add_task now title spec notify project rows).1 i
unfolding add_task
add_task-IsSpent now title spec notify project rows i h =
    ground
      (arith, max_id-append rows new, any-append (waits task_id is_queued i) rows new, h.0, h.1)
  where
    new : Task
    new = (record {
      id = next_id task_id rows;
      title = title;
      spec = spec;
      status = queued;
      result = none;
      notify = notify;
      created_at = now;
      started_at = none;
      finished_at = none;
      project_id = project;
    })

pub updated-IsSpent :
    (f : Task → Task) (p : Task → Bool) (rows : List Task) (i : ℕ)
    → ((t : Task) → (f t).id ≡ t.id)
    → ((t : Task) → is_queued (f t) ≡ false)
    → IsSpent rows i
    → IsSpent (update_where p f rows) i
updated-IsSpent f p rows i keeps idle h = (
  rw (max_id-update_where task_id is_queued f keeps p rows) h.0,
  still_idle task_id is_queued f keeps idle p i rows h.1,
)

pub status_idle :
    (now : ℕ) (s : TaskStatus) (result : Option Codes) (t : Task)
    → s ≢ queued
    → is_queued (set_task now s result t) ≡ false
status_idle now queued result t h = absurd (h refl)
status_idle now running result t h = refl
status_idle now done result t h = refl
status_idle now failed result t h = refl
status_idle now cancelled result t h = refl

pub found : (i : ℕ) (rows : List Task) (t : Task) → find task_id i rows ≡ some t → t.id ≡ i
found i [] t e = absurd (cc)
found i (r ∷ rows) t e = ground (arith, found i rows t, e)

pub waiting_bound :
    (i : ℕ) (rows : List Task)
    → any (waits task_id is_queued i) rows ≡ true
    → i ≤ max_id task_id rows
waiting_bound i rows w = ground (arith, none_waits task_id is_queued i rows, w)

-- The claim of the row with the id `i`, where `i` is queued.
claim-Claimed :
    (now i : ℕ) (b : Board)
    → any (waits task_id is_queued i) b.tasks ≡ true
    → Claimed b
    → (o : Option Task) → ((t : Task) → o ≡ some t → t.id ≡ i)
    → Claimed (record {
      tasks = update_where (λ r. task_id r == i) (start_task now) b.tasks;
      claimed = record_claim o b.claimed;
    })
claim-Claimed now i b waiting h o known =
    let p : Task → Bool = λ r. task_id r == i in
    let kept =
      All-imp (IsSpent b.tasks) (IsSpent (update_where p (start_task now) b.tasks)) b.claimed
        (λ j. updated-IsSpent (start_task now) p b.tasks j (λ t. refl) (λ t. refl)) h.0 in
    elim (Option-cases o) [
      | inl nothing ↦ rw nothing (kept, h.1)
      | inr (t, e) ↦
          rw (e, known t e)
            (
              (
                (
                  rw (max_id-update_where task_id is_queued (start_task now) (λ u. refl) p b.tasks)
                      (waiting_bound i b.tasks waiting),
                  now_idle task_id is_queued (start_task now) (λ u. refl) (λ u. refl) i b.tasks,
                ),
                kept,
              ),
              (
                All-imp (IsSpent b.tasks) (λ j. j ≢ i) b.claimed
                    (λ j spent e. ground (arith, spent.1, waiting, e)) h.0,
                h.1,
              ),
            )
    ]

-- the board after a claim that gave these
abbrev after_claim : Board → Option Task × List Task → Board
after_claim b c = record { tasks = c.1; claimed = record_claim c.0 b.claimed }

next-Claimed :
    (now : ℕ) (b : Board)
    → Claimed b
    → Claimed (after_claim b (claim_next task_id is_queued (start_task now) b.tasks))
next-Claimed now b h = elim (Option-cases (first_id task_id (filter is_queued b.tasks))) [
  | inl idle ↦
      subst (λ c. Claimed (after_claim b c))
        (sym (claim_next_idle task_id is_queued (start_task now) b.tasks idle)) h
  | inr (i, next) ↦
      subst (λ c. Claimed (after_claim b c))
        (sym (claim_next_busy task_id is_queued (start_task now) b.tasks i next))
        (claim-Claimed now i b (first_id-waits task_id is_queued i b.tasks next) h
          (find task_id i (update_where (λ r. task_id r == i) (start_task now) b.tasks))
          (found i (update_where (λ r. task_id r == i) (start_task now) b.tasks)))
]

step-Claimed :
    (now : ℕ) (op : Op) (b : Board) → (h : QueuesNone op) → Claimed b → Claimed (step now op b)
unfolding step
step-Claimed now (adds title spec notify project) b q h = (
  All-imp (IsSpent b.tasks) (IsSpent (add_task now title spec notify project b.tasks).1) b.claimed
      (add_task-IsSpent now title spec notify project b.tasks) h.0,
  h.1,
)
step-Claimed now claims b q h = unfold claim_next_task in next-Claimed now b h
step-Claimed now (updates id status result) b q h = (
  unfold update_task in
      All-imp (IsSpent b.tasks)
        (IsSpent (update_where (λ t. task_id t == id) (set_task now status result) b.tasks))
        b.claimed
        (λ i.
          updated-IsSpent (set_task now status result) (λ t. task_id t == id) b.tasks i (λ t. refl)
            (λ t. status_idle now status result t q))
        h.0,
  h.1,
)

run-Claimed :
    (ops : List (ℕ × Op)) (b : Board)
    → All (λ (o : ℕ × Op). QueuesNone o.1) ops
    → Claimed b
    → Claimed (run ops b)
unfolding run
run-Claimed [] b q h = h
run-Claimed ((now, op) ∷ ops) b q h =
    run-Claimed ops (step now op b) q.1 (step-Claimed now op b q.0 h)

-- Whatever is added, claimed and updated, in whatever order, as long as no update puts a task back
-- into the queue: no task is handed out twice.
pub claims-Distinct :
    (ops : List (ℕ × Op)) (rows : List Task)
    → All (λ (o : ℕ × Op). QueuesNone o.1) ops
    → Distinct (run ops (record { tasks = rows; claimed = [] })).claimed
claims-Distinct ops rows q = (run-Claimed ops (record { tasks = rows; claimed = [] }) q (tt, tt)).1
