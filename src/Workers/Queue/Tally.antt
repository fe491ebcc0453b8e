-- ===== src/Workers/Queue/Tally.antt =====
-- How often a task is on its way in the pool: queued tasks never, others at most once.
use baby.Common.{
  ℕ, ◌+◌, ◌≤◌, ◌<◌, ◌≡◌, ◌≢◌, ◌⊎◌, refl, subst, Bool, true, false, Option, some, List, [], ◌∷◌, any,
  map, count, arith, if◌then◌else◌, Bool-cases, inl, inr, ◌==◌,
}
use baby.Text.Words.{Codes}
use baby.Db.Table.{find, update_where}
use baby.Db.Claim.{waits, now_idle, max_id-update_where}
use baby.Db.Tasks.{Task, task_id, TaskStatus, queued, is_queued, add_task}
use baby.Db.Tasks.Once.{IsSpent, waiting_bound}
use baby.Workers.Queue.{
  Pool, Child, child_id, Published, task_started, task_done, Outcome, replied, interrupted, raised,
  outcome_status, cancel, claim, launch, prepare, finish, retire, child_of, without, set_working,
}

-- A step of the pool or of a caller, at its time.
pub data Step : Type 0 where
  adds : Codes → Codes → ℕ → Option ℕ → Step
  claims : Step
  launches : Step
  prepares : Codes → ℕ → Step
  finishes : ℕ → Outcome → Step
  retires : ℕ → Step
  cancels : ℕ → Step

module _ (status_json : TaskStatus → Codes) where
  unfoldable pub step : ℕ → Step → Pool → Pool
  step now (adds title spec notify project) p = record p {
    tasks = (add_task now title spec notify project p.tasks).1;
  }
  step now claims p = claim now p
  step now launches p = launch p
  step now (prepares channel i) p = prepare now channel i p
  step now (finishes i o) p = finish status_json now i o p
  step now (retires i) p = retire i p
  step now (cancels i) p = (cancel now i p).1

  unfoldable pub run : List (ℕ × Step) → Pool → Pool
  run [] p = p
  run ((now, s) ∷ ss) p = run ss (step now s p)

-- the `task_done` events of a task
abbrev pub announces : ℕ → Published → Bool
announces i (task_started c j title) = false
announces i (task_done c j title status line) = j == i

abbrev pub announced : ℕ → Pool → ℕ
announced i p = count (announces i) p.published

-- The times that the task is announced, claimed without a child, or run by a child.
abbrev pub tally : ℕ → Pool → ℕ
tally i p =
    announced i p + count (λ t. task_id t == i) p.starting + count (λ c. child_id c == i) p.children

-- At most once; and from then on no row of it is queued.
abbrev pub Settled : ℕ → Pool → Type 0
Settled i p = (tally i p ≤ 1) × ((tally i p ≡ 0) ⊎ IsSpent p.tasks i)

-- A step that keeps the tally of `i` and does not queue it keeps it settled.
pub settle :
    (i : ℕ) (p q : Pool)
    → tally i q ≤ tally i p
    → (IsSpent p.tasks i → IsSpent q.tasks i)
    → Settled i p
    → Settled i q
settle i p q le keeps (most, inl zero) = (omega (arith, most), inl (omega (arith, zero, le)))
settle i p q le keeps (most, inr spent) = (omega (arith, most, le), inr (keeps spent))

-- Not announced, or announced once and not queued.
abbrev pub OnceAtMost : ℕ → Pool → Type 0
OnceAtMost i p =
    (announced i p ≡ 0) ⊎ ((announced i p ≡ 1) × (any (waits task_id is_queued i) p.tasks ≡ false))

pub Settled-OnceAtMost : (i : ℕ) (p : Pool) → Settled i p → OnceAtMost i p
Settled-OnceAtMost i p (most, inl zero) = inl (omega (arith, zero))
Settled-OnceAtMost i p (most, inr spent) = elim (Bool-cases (announced i p == 0)) [
  | inl never ↦ inl (ground (arith, never))
  | inr once ↦ inr (ground (arith, once, most), spent.1)
]

-- A queued task is nowhere yet.
pub unheard :
    (i : ℕ) (p : Pool)
    → any (waits task_id is_queued i) p.tasks ≡ true
    → Settled i p
    → tally i p ≡ 0
unheard i p w (most, inl zero) = zero
unheard i p w (most, inr spent) = absurd (let no = spent.1 in cc)

-- A task that was queued is spent once all its rows are updated and none is queued.
pub newly-IsSpent :
    (f : Task → Task) (i j : ℕ) (rows : List Task)
    → ((t : Task) → (f t).id ≡ t.id)
    → ((t : Task) → is_queued (f t) ≡ false)
    → j ≡ i
    → any (waits task_id is_queued j) rows ≡ true
    → IsSpent (update_where (λ r. task_id r == j) f rows) i
newly-IsSpent f i j rows keeps idle e w =
    subst (IsSpent (update_where (λ r. task_id r == j) f rows)) e (
      rw (max_id-update_where task_id is_queued f keeps (λ r. task_id r == j) rows)
          (waiting_bound j rows w),
      now_idle task_id is_queued f keeps idle j rows,
    )

pub count-without :
    (i j : ℕ) (cs : List Child)
    → count (λ c. child_id c == i) (without j cs)
      ≡ (if i == j then 0 else count (λ c. child_id c == i) cs)
count-without i j [] = ground arith
count-without i j (c ∷ cs) = ground (arith, count-without i j cs)

pub count-set_working :
    (i j : ℕ) (cs : List Child)
    → count (λ c. child_id c == i) (map (set_working j) cs) ≡ count (λ c. child_id c == i) cs
count-set_working i j [] = refl
count-set_working i j (c ∷ cs) = ground (arith, count-set_working i j cs)

pub child_of_counts :
    (j : ℕ) (cs : List Child) (c : Child)
    → child_of j cs ≡ some c
    → (child_id c ≡ j) × (0 < count (λ k. child_id k == child_id c) cs)
child_of_counts j [] c e = absurd (cc)
child_of_counts j (k ∷ cs) c e = elim (Bool-cases (child_id k == j)) [
  | inl hit ↦ ground (arith, e, hit)
  | inr miss ↦ ground (arith, e, miss, child_of_counts j cs c)
]

pub not_queued : (o : Outcome) → outcome_status o ≢ queued
not_queued (replied r) = λ e. cc
not_queued interrupted = λ e. cc
not_queued (raised e) = λ e. cc

pub found_waits :
    (j : ℕ) (rows : List Task) (t : Task)
    → find task_id j rows ≡ some t
    → is_queued t ≡ true
    → any (waits task_id is_queued t.id) rows ≡ true
found_waits j [] t e q = absurd (cc)
found_waits j (r ∷ rows) t e q = ground (arith, e, q, found_waits j rows t)
