-- ===== src/Workers/Queue/Races.antt =====
-- Two cancels that come at a bad moment.
use baby.Common.{
  ℕ, ◌≡◌, refl, sym, ap, ◌∙◌, subst, Bool, true, false, Option, some, List, [], ◌∷◌, filter, arith,
  Bool-cases, inl, inr, ◌==◌,
}
use baby.Text.Words.{Codes}
use baby.Db.Table.{find, first_id, update_where}
use baby.Db.Claim.{claim_next_busy}
use baby.Db.Tasks.{
  Task, task_id, TaskStatus, running, done, failed, is_queued, is_terminal, start_task, get_task,
  claim_next_task, queued, cancelled,
}
use baby.Workers.Queue.{
  Pool, task_started, Outcome, cancel, cancel_read, cancel_queued, claim, launch, prepare, finish,
  finish_task, preparing, of_task,
}
use baby.Workers.Queue.Tally.{announced}
use baby.Workers.Queue.Once.{after_claim}

-- A pool with a board, and nothing going on.
abbrev pub idle : List Task → Pool
idle rows = record {
  tasks = rows;
  task_events = [];
  conversations = [];
  starting = [];
  children = [];
  lingering = [];
  requests = [];
  published = [];
  notices = [];
}

-- The task is the one that is claimed next.
abbrev pub IsNext : Task → List Task → Type 0
IsNext t rows =
    (find task_id t.id rows ≡ some t)
    × (is_queued t ≡ true)
    × (first_id task_id (filter is_queued rows) ≡ some t.id)

find-update_where :
    (f : Task → Task) (i : ℕ) (rows : List Task) (t : Task)
    → ((u : Task) → (f u).id ≡ u.id)
    → find task_id i rows ≡ some t
    → find task_id i (update_where (λ r. task_id r == i) f rows) ≡ some (f t)
find-update_where f i [] t keeps e = absurd (cc)
find-update_where f i (r ∷ rows) t keeps e = elim (Bool-cases (task_id r == i)) [
  | inl hit ↦ ground (arith, hit, e, keeps r)
  | inr miss ↦ ground (arith, miss, e, find-update_where f i rows t keeps)
]

abbrev pub board_after : ℕ → Task → List Task → List Task
board_after now t rows = update_where (λ r. task_id r == t.id) (start_task now) rows

claim-idle :
    (now : ℕ) (t : Task) (rows : List Task)
    → IsNext t rows
    → claim now (idle rows)
      ≡ record (idle (board_after now t rows)) { starting = start_task now t ∷ [] }
unfolding claim claim_next_task
claim-idle now t rows next = ap (after_claim (idle rows)) (
    claim_next_busy task_id is_queued (start_task now) rows t.id next.2
    ∙ ap (λ (o : Option Task). (o, board_after now t rows))
        (find-update_where (start_task now) t.id rows t (λ u. refl) next.0))

queued_open : (t : Task) → is_queued t ≡ true → is_terminal t.status ≡ false
queued_open t h = go t.status h
  where
    go : (s : TaskStatus) → elim s [ queued ↦ true | _ ↦ false ] ≡ true → is_terminal s ≡ false
    go queued h = refl
    go running h = refl
    go done h = absurd (cc)
    go failed h = absurd (cc)
    go cancelled h = absurd (cc)

-- A cancel reads the task as queued; a worker claims it before the cancel writes; then the task runs.
abbrev pub raced : (TaskStatus → Codes) → ℕ → Codes → Task → Outcome → List Task → Bool × Pool
raced status_json now channel t o rows =
    let q = cancel_read now t.id (get_task t.id rows) (claim now (idle rows)) in
    (q.0, finish status_json now t.id o (prepare now channel t.id (launch q.1)))

-- Where a worker claims the task between the read and the write of a cancel, the cancel answers that it
-- has cancelled the task, the task runs to its end all the same, and its end is announced twice.
pub cancel_race :
    (status_json : TaskStatus → Codes) (now : ℕ) (channel : Codes) (t : Task) (o : Outcome)
    (rows : List Task)
    → IsNext t rows
    → ((raced status_json now channel t o rows).0 ≡ true)
      × (announced t.id (raced status_json now channel t o rows).1 ≡ 2)
unfolding cancel_read launch prepare finish finish_task cancel_queued get_task
cancel_race status_json now channel t o rows next =
    let self : (t.id == t.id) ≡ true = ground arith in
    rw (next.0, claim-idle now t rows next, queued_open t next.1, next.1, self)
      (refl, (ground arith))

-- The child of a task is asked to cancel while it still waits for its conversation.
abbrev pub stopped_early : ℕ → Codes → Task → List Task → Bool × Pool
stopped_early now channel t rows =
    let q = cancel now t.id (launch (claim now (idle rows))) in (q.0, prepare now channel t.id q.1)

-- the board with the task claimed, and no child
abbrev stuck : ℕ → Task → List Task → Pool
stuck now t rows = record (idle (board_after now t rows)) {
  requests = t.id ∷ [];
  published = task_started (of_task t.id) t.id t.title ∷ [];
}

-- the same with the child, which is asked to cancel
abbrev asked : ℕ → Task → List Task → Pool
asked now t rows = record (stuck now t rows) {
  children = (record { task = start_task now t; phase = preparing }) ∷ [];
}

cancel_asks :
    (now : ℕ) (t : Task) (rows : List Task)
    → IsNext t rows
    → cancel now t.id (launch (claim now (idle rows))) ≡ (true, asked now t rows)
unfolding cancel cancel_read launch get_task
cancel_asks now t rows next =
    let self : (t.id == t.id) ≡ true = ground arith in
    rw
      (
        claim-idle now t rows next,
        find-update_where (start_task now) t.id rows t (λ u. refl) next.0,
        self,
      )
      refl

prepare_stops :
    (now : ℕ) (channel : Codes) (t : Task) (rows : List Task)
    → prepare now channel t.id (asked now t rows) ≡ stuck now t rows
unfolding prepare
prepare_stops now channel t rows =
    let self : (t.id == t.id) ≡ true = ground arith in rw self (ground (arith, self))

stopped_early_eq :
    (now : ℕ) (channel : Codes) (t : Task) (rows : List Task)
    → IsNext t rows
    → stopped_early now channel t rows ≡ (true, stuck now t rows)
stopped_early_eq now channel t rows next =
    ap (λ (q : Bool × Pool). (q.0, prepare now channel t.id q.1)) (cancel_asks now t rows next)
    ∙ ap (λ (q : Pool). (true, q)) (prepare_stops now channel t rows)

-- The answer yes, a row that runs, no announcement, and no second cancel.
abbrev pub IsStuck : ℕ → Task → Bool × Pool → Type 0
IsStuck now t r =
    (r.0 ≡ true)
    × (get_task t.id r.1.tasks ≡ some (start_task now t))
    × (announced t.id r.1 ≡ 0)
    × (cancel now t.id r.1 ≡ (false, r.1))

stuck_now :
    (now : ℕ) (t : Task) (rows : List Task) → IsNext t rows → IsStuck now t (true, stuck now t rows)
unfolding cancel cancel_read get_task
stuck_now now t rows next =
    let row = find-update_where (start_task now) t.id rows t (λ u. refl) next.0 in
    (refl, row, refl, (rw row refl))

-- A cancel while the child waits for its conversation answers that it has cancelled the task; but the
-- row stays at running, the end of the task is not announced, and a second cancel, now that there is no
-- child any more, answers no and changes nothing.
pub stopped_early-IsStuck :
    (now : ℕ) (channel : Codes) (t : Task) (rows : List Task)
    → IsNext t rows
    → IsStuck now t (stopped_early now channel t rows)
stopped_early-IsStuck now channel t rows next =
    subst (IsStuck now t) (sym (stopped_early_eq now channel t rows next))
      (stuck_now now t rows next)
