-- ===== src/Workers/Queue/Tests.antt =====
-- A pool with two tasks.
use baby.Common.{ℕ, ◌≡◌, refl, true, none, List, [], ◌∷◌}
use baby.Text.Words.{Codes}
use baby.Db.Tasks.{Task, TaskStatus, queued, add_task, claim_next_task, update_task, get_task}
use baby.Workers.Queue.{
  replied, interrupted, claim, launch, prepare, finish, finish_task, cancel, cancel_read,
  cancel_queued, retire,
}
use baby.Workers.Queue.Tally.{
  OnceAtMost, Step, adds, claims, launches, prepares, finishes, retires, cancels, step, run,
  announced,
}
use baby.Workers.Queue.Once.{run_announces_once}
use baby.Workers.Queue.Races.{
  idle, raced, cancel_race, stopped_early, IsStuck, stopped_early-IsStuck,
}

abbrev no_json : TaskStatus → Codes
no_json s = []

abbrev steps : List (ℕ × Step)
steps =
    (1, adds (97 ∷ []) (97 ∷ []) 1 none)
    ∷ (2, adds (98 ∷ []) (98 ∷ []) 1 none)
    ∷ (3, claims)
    ∷ (4, launches)
    ∷ (5, cancels 2)
    ∷ (6, prepares [] 1)
    ∷ (7, cancels 1)
    ∷ (8, finishes 1 interrupted)
    ∷ (9, cancels 1)
    ∷ (10, retires 1)
    ∷ (11, claims)
    ∷ []

one_each :
    (announced 1 (run no_json steps (idle [])) ≡ 1)
    × (announced 2 (run no_json steps (idle [])) ≡ 1)
    × ((run no_json steps (idle [])).starting ≡ [])
unfolding run step add_task claim launch cancel cancel_read prepare finish retire claim_next_task
    cancel_queued finish_task get_task update_task
one_each = (refl, refl, refl)

run_announces_once_example : OnceAtMost 1 (run no_json steps (idle []))
run_announces_once_example = run_announces_once no_json steps 1 (idle []) refl

abbrev waiting : Task
waiting = record {
  id = 1;
  title = 97 ∷ [];
  spec = 97 ∷ [];
  status = queued;
  result = none;
  notify = 1;
  created_at = 1;
  started_at = none;
  finished_at = none;
  project_id = none;
}

cancel_race_example :
    ((raced no_json 3 [] waiting (replied []) (waiting ∷ [])).0 ≡ true)
    × (announced 1 (raced no_json 3 [] waiting (replied []) (waiting ∷ [])).1 ≡ 2)
cancel_race_example =
    cancel_race no_json 3 [] waiting (replied []) (waiting ∷ []) (refl, refl, refl)

stopped_early-IsStuck_example : IsStuck 3 waiting (stopped_early 3 [] waiting (waiting ∷ []))
stopped_early-IsStuck_example = stopped_early-IsStuck 3 [] waiting (waiting ∷ []) (refl, refl, refl)
