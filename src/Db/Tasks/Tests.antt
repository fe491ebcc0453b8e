-- ===== src/Db/Tasks/Tests.antt =====
-- A board of three tasks, and the theorems about it.
use baby.Common.{ℕ, ◌≡◌, refl, List, [], ◌∷◌, none, some, arith}
use baby.Text.Words.{Codes}
use baby.Db.Tasks.{
  Op, adds, claims, updates, run, step, claim_next_task, Task, queued, start_task, done, add_task,
  update_task,
}
use baby.Db.Tasks.Once.{Distinct, claims-Distinct}
use baby.Db.Tasks.Oldest.{take_oldest, claim_next_task-take_oldest}

abbrev title_a : Codes
title_a = 97 ∷ []

abbrev title_b : Codes
title_b = 98 ∷ []

abbrev day : List (ℕ × Op)
day =
    (1, adds title_a title_a 1 none)
    ∷ (2, adds title_b title_b 0 (some 7))
    ∷ (3, claims)
    ∷ (4, claims)
    ∷ (5, claims)
    ∷ (6, updates 1 done (some title_b))
    ∷ (7, adds title_a title_b 1 none)
    ∷ (8, claims)
    ∷ []

claimed_in_order : (run day (record { tasks = []; claimed = [] })).claimed ≡ 3 ∷ 2 ∷ 1 ∷ []
unfolding run step add_task claim_next_task update_task
claimed_in_order = refl

claims-Distinct_example : Distinct (run day (record { tasks = []; claimed = [] })).claimed
claims-Distinct_example =
    claims-Distinct day [] (tt, (tt, (tt, (tt, (tt, ((λ e. cc), (tt, (tt, tt))))))))

abbrev waiting : ℕ → Codes → Task
waiting i title = record {
  id = i;
  title = title;
  spec = title;
  status = queued;
  result = none;
  notify = 1;
  created_at = i;
  started_at = none;
  finished_at = none;
  project_id = none;
}

abbrev board : List Task
board = start_task 3 (waiting 1 title_a) ∷ waiting 2 title_b ∷ waiting 5 title_a ∷ []

second_is_claimed : claim_next_task 9 board ≡ (
  some (start_task 9 (waiting 2 title_b)),
  start_task 3 (waiting 1 title_a) ∷ start_task 9 (waiting 2 title_b) ∷ waiting 5 title_a ∷ [],
)
unfolding claim_next_task
second_is_claimed = refl

claim_next_task-take_oldest_example : claim_next_task 9 board ≡ take_oldest 9 board
claim_next_task-take_oldest_example = claim_next_task-take_oldest 9 board (omega arith)
