-- ===== src/Workers/Project/Tests.antt =====
-- A project with one subtask.
use baby.Common.{refl, count, none, some, List, [], ◌∷◌}
use baby.Text.{codes}
use baby.Db.Projects.{Project, planning}
use baby.Workers.Queue.Races.{idle}
use baby.Workers.Plan.{said, plan}
use baby.Workers.Project.{Orchestrator, World, timed_out, run_project}
use baby.Workers.Project.Ends.{ends, HasEnded, run_project-HasEnded}
use baby.Workers.Project.Wait.{Round, wait_for_tasks, wait_for_tasks-IsEnd, IsEnd}

abbrev project : Project
project = record {
  id = 3;
  title = codes "x";
  spec = codes "do x";
  status = planning;
  plan = none;
  result = none;
  notify = 1;
  created_at = 1;
  started_at = some 2;
  finished_at = none;
}

abbrev office : Orchestrator
office = record {
  pool = idle [];
  projects = project ∷ [];
  running = 3 ∷ [];
  requests = [];
  published = [];
  announced = [];
}

abbrev world : World
world = record {
  planned = plan ((record { title = codes "a"; spec = codes "do a" }) ∷ []);
  waited = timed_out;
  integrated = λ ts. said [];
  timeout_text = codes "timed out after 1800s";
  plan_json = λ ps. [];
}

run_project-HasEnded_example :
    HasEnded 3 (count (ends 3) office.published) (run_project 9 world project office)
run_project-HasEnded_example = run_project-HasEnded 9 world project office refl

-- one task told by an event, the other never heard of, and a late third round
abbrev rounds : List Round
rounds =
    record { starts = 1; event = some 1; ends = 2; board = [] }
    ∷ record { starts = 2; event = none; ends = 12; board = [] }
    ∷ record { starts = 31; event = none; ends = 32; board = [] }
    ∷ []

wait_for_tasks-IsEnd_example :
    IsEnd 30 rounds (1 ∷ 2 ∷ []) (wait_for_tasks 30 10 rounds 0 (1 ∷ 2 ∷ []))
wait_for_tasks-IsEnd_example = wait_for_tasks-IsEnd 30 10 rounds 0 (1 ∷ 2 ∷ [])
