-- ===== src/Workers/Project.antt =====
-- The run of a project in workers/orchestrator.py: plan, board, wait, integration, report. What the model
-- says and what the workers do to the pool while the project waits are parameters (`World`).
pub mod Wait
pub mod Ends
mod Tests
use baby.Common.{
  ℕ, Bool, true, false, ◌&&◌, not, Option, none, some, List, [], ◌∷◌, ◌++◌, any, take, length,
  if◌then◌else◌, ◌==◌,
}
use baby.Message.{is_empty}
use baby.Text.{codes}
use baby.Text.Words.{Codes}
use baby.Db.Tasks as Tasks
use baby.Db.Tasks.{Task, TaskStatus, add_task, list_project_tasks, is_terminal, same_task_status}
use baby.Db.Projects as Projects
use baby.Db.Projects.{Project, Stage, planning, integrating, update_project, get_project}
use baby.Workers.Queue as Queue
use baby.Workers.Queue.{Pool, result_line}
use baby.Workers.Plan.{
  Subtask, Answer, said, raises, is_cancelled, Planned, plan, no_plan, plan_raises, plan_cancelled,
}

pub data ProjectEvent : Type 0 where
  project_started : ℕ → Codes → ℕ → ProjectEvent
  project_done : ℕ → Codes → Stage → Codes → ProjectEvent

-- The newest stands first in `published` and in `announced`, the calls of `notifier.announce`.
pub record Orchestrator : Type 0 where
  pub pool : Pool
  pub projects : List Project
  pub running : List ℕ
  pub requests : List ℕ
  pub published : List ProjectEvent
  pub announced : List Codes

-- How the wait for the subtasks ends, with the pool as it is then.
pub data Waited : Type 0 where
  all_ended : Pool → Waited
  timed_out : Pool → Waited
  wait_cancelled : Pool → Waited

pub record World : Type 0 where
  pub planned : Planned
  pub waited : Pool → Waited
  pub integrated : List Task → Answer
  -- "timed out after {self.timeout_s:.0f}s"
  pub timeout_text : Codes
  -- `json.dumps` of the plan
  pub plan_json : List Subtask → Codes

abbrev pub announce : ℕ → Codes → Orchestrator → Orchestrator
announce notify text o = if notify == 0 then o else record o { announced = text ∷ o.announced }

-- The update of the row, and the event that tells of it.
abbrev pub end_as : ℕ → Project → Stage → Option Codes → Codes → Orchestrator → Orchestrator
end_as now p stage result line o = record o {
  projects = update_project now p.id stage none result o.projects;
  published = project_done p.id p.title stage line ∷ o.published;
}

unfoldable pub fail : ℕ → Project → Codes → Orchestrator → Orchestrator
unfolding result_line update_project
fail now p reason o =
    announce p.notify
      (codes "Baby: your project '" ++ (p.title ++ (codes "' failed. " ++ result_line reason)))
      (end_as now p Stage.failed (some reason) (result_line reason) o)

unfoldable pub complete : ℕ → Project → Codes → Orchestrator → Orchestrator
unfolding result_line update_project
complete now p result o =
    announce p.notify
      (codes "Baby: your project '" ++ (p.title ++ (codes "' is done. " ++ result_line result)))
      (end_as now p Stage.done (some result) (result_line result) o)

-- `pool.cancel` of each task that has not ended
abbrev pub cancel_tasks : ℕ → List Task → Pool → Pool
cancel_tasks now [] pool = pool
cancel_tasks now (t ∷ ts) pool =
    cancel_tasks now ts (if is_terminal t.status then pool else (Queue.cancel now t.id pool).1)

abbrev pub cancel_all : ℕ → Project → Orchestrator → Orchestrator
cancel_all now p o = record o {
  pool = cancel_tasks now (list_project_tasks p.id o.pool.tasks) o.pool;
}

-- `except asyncio.CancelledError`
unfoldable pub call_off : ℕ → Project → Orchestrator → Orchestrator
unfolding update_project
call_off now p o = end_as now p Stage.cancelled none (codes "cancelled") (cancel_all now p o)

abbrev pub add_subtasks : ℕ → Project → List Subtask → Pool → Pool
add_subtasks now p [] pool = pool
add_subtasks now p (s ∷ ss) pool =
    let spec = codes "[Project: " ++ (p.title ++ (codes "] " ++ s.spec)) in
    add_subtasks now p ss
      (record pool { tasks = (add_task now s.title spec 0 (some p.id) pool.tasks).1 })

abbrev pub status_name : TaskStatus → Codes
status_name Tasks.queued = codes "queued"
status_name Tasks.running = codes "running"
status_name Tasks.done = codes "done"
status_name Tasks.failed = codes "failed"
status_name Tasks.cancelled = codes "cancelled"

abbrev pub text_or_nothing : Option Codes → Codes
text_or_nothing none = []
text_or_nothing (some s) = s

-- one line of the outcomes
abbrev pub outcome_line : Task → Codes
outcome_line t =
    codes "- "
    ++ (t.title
        ++ (codes " ["
            ++ (status_name t.status ++ (codes "]: " ++ take 800 (text_or_nothing t.result)))))

-- `"\n".join(lines)`
abbrev pub outcome_lines : List Task → Codes
outcome_lines [] = []
outcome_lines (t ∷ []) = outcome_line t
outcome_lines (t ∷ u ∷ ts) = outcome_line t ++ (10 ∷ outcome_lines (u ∷ ts))

-- `_integrate`: where the model says nothing, the outcomes themselves
abbrev pub report : List Task → Codes → Codes
report ts [] = codes "Subtask outcomes:" ++ (10 ∷ outcome_lines ts)
report ts (c ∷ cs) = c ∷ cs

abbrev pub integrate : ℕ → Project → List Task → Answer → Orchestrator → Orchestrator
integrate now p ts (said text) o = complete now p (report ts text) o
integrate now p ts (raises e) o = fail now p e o
integrate now p ts is_cancelled o = call_off now p o

abbrev pub set_stage : ℕ → Project → Stage → Option Codes → Orchestrator → Orchestrator
set_stage now p stage json o = record o {
  projects = update_project now p.id stage json none o.projects;
}

abbrev pub is_done : Task → Bool
is_done t = same_task_status t.status Tasks.done

abbrev pub after_wait : ℕ → World → Project → Waited → Orchestrator → Orchestrator
after_wait now w p (all_ended pool) o =
    let q = record o { pool = pool } in
    let ts = list_project_tasks p.id pool.tasks in
    if any is_done ts
    then integrate now p ts (w.integrated ts) (set_stage now p integrating none q)
    else fail now p (codes "all subtasks failed") q
after_wait now w p (timed_out pool) o =
    fail now p w.timeout_text (cancel_all now p (record o { pool = pool }))
after_wait now w p (wait_cancelled pool) o = call_off now p (record o { pool = pool })

abbrev pub publish_start : Project → ℕ → Orchestrator → Orchestrator
publish_start p n o = record o { published = project_started p.id p.title n ∷ o.published }

abbrev pub after_plan : ℕ → World → Project → Planned → Orchestrator → Orchestrator
after_plan now w p (plan ps) o =
    let running_now = set_stage now p Stage.running (some (w.plan_json ps)) o in
    let q =
      publish_start p (length ps)
        (record running_now { pool = add_subtasks now p ps running_now.pool }) in
    after_wait now w p (w.waited q.pool) q
after_plan now w p no_plan o =
    fail now p (codes "planning failed — the model did not produce a valid subtask list") o
after_plan now w p (plan_raises e) o = fail now p e o
after_plan now w p plan_cancelled o = call_off now p o

-- `_run_project`
unfoldable pub run_project : ℕ → World → Project → Orchestrator → Orchestrator
unfolding fail complete call_off update_project list_project_tasks add_task
run_project now w p o = after_plan now w p w.planned o

abbrev pub is_in : ℕ → List ℕ → Bool
is_in i is = any (λ j. j == i) is

abbrev pub is_over : Option Project → Bool
is_over none = false
is_over (some p) = Projects.is_terminal p.status

abbrev pub cancel_waiting : ℕ → Option Project → Orchestrator → Bool × Orchestrator
cancel_waiting now none o = (false, o)
cancel_waiting now (some p) o =
    if Projects.is_queued p
    then (true, end_as now p Stage.cancelled none (codes "cancelled before start") o)
    else (false, o)

-- `Orchestrator.cancel`
unfoldable pub cancel : ℕ → ℕ → Orchestrator → Bool × Orchestrator
unfolding update_project get_project
cancel now i o =
    let project = get_project i o.projects in
    if is_over project
    then (false, o)
    else if is_in i o.running
    then (true, record o { requests = i ∷ o.requests })
    else cancel_waiting now project o
