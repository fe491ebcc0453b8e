-- ===== src/Workers/Project/Ends.antt =====
-- A project comes to an end, and tells of it once.
use baby.Common.{
  ℕ, suc, ◌≡◌, refl, sym, ◌∙◌, subst, Bool, true, false, Option, none, some, List, [], ◌∷◌, any,
  count, length, ◌++◌, arith, if◌then◌else◌, ◌==◌, Bool-cases, inl, inr,
}
use baby.Text.{codes}
use baby.Text.Words.{Codes}
use baby.Db.Table.{find}
use baby.Db.Tasks.{Task, list_project_tasks}
use baby.Db.Projects as Projects
use baby.Db.Projects.{
  Project, project_id, Stage, integrating, set_project, update_project, get_project,
}
use baby.Workers.Plan.{
  Answer, said, raises, is_cancelled, Planned, plan, no_plan, plan_raises, plan_cancelled,
}
use baby.Workers.Project.{
  Orchestrator, ProjectEvent, project_started, project_done, World, Waited, all_ended, timed_out,
  wait_cancelled, announce, end_as, fail, complete, call_off, cancel_all, integrate, report,
  set_stage, is_done, after_wait, after_plan, publish_start, add_subtasks, run_project,
}
use baby.Workers.Queue.{result_line}

abbrev pub ends : ℕ → ProjectEvent → Bool
ends i (project_started j title n) = false
ends i (project_done j title stage line) = j == i

-- the stage that the newest `project_done` of the project tells
abbrev pub told : ℕ → List ProjectEvent → Option Stage
told i [] = none
told i (project_started j title n ∷ es) = told i es
told i (project_done j title stage line ∷ es) =
    let rest = told i es in if j == i then some stage else rest

abbrev pub stage_of : Option Project → Option Stage
stage_of none = none
stage_of (some p) = some p.status

abbrev pub IsTerminal : Option Stage → Type 0
IsTerminal none = ⊥
IsTerminal (some s) = Projects.is_terminal s ≡ true

-- The row is at an end, one more event tells so, and tells the stage that the row has.
abbrev pub HasEnded : ℕ → ℕ → Orchestrator → Type 0
HasEnded i before o =
    IsTerminal (stage_of (get_project i o.projects))
    × (count (ends i) o.published ≡ suc before)
    × (told i o.published ≡ stage_of (get_project i o.projects))

abbrev has_row : ℕ → List Project → Bool
has_row i rows = any (λ p. project_id p == i) rows

update_stage :
    (now i : ℕ) (s : Stage) (json result : Option Codes) (rows : List Project)
    → has_row i rows ≡ true
    → stage_of (find project_id i (update_project now i s json result rows)) ≡ some s
unfolding update_project
update_stage now i s json result [] h = absurd (cc)
update_stage now i s json result (p ∷ rows) h =
    ground (arith, h, update_stage now i s json result rows)

update-has_row :
    (now i j : ℕ) (s : Stage) (json result : Option Codes) (rows : List Project)
    → has_row i (update_project now j s json result rows) ≡ has_row i rows
unfolding update_project
update-has_row now i j s json result [] = refl
update-has_row now i j s json result (p ∷ rows) =
    ground (arith, update-has_row now i j s json result rows)

-- the end of a project, whatever happened before it
end_as-HasEnded :
    (now : ℕ) (p : Project) (s : Stage) (result : Option Codes) (line : Codes) (o : Orchestrator)
    → Projects.is_terminal s ≡ true
    → has_row p.id o.projects ≡ true
    → HasEnded p.id (count (ends p.id) o.published) (end_as now p s result line o)
unfolding get_project
end_as-HasEnded now p s result line o t row =
    let self : (p.id == p.id) ≡ true = ground arith in
    let stage = update_stage now p.id s none result o.projects row in
    (subst IsTerminal (sym stage) t, (ground (arith, self)), (ground (arith, self, stage)))

announce-HasEnded :
    (i before notify : ℕ) (text : Codes) (o : Orchestrator)
    → HasEnded i before o
    → HasEnded i before (announce notify text o)
announce-HasEnded i before notify text o h = elim (Bool-cases (notify == 0)) [
  | inl quiet ↦ rw quiet h
  | inr loud ↦ rw loud h
]

-- The row is there, and so many events told of an end.
abbrev IsOpen : Project → ℕ → Orchestrator → Type 0
IsOpen p before o = (has_row p.id o.projects ≡ true) × (count (ends p.id) o.published ≡ before)

ended_from :
    (now : ℕ) (p : Project) (s : Stage) (result : Option Codes) (line : Codes) (before : ℕ)
    (o : Orchestrator)
    → Projects.is_terminal s ≡ true
    → IsOpen p before o
    → HasEnded p.id before (end_as now p s result line o)
ended_from now p s result line before o t h =
    subst (λ n. HasEnded p.id n (end_as now p s result line o)) h.1
      (end_as-HasEnded now p s result line o t h.0)

fail-HasEnded :
    (now : ℕ) (p : Project) (reason : Codes) (before : ℕ) (o : Orchestrator)
    → IsOpen p before o
    → HasEnded p.id before (fail now p reason o)
unfolding fail
fail-HasEnded now p reason before o h =
    announce-HasEnded p.id before p.notify
      (codes "Baby: your project '" ++ (p.title ++ (codes "' failed. " ++ result_line reason)))
      (end_as now p Stage.failed (some reason) (result_line reason) o)
      (ended_from now p Stage.failed (some reason) (result_line reason) before o refl h)

complete-HasEnded :
    (now : ℕ) (p : Project) (result : Codes) (before : ℕ) (o : Orchestrator)
    → IsOpen p before o
    → HasEnded p.id before (complete now p result o)
unfolding complete
complete-HasEnded now p result before o h =
    announce-HasEnded p.id before p.notify
      (codes "Baby: your project '" ++ (p.title ++ (codes "' is done. " ++ result_line result)))
      (end_as now p Stage.done (some result) (result_line result) o)
      (ended_from now p Stage.done (some result) (result_line result) before o refl h)

call_off-HasEnded :
    (now : ℕ) (p : Project) (before : ℕ) (o : Orchestrator)
    → IsOpen p before o
    → HasEnded p.id before (call_off now p o)
unfolding call_off
call_off-HasEnded now p before o h =
    ended_from now p Stage.cancelled none (codes "cancelled") before (cancel_all now p o) refl h

integrate-HasEnded :
    (now : ℕ) (p : Project) (ts : List Task) (a : Answer) (before : ℕ) (o : Orchestrator)
    → IsOpen p before o
    → HasEnded p.id before (integrate now p ts a o)
integrate-HasEnded now p ts (said text) before o h =
    complete-HasEnded now p (report ts text) before o h
integrate-HasEnded now p ts (raises e) before o h = fail-HasEnded now p e before o h
integrate-HasEnded now p ts is_cancelled before o h = call_off-HasEnded now p before o h

set_stage-IsOpen :
    (now : ℕ) (p : Project) (s : Stage) (json : Option Codes) (before : ℕ) (o : Orchestrator)
    → IsOpen p before o
    → IsOpen p before (set_stage now p s json o)
set_stage-IsOpen now p s json before o h =
    (update-has_row now p.id p.id s json none o.projects ∙ h.0, h.1)

after_wait-HasEnded :
    (now : ℕ) (w : World) (p : Project) (r : Waited) (before : ℕ) (o : Orchestrator)
    → IsOpen p before o
    → HasEnded p.id before (after_wait now w p r o)
after_wait-HasEnded now w p (all_ended pool) before o h =
    let q : Orchestrator = record o { pool = pool } in
    let ts = list_project_tasks p.id pool.tasks in
    elim (Bool-cases (any is_done ts)) [
      | inl one ↦ rw one (
          integrate-HasEnded now p ts (w.integrated ts) before (set_stage now p integrating none q)
            (set_stage-IsOpen now p integrating none before q h))
      | inr nothing ↦ rw nothing (fail-HasEnded now p (codes "all subtasks failed") before q h)
    ]
after_wait-HasEnded now w p (timed_out pool) before o h =
    fail-HasEnded now p w.timeout_text before (cancel_all now p (record o { pool = pool })) h
after_wait-HasEnded now w p (wait_cancelled pool) before o h =
    call_off-HasEnded now p before (record o { pool = pool }) h

after_plan-HasEnded :
    (now : ℕ) (w : World) (p : Project) (r : Planned) (before : ℕ) (o : Orchestrator)
    → IsOpen p before o
    → HasEnded p.id before (after_plan now w p r o)
after_plan-HasEnded now w p (plan ps) before o h =
    let s = set_stage now p Stage.running (some (w.plan_json ps)) o in
    let q = publish_start p (length ps) (record s { pool = add_subtasks now p ps s.pool }) in
    after_wait-HasEnded now w p (w.waited q.pool) before q
      (set_stage-IsOpen now p Stage.running (some (w.plan_json ps)) before o h)
after_plan-HasEnded now w p no_plan before o h =
    fail-HasEnded now p (codes "planning failed — the model did not produce a valid subtask list")
      before o h
after_plan-HasEnded now w p (plan_raises e) before o h = fail-HasEnded now p e before o h
after_plan-HasEnded now w p plan_cancelled before o h = call_off-HasEnded now p before o h

-- Whatever the model answers, whatever the workers do meanwhile, and whether the project times out,
-- fails, or is cancelled while it plans, waits or integrates: the run of a project whose row is there
-- ends with the row at done, failed or cancelled, with one `project_done` more, and that event tells the
-- stage that the row has.
pub run_project-HasEnded :
    (now : ℕ) (w : World) (p : Project) (o : Orchestrator)
    → any (λ q. project_id q == p.id) o.projects ≡ true
    → HasEnded p.id (count (ends p.id) o.published) (run_project now w p o)
unfolding run_project
run_project-HasEnded now w p o row =
    after_plan-HasEnded now w p w.planned (count (ends p.id) o.published) o (row, refl)
