-- ===== src/Db/Projects.antt =====
-- The table `projects` of db/database.py: the orchestrator's projects.
use baby.Common.{
  ℕ, Bool, true, false, Option, none, some, List, [], ◌∷◌, ◌++◌, filter, length, take,
  if◌then◌else◌, ◌==◌,
}
use baby.Text.Words.{Codes}
use baby.Db.Table.{find, next_id, update_where}
use baby.Db.Claim.{claim_next}
use baby.Db.Tasks.{coalesce, newest_first}

pub data Stage : Type 0 where
  queued planning running integrating done failed cancelled : Stage

pub record Project : Type 0 where
  pub id : ℕ
  pub title : Codes
  pub spec : Codes
  pub status : Stage
  pub plan : Option Codes
  pub result : Option Codes
  pub notify : ℕ
  pub created_at : ℕ
  pub started_at : Option ℕ
  pub finished_at : Option ℕ

abbrev pub project_id : Project → ℕ
project_id p = p.id

abbrev pub is_queued : Project → Bool
is_queued p = elim p.status [ queued ↦ true | _ ↦ false ]

abbrev pub is_terminal : Stage → Bool
is_terminal done = true
is_terminal failed = true
is_terminal cancelled = true
is_terminal _ = false

abbrev pub same_stage : Stage → Stage → Bool
same_stage queued queued = true
same_stage planning planning = true
same_stage running running = true
same_stage integrating integrating = true
same_stage done done = true
same_stage failed failed = true
same_stage cancelled cancelled = true
same_stage _ _ = false

unfoldable pub add_project : ℕ → Codes → Codes → ℕ → List Project → ℕ × List Project
add_project now title spec notify rows =
    let id = next_id project_id rows in
    (
      id,
      rows
          ++ (record {
            id = id;
            title = title;
            spec = spec;
            status = queued;
            plan = none;
            result = none;
            notify = notify;
            created_at = now;
            started_at = none;
            finished_at = none;
          })
            ∷ [],
    )

abbrev pub start_project : ℕ → Project → Project
start_project now p = record p { status = planning; started_at = some now }

unfoldable pub claim_next_project : ℕ → List Project → Option Project × List Project
claim_next_project now rows = claim_next project_id is_queued (start_project now) rows

abbrev pub set_project : ℕ → Stage → Option Codes → Option Codes → Project → Project
set_project now status plan result p = record p {
  status = status;
  plan = coalesce plan p.plan;
  result = coalesce result p.result;
  finished_at = if is_terminal status then some now else p.finished_at;
}

unfoldable pub update_project :
    ℕ → ℕ → Stage → Option Codes → Option Codes → List Project → List Project
update_project now id status plan result rows =
    update_where (λ p. project_id p == id) (set_project now status plan result) rows

unfoldable pub get_project : ℕ → List Project → Option Project
get_project id rows = find project_id id rows

unfoldable pub list_projects : ℕ → List Project → List Project
list_projects limit rows = take limit (newest_first rows)

unfoldable pub count_projects : Stage → List Project → ℕ
count_projects status rows = length (filter (λ p. same_stage p.status status) rows)
