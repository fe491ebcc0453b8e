-- ===== src/Db/Tasks.antt =====
-- The tables `tasks` and `task_events` of db/database.py: the board of the background tasks.
pub mod Once
pub mod Oldest
mod Tests
use baby.Common.{
  ℕ, suc, Bool, true, false, ◌||◌, Option, none, some, List, [], ◌∷◌, ◌++◌, filter, length, take,
  if◌then◌else◌, ◌==◌,
}
use baby.Text.Words.{Codes}
use baby.Db.Table.{find, next_id, update_where}
use baby.Db.Claim.{claim_next}

pub data TaskStatus : Type 0 where
  queued running done failed cancelled : TaskStatus

pub record Task : Type 0 where
  pub id : ℕ
  pub title : Codes
  pub spec : Codes
  pub status : TaskStatus
  pub result : Option Codes
  pub notify : ℕ
  pub created_at : ℕ
  pub started_at : Option ℕ
  pub finished_at : Option ℕ
  pub project_id : Option ℕ

abbrev pub task_id : Task → ℕ
task_id t = t.id

abbrev pub is_queued : Task → Bool
is_queued t = elim t.status [ queued ↦ true | _ ↦ false ]

-- `status in ("done", "failed", "cancelled")`
abbrev pub is_terminal : TaskStatus → Bool
is_terminal done = true
is_terminal failed = true
is_terminal cancelled = true
is_terminal _ = false

abbrev pub same_task_status : TaskStatus → TaskStatus → Bool
same_task_status queued queued = true
same_task_status running running = true
same_task_status done done = true
same_task_status failed failed = true
same_task_status cancelled cancelled = true
same_task_status _ _ = false

unfoldable pub add_task : ℕ → Codes → Codes → ℕ → Option ℕ → List Task → ℕ × List Task
add_task now title spec notify project_id rows =
    let id = next_id task_id rows in
    (
      id,
      rows
          ++ (record {
            id = id;
            title = title;
            spec = spec;
            status = queued;
            result = none;
            notify = notify;
            created_at = now;
            started_at = none;
            finished_at = none;
            project_id = project_id;
          })
            ∷ [],
    )

abbrev pub start_task : ℕ → Task → Task
start_task now t = record t { status = running; started_at = some now }

unfoldable pub claim_next_task : ℕ → List Task → Option Task × List Task
claim_next_task now rows = claim_next task_id is_queued (start_task now) rows

-- `COALESCE(?, result)`
abbrev pub coalesce {ℓ} : {A : Type ℓ} → Option A → Option A → Option A
coalesce none old = old
coalesce (some x) old = some x

abbrev pub set_task : ℕ → TaskStatus → Option Codes → Task → Task
set_task now status result t = record t {
  status = status;
  result = coalesce result t.result;
  finished_at = if is_terminal status then some now else t.finished_at;
}

unfoldable pub update_task : ℕ → ℕ → TaskStatus → Option Codes → List Task → List Task
update_task now id status result rows =
    update_where (λ t. task_id t == id) (set_task now status result) rows

unfoldable pub get_task : ℕ → List Task → Option Task
get_task id rows = find task_id id rows

-- `ORDER BY id DESC` on a table that stands in the order of the ids
abbrev pub newest_first {ℓ} : {A : Type ℓ} → List A → List A
newest_first [] = []
newest_first (x ∷ xs) = newest_first xs ++ x ∷ []

abbrev pub has_status : Option TaskStatus → Task → Bool
has_status none t = true
has_status (some s) t = same_task_status t.status s

unfoldable pub list_tasks : ℕ → Option TaskStatus → List Task → List Task
list_tasks limit status rows = take limit (newest_first (filter (has_status status) rows))

unfoldable pub count_tasks : TaskStatus → List Task → ℕ
count_tasks status rows = length (filter (has_status (some status)) rows)

abbrev pub is_of_project : ℕ → Task → Bool
is_of_project p t = elim t.project_id [ none ↦ false | some q ↦ q == p ]

unfoldable pub list_project_tasks : ℕ → List Task → List Task
list_project_tasks p rows = filter (is_of_project p) rows

pub data Kind : Type 0 where
  log tool_call error finished : Kind

pub record TaskEvent : Type 0 where
  pub id : ℕ
  pub of_task : ℕ
  pub ts : ℕ
  pub kind : Kind
  pub payload : Codes

unfoldable pub add_task_event : ℕ → ℕ → Kind → Codes → List TaskEvent → ℕ × List TaskEvent
add_task_event now task kind payload rows =
    let id = next_id (λ (e : TaskEvent). e.id) rows in
    (
      id,
      rows ++ (record { id = id; of_task = task; ts = now; kind = kind; payload = payload }) ∷ [],
    )

unfoldable pub list_task_events : ℕ → ℕ → List TaskEvent → List TaskEvent
list_task_events task limit rows = take limit (filter (λ e. e.of_task == task) rows)

-- What the callers do to the board; a claim is written down with the task it gave.
pub data Op : Type 0 where
  adds : Codes → Codes → ℕ → Option ℕ → Op
  claims : Op
  updates : ℕ → TaskStatus → Option Codes → Op

pub record Board : Type 0 where
  pub tasks : List Task
  pub claimed : List ℕ

abbrev pub record_claim : Option Task → List ℕ → List ℕ
record_claim none ids = ids
record_claim (some t) ids = t.id ∷ ids

unfoldable pub step : ℕ → Op → Board → Board
step now (adds title spec notify project) b = record b {
  tasks = (add_task now title spec notify project b.tasks).1;
}
step now claims b =
    let r = claim_next_task now b.tasks in
    record { tasks = r.1; claimed = record_claim r.0 b.claimed }
step now (updates id status result) b = record b {
  tasks = update_task now id status result b.tasks;
}

-- each operation with the time at which it is made
unfoldable pub run : List (ℕ × Op) → Board → Board
run [] b = b
run ((now, op) ∷ ops) b = run ops (step now op b)
