-- ===== src/Workers/Queue.antt =====
-- The worker pool of workers/queue.py. A step is what a coroutine does between two awaits, so the steps
-- of the workers, of their child runs and of the callers come in any order. What the agent makes of a
-- task is an `Outcome`; `status_json` is `json.dumps` of the final status.
pub mod Tally
pub mod Once
pub mod Races
mod Tests
use baby.Common.{
  ℕ, Bool, true, false, ◌&&◌, ◌||◌, not, Option, none, some, List, [], ◌∷◌, ◌++◌, any, filter, map,
  take, length, leb, if◌then◌else◌, ◌==◌,
}
use baby.Text.Words.{Codes, squeeze}
use baby.Db.Tasks.{
  Task, task_id, TaskStatus, queued, running, done, failed, cancelled, is_terminal, is_queued,
  TaskEvent, Kind, finished, tool_call, error, add_task, claim_next_task, update_task, get_task,
  add_task_event,
}
use baby.Db.Conversations.{Conversation, create_conversation}

-- `_RESULT_LINE_LIMIT` is 140; the last character of a longer line is the ellipsis.
unfoldable pub result_line : Codes → Codes
unfolding squeeze
result_line text =
    let line = squeeze text in if leb (length line) 140 then line else take 139 line ++ 8230 ∷ []

pub data Channel : Type 0 where
  ui : Channel
  of_task : ℕ → Channel

pub data Published : Type 0 where
  task_started : Channel → ℕ → Codes → Published
  task_done : Channel → ℕ → Codes → TaskStatus → Codes → Published

-- A call of `notifier.task_finished`.
pub record Notice : Type 0 where
  pub title : Codes
  pub is_success : Bool
  pub line : Codes
  pub notify : ℕ

-- What `agent.run_turn` ends with: a reply, `CancelledError`, or an error as text.
pub data Outcome : Type 0 where
  replied : Codes → Outcome
  interrupted : Outcome
  raised : Codes → Outcome

-- A child waits for its conversation before it works.
pub data Phase : Type 0 where
  preparing working : Phase

abbrev pub is_working : Phase → Bool
is_working preparing = false
is_working working = true

pub record Child : Type 0 where
  pub task : Task
  pub phase : Phase

abbrev pub child_id : Child → ℕ
child_id c = c.task.id

-- `starting` are rows that a worker has claimed and has no child for yet; `children` and `lingering`
-- are the map `_running`, before and after the final status is written; `requests` are the children
-- that were asked to cancel. The newest stands first in `published` and `notices`.
pub record Pool : Type 0 where
  pub tasks : List Task
  pub task_events : List TaskEvent
  pub conversations : List Conversation
  pub starting : List Task
  pub children : List Child
  pub lingering : List ℕ
  pub requests : List ℕ
  pub published : List Published
  pub notices : List Notice

abbrev pub is_running : ℕ → Pool → Bool
is_running i p = any (λ c. child_id c == i) p.children || any (λ j. j == i) p.lingering

-- "cancelled before start"
abbrev pub before_start : Codes
before_start =
    99 ∷ 97 ∷ 110 ∷ 99 ∷ 101 ∷ 108 ∷ 108 ∷ 101 ∷ 100 ∷ 32 ∷ 98 ∷ 101 ∷ 102 ∷ 111 ∷ 114 ∷ 101 ∷ 32
    ∷ 115 ∷ 116 ∷ 97 ∷ 114 ∷ 116 ∷ []

-- The end of `cancel` for a task that was read as queued.
unfoldable pub cancel_queued : ℕ → Task → Pool → Pool
cancel_queued now t p = record p {
  tasks = update_task now t.id cancelled none p.tasks;
  published = task_done ui t.id t.title cancelled before_start ∷ p.published;
}

-- `cancel` after its read; `o` is the row that was read.
unfoldable pub cancel_read : ℕ → ℕ → Option Task → Pool → Bool × Pool
cancel_read now i none p =
    if is_running i p then (true, record p { requests = i ∷ p.requests }) else (false, p)
cancel_read now i (some t) p =
    if is_terminal t.status
    then (false, p)
    else if is_running i p
    then (true, record p { requests = i ∷ p.requests })
    else if is_queued t
    then (true, cancel_queued now t p)
    else (false, p)

unfoldable pub cancel : ℕ → ℕ → Pool → Bool × Pool
unfolding get_task cancel_read
cancel now i p = cancel_read now i (get_task i p.tasks) p

-- `_worker`: the claim, and the start of the child
unfoldable pub claim : ℕ → Pool → Pool
unfolding claim_next_task
claim now p =
    let r = claim_next_task now p.tasks in
    elim r.0 [
      | none ↦ record p { tasks = r.1 }
      | some t ↦ record p { tasks = r.1; starting = p.starting ++ t ∷ [] }
    ]

abbrev pub launch_first : List Task → Pool → Pool
launch_first [] p = p
launch_first (t ∷ ts) p = record p {
  starting = ts;
  children = p.children ++ (record { task = t; phase = preparing }) ∷ [];
  published = task_started (of_task t.id) t.id t.title ∷ p.published;
}

unfoldable pub launch : Pool → Pool
launch p = launch_first p.starting p

abbrev pub child_of : ℕ → List Child → Option Child
child_of i [] = none
child_of i (c ∷ cs) = if child_id c == i then some c else child_of i cs

abbrev pub without : ℕ → List Child → List Child
without i cs = filter (λ c. not (child_id c == i)) cs

abbrev pub set_working : ℕ → Child → Child
set_working i c = record c { phase = if child_id c == i then working else c.phase }

-- `create_conversation` in `_run_task` stands outside its `try`: a child that is cancelled there ends
-- with nothing written.
unfoldable pub prepare : ℕ → Codes → ℕ → Pool → Pool
unfolding create_conversation
prepare now channel i p =
    if any (λ j. j == i) p.requests
    then record p { children = without i p.children }
    else record p {
      children = map (set_working i) p.children;
      conversations = (create_conversation now channel p.conversations).1;
    }

abbrev pub outcome_status : Outcome → TaskStatus
outcome_status (replied r) = done
outcome_status interrupted = cancelled
outcome_status (raised e) = failed

-- "(cancelled)"
abbrev pub outcome_text : Outcome → Codes
outcome_text (replied r) = r
outcome_text interrupted = 40 ∷ 99 ∷ 97 ∷ 110 ∷ 99 ∷ 101 ∷ 108 ∷ 108 ∷ 101 ∷ 100 ∷ 41 ∷ []
outcome_text (raised e) = e

abbrev pub notice : Task → Outcome → Notice
notice t interrupted = record { title = t.title; is_success = false; line = []; notify = 0 }
notice t (replied r) = record {
  title = t.title;
  is_success = true;
  line = result_line r;
  notify = t.notify;
}
notice t (raised e) = record {
  title = t.title;
  is_success = false;
  line = result_line e;
  notify = t.notify;
}

module _ (status_json : TaskStatus → Codes) where
  -- `_run_task` from the end of the agent's turn on
  unfoldable pub finish_task : ℕ → Task → Outcome → Pool → Pool
  unfolding result_line update_task add_task_event
  finish_task now t o p =
      let status = outcome_status o in
      let line = result_line (outcome_text o) in
      record p {
        tasks = update_task now t.id status (some (outcome_text o)) p.tasks;
        task_events = (add_task_event now t.id finished (status_json status) p.task_events).1;
        children = without t.id p.children;
        lingering = t.id ∷ p.lingering;
        published = task_done (of_task t.id) t.id t.title status line ∷ p.published;
        notices = notice t o ∷ p.notices;
      }

  abbrev pub finish_child : ℕ → Outcome → Option Child → Pool → Pool
  finish_child now o none p = p
  finish_child now o (some c) p = if is_working c.phase then finish_task now c.task o p else p

  unfoldable pub finish : ℕ → ℕ → Outcome → Pool → Pool
  finish now i o p = finish_child now o (child_of i p.children) p

-- `_running.pop`
unfoldable pub retire : ℕ → Pool → Pool
retire i p = record p { lingering = filter (λ j. not (j == i)) p.lingering }

-- What `_record_events` looks at of an event: its kind, and `json.dumps` of its payload.
pub data BusKind : Type 0 where
  tool_end error_event other_event : BusKind

unfoldable pub record_event : ℕ → Channel → BusKind → Codes → List TaskEvent → List TaskEvent
unfolding add_task_event
record_event now ui kind payload rows = rows
record_event now (of_task i) tool_end payload rows =
    (add_task_event now i tool_call (take 2048 payload) rows).1
record_event now (of_task i) error_event payload rows =
    (add_task_event now i error (take 2048 payload) rows).1
record_event now (of_task i) other_event payload rows = rows
