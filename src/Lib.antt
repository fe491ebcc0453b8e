-- ===== src/Lib.antt =====
-- Baby, a personal assistant with a local model and cloud models: the parts of its Python code
-- that decide which messages are sent, to which model, and when.
--
-- The conversation is a list of rows (Message). core/context.py repairs it before it is sent
-- (Context: `sanitize_messages`) and trims it to a budget (Context/Trim: `trim`). core/router.py
-- chooses the models for a turn (Router: `_ladder`, with the pins that keep a turn on the machine
-- and `_redact_pinned`), and tries them in that order (Chat: `CloudRouter.chat`). It asks the
-- token bucket of core/ratelimit.py (Ratelimit) before a call of the NIM service, and reports the
-- outcome to `HealthMonitor` (Health), whose state is what the next ladder depends on. The other
-- router of that file, `RouterProvider`, for the mode local_primary, is Legacy. The surfaces
-- listen on the event bus of core/bus.py (Bus). core/safety.py classes a shell command before it
-- runs (Safety/Shell, with its regular expressions in Safety/Patterns), and what needs the owner's
-- consent waits for it in `ConfirmationManager` (Safety/Confirm); the gate for all tools is
-- Safety/Tool. ui/gamewatch.py switches the mode for games (Gamewatch). voice/vad.py decides when
-- an utterance ends (Vad). db/database.py keeps the conversations, their messages, the tasks and
-- the logs (Db, a module for each group of tables); workers/queue.py runs the tasks in the
-- background (Workers/Queue), and workers/orchestrator.py splits a project into tasks and reports
-- on them (Workers/Plan, Workers/Project).
--
-- Each component is a module with its state and operations; the theorems are in its child modules,
-- and the runs at concrete inputs in its module Tests. Text holds what is used of Python's strings
-- and of `re`, Common the functions and lemmas on lists, options and numbers that are shared.
--
-- Parameters stand for what is not the program's own code: the test that `json.loads` makes, the
-- tables of Unicode, the text of the redaction's placeholder, and in `World` what the model hosts,
-- their clients and the clock do; of SQLite, the local calendar day, the full text index, and
-- which statements on a table of vectors raise an error; of the workers, what the agent makes of a
-- task and the model of a project. A table is the list of its rows, and each method of the
-- database, which holds a lock, is one step. A step of the pool is what a coroutine does between
-- two awaits, but what `_run_task` writes and publishes at the end of a task is one step; so is a
-- signal of the health monitor, whose probe is taken apart into its two answers. Times are
-- milliseconds, ratios and shares are fractions.
--
-- Loops on fuel: `pair_up` and `blocks` have a round for each row, and each round takes a row;
-- `acquire_wait` is given 241 rounds of a quarter of a second, longer than the window; `chat` is
-- given six, one for each rung, one more for each of NIM's two, whose empty bucket leads back to
-- the local brain, and one for the end; the star of a regular expression has a round for each
-- character, as each round takes one. A call of `chat` is modelled by itself: other turns do not
-- change the bucket or the monitor while it runs.
--
-- Not modelled: the network clients, the rest of the audio (with the listening loop of
-- voice/pipeline.py and its deadlines), the server and its pages, provisioning and the tools,
-- which are mostly input and output; of core/router.py, `set_game_mode` and what the routers write
-- to the bus and to the log; of core/safety.py, the reasons that verdicts carry; of
-- db/database.py, the connection, the migration of old files and the rounding of figures; of
-- workers/queue.py and workers/orchestrator.py, the loops that start and stop the coroutines; and
-- the agent loop and the memory.
pub mod Common
pub mod Text
pub mod Message
pub mod Context
pub mod Health
pub mod Ratelimit
pub mod Router
pub mod Chat
pub mod Bus
pub mod Safety
pub mod Vad
pub mod Db
pub mod Workers
pub mod Legacy
pub mod Gamewatch
