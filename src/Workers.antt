-- ===== src/Workers.antt =====
-- The background work: the pool that runs tasks (workers/queue.py) and the orchestrator that splits a
-- project into tasks (workers/orchestrator.py), over the tables of db/database.py.
pub mod Queue
pub mod Plan
pub mod Project
