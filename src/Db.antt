-- ===== src/Db.antt =====
-- The tables of db/database.py. A table is the list of its rows, in the order of their ids: SQLite
-- gives a new row the largest id plus one, and `ORDER BY id DESC LIMIT n`, turned round, is the last
-- `n` rows. Each method is one statement under the lock, so it is one step here. Time is a number
-- that the caller passes in.
pub mod Table
pub mod Messages
pub mod Conversations
pub mod Tasks
pub mod Projects
pub mod Flags
pub mod Usage
pub mod Audit
pub mod Claim
pub mod Search
pub mod Deletion
