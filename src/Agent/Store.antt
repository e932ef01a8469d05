-- ===== src/Agent/Store.antt =====
-- packages/stackflow-agent/src/db.js: the agent's SQLite database, one list of rows to a table, and
-- `AgentStateStore`'s methods with their SQL statements. `new Date().toISOString()` is an argument.
pub mod Rows
pub mod Methods
pub mod Keys
pub mod Invariant
pub mod Latest
pub mod Upsert
pub mod Growth
pub mod Steps
pub mod History
pub mod Cursor
