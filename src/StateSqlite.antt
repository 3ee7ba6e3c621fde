-- ===== src/StateSqlite.antt =====
-- packages/state-sqlite/src/index.ts: the store of runs, stage attempts and checkpoints. A table is
-- a list of rows, a statement a function on it with the constraints that the schema declares, and
-- a method an action on the tables, which come back beside an error too.
pub mod Tables
pub mod Actions
pub mod Methods
pub mod Calls
pub mod Rows
pub mod Atomic
pub mod Running
pub mod Terminal
pub mod Checkpoints
mod Examples
