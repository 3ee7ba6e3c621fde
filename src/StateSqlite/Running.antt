-- ===== src/StateSqlite/Running.antt =====
-- Which attempts can be running (packages/state-sqlite/src/index.ts): the invariant of the tables.
pub mod Updates
pub mod Newest
pub mod Through
pub mod Rows
pub mod Keeps
pub mod History
use map_data_aggregation_enh.Base.{ℕ, ◌≤◌, ◌≡◌, String, true, List, All, arith}
use map_data_aggregation_enh.StateSqlite.Tables.{
  StageRow, Db, has_run_id, select_run, of_stage, of_running, is_running, max_attempt, changes,
  empty_db,
}
use map_data_aggregation_enh.StateSqlite.Methods.{run_is_running}
use map_data_aggregation_enh.StateSqlite.Atomic.{IsKeyed}

-- A running attempt is the greatest of its stage.
abbrev pub IsNewest : List StageRow → StageRow → Type 0
IsNewest rows a = is_running a.status ≡ true → max_attempt a.run_id a.stage_id rows ≤ a.attempt

-- A running attempt belongs to a running run.
abbrev pub IsOwned : Db → StageRow → Type 0
IsOwned db a = is_running a.status ≡ true → run_is_running (select_run a.run_id db.runs) ≡ true

pub record Inv (db : Db) : Type 0 where
  pub keyed : IsKeyed db
  pub newest : All (IsNewest db.attempts) db.attempts
  pub owned : All (IsOwned db) db.attempts

pub empty-Inv : Inv empty_db
empty-Inv = record { keyed = λ run stage n. omega arith; newest = tt; owned = tt }
