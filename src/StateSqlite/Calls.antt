-- ===== src/StateSqlite/Calls.antt =====
-- A client's calls of the store, one after the other (packages/state-sqlite/src/index.ts).
use map_data_aggregation_enh.Base.{ℕ, String, List, [], ◌∷◌, Dict}
use map_data_aggregation_enh.Core.Identity.{Json}
use map_data_aggregation_enh.StateSqlite.Tables.{CheckpointMode, Db}
use map_data_aggregation_enh.StateSqlite.Actions.{Action, pure, ◌>>◌}
use map_data_aggregation_enh.StateSqlite.Methods.{
  RunDescriptor, begin_run, begin_stage, complete_stage, fail_stage, complete_run, fail_run,
  put_checkpoint,
}

-- The methods that write.
pub data Call : Type 0 where
  start_run : RunDescriptor → Call
  start_stage : (run stage started : String) → Call
  finish_stage : (run stage : String) (attempt : ℕ) (finished : String) → Dict String → Call
  break_stage : (run stage : String) (attempt : ℕ) (finished message : String) → Call
  finish_run : (run finished : String) (expected : List String) → Call
  break_run : (run finished message : String) → Call
  save_checkpoint : (key profile : String) → CheckpointMode → Json → (updated : String) → Call

abbrev pub perform : Call → Action (Unit {0})
perform (start_run run) = begin_run run
perform (start_stage run stage started) = do begin_stage run stage started; pure tt
perform (finish_stage run stage n finished outputs) = complete_stage run stage n finished outputs
perform (break_stage run stage n finished message) = fail_stage run stage n finished message
perform (finish_run run finished expected) = complete_run run finished expected
perform (break_run run finished message) = fail_run run finished message
perform (save_checkpoint key profile mode v updated) = put_checkpoint key profile mode v updated

-- The tables after a sequence of calls, whether they throw or not.
abbrev pub after : List Call → Db → Db
after [] db = db
after (c ∷ calls) db = after calls (perform c db).1
