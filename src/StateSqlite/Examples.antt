-- ===== src/StateSqlite/Examples.antt =====
-- A run of two stages whose first attempt fails, with a checkpoint.
use map_data_aggregation_enh.Base.{
  ◌≤◌, ◌≡◌, refl, String, false, ◌==◌, some, List, [], ◌∷◌, ok, err,
}
use map_data_aggregation_enh.Base.Numbers.{nat}
use map_data_aggregation_enh.Core.Types.{preview}
use map_data_aggregation_enh.Core.Identity.{Json, str, canonicalize, normalize}
use map_data_aggregation_enh.StateSqlite.Tables.{
  failed, RunRow, select_run, of_stage, of_running, for_apply, changes, empty_db,
}
use map_data_aggregation_enh.StateSqlite.Actions.{stage_has_running_attempt, transaction}
use map_data_aggregation_enh.StateSqlite.Methods.{
  RunDescriptor, of_run, begin_run, insert_attempt, begin_stage, begin_stage_body, fail_stage,
  fail_run, fail_run_body, put_checkpoint, put_value, put_canonical, upsert_checkpoint,
  load_checkpoint,
}
use map_data_aggregation_enh.StateSqlite.Calls.{
  Call, start_run, start_stage, break_stage, break_run, perform, after,
}
use map_data_aggregation_enh.StateSqlite.Running.{Inv, empty-Inv}
use map_data_aggregation_enh.StateSqlite.Running.Keeps.{perform-Inv}
use map_data_aggregation_enh.StateSqlite.Running.History.{
  after-Inv, after_idle, after_single, after_atomic,
}
use map_data_aggregation_enh.StateSqlite.Terminal.{after_recorded}
use map_data_aggregation_enh.StateSqlite.Checkpoints.{load-put}

abbrev nightly : RunDescriptor
nightly = record {
  run_id = "r1";
  profile = "pizza";
  pipeline = "sync";
  pipeline_version = nat 1;
  partition = "all";
  mode = preview;
  started_at = "t0";
}

-- The second attempt of the stage is running.
abbrev begun : List Call
begun =
    start_run nightly
    ∷ start_stage "r1" "fetch" "t1"
    ∷ break_stage "r1" "fetch" 1 "t2" "timed out"
    ∷ start_stage "r1" "fetch" "t3"
    ∷ []

abbrev stopped : List Call
stopped =
    start_run nightly
    ∷ start_stage "r1" "fetch" "t1"
    ∷ start_stage "r1" "write" "t1"
    ∷ break_run "r1" "t4" "stopped"
    ∷ []

abbrev stopped_run : RunRow
stopped_run = record {
  run_id = "r1";
  profile = "pizza";
  pipeline = "sync";
  pipeline_version = nat 1;
  partition = "all";
  mode = preview;
  status = failed;
  started_at = "t0";
  finished_at = some "t4";
  error = some "stopped";
}

begun_running : changes (of_running (of_stage "r1" "fetch")) (after begun empty_db).attempts ≡ 1
unfolding begin_run begin_stage begin_stage_body insert_attempt transaction fail_stage
begun_running = refl

stopped_record : select_run "r1" (after stopped empty_db).runs ≡ some stopped_run
unfolding begin_run begin_stage begin_stage_body insert_attempt transaction fail_run fail_run_body
stopped_record = refl

second_refused :
    (perform (start_stage "r1" "fetch" "t9") (after begun empty_db)).0
    ≡ err (stage_has_running_attempt "fetch")
unfolding begin_run begin_stage begin_stage_body insert_attempt transaction fail_stage
second_refused = refl

-- The store has a failed attempt and a running one, and gets a running one of another stage.
two_running :
    changes
      (of_running (of_run "r1"))
      (perform (start_stage "r1" "write" "t4") (after begun empty_db)).1.attempts
    ≡ 2
unfolding begin_run begin_stage begin_stage_body insert_attempt transaction fail_stage
two_running = refl

perform-Inv_example : Inv (perform (start_stage "r1" "write" "t4") (after begun empty_db)).1
perform-Inv_example =
    perform-Inv (start_stage "r1" "write" "t4") (after begun empty_db)
      (after-Inv begun empty_db empty-Inv)

after_single_example :
    changes (of_running (of_stage "r1" "fetch")) (after begun empty_db).attempts ≤ 1
after_single_example = after_single begun "r1" "fetch"

after_idle_example : changes (of_running (of_run "r1")) (after stopped empty_db).attempts ≡ 0
unfolding begin_run begin_stage begin_stage_body insert_attempt transaction fail_run fail_run_body
after_idle_example = after_idle stopped "r1" refl

after_atomic_example :
    (perform (start_stage "r1" "fetch" "t9") (after begun empty_db)).1 ≡ after begun empty_db
after_atomic_example =
    after_atomic begun (start_stage "r1" "fetch" "t9") (stage_has_running_attempt "fetch")
      second_refused

after_recorded_example :
    select_run "r1" (after begun (after stopped empty_db)).runs ≡ some stopped_run
after_recorded_example =
    after_recorded "r1" stopped_run refl begun (after stopped empty_db) stopped_record

load-put_example :
    let db' = (put_checkpoint "k" "pizza" for_apply (str "page 2") "t5" empty_db).1 in
    ((w : Json) × (canonicalize (str "page 2") ≡ ok w) × (load_checkpoint db' "k" ≡ some w))
    × ((other : String)
        → ("k" == other) ≡ false
        → load_checkpoint db' other ≡ load_checkpoint empty_db other)
unfolding put_checkpoint put_value put_canonical upsert_checkpoint canonicalize normalize
load-put_example = load-put "k" "pizza" for_apply (str "page 2") "t5" empty_db refl
