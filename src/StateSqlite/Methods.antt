-- ===== src/StateSqlite/Methods.antt =====
-- The methods of `SqliteRunStateStore` (packages/state-sqlite/src/index.ts).
use map_data_aggregation_enh.Base.{
  ℕ, ◌+◌, String, Bool, true, false, not, ◌&&◌, ◌||◌, Option, none, some, List, [], ◌∷◌, ◌++◌, map,
  Dict, eqb, any, filter, find, is_some, is_empty, is_unique, ◌==◌, Result, ok, err, if◌then◌else◌,
}
use map_data_aggregation_enh.Base.Numbers.{Num, nat, lt}
use map_data_aggregation_enh.Core.Types.{PipelineMode}
use map_data_aggregation_enh.Core.SameValues.{same_values}
use map_data_aggregation_enh.Core.Identity.{
  Json, str, obj, Fields, end, insert_field, IdentityError, canonicalize,
}
use map_data_aggregation_enh.StateSqlite.Tables.{
  running, succeeded, failed, is_running, is_succeeded, RunRow, StageRow, CheckpointMode, same_mode,
  CheckpointRow, Db, has_run_id, select_run, of_stage, has_key, of_running, max_attempt, is_latest,
  update, changes, order_rows,
}
use map_data_aggregation_enh.StateSqlite.Actions.{
  StoreError, constraint_failed, run_not_running, stage_has_running_attempt, attempt_not_running,
  bad_expected_stages, unfinished_stages, no_running_run, unserializable_value, checkpoint_bound,
  Action, pure, throw, throw_if, transaction, ◌>>=◌, ◌>>◌,
}

pub record RunDescriptor : Type 0 where
  pub run_id : String
  pub profile : String
  pub pipeline : String
  pub pipeline_version : Num
  pub partition : String
  pub mode : PipelineMode
  pub started_at : String

abbrev pub new_run : RunDescriptor → RunRow
new_run run = record {
  run_id = run.run_id;
  profile = run.profile;
  pipeline = run.pipeline;
  pipeline_version = run.pipeline_version;
  partition = run.partition;
  mode = run.mode;
  status = running;
  started_at = run.started_at;
  finished_at = none;
  error = none;
}

abbrev pub run_conflicts : RunDescriptor → Db → Bool
run_conflicts run db =
    is_some (select_run run.run_id db.runs) || not (lt (nat 0) run.pipeline_version)

-- INSERT INTO runs: the primary key is new, and the version is a positive integer.
unfoldable pub begin_run : RunDescriptor → Action (Unit {0})
begin_run run db =
    if run_conflicts run db
    then (err constraint_failed, db)
    else (ok tt, record db { runs = db.runs ++ new_run run ∷ [] })

-- `run?.status !== "running"` is the negation of this.
abbrev pub run_is_running : Option RunRow → Bool
run_is_running none = false
run_is_running (some r) = is_running r.status

abbrev pub new_attempt : String → String → ℕ → String → StageRow
new_attempt run stage n started = record {
  run_id = run;
  stage_id = stage;
  attempt = n;
  status = running;
  started_at = started;
  finished_at = none;
  outputs = obj end;
  error = none;
}

abbrev pub attempt_conflicts : String → String → ℕ → Db → Bool
attempt_conflicts run stage n db =
    not (is_some (select_run run db.runs)) || any (has_key run stage n) db.attempts

-- INSERT INTO stage_attempts: the foreign key names a run, and the primary key is new.
unfoldable pub insert_attempt : String → String → ℕ → String → Action (Unit {0})
insert_attempt run stage n started db =
    if attempt_conflicts run stage n db
    then (err constraint_failed, db)
    else (ok tt, record db { attempts = db.attempts ++ new_attempt run stage n started ∷ [] })

unfoldable pub begin_stage_body : String → String → String → Action ℕ
begin_stage_body run stage started db =
    (do
      throw_if (not (run_is_running (select_run run db.runs))) (run_not_running run)
      throw_if (not (eqb (changes (of_running (of_stage run stage)) db.attempts) 0))
          (stage_has_running_attempt stage)
      insert_attempt run stage (max_attempt run stage db.attempts + 1) started
      pure (max_attempt run stage db.attempts + 1))
      db

unfoldable pub begin_stage : String → String → String → Action ℕ
unfolding begin_stage_body insert_attempt
begin_stage run stage started = transaction (begin_stage_body run stage started)

-- `assertChanged`
abbrev pub assert_changed : ℕ → StoreError → Action (Unit {0})
assert_changed n e = throw_if (not (eqb n 1)) e

-- UPDATE stage_attempts …, and the number of rows that it changed.
abbrev pub update_attempts : (StageRow → Bool) → (StageRow → StageRow) → Action ℕ
update_attempts where_ set db =
    (ok (changes where_ db.attempts), record db { attempts = update where_ set db.attempts })

abbrev pub update_runs : (RunRow → Bool) → (RunRow → RunRow) → Action ℕ
update_runs where_ set db =
    (ok (changes where_ db.runs), record db { runs = update where_ set db.runs })

-- The outputs as a canonical JSON object.
unfoldable pub outputs_json : Dict String → Fields
outputs_json [] = end
outputs_json ((k, v) ∷ rest) = insert_field k (str v) (outputs_json rest)

abbrev pub succeed_stage_row : String → Dict String → StageRow → StageRow
succeed_stage_row finished outputs a = record a {
  status = succeeded;
  finished_at = some finished;
  outputs = obj (outputs_json outputs);
  error = none;
}

abbrev pub fail_stage_row : String → String → StageRow → StageRow
fail_stage_row finished message a = record a {
  status = failed;
  finished_at = some finished;
  error = some message;
}

unfoldable pub complete_stage : String → String → ℕ → String → Dict String → Action (Unit {0})
complete_stage run stage n finished outputs = do
  changed ← update_attempts (of_running (has_key run stage n)) (succeed_stage_row finished outputs)
  assert_changed changed attempt_not_running

unfoldable pub fail_stage : String → String → ℕ → String → String → Action (Unit {0})
fail_stage run stage n finished message = do
  changed ← update_attempts (of_running (has_key run stage n)) (fail_stage_row finished message)
  assert_changed changed attempt_not_running

abbrev pub latest_rows : String → List StageRow → List StageRow
latest_rows run rows = filter (is_latest run rows) rows

abbrev pub running_run : String → RunRow → Bool
running_run id r = has_run_id id r && is_running r.status

-- Not every expected stage, and no other, has a latest attempt that succeeded. The source compares
-- the sorted stage IDs place by place, which is what `same_values` does.
abbrev pub is_unfinished : String → List String → Db → Bool
is_unfinished run expected db =
    not (same_values (map (λ (a : StageRow). a.stage_id) (latest_rows run db.attempts)) expected)
    || any (λ a. not (is_succeeded a.status)) (latest_rows run db.attempts)

abbrev pub succeed_run_row : String → RunRow → RunRow
succeed_run_row finished r = record r {
  status = succeeded;
  finished_at = some finished;
  error = none;
}

abbrev pub mark_run_succeeded : String → String → Action (Unit {0})
mark_run_succeeded run finished = do
  changed ← update_runs (running_run run) (succeed_run_row finished)
  assert_changed changed no_running_run

unfoldable pub complete_run_body : String → String → List String → Action (Unit {0})
complete_run_body run finished expected db =
    (do throw_if (is_unfinished run expected db) unfinished_stages; mark_run_succeeded run finished)
      db

abbrev pub bad_expected : List String → Bool
bad_expected expected = not (is_unique expected) || any is_empty expected

unfoldable pub complete_run : String → String → List String → Action (Unit {0})
unfolding complete_run_body
complete_run run finished expected = do
  throw_if (bad_expected expected) bad_expected_stages
  transaction (complete_run_body run finished expected)

-- COALESCE(error, ?)
abbrev pub or_message : Option String → String → Option String
or_message none message = some message
or_message (some e) message = some e

abbrev pub of_run : String → StageRow → Bool
of_run run a = a.run_id == run

abbrev pub stop_stage_row : String → String → StageRow → StageRow
stop_stage_row finished message a = record a {
  status = failed;
  finished_at = some finished;
  error = or_message a.error message;
}

abbrev pub fail_run_row : String → String → RunRow → RunRow
fail_run_row finished message r = record r {
  status = failed;
  finished_at = some finished;
  error = some message;
}

unfoldable pub fail_run_body : String → String → String → Action (Unit {0})
fail_run_body run finished message = do
  update_attempts (of_running (of_run run)) (stop_stage_row finished message)
  changed ← update_runs (running_run run) (fail_run_row finished message)
  assert_changed changed no_running_run

unfoldable pub fail_run : String → String → String → Action (Unit {0})
unfolding fail_run_body
fail_run run finished message = transaction (fail_run_body run finished message)

unfoldable pub get_run : Db → String → Option RunRow
get_run db id = select_run id db.runs

unfoldable pub list_stage_attempts : Db → String → List StageRow
list_stage_attempts db run = order_rows (filter (of_run run) db.attempts)

abbrev pub has_checkpoint_key : String → CheckpointRow → Bool
has_checkpoint_key key c = c.checkpoint_key == key

abbrev pub select_checkpoint : String → List CheckpointRow → Option CheckpointRow
select_checkpoint key rows = find (has_checkpoint_key key) rows

abbrev pub value_of : Option CheckpointRow → Option Json
value_of none = none
value_of (some c) = some c.value

unfoldable pub load_checkpoint : Db → String → Option Json
load_checkpoint db key = value_of (select_checkpoint key db.checkpoints)

abbrev pub is_bound_to : String → CheckpointMode → CheckpointRow → Bool
is_bound_to profile mode c = c.profile == profile && same_mode c.mode mode

-- INSERT … ON CONFLICT(checkpoint_key) DO UPDATE … WHERE profile and mode are the same.
unfoldable pub upsert_checkpoint : CheckpointRow → List CheckpointRow → List CheckpointRow
upsert_checkpoint new [] = new ∷ []
upsert_checkpoint new (c ∷ rows) =
    let rest = upsert_checkpoint new rows in
    if has_checkpoint_key new.checkpoint_key c
    then (if is_bound_to new.profile new.mode c
        then record c { value = new.value; updated_at = new.updated_at }
        else c)
      ∷ rows
    else c ∷ rest

abbrev pub bound_elsewhere : String → CheckpointMode → Option CheckpointRow → Bool
bound_elsewhere profile mode none = true
bound_elsewhere profile mode (some c) = not (is_bound_to profile mode c)

unfoldable pub put_canonical : CheckpointRow → Action (Unit {0})
put_canonical new db =
    let rows = upsert_checkpoint new db.checkpoints in
    throw_if (bound_elsewhere new.profile new.mode (select_checkpoint new.checkpoint_key rows))
      checkpoint_bound (record db { checkpoints = rows })

-- The argument `canonicalize(input.value)` may throw before the statement runs.
unfoldable pub put_value : (Json → CheckpointRow) → Result IdentityError Json → Action (Unit {0})
unfolding put_canonical
put_value row (err e) = throw unserializable_value
put_value row (ok v) = put_canonical (row v)

unfoldable pub put_checkpoint : String → String → CheckpointMode → Json → String → Action (Unit {0})
put_checkpoint key profile mode value updated =
    put_value
      (λ v. record {
        checkpoint_key = key;
        profile = profile;
        mode = mode;
        value = v;
        updated_at = updated;
      })
      (canonicalize value)
