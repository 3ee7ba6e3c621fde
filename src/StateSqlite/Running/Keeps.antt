-- ===== src/StateSqlite/Running/Keeps.antt =====
-- Every method keeps the invariant of the tables (packages/state-sqlite/src/index.ts).
use map_data_aggregation_enh.Base.{
  ◌+◌, ◌≡◌, refl, String, false, not, ◌&&◌, List, [], ◌∷◌, ◌++◌, All, All-map, or_false, and_true,
  not-false, eq_iff, eqb, eqb_iff, ◌==◌, Result, ok, err, arith,
}
use map_data_aggregation_enh.Core.Identity.{Json, IdentityError}
use map_data_aggregation_enh.StateSqlite.Tables.{
  RunRow, CheckpointRow, Db, select_run, of_stage, has_key, of_running, is_running, max_attempt,
  update, changes,
}
use map_data_aggregation_enh.StateSqlite.Actions.{
  constraint_failed, attempt_not_running, bad_expected_stages, run_not_running,
  stage_has_running_attempt, unfinished_stages, no_running_run, checkpoint_bound, Action,
  transaction, throw_if, ◌>>◌, pure,
}
use map_data_aggregation_enh.StateSqlite.Methods.{
  RunDescriptor, run_is_running, begin_run, insert_attempt, begin_stage_body, complete_run_body,
  fail_run_body, of_run, running_run, put_value, new_run, run_conflicts, new_attempt,
  attempt_conflicts, succeed_stage_row, fail_stage_row, is_unfinished, succeed_run_row,
  mark_run_succeeded, stop_stage_row, fail_run_row, bad_expected,
}
use map_data_aggregation_enh.StateSqlite.Running.{Inv}
use map_data_aggregation_enh.StateSqlite.Running.Updates.{
  All-update, run_is_running-append, run_is_running-update,
}
use map_data_aggregation_enh.StateSqlite.Running.Newest.{latest_succeeded_idle}
use map_data_aggregation_enh.StateSqlite.Running.Through.{
  transaction_keeps, throw_if_keeps, guard_keeps, pure_keeps, branch_keeps,
}
use map_data_aggregation_enh.StateSqlite.Running.Rows.{update_attempts-Inv, insert-Inv, runs-Inv}
use map_data_aggregation_enh.StateSqlite.Methods.{
  begin_stage, complete_stage, fail_stage, complete_run, fail_run, put_checkpoint,
}
use map_data_aggregation_enh.StateSqlite.Calls.{
  Call, start_run, start_stage, finish_stage, break_stage, finish_run, break_run, save_checkpoint,
  perform,
}

All-true : {A : Type 0} {P : A → Type 0} → ((x : A) → P x) → (xs : List A) → All P xs
All-true f [] = tt
All-true f (x ∷ xs) = (f x, All-true f xs)

begin_run-Inv : (run : RunDescriptor) (db : Db) → Inv db → Inv (begin_run run db).1
unfolding begin_run
begin_run-Inv run db v =
    branch_keeps Inv (run_conflicts run db) (err constraint_failed, db)
      (ok tt, record db { runs = db.runs ++ new_run run ∷ [] }) (λ _. v)
      λ _.
        runs-Inv db (db.runs ++ new_run run ∷ [])
          (All-true (λ a h r. run_is_running-append a.run_id db.runs (new_run run) (h r))
            db.attempts)
          v

begin_stage-Inv :
    (run stage started : String) (db : Db) → Inv db → Inv (begin_stage_body run stage started db).1
unfolding begin_stage_body insert_attempt
begin_stage-Inv run stage started db v =
    let n = max_attempt run stage db.attempts + 1 in
    let insert : Action (Unit {0}) = insert_attempt run stage n started in
    let not_live = not (run_is_running (select_run run db.runs)) in
    let busy = changes (of_running (of_stage run stage)) db.attempts in
    guard_keeps Inv not_live (run_not_running run)
      (throw_if (not (eqb busy 0)) (stage_has_running_attempt stage) >> (insert >> pure n)) db v
      λ live.
        guard_keeps Inv (not (eqb busy 0)) (stage_has_running_attempt stage) (insert >> pure n) db v
          λ idle. pure_keeps Inv (insert db) n (
            branch_keeps Inv (attempt_conflicts run stage n db) (err constraint_failed, db)
              (ok tt, record db { attempts = db.attempts ++ new_attempt run stage n started ∷ [] })
              (λ _. v)
              λ fresh.
                insert-Inv db (new_attempt run stage n started) refl (not-false _ live)
                  ((eqb_iff busy 0).0 (not-false _ idle)) (or_false _ _ fresh).1 v)

other_run : (id run : String) → (id == run) ≡ false → (run == id) ≡ false
other_run id run h = ground (arith, eq_iff id run, eq_iff run id)

idle_run-Inv :
    (db : Db) (run : String) (set : RunRow → RunRow)
    → ((r : RunRow) → (set r).run_id ≡ r.run_id)
    → All (λ a. (of_run run a && is_running a.status) ≡ false) db.attempts
    → Inv db
    → Inv (record db { runs = update (running_run run) set db.runs })
idle_run-Inv db run set same idle v =
    runs-Inv db _
      (All-map
        (λ a f h r.
          run_is_running-update a.run_id run (running_run run) set same (λ q t. (and_true _ _ t).0)
            (other_run a.run_id run (ground arith)) db.runs (h r))
        db.attempts idle)
      v

complete_run-Inv :
    (run finished : String) (expected : List String) (db : Db)
    → Inv db
    → Inv (complete_run_body run finished expected db).1
unfolding complete_run_body
complete_run-Inv run finished expected db v =
    guard_keeps Inv (is_unfinished run expected db) unfinished_stages
      (mark_run_succeeded run finished) db v
      λ done. throw_if_keeps Inv _ no_running_run _ (
        idle_run-Inv db run (succeed_run_row finished) (λ r. refl)
          (latest_succeeded_idle run db.attempts v.newest (or_false _ _ done).1) v)

fail_run-Inv :
    (run finished message : String) (db : Db)
    → Inv db
    → Inv (fail_run_body run finished message db).1
unfolding fail_run_body
fail_run-Inv run finished message db v =
    let stop = stop_stage_row finished message in
    let stopped : Db = record db { attempts = update (of_running (of_run run)) stop db.attempts } in
    throw_if_keeps Inv _ no_running_run _ (
      idle_run-Inv stopped run (fail_run_row finished message) (λ r. refl)
        (All-update (λ a. Unit {0}) (λ a. (of_run run a && is_running a.status) ≡ false)
          (of_running (of_run run)) stop (λ a _ t. ground arith) (λ a _ f. f) db.attempts
          (All-true (λ a. tt) db.attempts))
        (update_attempts-Inv (of_running (of_run run)) stop (λ a. refl) (λ a. refl) (λ a. refl)
          (λ a. refl) db v))

put_value-Inv :
    (row : Json → CheckpointRow) (r : Result IdentityError Json) (db : Db)
    → Inv db
    → Inv (put_value row r db).1
unfolding put_value
put_value-Inv row (err e) db v = v
put_value-Inv row (ok w) db v =
    throw_if_keeps Inv _ checkpoint_bound _
      (record { keyed = v.keyed; newest = v.newest; owned = v.owned })

-- A call, whether it throws or not, keeps the invariant: the primary key of the attempts is one,
-- a running attempt is the greatest of its stage, and it belongs to a running run.
pub perform-Inv : (c : Call) (db : Db) → Inv db → Inv (perform c db).1
unfolding begin_stage complete_stage fail_stage complete_run fail_run put_checkpoint
perform-Inv (start_run run) db v = begin_run-Inv run db v
perform-Inv (start_stage run stage started) db v =
    pure_keeps Inv (begin_stage run stage started db) tt (
      transaction_keeps Inv (begin_stage_body run stage started) db v
        (begin_stage-Inv run stage started db v))
perform-Inv (finish_stage run stage n finished outputs) db v =
    throw_if_keeps Inv _ attempt_not_running _ (
      update_attempts-Inv (of_running (has_key run stage n)) (succeed_stage_row finished outputs)
        (λ a. refl) (λ a. refl) (λ a. refl) (λ a. refl) db v)
perform-Inv (break_stage run stage n finished message) db v =
    throw_if_keeps Inv _ attempt_not_running _ (
      update_attempts-Inv (of_running (has_key run stage n)) (fail_stage_row finished message)
        (λ a. refl) (λ a. refl) (λ a. refl) (λ a. refl) db v)
perform-Inv (finish_run run finished expected) db v =
    guard_keeps Inv (bad_expected expected) bad_expected_stages
      (transaction (complete_run_body run finished expected)) db v
      λ _.
        transaction_keeps Inv (complete_run_body run finished expected) db v
          (complete_run-Inv run finished expected db v)
perform-Inv (break_run run finished message) db v =
    transaction_keeps Inv (fail_run_body run finished message) db v
      (fail_run-Inv run finished message db v)
perform-Inv (save_checkpoint key profile mode w updated) db v = put_value-Inv _ _ db v
