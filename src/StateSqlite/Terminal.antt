-- ===== src/StateSqlite/Terminal.antt =====
-- The record of a run that has ended (packages/state-sqlite/src/index.ts).
use map_data_aggregation_enh.Base.{
  ◌+◌, ◌≡◌, refl, ◌∙◌, String, false, not, List, [], ◌∷◌, ◌++◌, some, Bool-cases, inl, inr, eqb,
  Result, ok, err, arith,
}
use map_data_aggregation_enh.Core.Identity.{Json, IdentityError, canonicalize}
use map_data_aggregation_enh.StateSqlite.Tables.{
  is_running, RunRow, CheckpointRow, Db, has_run_id, select_run, of_stage, of_running, max_attempt,
  update, changes,
}
use map_data_aggregation_enh.StateSqlite.Actions.{
  constraint_failed, attempt_not_running, bad_expected_stages, run_not_running,
  stage_has_running_attempt, unfinished_stages, no_running_run, checkpoint_bound, Action,
  transaction, throw_if, ◌>>◌, pure,
}
use map_data_aggregation_enh.StateSqlite.Methods.{
  RunDescriptor, run_is_running, begin_run, insert_attempt, begin_stage, begin_stage_body,
  complete_stage, fail_stage, complete_run, complete_run_body, fail_run, fail_run_body, running_run,
  put_value, put_checkpoint, new_run, run_conflicts, new_attempt, attempt_conflicts, is_unfinished,
  succeed_run_row, mark_run_succeeded, fail_run_row, bad_expected,
}
use map_data_aggregation_enh.StateSqlite.Running.Through.{
  transaction_keeps, throw_if_keeps, guard_keeps, pure_keeps, branch_keeps,
}
use map_data_aggregation_enh.StateSqlite.Calls.{
  Call, start_run, start_stage, finish_stage, break_stage, finish_run, break_run, save_checkpoint,
  perform, after,
}

-- `r` is the record of the run.
abbrev pub IsRecorded : String → RunRow → Db → Type 0
IsRecorded id r db = select_run id db.runs ≡ some r

find-append :
    (id : String) (runs : List RunRow) (r new : RunRow)
    → select_run id runs ≡ some r
    → select_run id (runs ++ new ∷ []) ≡ some r
find-append id [] r new h = cc
find-append id (q ∷ runs) r new h = ground (arith, find-append id runs r new)

-- An update of the running run of some identifier.
find-update :
    (id other : String) (set : RunRow → RunRow)
    → ((q : RunRow) → (set q).run_id ≡ q.run_id)
    → (runs : List RunRow) (r : RunRow) → is_running r.status ≡ false
    → select_run id runs ≡ some r
    → select_run id (update (running_run other) set runs) ≡ some r
find-update id other set same [] r ended h = cc
find-update id other set same (q ∷ runs) r ended h = elim (Bool-cases (has_run_id id q)) [
  | inl t ↦
      let e : q ≡ r = ground arith in
      let idle : is_running q.status ≡ false = (λ i. is_running (e i).status) ∙ ended in
      ground arith
  | inr f ↦ ground (arith, same q, find-update id other set same runs r ended)
]

module _ (id : String) (r : RunRow) (ended : is_running r.status ≡ false) where
  begin_run-IsRecorded :
      (run : RunDescriptor) (db : Db) → IsRecorded id r db → IsRecorded id r (begin_run run db).1
  unfolding begin_run
  begin_run-IsRecorded run db h =
      branch_keeps (IsRecorded id r) (run_conflicts run db) (err constraint_failed, db)
        (ok tt, record db { runs = db.runs ++ new_run run ∷ [] }) (λ _. h)
        λ _. find-append id db.runs r (new_run run) h

  begin_stage-IsRecorded :
      (run stage started : String) (db : Db)
      → IsRecorded id r db
      → IsRecorded id r (begin_stage_body run stage started db).1
  unfolding begin_stage_body insert_attempt
  begin_stage-IsRecorded run stage started db h =
      let n = max_attempt run stage db.attempts + 1 in
      let insert : Action (Unit {0}) = insert_attempt run stage n started in
      let not_live = not (run_is_running (select_run run db.runs)) in
      let busy = not (eqb (changes (of_running (of_stage run stage)) db.attempts) 0) in
      guard_keeps (IsRecorded id r) not_live (run_not_running run)
        (throw_if busy (stage_has_running_attempt stage) >> (insert >> pure n)) db h
        λ _.
          guard_keeps (IsRecorded id r) busy (stage_has_running_attempt stage) (insert >> pure n) db
            h
            λ _. pure_keeps (IsRecorded id r) (insert db) n (
              branch_keeps (IsRecorded id r) (attempt_conflicts run stage n db)
                (err constraint_failed, db)
                (
                  ok tt,
                  record db { attempts = db.attempts ++ new_attempt run stage n started ∷ [] },
                )
                (λ _. h) (λ _. h))

  complete_run-IsRecorded :
      (run finished : String) (expected : List String) (db : Db)
      → IsRecorded id r db
      → IsRecorded id r (complete_run_body run finished expected db).1
  unfolding complete_run_body
  complete_run-IsRecorded run finished expected db h =
      guard_keeps (IsRecorded id r) (is_unfinished run expected db) unfinished_stages
        (mark_run_succeeded run finished) db h
        λ _.
          throw_if_keeps (IsRecorded id r) _ no_running_run _
            (find-update id run (succeed_run_row finished) (λ q. refl) db.runs r ended h)

  fail_run-IsRecorded :
      (run finished message : String) (db : Db)
      → IsRecorded id r db
      → IsRecorded id r (fail_run_body run finished message db).1
  unfolding fail_run_body
  fail_run-IsRecorded run finished message db h =
      throw_if_keeps (IsRecorded id r) _ no_running_run _
        (find-update id run (fail_run_row finished message) (λ q. refl) db.runs r ended h)

  put_value-IsRecorded :
      (row : Json → CheckpointRow) (v : Result IdentityError Json) (db : Db)
      → IsRecorded id r db
      → IsRecorded id r (put_value row v db).1
  unfolding put_value
  put_value-IsRecorded row (err e) db h = h
  put_value-IsRecorded row (ok w) db h = throw_if_keeps (IsRecorded id r) _ checkpoint_bound _ h

  perform-IsRecorded : (c : Call) (db : Db) → IsRecorded id r db → IsRecorded id r (perform c db).1
  unfolding begin_stage complete_stage fail_stage complete_run fail_run put_checkpoint
  perform-IsRecorded (start_run run) db h = begin_run-IsRecorded run db h
  perform-IsRecorded (start_stage run stage started) db h =
      pure_keeps (IsRecorded id r) (begin_stage run stage started db) tt (
        transaction_keeps (IsRecorded id r) (begin_stage_body run stage started) db h
          (begin_stage-IsRecorded run stage started db h))
  perform-IsRecorded (finish_stage run stage n finished outputs) db h =
      throw_if_keeps (IsRecorded id r) _ attempt_not_running _ h
  perform-IsRecorded (break_stage run stage n finished message) db h =
      throw_if_keeps (IsRecorded id r) _ attempt_not_running _ h
  perform-IsRecorded (finish_run run finished expected) db h =
      guard_keeps (IsRecorded id r) (bad_expected expected) bad_expected_stages
        (transaction (complete_run_body run finished expected)) db h
        λ _.
          transaction_keeps (IsRecorded id r) (complete_run_body run finished expected) db h
            (complete_run-IsRecorded run finished expected db h)
  perform-IsRecorded (break_run run finished message) db h =
      transaction_keeps (IsRecorded id r) (fail_run_body run finished message) db h
        (fail_run-IsRecorded run finished message db h)
  perform-IsRecorded (save_checkpoint key profile mode w updated) db h =
      put_value-IsRecorded _ (canonicalize w) db h

  -- The record of a run that is no longer running is the same after any calls.
  pub after_recorded :
      (calls : List Call) (db : Db)
      → select_run id db.runs ≡ some r
      → select_run id (after calls db).runs ≡ some r
  after_recorded [] db h = h
  after_recorded (c ∷ calls) db h =
      after_recorded calls (perform c db).1 (perform-IsRecorded c db h)
