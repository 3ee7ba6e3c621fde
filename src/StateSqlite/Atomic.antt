-- ===== src/StateSqlite/Atomic.antt =====
-- A method that throws leaves the tables as they were (packages/state-sqlite/src/index.ts).
use map_data_aggregation_enh.Base.{
  ℕ, ◌≤◌, ◌≡◌, refl, ◌∙◌, String, Bool, true, false, not, List, [], ◌∷◌, eqb, eq_refl, Result, ok,
  err, arith,
}
use map_data_aggregation_enh.Core.Identity.{Json, IdentityError, canonicalize}
use map_data_aggregation_enh.StateSqlite.Tables.{
  StageRow, CheckpointRow, CheckpointMode, same_mode, for_preview, for_apply, Db, has_key,
  of_running, is_running, update, changes,
}
use map_data_aggregation_enh.StateSqlite.Actions.{
  StoreError, IsAtomic, transaction-IsAtomic, guard-IsAtomic, pure-IsAtomic, throw_if,
  checkpoint_bound,
}
use map_data_aggregation_enh.StateSqlite.Methods.{
  RunDescriptor, begin_run, begin_stage, complete_stage, fail_stage, complete_run, fail_run,
  put_checkpoint, begin_stage_body, fail_run_body, put_value, put_canonical, bound_elsewhere,
  upsert_checkpoint, select_checkpoint, complete_run_body,
}
use map_data_aggregation_enh.StateSqlite.Calls.{
  Call, start_run, start_stage, finish_stage, break_stage, finish_run, break_run, save_checkpoint,
  perform,
}
use map_data_aggregation_enh.StateSqlite.Rows.{update-none, changes-and}

-- The primary key of the attempts is one.
abbrev pub IsKeyed : Db → Type 0
IsKeyed db = (run stage : String) (n : ℕ) → changes (has_key run stage n) db.attempts ≤ 1

not-one : (n : ℕ) → not (eqb n 1) ≡ true → n ≤ 1 → n ≡ 0
not-one n h le = ground arith

-- Storing the attempts that were there changes nothing.
same_attempts :
    (db : Db) (rows : List StageRow) → rows ≡ db.attempts → record db { attempts = rows } ≡ db
same_attempts db rows e = λ i. record db { attempts = e i }

throw_if_state : (b : Bool) (e : StoreError) (db : Db) → (throw_if b e db).1 ≡ db
throw_if_state true e db = refl
throw_if_state false e db = refl

throw_if-err :
    (b : Bool) (e : StoreError) (db : Db) {x : StoreError} → (throw_if b e db).0 ≡ err x → b ≡ true
throw_if-err true e db h = refl
throw_if-err false e db h = cc

begin_run-IsAtomic : (run : RunDescriptor) → IsAtomic (begin_run run)
unfolding begin_run
begin_run-IsAtomic run db e h = ground arith

-- An update of the one row with a key that throws found no row.
update_atomic :
    (db : Db) (run stage : String) (n : ℕ) (set : StageRow → StageRow) (e x : StoreError)
    → IsKeyed db
    → let where_ = of_running (has_key run stage n) in
      let db' : Db = record db { attempts = update where_ set db.attempts } in
      (throw_if (not (eqb (changes where_ db.attempts) 1)) e db').0 ≡ err x
      → (throw_if (not (eqb (changes where_ db.attempts) 1)) e db').1 ≡ db
update_atomic db run stage n set e x k h =
    let where_ = of_running (has_key run stage n) in
    let db' : Db = record db { attempts = update where_ set db.attempts } in
    let few = changes-and (has_key run stage n) (λ a. is_running a.status) db.attempts in
    let no_row =
      not-one (changes where_ db.attempts) (throw_if-err _ e db' h)
        (omega (arith, few, k run stage n)) in
    throw_if_state _ e db' ∙ same_attempts db _ (update-none where_ set db.attempts no_row)

same_mode_refl : (m : CheckpointMode) → same_mode m m ≡ true
same_mode_refl for_preview = refl
same_mode_refl for_apply = refl

-- The checkpoint is bound elsewhere after the upsert only where the upsert left it alone.
upsert_checkpoint_bound :
    (new : CheckpointRow) (rows : List CheckpointRow)
    → bound_elsewhere new.profile new.mode
        (select_checkpoint new.checkpoint_key (upsert_checkpoint new rows))
      ≡ true
    → upsert_checkpoint new rows ≡ rows
unfolding upsert_checkpoint
upsert_checkpoint_bound new [] h =
    ground (arith, eq_refl new.checkpoint_key, eq_refl new.profile, same_mode_refl new.mode)
upsert_checkpoint_bound new (c ∷ rows) h = ground (arith, upsert_checkpoint_bound new rows)

put_canonical-IsAtomic : (new : CheckpointRow) → IsAtomic (put_canonical new)
unfolding put_canonical
put_canonical-IsAtomic new db e h =
    let rows = upsert_checkpoint new db.checkpoints in
    let db' : Db = record db { checkpoints = rows } in
    let same = upsert_checkpoint_bound new db.checkpoints (throw_if-err _ checkpoint_bound db' h) in
    throw_if_state _ checkpoint_bound db' ∙ λ i. record db { checkpoints = same i }

put_value-IsAtomic :
    (row : Json → CheckpointRow) (r : Result IdentityError Json) → IsAtomic (put_value row r)
unfolding put_value
put_value-IsAtomic row (err x) db e h = refl
put_value-IsAtomic row (ok v) db e h = put_canonical-IsAtomic (row v) db e h

complete_run-IsAtomic :
    (run finished : String) (expected : List String) → IsAtomic (complete_run run finished expected)
unfolding complete_run
complete_run-IsAtomic run finished expected =
    guard-IsAtomic _ _ _ (transaction-IsAtomic (complete_run_body run finished expected))

-- A call that throws leaves the three tables exactly as they were, if the primary key of the
-- attempts is one.
pub perform_atomic :
    (c : Call) (db : Db) (e : StoreError)
    → IsKeyed db
    → (perform c db).0 ≡ err e
    → (perform c db).1 ≡ db
unfolding begin_stage complete_stage fail_stage fail_run put_checkpoint
perform_atomic (start_run run) db e k h = begin_run-IsAtomic run db e h
perform_atomic (start_stage run stage started) db e k h =
    pure-IsAtomic (begin_stage run stage started) tt
      (transaction-IsAtomic (begin_stage_body run stage started)) db e h
perform_atomic (finish_stage run stage n finished outputs) db e k h =
    update_atomic db run stage n _ _ e k h
perform_atomic (break_stage run stage n finished message) db e k h =
    update_atomic db run stage n _ _ e k h
perform_atomic (finish_run run finished expected) db e k h =
    complete_run-IsAtomic run finished expected db e h
perform_atomic (break_run run finished message) db e k h =
    transaction-IsAtomic (fail_run_body run finished message) db e h
perform_atomic (save_checkpoint key profile mode v updated) db e k h =
    put_value-IsAtomic _ (canonicalize v) db e h
