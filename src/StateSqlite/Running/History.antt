-- ===== src/StateSqlite/Running/History.antt =====
-- What holds after any calls of a new store (packages/state-sqlite/src/index.ts).
use map_data_aggregation_enh.Base.{
  All-map₂, ◌≤◌, ◌≡◌, String, Bool, true, false, List, [], ◌∷◌, All, All-map, Bool-cases, inl, inr,
  eq_iff, err, arith,
}
use map_data_aggregation_enh.StateSqlite.Tables.{
  StageRow, Db, select_run, of_stage, has_key, of_running, max_attempt, changes, empty_db,
}
use map_data_aggregation_enh.StateSqlite.Actions.{StoreError}
use map_data_aggregation_enh.StateSqlite.Methods.{run_is_running, of_run}
use map_data_aggregation_enh.StateSqlite.Calls.{Call, perform, after}
use map_data_aggregation_enh.StateSqlite.Atomic.{perform_atomic}
use map_data_aggregation_enh.StateSqlite.Running.{IsNewest, IsOwned, Inv, empty-Inv}
use map_data_aggregation_enh.StateSqlite.Running.Newest.{zero-changes, attempt-le-max}
use map_data_aggregation_enh.StateSqlite.Running.Keeps.{perform-Inv}

pub after-Inv : (calls : List Call) (db : Db) → Inv db → Inv (after calls db)
after-Inv [] db v = v
after-Inv (c ∷ calls) db v = after-Inv calls (perform c db).1 (perform-Inv c db v)

not_running_idle :
    (run : String) (db : Db) (a : StageRow)
    → run_is_running (select_run run db.runs) ≡ false
    → IsOwned db a
    → of_running (of_run run) a ≡ false
not_running_idle run db a stopped h = elim (Bool-cases (of_running (of_run run) a)) [
  | inl t ↦
      let e : a.run_id ≡ run = (eq_iff a.run_id run).0 (ground arith) in
      let live : run_is_running (select_run a.run_id db.runs) ≡ true = h (ground arith) in
      let moved : run_is_running (select_run a.run_id db.runs)
          ≡ run_is_running (select_run run db.runs) =
        λ i. run_is_running (select_run (e i) db.runs) in
      absurd (ground arith)
  | inr f ↦ f
]

-- After any calls of a new store, each of which may have thrown, a run that is not recorded as
-- running has no attempt that is.
pub after_idle :
    (calls : List Call) (run : String)
    → run_is_running (select_run run (after calls empty_db).runs) ≡ false
    → changes (of_running (of_run run)) (after calls empty_db).attempts ≡ 0
after_idle calls run h =
    let db = after calls empty_db in
    zero-changes (of_running (of_run run)) db.attempts (
      All-map (λ a o. not_running_idle run db a h o) db.attempts
        (after-Inv calls empty_db empty-Inv).owned)

changes_mono :
    (p q : StageRow → Bool) (rows : List StageRow)
    → All (λ a. p a ≡ true → q a ≡ true) rows
    → changes p rows ≤ changes q rows
changes_mono p q [] h = omega arith
changes_mono p q (a ∷ rows) h = ground (arith, h.0, changes_mono p q rows h.1)

running_has_key :
    (run stage : String) (rows : List StageRow) (a : StageRow)
    → IsNewest rows a
    → a.attempt ≤ max_attempt a.run_id a.stage_id rows
    → of_running (of_stage run stage) a ≡ true
    → has_key run stage (max_attempt run stage rows) a ≡ true
running_has_key run stage rows a new le h =
    ground (arith, new (ground arith), eq_iff a.run_id run, eq_iff a.stage_id stage)

-- After any calls of a new store, each of which may have thrown, a stage of a run has at most one
-- running attempt.
pub after_single :
    (calls : List Call) (run stage : String)
    → changes (of_running (of_stage run stage)) (after calls empty_db).attempts ≤ 1
after_single calls run stage =
    let db = after calls empty_db in
    let v = after-Inv calls empty_db empty-Inv in
    let n = max_attempt run stage db.attempts in
    omega (
      arith,
      v.keyed run stage n,
      changes_mono (of_running (of_stage run stage)) (has_key run stage n) db.attempts (
          All-map₂ (λ a new le. running_has_key run stage db.attempts a new le) db.attempts v.newest
            (attempt-le-max db.attempts)),
    )

-- After any calls of a new store, a further call that throws leaves the three tables exactly as
-- they were.
pub after_atomic :
    (calls : List Call) (c : Call) (e : StoreError)
    → (perform c (after calls empty_db)).0 ≡ err e
    → (perform c (after calls empty_db)).1 ≡ after calls empty_db
after_atomic calls c e h =
    perform_atomic c (after calls empty_db) e (after-Inv calls empty_db empty-Inv).keyed h
