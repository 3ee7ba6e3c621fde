-- ===== src/StateSqlite/Running/Rows.antt =====
-- The invariant through an UPDATE and an INSERT (packages/state-sqlite/src/index.ts).
use map_data_aggregation_enh.Base.{
  All-map₂, ℕ, ◌+◌, ◌≤◌, ◌≡◌, sym, ◌∙◌, String, Bool, true, false, List, [], ◌∷◌, ◌++◌, All, any,
  Bool-cases, inl, inr, eq_iff, eq_refl, arith,
}
use map_data_aggregation_enh.StateSqlite.Tables.{
  StageRow, RunRow, Db, select_run, of_stage, has_key, of_running, is_running, max_attempt, update,
  changes,
}
use map_data_aggregation_enh.StateSqlite.Methods.{run_is_running}
use map_data_aggregation_enh.StateSqlite.Rows.{changes-update, changes-append, changes-any}
use map_data_aggregation_enh.StateSqlite.Running.{IsNewest, IsOwned, Inv}
use map_data_aggregation_enh.StateSqlite.Running.Updates.{
  All-update, All-append, max_attempt-update, max_attempt-append,
}
use map_data_aggregation_enh.StateSqlite.Running.Newest.{changes-zero}

-- An update of attempts that leaves the keys alone and leaves none of what it changes running.
module _ (p : StageRow → Bool) (set : StageRow → StageRow)
    (same_run : (a : StageRow) → (set a).run_id ≡ a.run_id)
    (same_stage : (a : StageRow) → (set a).stage_id ≡ a.stage_id)
    (same_number : (a : StageRow) → (set a).attempt ≡ a.attempt)
    (stops : (a : StageRow) → is_running (set a).status ≡ false) where
  same_key :
      (run stage : String) (n : ℕ) (a : StageRow)
      → has_key run stage n (set a) ≡ has_key run stage n a
  same_key run stage n a = ground (arith, same_run a, same_stage a, same_number a)

  IsNewest-kept :
      (rows : List StageRow) (a : StageRow) → IsNewest rows a → IsNewest (update p set rows) a
  IsNewest-kept rows a h r = omega (
    arith,
    h r,
    max_attempt-update p set same_run same_stage same_number a.run_id a.stage_id rows,
  )

  pub update_attempts-Inv :
      (db : Db) → Inv db → Inv (record db { attempts = update p set db.attempts })
  update_attempts-Inv db v = record {
    keyed = λ run stage n. omega (
      arith,
      v.keyed run stage n,
      changes-update (has_key run stage n) p set (same_key run stage n) db.attempts,
    );
    newest =
        All-update (IsNewest db.attempts) (IsNewest (update p set db.attempts)) p set
          (λ a h t r. absurd (ground (arith, stops a))) (λ a h f. IsNewest-kept db.attempts a h)
          db.attempts v.newest;
    owned =
        All-update (IsOwned db) (IsOwned db) p set (λ a h t r. absurd (ground (arith, stops a)))
          (λ a h f. h) db.attempts v.owned;
  }

IsNewest-of_insert :
    (rows : List StageRow) (new a : StageRow)
    → IsNewest rows a
    → of_running (of_stage new.run_id new.stage_id) a ≡ false
    → IsNewest (rows ++ new ∷ []) a
IsNewest-of_insert rows new a h idle r = ground (
  arith,
  h r,
  max_attempt-append a.run_id a.stage_id rows new,
  eq_iff new.run_id a.run_id,
  eq_iff new.stage_id a.stage_id,
  eq_iff a.run_id new.run_id,
  eq_iff a.stage_id new.stage_id,
)

keyed_of_insert :
    (rows : List StageRow) (new : StageRow) (run stage : String) (n : ℕ)
    → any (has_key new.run_id new.stage_id new.attempt) rows ≡ false
    → changes (has_key run stage n) rows ≤ 1
    → changes (has_key run stage n) (rows ++ new ∷ []) ≤ 1
keyed_of_insert rows new run stage n fresh le = elim (Bool-cases (has_key run stage n new)) [
  | inl t ↦
      let er : new.run_id ≡ run = (eq_iff new.run_id run).0 (ground arith) in
      let es : new.stage_id ≡ stage = (eq_iff new.stage_id stage).0 (ground arith) in
      let en : new.attempt ≡ n = ground arith in
      let zero_before = changes-any (has_key new.run_id new.stage_id new.attempt) rows fresh in
      let moved : changes (has_key run stage n) rows ≡ 0 =
        sym (λ i. changes (has_key (er i) (es i) (en i)) rows) ∙ zero_before in
      ground (arith, changes-append (has_key run stage n) rows (new ∷ []))
  | inr f ↦ ground (arith, changes-append (has_key run stage n) rows (new ∷ []))
]

-- The insertion of a running attempt above all others, for a stage that has no running one.
pub insert-Inv :
    (db : Db) (new : StageRow)
    → new.attempt ≡ max_attempt new.run_id new.stage_id db.attempts + 1
    → run_is_running (select_run new.run_id db.runs) ≡ true
    → changes (of_running (of_stage new.run_id new.stage_id)) db.attempts ≡ 0
    → any (has_key new.run_id new.stage_id new.attempt) db.attempts ≡ false
    → Inv db
    → Inv (record db { attempts = db.attempts ++ new ∷ [] })
insert-Inv db new en live idle fresh v = record {
  keyed = λ run stage n. keyed_of_insert db.attempts new run stage n fresh (v.keyed run stage n);
  newest =
      All-append (IsNewest (db.attempts ++ new ∷ [])) db.attempts (new ∷ [])
        (All-map₂ (λ a h f. IsNewest-of_insert db.attempts new a h f) db.attempts v.newest
          (changes-zero (of_running (of_stage new.run_id new.stage_id)) db.attempts idle))
        (
          λ r. ground (
            arith,
            en,
            max_attempt-append new.run_id new.stage_id db.attempts new,
            eq_refl new.run_id,
            eq_refl new.stage_id,
          ),
          tt,
        );
  owned = All-append (IsOwned db) db.attempts (new ∷ []) v.owned (λ r. live, tt);
}

-- What happens to the runs keeps the invariant where every running attempt still has its run.
pub runs-Inv :
    (db : Db) (rows : List RunRow)
    → All (λ a. IsOwned db a → IsOwned (record db { runs = rows }) a) db.attempts
    → Inv db
    → Inv (record db { runs = rows })
runs-Inv db rows moves v = record {
  keyed = v.keyed;
  newest = v.newest;
  owned = All-map₂ (λ a h f. f h) db.attempts v.owned moves;
}
