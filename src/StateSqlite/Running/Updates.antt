-- ===== src/StateSqlite/Running/Updates.antt =====
-- What an UPDATE or INSERT of attempts keeps (packages/state-sqlite/src/index.ts).
use map_data_aggregation_enh.Base.{
  ◌≡◌, refl, String, Bool, true, false, List, [], ◌∷◌, ◌++◌, All, Bool-cases, inl, inr, eq_iff, ltb,
  ◌==◌, arith, if◌then◌else◌,
}
use map_data_aggregation_enh.StateSqlite.Tables.{
  StageRow, RunRow, of_stage, has_run_id, max_attempt, update, select_run,
}
use map_data_aggregation_enh.StateSqlite.Methods.{run_is_running}

module _ {R : Type 0} (P Q : R → Type 0) (p : R → Bool) (set : R → R)
    (hit : (r : R) → P r → p r ≡ true → Q (set r)) (miss : (r : R) → P r → p r ≡ false → Q r) where
  pub All-update : (rows : List R) → All P rows → All Q (update p set rows)
  All-update [] h = tt
  All-update (r ∷ rows) h = elim (Bool-cases (p r)) [
    | inl t ↦ rw t (hit r h.0 t, All-update rows h.1)
    | inr f ↦ rw f (miss r h.0 f, All-update rows h.1)
  ]

module _ {R : Type 0} (P : R → Type 0) where
  pub All-append : (xs ys : List R) → All P xs → All P ys → All P (xs ++ ys)
  All-append [] ys h k = k
  All-append (x ∷ xs) ys h k = (h.0, All-append xs ys h.1 k)

module _ (p : StageRow → Bool) (set : StageRow → StageRow)
    (same_run : (a : StageRow) → (set a).run_id ≡ a.run_id)
    (same_stage : (a : StageRow) → (set a).stage_id ≡ a.stage_id)
    (same_number : (a : StageRow) → (set a).attempt ≡ a.attempt) where
  pub max_attempt-update :
      (run stage : String) (rows : List StageRow)
      → max_attempt run stage (update p set rows) ≡ max_attempt run stage rows
  max_attempt-update run stage [] = refl
  max_attempt-update run stage (a ∷ rows) =
      ground (arith, same_run a, same_stage a, same_number a, max_attempt-update run stage rows)

pub max_attempt-append :
    (run stage : String) (rows : List StageRow) (a : StageRow)
    → max_attempt run stage (rows ++ a ∷ []) ≡ (
        if of_stage run stage a
        then (if ltb (max_attempt run stage rows) a.attempt
            then a.attempt
            else max_attempt run stage rows)
        else max_attempt run stage rows)
max_attempt-append run stage [] a = ground arith
max_attempt-append run stage (b ∷ rows) a = ground (arith, max_attempt-append run stage rows a)

-- A run that runs goes on running when another is inserted.
pub run_is_running-append :
    (id : String) (runs : List RunRow) (r : RunRow)
    → run_is_running (select_run id runs) ≡ true
    → run_is_running (select_run id (runs ++ r ∷ [])) ≡ true
run_is_running-append id [] r h = cc
run_is_running-append id (q ∷ runs) r h = ground (arith, run_is_running-append id runs r)

-- And when another is updated.
pub run_is_running-update :
    (id other : String) (p : RunRow → Bool) (set : RunRow → RunRow)
    → ((r : RunRow) → (set r).run_id ≡ r.run_id)
    → ((r : RunRow) → p r ≡ true → has_run_id other r ≡ true)
    → (other == id) ≡ false
    → (runs : List RunRow) → run_is_running (select_run id runs) ≡ true
    → run_is_running (select_run id (update p set runs)) ≡ true
run_is_running-update id other p set same only ne [] h = cc
run_is_running-update id other p set same only ne (q ∷ runs) h = ground (
  arith,
  same q,
  only q,
  eq_iff q.run_id id,
  eq_iff q.run_id other,
  eq_iff other id,
  run_is_running-update id other p set same only ne runs,
)
