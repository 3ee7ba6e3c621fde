-- ===== src/StateSqlite/Running/Newest.antt =====
-- Rows, and the greatest attempt of their stage (packages/state-sqlite/src/index.ts).
use map_data_aggregation_enh.Base.{
  All-map₂, ◌≤◌, ◌≡◌, refl, String, Bool, true, false, not, ◌&&◌, List, [], ◌∷◌, All, All-map, any,
  filter, Bool-cases, inl, inr, eq_iff, eq_refl, arith,
}
use map_data_aggregation_enh.StateSqlite.Tables.{
  StageRow, is_running, is_succeeded, is_latest, max_attempt, changes,
}
use map_data_aggregation_enh.StateSqlite.Methods.{of_run, latest_rows}
use map_data_aggregation_enh.StateSqlite.Running.{IsNewest}

module _ {R : Type 0} (q : R → Bool) where
  pub changes-zero : (rows : List R) → changes q rows ≡ 0 → All (λ r. q r ≡ false) rows
  changes-zero [] h = tt
  changes-zero (r ∷ rows) h = elim (Bool-cases (q r)) [
    | inl t ↦ absurd (ground arith)
    | inr f ↦ (f, changes-zero rows (ground arith))
  ]

  pub zero-changes : (rows : List R) → All (λ r. q r ≡ false) rows → changes q rows ≡ 0
  zero-changes [] h = refl
  zero-changes (r ∷ rows) h = rw h.0 (zero-changes rows h.1)

  pub any-filter :
      (f : R → Bool) (rows : List R)
      → any f (filter q rows) ≡ false
      → All (λ r. q r ≡ true → f r ≡ false) rows
  any-filter f [] h = tt
  any-filter f (r ∷ rows) h = elim (Bool-cases (q r)) [
    | inl t ↦ (λ e. ground arith, any-filter f rows (ground arith))
    | inr x ↦ (λ e. cc, any-filter f rows (ground arith))
  ]

max_attempt_mono :
    (run stage : String) (b : StageRow) (rows : List StageRow)
    → max_attempt run stage rows ≤ max_attempt run stage (b ∷ rows)
max_attempt_mono run stage b rows = ground arith

-- No attempt of a stage is above the greatest.
pub attempt-le-max :
    (rows : List StageRow) → All (λ a. a.attempt ≤ max_attempt a.run_id a.stage_id rows) rows
attempt-le-max [] = tt
attempt-le-max (b ∷ rows) = (
  ground (arith, eq_refl b.run_id, eq_refl b.stage_id),
  All-map (λ a h. omega (arith, h, max_attempt_mono a.run_id a.stage_id b rows)) rows
      (attempt-le-max rows),
)

latest_not_running :
    (run : String) (rows : List StageRow) (a : StageRow)
    → IsNewest rows a
    → a.attempt ≤ max_attempt a.run_id a.stage_id rows
    → (is_latest run rows a ≡ true → not (is_succeeded a.status) ≡ false)
    → (of_run run a && is_running a.status) ≡ false
latest_not_running run rows a new le latest = elim (Bool-cases (is_running a.status)) [
  | inl t ↦ ground (arith, new t, eq_iff a.run_id run, latest)
  | inr f ↦ ground arith
]

-- Where the latest attempts of a run have all succeeded, none of its attempts is running.
pub latest_succeeded_idle :
    (run : String) (rows : List StageRow)
    → All (IsNewest rows) rows
    → any (λ a. not (is_succeeded a.status)) (latest_rows run rows) ≡ false
    → All (λ a. (of_run run a && is_running a.status) ≡ false) rows
latest_succeeded_idle run rows new done =
    All-map₂ {P = λ a. IsNewest rows a × (a.attempt ≤ max_attempt a.run_id a.stage_id rows)}
      (λ a n l. latest_not_running run rows a n.0 n.1 l) rows
      (All-map₂ (λ a n l. (n, l)) rows new (attempt-le-max rows))
      (any-filter (is_latest run rows) (λ a. not (is_succeeded a.status)) rows done)
