-- ===== src/FoodRuntime/WorkBudget/Examples.antt =====
-- A budget of two pages, and three regions.
use map_data_aggregation_enh.Base.{ℕ, ◌<◌, ◌≡◌, refl, false, none, some, [], ◌∷◌, ok, err, arith}
use map_data_aggregation_enh.Base.Numbers.{nat}
use map_data_aggregation_enh.FoodRuntime.WorkBudget.{
  budget_exceeded, source_region_index_for_run, scored_from, insert_scored, sort_scored,
  select_source_region_index,
}
use map_data_aggregation_enh.FoodRuntime.WorkBudget.Regions.{
  charge, charge_budget, IsListed, select-IsListed,
}

largest_backlog :
    select_source_region_index
      (nat 5)
      (nat 0)
      (nat 3)
      (some (nat 2) ∷ none ∷ some (nat 9) ∷ [])
      false
    ≡ ok (nat 2)
unfolding select_source_region_index source_region_index_for_run scored_from insert_scored
    sort_scored
largest_backlog = refl

failures_rotate :
    select_source_region_index
      (nat 5)
      (nat 3)
      (nat 3)
      (some (nat 2) ∷ none ∷ some (nat 9) ∷ [])
      false
    ≡ ok (nat 0)
unfolding select_source_region_index source_region_index_for_run scored_from insert_scored
    sort_scored
failures_rotate = refl

charge_budget_example :
    (charge 2 (nat 0) (nat 2) ≡ ok (nat 2))
    × ((n : ℕ) → 2 < n → charge n (nat 0) (nat 2) ≡ err budget_exceeded)
charge_budget_example = charge_budget 2 (omega arith) (omega arith)

select-IsListed_example : IsListed 3 (nat 2)
select-IsListed_example =
    select-IsListed (nat 5) (nat 0) (nat 3) (some (nat 2) ∷ none ∷ some (nat 9) ∷ []) false
      largest_backlog
