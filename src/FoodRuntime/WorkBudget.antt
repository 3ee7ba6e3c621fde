-- ===== src/FoodRuntime/WorkBudget.antt =====
-- packages/food-runtime/scripts/lib/source-work-budget.mjs: how many pages a run may fetch, and which
-- region it starts with.
pub mod Regions
mod Examples
use map_data_aggregation_enh.Base.{
  ℕ, suc, ◌+◌, ◌%◌, Bool, true, false, not, ◌&&◌, ◌||◌, Option, none, some, List, [], ◌∷◌, length,
  filter, is_nil, ltb, Result, ok, err, refuse, ◌>>=◌, ◌>>◌, if◌then◌else◌,
}
use map_data_aggregation_enh.Base.Numbers.{
  Num, nat, neg, nan, bad_natural, bad_positive, gt, ge, lt, num_eq, add,
}

pub data BudgetError : Type 0 where
  invalid_budget budget_exceeded invalid_rotation invalid_cursor : BudgetError

unfoldable pub next_source_work_unit_count : Num → Num → Result BudgetError Num
next_source_work_unit_count current maximum = do
  refuse (bad_natural current || bad_positive maximum) invalid_budget
  refuse (ge current maximum) budget_exceeded
  ok (add current (nat 1))

-- `%` on the natural numbers, which is all that passes the checks before it.
abbrev pub rem : Num → Num → Num
rem (nat a) (nat b) = nat (a % b)
rem _ _ = nan

abbrev pub is_rotating : Num → Num → Num → Bool
is_rotating failures threshold count =
    gt count (nat 1) && gt threshold (nat 0) && ge failures threshold

unfoldable pub source_region_index_for_run : Num → Num → Num → Num → Result BudgetError Num
source_region_index_for_run index failures threshold count = do
  refuse (bad_natural index || bad_natural failures || bad_natural threshold || bad_positive count)
      invalid_rotation
  ok (
      if is_rotating failures threshold count
      then rem (add index (nat 1)) count
      else rem index count)

-- A region with work: its backlog and its index.
pub record Scored : Type 0 where
  pub backlog : Num
  pub region_index : ℕ

abbrev pub with_work : ℕ → Option Num → List Scored → List Scored
with_work i none rest = rest
with_work i (some b) rest =
    if gt b (nat 0) then (record { backlog = b; region_index = i }) ∷ rest else rest

-- The regions whose backlog is known and positive, with their indices.
unfoldable pub scored_from : ℕ → List (Option Num) → List Scored
scored_from i [] = []
scored_from i (b ∷ rest) = let later = scored_from (suc i) rest in with_work i b later

-- The order of the sort: a larger backlog first, then a smaller index.
abbrev pub is_before : Scored → Scored → Bool
is_before a b =
    lt b.backlog a.backlog || num_eq a.backlog b.backlog && ltb a.region_index b.region_index

unfoldable pub insert_scored : Scored → List Scored → List Scored
insert_scored a [] = a ∷ []
insert_scored a (b ∷ rest) =
    let later = insert_scored a rest in if is_before b a then b ∷ later else a ∷ b ∷ rest

unfoldable pub sort_scored : List Scored → List Scored
sort_scored [] = []
sort_scored (a ∷ rest) = insert_scored a (sort_scored rest)

abbrev pub first_index : Num → List Scored → Num
first_index otherwise [] = otherwise
first_index otherwise (a ∷ rest) = nat a.region_index

unfoldable pub select_source_region_index :
    Num → Num → Num → List (Option Num) → Bool → Result BudgetError Num
select_source_region_index index failures threshold backlogs pending = do
  rotated ← source_region_index_for_run index failures threshold (nat (length backlogs))
  ok (
      if pending || is_rotating failures threshold (nat (length backlogs))
      then rotated
      else first_index rotated (sort_scored (scored_from 0 backlogs)))

unfoldable pub advance_source_region_index : Num → Num → Num → Result BudgetError Num
advance_source_region_index start completed count = do
  refuse (bad_natural start || bad_positive completed || bad_positive count) invalid_cursor
  ok (rem (add start completed) count)
