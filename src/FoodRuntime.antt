-- ===== src/FoodRuntime.antt =====
-- The policies and the job queue of the food runtime (packages/food-runtime/scripts).
pub mod WorkBudget
pub mod Queue
