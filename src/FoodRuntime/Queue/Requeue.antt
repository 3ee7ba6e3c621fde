-- ===== src/FoodRuntime/Queue/Requeue.antt =====
-- `requeueCompleted` (packages/food-runtime/scripts/enrichment/queue.mjs).
use map_data_aggregation_enh.Base.{
  ℕ, String, Bool, true, false, ◌&&◌, Option, none, some, find, ◌==◌, if◌then◌else◌, Result, ok,
  err,
}
use map_data_aggregation_enh.Base.Numbers.{Num, nat, is_nan, ge, add}
use map_data_aggregation_enh.Core.Identity.{Fields, end, field, Json, num}
use map_data_aggregation_enh.FoodRuntime.Queue.{
  Job, pending, Queue, is_completed, update_rows, has_id,
}
use map_data_aggregation_enh.FoodRuntime.Queue.Methods.{with_jobs, put_back, set_field}

abbrev pub get_field : String → Fields → Option Json
get_field k end = none
get_field k (field j v fs) = let rest = get_field k fs in if j == k then some v else rest

pub data QueueError : Type 0 where
  data_is_null : QueueError

abbrev pub requeued_job : String → Fields → Job → Job
requeued_job message fs j = put_back pending j.attempts none none (some message) (some fs) j

-- `Number(value)`, which is NaN of `undefined`.
module _ (number_of : Option Json → Num) where
  -- `Number(data.partial_reprocess_count) || 0`
  abbrev pub reprocess_count : Fields → Num
  reprocess_count fs =
      let n = number_of (get_field "partial_reprocess_count" fs) in if is_nan n then nat 0 else n

  abbrev pub requeue_with :
      ℕ → String → Num → Queue → Option Fields → Result QueueError (Bool × Queue)
  requeue_with id message max_requeues q none = err data_is_null
  requeue_with id message max_requeues q (some fs) =
      let n = reprocess_count fs in
      if ge n max_requeues
      then ok (false, q)
      else ok (
        true,
        with_jobs q (
            update_rows (λ (j : Job). has_id id j && is_completed j.status)
              (requeued_job message (set_field "partial_reprocess_count" (num (add n (nat 1))) fs))
              q.jobs),
      )

  abbrev pub requeue_found :
      ℕ → String → Num → Queue → Option Job → Result QueueError (Bool × Queue)
  requeue_found id message max_requeues q none = ok (false, q)
  requeue_found id message max_requeues q (some j) =
      let again = requeue_with id message max_requeues q j.data_of in
      if is_completed j.status then again else ok (false, q)

  unfoldable pub requeue_completed : ℕ → String → Num → Queue → Result QueueError (Bool × Queue)
  requeue_completed id message max_requeues q =
      requeue_found id message max_requeues q (find (has_id id) q.jobs)
