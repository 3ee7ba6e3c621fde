-- ===== src/FoodRuntime/Queue/Recover.antt =====
-- `recoverOrphaned`, `registerWorker` and `heartbeat`
-- (packages/food-runtime/scripts/enrichment/queue.mjs).
use map_data_aggregation_enh.Base.{
  ℕ, String, Bool, true, false, not, ◌&&◌, ◌||◌, Option, none, some, List, [], ◌∷◌, ◌++◌, any,
  filter, find, includes, length, eqb, is_nil, if◌then◌else◌,
}
use map_data_aggregation_enh.Base.TextOrder.{text_lt}
use map_data_aggregation_enh.Core.Identity.{Fields}
use map_data_aggregation_enh.FoodRuntime.Queue.{
  Job, pending, failed, Worker, WorkerStatus, idle, working, Queue, is_processing, update_rows,
  has_id, is_worker,
}
use map_data_aggregation_enh.FoodRuntime.Queue.Methods.{
  with_workers, set_idle, free_worker, put_back,
}

-- The arguments. `cutoff` is the time that SQL computes from the timeout, `message` the error that is
-- recorded; an absent or empty list of types is no filter.
pub record Recovery : Type 0 where
  pub cutoff : String
  pub message : String
  pub fail_job_types : List String
  pub require_detached_worker : Bool
  pub job_types : List String
  pub place_types : List String

abbrev pub is_working : WorkerStatus → Bool
is_working working = true
is_working idle = false

abbrev pub started_before : String → Option String → Bool
started_before cutoff none = false
started_before cutoff (some t) = text_lt t cutoff

-- `Number(null)` is 0.
abbrev pub works_on : ℕ → Option ℕ → Bool
works_on id none = eqb 0 id
works_on id (some current) = eqb current id

abbrev pub is_busy_with : ℕ → Option Worker → Bool
is_busy_with id none = false
is_busy_with id (some w) = is_working w.status && works_on id w.current_job_id

abbrev pub joined : List Worker → Option String → Option Worker
joined workers none = none
joined workers (some id) = find (is_worker id) workers

abbrev pub in_scope : List String → String → Bool
in_scope types t = is_nil types || includes types t

unfoldable pub is_orphan : Recovery → List Worker → Job → Bool
is_orphan r workers j =
    is_processing j.status
    && started_before r.cutoff j.started_at
    && in_scope r.job_types j.job_type
    && in_scope r.place_types j.place_type
    && (not r.require_detached_worker || not (is_busy_with j.id (joined workers j.worker_id)))

abbrev pub recovered_job : String → Recovery → Bool → Job → Job
recovered_job now r true j = put_back failed j.attempts none (some now) (some r.message) j.data_of j
recovered_job now r false j = put_back pending j.attempts none none (some r.message) j.data_of j

unfoldable pub recover_all : String → Recovery → List Job → Queue → Queue
recover_all now r [] q = q
recover_all now r (j ∷ rest) q = recover_all now r rest (record {
  next_id = q.next_id;
  jobs =
      update_rows (has_id j.id) (recovered_job now r (includes r.fail_job_types j.job_type)) q.jobs;
  workers = free_worker (set_idle now 0 0) j.worker_id q.workers;
})

unfoldable pub recover_orphaned : String → Recovery → Queue → ℕ × Queue
recover_orphaned now r q =
    let orphans = filter (is_orphan r q.workers) q.jobs in
    (length orphans, recover_all now r orphans q)

abbrev pub new_worker : String → String → String → Option Fields → Worker
new_worker now id agent_type config = record {
  worker_id = id;
  agent_type = agent_type;
  status = idle;
  current_job_id = none;
  jobs_completed = 0;
  jobs_failed = 0;
  last_heartbeat = now;
  started_at = now;
  config = config;
}

abbrev pub registered_again : String → Option Fields → Worker → Worker
registered_again now config w = record {
  worker_id = w.worker_id;
  agent_type = w.agent_type;
  status = idle;
  current_job_id = w.current_job_id;
  jobs_completed = w.jobs_completed;
  jobs_failed = w.jobs_failed;
  last_heartbeat = w.last_heartbeat;
  started_at = now;
  config = config;
}

unfoldable pub register_worker : String → String → String → Option Fields → Queue → Queue
register_worker now id agent_type config q =
    if any (is_worker id) q.workers
    then with_workers q (update_rows (is_worker id) (registered_again now config) q.workers)
    else with_workers q (q.workers ++ new_worker now id agent_type config ∷ [])

abbrev pub beaten : String → Worker → Worker
beaten now w = record {
  worker_id = w.worker_id;
  agent_type = w.agent_type;
  status = w.status;
  current_job_id = w.current_job_id;
  jobs_completed = w.jobs_completed;
  jobs_failed = w.jobs_failed;
  last_heartbeat = now;
  started_at = w.started_at;
  config = w.config;
}

unfoldable pub heartbeat : String → String → Queue → Queue
heartbeat now id q = with_workers q (update_rows (is_worker id) (beaten now) q.workers)
