-- ===== src/FoodRuntime/Queue/Methods.antt =====
-- The methods of `JobQueue` that write jobs and workers
-- (packages/food-runtime/scripts/enrichment/queue.mjs).
use map_data_aggregation_enh.Base.{
  ℕ, suc, ◌+◌, ◌-◌, String, Bool, true, false, not, ◌&&◌, Option, none, some, List, [], ◌∷◌, ◌++◌,
  any, filter, find, ltb, ◌==◌, if◌then◌else◌,
}
use map_data_aggregation_enh.Core.Identity.{Fields, end, field, Json}
use map_data_aggregation_enh.FoodRuntime.Queue.{
  Job, JobStatus, pending, processing, completed, failed, Worker, idle, working, Queue,
  is_processing, update_rows, has_id, is_worker, same_identity, is_claimable, pick,
}

abbrev pub with_jobs : Queue → List Job → Queue
with_jobs q jobs = record { next_id = q.next_id; jobs = jobs; workers = q.workers }

abbrev pub with_workers : Queue → List Worker → Queue
with_workers q workers = record { next_id = q.next_id; jobs = q.jobs; workers = workers }

-- The arguments of `addJob`, with the priority that it calculates where none is given.
pub record NewJob : Type 0 where
  pub job_type : String
  pub osm_id : String
  pub place_type : String
  pub data_of : Option Fields
  pub priority : ℕ

abbrev pub new_job : String → ℕ → NewJob → Job
new_job now id n = record {
  id = id;
  job_type = n.job_type;
  osm_id = n.osm_id;
  place_type = n.place_type;
  priority = n.priority;
  status = pending;
  worker_id = none;
  attempts = 0;
  max_attempts = 3;
  last_error = none;
  data_of = n.data_of;
  created_at = now;
  started_at = none;
  completed_at = none;
}

-- INSERT … ON CONFLICT DO NOTHING
unfoldable pub add_job : String → NewJob → Queue → Bool × Queue
add_job now n q =
    if any (same_identity n.job_type n.place_type n.osm_id) q.jobs then (false, q) else (
      true,
      record {
        next_id = suc q.next_id;
        jobs = q.jobs ++ new_job now q.next_id n ∷ [];
        workers = q.workers;
      },
    )

abbrev pub counted : Bool × Queue → ℕ × Queue → ℕ × Queue
counted (true, q) (n, q') = (suc n, q')
counted (false, q) (n, q') = (n, q')

unfoldable pub add_jobs : String → List NewJob → Queue → ℕ × Queue
add_jobs now [] q = (0, q)
add_jobs now (n ∷ rest) q = counted (add_job now n q) (add_jobs now rest (add_job now n q).1)

abbrev pub taken_job : String → String → Job → Job
taken_job now worker j = record {
  id = j.id;
  job_type = j.job_type;
  osm_id = j.osm_id;
  place_type = j.place_type;
  priority = j.priority;
  status = processing;
  worker_id = some worker;
  attempts = suc j.attempts;
  max_attempts = j.max_attempts;
  last_error = j.last_error;
  data_of = j.data_of;
  created_at = j.created_at;
  started_at = some now;
  completed_at = j.completed_at;
}

abbrev pub set_working : String → ℕ → Worker → Worker
set_working now id w = record {
  worker_id = w.worker_id;
  agent_type = w.agent_type;
  status = working;
  current_job_id = some id;
  jobs_completed = w.jobs_completed;
  jobs_failed = w.jobs_failed;
  last_heartbeat = now;
  started_at = w.started_at;
  config = w.config;
}

abbrev pub claim_row : String → String → Option Job → Queue → Option Job × Queue
claim_row now worker none q = (none, q)
claim_row now worker (some j) q = (
  some (taken_job now worker j),
  record {
    next_id = q.next_id;
    jobs = update_rows (has_id j.id) (taken_job now worker) q.jobs;
    workers = update_rows (is_worker worker) (set_working now j.id) q.workers;
  },
)

-- What `claim` returns is taken from the row as it is after the update.
unfoldable pub claim : String → String → String → Option String → Queue → Option Job × Queue
claim now job_type worker place q =
    claim_row now worker (pick (is_claimable job_type place) q.jobs) q

-- A worker is done with its job.
abbrev pub set_idle : String → (completed_more failed_more : ℕ) → Worker → Worker
set_idle now completed_more failed_more w = record {
  worker_id = w.worker_id;
  agent_type = w.agent_type;
  status = idle;
  current_job_id = none;
  jobs_completed = w.jobs_completed + completed_more;
  jobs_failed = w.jobs_failed + failed_more;
  last_heartbeat = now;
  started_at = w.started_at;
  config = w.config;
}

-- `if (job?.worker_id)`
abbrev pub free_worker : (Worker → Worker) → Option String → List Worker → List Worker
free_worker set none workers = workers
free_worker set (some id) workers =
    if id == "" then workers else update_rows (is_worker id) set workers

abbrev pub worker_of : Option Job → Option String
worker_of none = none
worker_of (some j) = j.worker_id

-- A change of the job with an ID, and then of its worker.
abbrev pub settle : ℕ → (Job → Job) → (Worker → Worker) → Queue → Queue
settle id set_job set_worker q = record {
  next_id = q.next_id;
  jobs = update_rows (has_id id) set_job q.jobs;
  workers = free_worker set_worker (worker_of (find (has_id id) q.jobs)) q.workers;
}

abbrev pub set_field : String → Json → Fields → Fields
set_field k v end = field k v end
set_field k v (field j w fs) =
    let rest = set_field k v fs in if j == k then field j v fs else field j w rest

-- `{ ...previous, ...outputData }`
abbrev pub spread : Fields → Fields → Fields
spread fs end = fs
spread fs (field k v more) = spread (set_field k v fs) more

abbrev pub merged : Option Fields → Option Fields → Option Fields
merged previous none = previous
merged none (some output) = some (spread end output)
merged (some fs) (some output) = some (spread fs output)

abbrev pub completed_job : String → Option Fields → Job → Job
completed_job now output j = record {
  id = j.id;
  job_type = j.job_type;
  osm_id = j.osm_id;
  place_type = j.place_type;
  priority = j.priority;
  status = completed;
  worker_id = j.worker_id;
  attempts = j.attempts;
  max_attempts = j.max_attempts;
  last_error = j.last_error;
  data_of = merged j.data_of output;
  created_at = j.created_at;
  started_at = j.started_at;
  completed_at = some now;
}

unfoldable pub complete : String → ℕ → Option Fields → Queue → Queue
complete now id output q = settle id (completed_job now output) (set_idle now 1 0) q

-- The status and the times that a job is put back with, or failed for good.
abbrev pub put_back :
    JobStatus → ℕ → Option String → Option String → Option String → Option Fields → Job → Job
put_back status attempts started completed_at error data_of j = record {
  id = j.id;
  job_type = j.job_type;
  osm_id = j.osm_id;
  place_type = j.place_type;
  priority = j.priority;
  status = status;
  worker_id = none;
  attempts = attempts;
  max_attempts = j.max_attempts;
  last_error = error;
  data_of = data_of;
  created_at = j.created_at;
  started_at = started;
  completed_at = completed_at;
}

abbrev pub failed_job : String → String → Job → Job
failed_job now message j =
    if ltb j.attempts j.max_attempts
    then put_back pending j.attempts j.started_at none (some message) j.data_of j
    else put_back failed j.attempts j.started_at (some now) (some message) j.data_of j

unfoldable pub fail : String → ℕ → String → Queue → Queue
fail now id message q = settle id (failed_job now message) (set_idle now 0 1) q

abbrev pub refunded : Bool → ℕ → ℕ
refunded true attempts = attempts - 1
refunded false attempts = attempts

abbrev pub retried_job : String → Bool → Job → Job
retried_job message refund j =
    put_back pending (refunded refund j.attempts) none none (some message) j.data_of j

unfoldable pub retry : String → ℕ → String → Bool → Queue → Queue
retry now id message refund q = settle id (retried_job message refund) (set_idle now 0 0) q

-- The jobs of a worker that leaves are pending again.
abbrev pub released_job : Job → Job
released_job j = put_back pending j.attempts none j.completed_at j.last_error j.data_of j

abbrev pub is_held_by : String → Job → Bool
is_held_by worker j =
    is_processing j.status && (elim j.worker_id [ none ↦ false | some w ↦ w == worker ])

unfoldable pub unregister_worker : String → Queue → Queue
unregister_worker worker q = record {
  next_id = q.next_id;
  jobs = update_rows (is_held_by worker) released_job q.jobs;
  workers = filter (λ (w : Worker). not (is_worker worker w)) q.workers;
}
