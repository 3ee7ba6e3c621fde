-- ===== src/FoodRuntime/Queue/Claims.antt =====
-- What a claim does to the tables (packages/food-runtime/scripts/enrichment/queue.mjs).
use map_data_aggregation_enh.Base.{
  ℕ, suc, ◌≡◌, ◌≢◌, refl, sym, subst, ◌⊎◌, inl, inr, String, Bool, true, false, Option, some, List,
  [], ◌∷◌, All, All-map, Any, Bool-cases, eqb_iff, eq_iff, arith,
}
use map_data_aggregation_enh.FoodRuntime.Queue.{
  Job, processing, Worker, working, Queue, has_id, is_worker, update_rows,
}
use map_data_aggregation_enh.FoodRuntime.Queue.Methods.{taken_job, set_working, claim}
use map_data_aggregation_enh.FoodRuntime.Queue.Picked.{claim-HasTaken}
use map_data_aggregation_enh.FoodRuntime.Queue.Order.{
  IsClaimable, Precedes, is_claimable-IsClaimable, IsClaimable-is_claimable, Precedes-comes_before,
}

-- The job as a worker claims it.
pub record IsClaimOf (now worker : String) (j c : Job) : Type 0 where
  pub id : c.id ≡ j.id
  pub job_type : c.job_type ≡ j.job_type
  pub osm_id : c.osm_id ≡ j.osm_id
  pub place_type : c.place_type ≡ j.place_type
  pub priority : c.priority ≡ j.priority
  pub status : c.status ≡ processing
  pub worker_id : c.worker_id ≡ some worker
  pub attempts : c.attempts ≡ suc j.attempts
  pub max_attempts : c.max_attempts ≡ j.max_attempts
  pub last_error : c.last_error ≡ j.last_error
  pub data_of : c.data_of ≡ j.data_of
  pub created_at : c.created_at ≡ j.created_at
  pub started_at : c.started_at ≡ some now
  pub completed_at : c.completed_at ≡ j.completed_at

-- The worker as it works on the job.
pub record IsAtWork (now : String) (id : ℕ) (w v : Worker) : Type 0 where
  pub worker_id : v.worker_id ≡ w.worker_id
  pub agent_type : v.agent_type ≡ w.agent_type
  pub status : v.status ≡ working
  pub current_job_id : v.current_job_id ≡ some id
  pub jobs_completed : v.jobs_completed ≡ w.jobs_completed
  pub jobs_failed : v.jobs_failed ≡ w.jobs_failed
  pub last_heartbeat : v.last_heartbeat ≡ now
  pub started_at : v.started_at ≡ w.started_at
  pub config : v.config ≡ w.config

-- Two tables of the same length, row by row.
abbrev Rows : {A : Type 0} → (A → A → Type 0) → List A → List A → Type 0
Rows R [] [] = Unit
Rows R [] (y ∷ ys) = ⊥
Rows R (x ∷ xs) [] = ⊥
Rows R (x ∷ xs) (y ∷ ys) = R x y × Rows R xs ys

-- A row with the ID is claimed, any other is as it was.
abbrev JobAfter : String → String → ℕ → Job → Job → Type 0
JobAfter now worker id j c = ((j.id ≡ id) × IsClaimOf now worker j c) ⊎ ((j.id ≢ id) × (c ≡ j))

abbrev WorkerAfter : String → String → ℕ → Worker → Worker → Type 0
WorkerAfter now worker id w v =
    ((w.worker_id ≡ worker) × IsAtWork now id w v) ⊎ ((w.worker_id ≢ worker) × (v ≡ w))

-- What a claim that finds a job did.
pub record HasClaimed (now job_type worker : String) (place : Option String) (q q' : Queue)
    (c : Job) : Type 0 where
  pub job : Job
  pub there : Any (λ x. x ≡ job) q.jobs
  pub claimable : IsClaimable job_type place job
  pub is_first : All (λ k. IsClaimable job_type place k → ¬ (Precedes k job)) q.jobs
  pub claimed_job : IsClaimOf now worker job c
  pub jobs_after : Rows (JobAfter now worker job.id) q.jobs q'.jobs
  pub workers_after : Rows (WorkerAfter now worker job.id) q.workers q'.workers
  pub next_after : q'.next_id ≡ q.next_id

taken_job-IsClaimOf :
    (now worker : String) (j : Job) → IsClaimOf now worker j (taken_job now worker j)
taken_job-IsClaimOf now worker j = record {
  id = refl;
  job_type = refl;
  osm_id = refl;
  place_type = refl;
  priority = refl;
  status = refl;
  worker_id = refl;
  attempts = refl;
  max_attempts = refl;
  last_error = refl;
  data_of = refl;
  created_at = refl;
  started_at = refl;
  completed_at = refl;
}

set_working-IsAtWork :
    (now : String) (id : ℕ) (w : Worker) → IsAtWork now id w (set_working now id w)
set_working-IsAtWork now id w = record {
  worker_id = refl;
  agent_type = refl;
  status = refl;
  current_job_id = refl;
  jobs_completed = refl;
  jobs_failed = refl;
  last_heartbeat = refl;
  started_at = refl;
  config = refl;
}

update_rows-Rows :
    {A : Type 0} (R : A → A → Type 0) (where_ : A → Bool) (set : A → A)
    → ((x : A) → where_ x ≡ true → R x (set x))
    → ((x : A) → where_ x ≡ false → R x x)
    → (rows : List A) → Rows R rows (update_rows where_ set rows)
update_rows-Rows R where_ set f g [] = tt
update_rows-Rows R where_ set f g (x ∷ rows) = elim (Bool-cases (where_ x)) [
  | inl t ↦ rw t (f x t, update_rows-Rows R where_ set f g rows)
  | inr e ↦ rw e (g x e, update_rows-Rows R where_ set f g rows)
]

jobs-JobAfter :
    (now worker : String) (id : ℕ) (jobs : List Job)
    → Rows (JobAfter now worker id) jobs (update_rows (has_id id) (taken_job now worker) jobs)
jobs-JobAfter now worker id jobs =
    update_rows-Rows (JobAfter now worker id) (has_id id) (taken_job now worker)
      (λ j t. inl ((eqb_iff j.id id).0 t, taken_job-IsClaimOf now worker j))
      (λ j f. inr ((λ e. let t = (eqb_iff j.id id).1 e in absurd (ground arith)), refl)) jobs

workers-WorkerAfter :
    (now worker : String) (id : ℕ) (workers : List Worker)
    → Rows
        (WorkerAfter now worker id)
        workers
        (update_rows (is_worker worker) (set_working now id) workers)
workers-WorkerAfter now worker id workers =
    update_rows-Rows (WorkerAfter now worker id) (is_worker worker) (set_working now id)
      (λ w t. inl ((eq_iff w.worker_id worker).0 t, set_working-IsAtWork now id w))
      (λ w f. inr ((λ e. let t = (eq_iff w.worker_id worker).1 e in absurd (ground arith)), refl))
      workers

-- A claim that finds a job takes one of the queue that is pending, of the type and, where one is
-- demanded, of the place type, and has attempts left, and before which no other such job comes: first
-- the scrapes without an error, then by descending priority, then by the time of creation. The job it
-- gives is that one, being processed by the worker from now on, with one attempt more, and so it
-- stands in the queue; the worker is recorded as working on it; and all else is as it was.
pub claim-HasClaimed :
    (now job_type worker : String) (place : Option String) (q : Queue) {q' : Queue} {c : Job}
    → claim now job_type worker place q ≡ (some c, q')
    → HasClaimed now job_type worker place q q' c
claim-HasClaimed now job_type worker place q h =
    let a = claim-HasTaken now job_type worker place q h in
    let (fits, there, others) = a.picked in
    record {
      job = a.job;
      there = there;
      claimable = is_claimable-IsClaimable job_type place a.job fits;
      is_first =
          All-map
            (λ k none_before fit before.
              let late = none_before (IsClaimable-is_claimable job_type place k fit) in
              let early = Precedes-comes_before k a.job before in absurd (ground arith))
            q.jobs others;
      claimed_job =
          subst (IsClaimOf now worker a.job) (sym a.claimed_job)
            (taken_job-IsClaimOf now worker a.job);
      jobs_after =
          subst (Rows (JobAfter now worker a.job.id) q.jobs) (sym a.jobs_after)
            (jobs-JobAfter now worker a.job.id q.jobs);
      workers_after =
          subst (Rows (WorkerAfter now worker a.job.id) q.workers) (sym a.workers_after)
            (workers-WorkerAfter now worker a.job.id q.workers);
      next_after = a.next_after;
    }
