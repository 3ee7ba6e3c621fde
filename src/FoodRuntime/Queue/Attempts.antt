-- ===== src/FoodRuntime/Queue/Attempts.antt =====
-- A job is claimed by one worker at a time, and claims run out
-- (packages/food-runtime/scripts/enrichment/queue.mjs).
use map_data_aggregation_enh.Base.{
  ℕ, ◌+◌, ◌-◌, ◌≤◌, ◌<◌, ◌≡◌, ◌≢◌, refl, sym, subst, ◌∙◌, String, Bool, true, false, Option, none,
  some, List, [], ◌∷◌, All, All-Any, Any, Bool-cases, inl, inr, eqb_iff, arith,
}
use map_data_aggregation_enh.Core.Identity.{Fields}
use map_data_aggregation_enh.FoodRuntime.Queue.{Job, Queue, is_pending, has_id, update_rows}
use map_data_aggregation_enh.FoodRuntime.Queue.Methods.{
  taken_job, claim_row, claim, completed_job, complete, failed_job, fail, retried_job, retry,
}
use map_data_aggregation_enh.FoodRuntime.Queue.Picked.{claim-HasTaken}

-- An update of rows, from what holds before to what holds after.
update_rows-All :
    {R : Type 0} (P Q : R → Type 0) (where_ : R → Bool) (set : R → R)
    → ((r : R) → where_ r ≡ true → P r → Q (set r))
    → ((r : R) → where_ r ≡ false → P r → Q r)
    → (rows : List R) → All P rows
    → All Q (update_rows where_ set rows)
update_rows-All P Q where_ set f g [] h = tt
update_rows-All P Q where_ set f g (r ∷ rows) h = elim (Bool-cases (where_ r)) [
  | inl t ↦ rw t (f r t h.0, update_rows-All P Q where_ set f g rows h.1)
  | inr e ↦ rw e (g r e h.0, update_rows-All P Q where_ set f g rows h.1)
]

-- The job with the ID is not pending.
abbrev IsTaken : ℕ → Job → Type 0
IsTaken id j = has_id id j ≡ true → is_pending j.status ≡ false

-- What other workers do while a job is processed: they claim, and end other jobs.
pub data Meanwhile (id : ℕ) (q : Queue) : Queue → Type 0 where
  nothing : Meanwhile id q q
  claims :
      {v : Queue} (now job_type worker : String) (place : Option String)
      → Meanwhile id q v
      → Meanwhile id q (claim now job_type worker place v).1
  completes :
      {v : Queue} (now : String) (other : ℕ) (output : Option Fields)
      → other ≢ id
      → Meanwhile id q v
      → Meanwhile id q (complete now other output v)
  fails :
      {v : Queue} (now : String) (other : ℕ) (message : String)
      → other ≢ id
      → Meanwhile id q v
      → Meanwhile id q (fail now other message v)
  retries :
      {v : Queue} (now : String) (other : ℕ) (message : String) (refund : Bool)
      → other ≢ id
      → Meanwhile id q v
      → Meanwhile id q (retry now other message refund v)

taken_job-IsTaken :
    (now worker : String) (id k : ℕ) (jobs : List Job)
    → All (IsTaken id) jobs
    → All (IsTaken id) (update_rows (has_id k) (taken_job now worker) jobs)
taken_job-IsTaken now worker id k jobs h =
    update_rows-All (IsTaken id) (IsTaken id) (has_id k) (taken_job now worker) (λ r t p s. refl)
      (λ r f p. p) jobs h

-- What is claimed is taken from then on.
now-IsTaken :
    (now worker : String) (id : ℕ) (jobs : List Job)
    → All (IsTaken id) (update_rows (has_id id) (taken_job now worker) jobs)
now-IsTaken now worker id jobs =
    update_rows-All (λ r. Unit {0}) (IsTaken id) (has_id id) (taken_job now worker)
      (λ r t p s. refl) (λ r f p s. absurd (ground arith)) jobs (all_units jobs)
  where
    all_units : (jobs : List Job) → All (λ r. Unit {0}) jobs
    all_units [] = tt
    all_units (j ∷ jobs) = (tt, all_units jobs)

-- A change of the jobs with another ID.
other-IsTaken :
    (set : Job → Job) (id other : ℕ) (jobs : List Job)
    → ((j : Job) → (set j).id ≡ j.id)
    → other ≢ id
    → All (IsTaken id) jobs
    → All (IsTaken id) (update_rows (has_id other) set jobs)
other-IsTaken set id other jobs same differ h =
    update_rows-All (IsTaken id) (IsTaken id) (has_id other) set
      (λ r t p s.
        absurd
          (differ (sym ((eqb_iff r.id other).0 t) ∙ (sym (same r) ∙ (eqb_iff (set r).id id).0 s))))
      (λ r f p. p) jobs h

claim_row-IsTaken :
    (now worker : String) (id : ℕ) (o : Option Job) (q : Queue)
    → All (IsTaken id) q.jobs
    → All (IsTaken id) (claim_row now worker o q).1.jobs
claim_row-IsTaken now worker id none q h = h
claim_row-IsTaken now worker id (some j) q h = taken_job-IsTaken now worker id j.id q.jobs h

Meanwhile-IsTaken :
    {id : ℕ} {q q' : Queue} → Meanwhile id q q' → All (IsTaken id) q.jobs → All (IsTaken id) q'.jobs
unfolding claim complete fail retry
Meanwhile-IsTaken nothing h = h
Meanwhile-IsTaken {id} (claims now job_type worker place before) h =
    claim_row-IsTaken now worker id _ _ (Meanwhile-IsTaken before h)
Meanwhile-IsTaken {id} (completes {v} now other output differ before) h =
    other-IsTaken (completed_job now output) id other v.jobs (λ j. refl) differ
      (Meanwhile-IsTaken before h)
Meanwhile-IsTaken {id} (fails {v} now other message differ before) h =
    other-IsTaken (failed_job now message) id other v.jobs (λ j. ground arith) differ
      (Meanwhile-IsTaken before h)
Meanwhile-IsTaken {id} (retries {v} now other message refund differ before) h =
    other-IsTaken (retried_job message refund) id other v.jobs (λ j. refl) differ
      (Meanwhile-IsTaken before h)

-- Once a worker has claimed a job, no claim gives that job again while other workers claim and end
-- other jobs.
pub claim_once :
    (now job_type worker : String) (place : Option String) (q : Queue) {q' q'' v : Queue}
    {c c' : Job}
    → claim now job_type worker place q ≡ (some c, q')
    → Meanwhile c.id q' q''
    → (now' job_type' worker' : String) (place' : Option String)
    → claim now' job_type' worker' place' q'' ≡ (some c', v)
    → c'.id ≢ c.id
claim_once now job_type worker place q {q'} {q''} {v} {c} {c'} h others now' job_type' worker'
      place' k same =
    let a = claim-HasTaken now job_type worker place q h in
    let id : a.job.id ≡ c.id = λ i. (sym a.claimed_job i).id in
    let taken : All (IsTaken c.id) q'.jobs = subst (All (IsTaken c.id)) (sym a.jobs_after) (
      subst (λ n. All (IsTaken c.id) (update_rows (has_id n) (taken_job now worker) q.jobs))
        (sym id) (now-IsTaken now worker c.id q.jobs)) in
    let b = claim-HasTaken now' job_type' worker' place' q'' k in
    let (fits, there, _) = b.picked in
    let id' : b.job.id ≡ c.id = (λ i. (sym b.claimed_job i).id) ∙ same in
    let held =
      All-Any (IsTaken c.id) q''.jobs (Meanwhile-IsTaken others taken) there
        ((eqb_iff b.job.id c.id).1 id') in
    absurd (ground arith)

-- The attempts that are left.
abbrev pub attempts_left : Job → ℕ
attempts_left j = j.max_attempts - j.attempts

abbrev pub total_left : List Job → ℕ
total_left [] = 0
total_left (j ∷ jobs) = attempts_left j + total_left jobs

taken_job_le :
    (now worker : String) (id : ℕ) (jobs : List Job)
    → total_left (update_rows (has_id id) (taken_job now worker) jobs) ≤ total_left jobs
taken_job_le now worker id [] = omega arith
taken_job_le now worker id (j ∷ jobs) = ground (arith, taken_job_le now worker id jobs)

pub taken_job_lt :
    (now worker : String) (jobs : List Job) (j : Job)
    → j.attempts < j.max_attempts
    → Any (λ x. x ≡ j) jobs
    → total_left (update_rows (has_id j.id) (taken_job now worker) jobs) < total_left jobs
taken_job_lt now worker [] j lt t = absurd t
taken_job_lt now worker (x ∷ jobs) j lt (inl e) =
    let moved : x.attempts < x.max_attempts =
      subst (λ (y : Job). y.attempts < y.max_attempts) (sym e) lt in
    let id : x.id ≡ j.id = λ i. (e i).id in ground (arith, taken_job_le now worker j.id jobs)
taken_job_lt now worker (x ∷ jobs) j lt (inr t) =
    ground (arith, taken_job_lt now worker jobs j lt t)

pub failed_same :
    (now message : String) (id : ℕ) (jobs : List Job)
    → total_left (update_rows (has_id id) (failed_job now message) jobs) ≡ total_left jobs
failed_same now message id [] = refl
failed_same now message id (j ∷ jobs) = ground (arith, failed_same now message id jobs)
