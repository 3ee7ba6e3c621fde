-- ===== src/FoodRuntime/Queue/Calls.antt =====
-- Calls of a queue, one after the other (packages/food-runtime/scripts/enrichment/queue.mjs).
use map_data_aggregation_enh.Base.{
  ℕ, ◌≤◌, ◌≡◌, refl, String, Bool, true, false, ◌&&◌, Option, none, some, List, [], ◌∷◌, any, find,
  filter, Bool-cases, inl, inr, includes, Result, ok, err, arith,
}
use map_data_aggregation_enh.Base.Numbers.{Num, ge, nat, add}
use map_data_aggregation_enh.Core.Identity.{Fields, Json, num}
use map_data_aggregation_enh.FoodRuntime.Queue.{
  Job, Queue, is_claimable, is_completed, pick, has_id, same_identity, is_worker,
}
use map_data_aggregation_enh.FoodRuntime.Queue.Methods.{
  NewJob, new_job, add_job, add_jobs, counted, claim, completed_job, complete, failed_job, fail,
  retried_job, retry, refunded, set_field, is_held_by, released_job, unregister_worker,
}
use map_data_aggregation_enh.FoodRuntime.Queue.Requeue.{
  QueueError, requeue_with, requeue_found, requeue_completed, reprocess_count, requeued_job,
}
use map_data_aggregation_enh.FoodRuntime.Queue.Recover.{
  Recovery, recovered_job, is_orphan, recover_all, recover_orphaned, register_worker, heartbeat,
}
use map_data_aggregation_enh.FoodRuntime.Queue.Bounded.{
  IsBounded, changed-IsBounded, append-IsBounded, claim_row-IsBounded,
}

pub data Call : Type 0 where
  adds : String → NewJob → Call
  adds_all : String → List NewJob → Call
  claims : (now job_type worker : String) → Option String → Call
  completes : (now : String) → ℕ → Option Fields → Call
  fails : (now : String) → ℕ → String → Call
  retries : (now : String) → ℕ → String → Bool → Call
  requeues : ℕ → String → Num → Call
  recovers : String → Recovery → Call
  registers : (now id agent_type : String) → Option Fields → Call
  beats : (now id : String) → Call
  leaves : String → Call

-- A call that throws is rolled back.
abbrev pub kept : Queue → Result QueueError (Bool × Queue) → Queue
kept q (ok (again, q')) = q'
kept q (err e) = q

module _ (number_of : Option Json → Num) where
  abbrev pub perform : Call → Queue → Queue
  perform (adds now n) q = (add_job now n q).1
  perform (adds_all now ns) q = (add_jobs now ns q).1
  perform (claims now job_type worker place) q = (claim now job_type worker place q).1
  perform (completes now id output) q = complete now id output q
  perform (fails now id message) q = fail now id message q
  perform (retries now id message refund) q = retry now id message refund q
  perform (requeues id message max_requeues) q =
      kept q (requeue_completed number_of id message max_requeues q)
  perform (recovers now r) q = (recover_orphaned now r q).1
  perform (registers now id agent_type config) q = register_worker now id agent_type config q
  perform (beats now id) q = heartbeat now id q
  perform (leaves worker) q = unregister_worker worker q

  abbrev pub after : List Call → Queue → Queue
  after [] q = q
  after (c ∷ calls) q = after calls (perform c q)

abbrev pub empty_queue : Queue
empty_queue = record { next_id = 1; jobs = []; workers = [] }

abbrev IsSound : Queue → Type 0
IsSound q = IsBounded 0 q.next_id q.jobs

add_job-IsSound : (now : String) (n : NewJob) (q : Queue) → IsSound q → IsSound (add_job now n q).1
unfolding add_job
add_job-IsSound now n q b =
    elim (Bool-cases (any (same_identity n.job_type n.place_type n.osm_id) q.jobs)) [
      | inl t ↦ rw t b
      | inr f ↦
          rw f (append-IsBounded 0 q.next_id q.jobs (new_job now q.next_id n) refl (omega arith) b)
    ]

counted_queue : (x : Bool × Queue) (y : ℕ × Queue) → (counted x y).1 ≡ y.1
counted_queue (true, q) (n, q') = refl
counted_queue (false, q) (n, q') = refl

add_jobs-IsSound :
    (now : String) (ns : List NewJob) (q : Queue) → IsSound q → IsSound (add_jobs now ns q).1
unfolding add_jobs
add_jobs-IsSound now [] q b = b
add_jobs-IsSound now (n ∷ ns) q b =
    let rest = add_jobs now ns (add_job now n q).1 in
    rw (counted_queue (add_job now n q) rest)
      (add_jobs-IsSound now ns (add_job now n q).1 (add_job-IsSound now n q b))

requeue_with-IsSound :
    (number_of : Option Json → Num) (id : ℕ) (message : String) (m : Num) (q : Queue)
    (o : Option Fields)
    → IsSound q
    → IsSound (kept q (requeue_with number_of id message m q o))
requeue_with-IsSound number_of id message m q none b = b
requeue_with-IsSound number_of id message m q (some fs) b =
    let n = reprocess_count number_of fs in
    elim (Bool-cases (ge n m)) [
      | inl t ↦ rw t b
      | inr f ↦ rw f (
          changed-IsBounded (λ (j : Job). has_id id j && is_completed j.status)
            (requeued_job message (set_field "partial_reprocess_count" (num (add n (nat 1))) fs)) 0
            q.next_id q.jobs (λ j. refl) (λ j le. le) b)
    ]

requeue-IsSound :
    (number_of : Option Json → Num) (id : ℕ) (message : String) (m : Num) (q : Queue)
    (o : Option Job)
    → IsSound q
    → IsSound (kept q (requeue_found number_of id message m q o))
requeue-IsSound number_of id message m q none b = b
requeue-IsSound number_of id message m q (some j) b = elim (Bool-cases (is_completed j.status)) [
  | inl t ↦ rw t (requeue_with-IsSound number_of id message m q j.data_of b)
  | inr f ↦ rw f b
]

recover_all-IsSound :
    (now : String) (r : Recovery) (orphans : List Job) (q : Queue)
    → IsSound q
    → IsSound (recover_all now r orphans q)
unfolding recover_all
recover_all-IsSound now r [] q b = b
recover_all-IsSound now r (j ∷ rest) q b = recover_all-IsSound now r rest _ (
    changed-IsBounded (has_id j.id) (recovered_job now r (includes r.fail_job_types j.job_type)) 0
      q.next_id q.jobs (λ k. ground arith) (λ k le. ground (arith, le)) b)

refund_le : (refund : Bool) (n m : ℕ) → n ≤ m → refunded refund n ≤ m
refund_le true n m le = omega (arith, le)
refund_le false n m le = le

pub perform-IsSound :
    (number_of : Option Json → Num) (c : Call) (q : Queue)
    → IsSound q
    → IsSound (perform number_of c q)
unfolding claim complete fail retry requeue_completed recover_orphaned register_worker heartbeat
    unregister_worker
perform-IsSound number_of (adds now n) q b = add_job-IsSound now n q b
perform-IsSound number_of (adds_all now ns) q b = add_jobs-IsSound now ns q b
perform-IsSound number_of (claims now job_type worker place) q b =
    claim_row-IsBounded now worker job_type place q (pick (is_claimable job_type place) q.jobs) refl
      b
perform-IsSound number_of (completes now id output) q b =
    changed-IsBounded (has_id id) (completed_job now output) 0 q.next_id q.jobs (λ j. refl)
      (λ j le. le) b
perform-IsSound number_of (fails now id message) q b =
    changed-IsBounded (has_id id) (failed_job now message) 0 q.next_id q.jobs (λ j. ground arith)
      (λ j le. ground (arith, le)) b
perform-IsSound number_of (retries now id message refund) q b =
    changed-IsBounded (has_id id) (retried_job message refund) 0 q.next_id q.jobs (λ j. refl)
      (λ j le. refund_le refund j.attempts j.max_attempts le) b
perform-IsSound number_of (requeues id message m) q b =
    requeue-IsSound number_of id message m q (find (has_id id) q.jobs) b
perform-IsSound number_of (recovers now r) q b =
    recover_all-IsSound now r (filter (is_orphan r q.workers) q.jobs) q b
perform-IsSound number_of (registers now id agent_type config) q b =
    elim (Bool-cases (any (is_worker id) q.workers)) [ inl t ↦ rw t b | inr f ↦ rw f b ]
perform-IsSound number_of (beats now id) q b = b
perform-IsSound number_of (leaves worker) q b =
    changed-IsBounded (is_held_by worker) released_job 0 q.next_id q.jobs (λ j. refl) (λ j le. le) b

-- After any calls of a new queue, the IDs of the jobs ascend and are below the next one, so they are
-- unique, and no job has been attempted more often than its maximum.
pub after-IsBounded :
    (number_of : Option Json → Num) (calls : List Call)
    → IsBounded 0
        (after number_of calls empty_queue).next_id
        (after number_of calls empty_queue).jobs
after-IsBounded number_of calls = from calls empty_queue (omega arith)
  where
    from : (calls : List Call) (q : Queue) → IsSound q → IsSound (after number_of calls q)
    from [] q b = b
    from (c ∷ calls) q b = from calls (perform number_of c q) (perform-IsSound number_of c q b)
