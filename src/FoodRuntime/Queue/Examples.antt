-- ===== src/FoodRuntime/Queue/Examples.antt =====
-- A queue with two jobs.
use map_data_aggregation_enh.Base.{ℕ, ◌≡◌, ◌≢◌, refl, String, none, some, List, [], ◌∷◌, err, arith}
use map_data_aggregation_enh.Base.Numbers.{nat, nan}
use map_data_aggregation_enh.Base.TextOrder.{text_lt}
use map_data_aggregation_enh.FoodRuntime.Queue.{Worker, idle, Queue, comes_before, pick}
use map_data_aggregation_enh.FoodRuntime.Queue.Methods.{
  NewJob, new_job, taken_job, set_working, claim, complete,
}
use map_data_aggregation_enh.FoodRuntime.Queue.Requeue.{requeue_completed, data_is_null}
use map_data_aggregation_enh.FoodRuntime.Queue.Claims.{HasClaimed, claim-HasClaimed}
use map_data_aggregation_enh.FoodRuntime.Queue.Attempts.{nothing, claim_once}
use map_data_aggregation_enh.FoodRuntime.Queue.Rounds.{rounds, rounds_end}
use map_data_aggregation_enh.FoodRuntime.Queue.Bounded.{IsBounded}
use map_data_aggregation_enh.FoodRuntime.Queue.Calls.{
  adds, claims, fails, requeues, Call, after, empty_queue, after-IsBounded,
}

abbrev site : String → ℕ → NewJob
site osm priority = record {
  job_type = "scrape";
  osm_id = osm;
  place_type = "pizza";
  data_of = none;
  priority = priority;
}

abbrev idle_worker : Worker
idle_worker = record {
  worker_id = "w1";
  agent_type = "scraper";
  status = idle;
  current_job_id = none;
  jobs_completed = 4;
  jobs_failed = 1;
  last_heartbeat = "t0";
  started_at = "t0";
  config = none;
}

abbrev two_jobs : Queue
two_jobs = record {
  next_id = 3;
  jobs = new_job "t0" 1 (site "a" 80) ∷ new_job "t0" 2 (site "b" 100) ∷ [];
  workers = idle_worker ∷ [];
}

abbrev first_claim : Queue
first_claim = record {
  next_id = 3;
  jobs = new_job "t0" 1 (site "a" 80) ∷ taken_job "t1" "w1" (new_job "t0" 2 (site "b" 100)) ∷ [];
  workers = set_working "t1" 2 idle_worker ∷ [];
}

abbrev second_claim : Queue
second_claim = record {
  next_id = 3;
  jobs =
      taken_job "t2" "w2" (new_job "t0" 1 (site "a" 80))
      ∷ taken_job "t1" "w1" (new_job "t0" 2 (site "b" 100))
      ∷ [];
  workers = set_working "t1" 2 idle_worker ∷ [];
}

first_claims :
    claim "t1" "scrape" "w1" none two_jobs
    ≡ (some (taken_job "t1" "w1" (new_job "t0" 2 (site "b" 100))), first_claim)
unfolding claim pick comes_before text_lt
first_claims = refl

second_claims :
    claim "t2" "scrape" "w2" none first_claim
    ≡ (some (taken_job "t2" "w2" (new_job "t0" 1 (site "a" 80))), second_claim)
unfolding claim pick comes_before text_lt
second_claims = refl

-- Where the data of a job is null, a partial result cannot be requeued.
null_throws :
    requeue_completed (λ v. nan) 1 "partial" (nat 1) (complete "t3" 1 none second_claim)
    ≡ err data_is_null
unfolding requeue_completed complete
null_throws = refl

claim-HasClaimed_example :
    HasClaimed "t1" "scrape" "w1" none two_jobs first_claim
      (taken_job "t1" "w1" (new_job "t0" 2 (site "b" 100)))
claim-HasClaimed_example = claim-HasClaimed "t1" "scrape" "w1" none two_jobs first_claims

claim_once_example : ◌≢◌ {A = ℕ} 1 2
claim_once_example =
    claim_once "t1" "scrape" "w1" none two_jobs first_claims nothing "t2" "scrape" "w2" none
      second_claims

rounds_end_example :
    (claim "t1" "scrape" "w1" none (rounds "t1" "scrape" "w1" "no" none 6 two_jobs)).0 ≡ none
rounds_end_example = rounds_end "t1" "scrape" "w1" "no" none 6 two_jobs (omega arith)

abbrev calls : List Call
calls =
    adds "t0" (site "a" 80)
    ∷ claims "t1" "scrape" "w1" none
    ∷ fails "t2" 1 "no"
    ∷ requeues 1 "partial" (nat 1)
    ∷ []

after-IsBounded_example :
    IsBounded 0
      (after (λ v. nan) calls empty_queue).next_id
      (after (λ v. nan) calls empty_queue).jobs
after-IsBounded_example = after-IsBounded (λ v. nan) calls
