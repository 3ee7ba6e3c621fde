-- ===== src/FoodRuntime/Queue.antt =====
-- packages/food-runtime/scripts/enrichment/queue.mjs: the tables of jobs and workers. A method is
-- one statement or one transaction, so methods do not interleave, but for the bookkeeping of `claim`,
-- a second write that concerns the worker only. `datetime('now')` is an argument. The data of a job
-- is the text of an object or of null, as `addJob` writes it: a column that is NULL, as `addJobs`
-- leaves it for a job without data, is left out. A priority is a natural number.
pub mod Methods
pub mod Picked
pub mod Order
pub mod Claims
pub mod Attempts
pub mod Rounds
pub mod Requeue
pub mod Recover
pub mod Bounded
pub mod Calls
mod Examples
use map_data_aggregation_enh.Base.{
  ℕ, String, Bool, true, false, not, ◌&&◌, ◌||◌, Option, none, some, List, [], ◌∷◌, any, eqb, ltb,
  is_some, ◌==◌, if◌then◌else◌,
}
use map_data_aggregation_enh.Base.Numbers.{Num, gt, lt}
use map_data_aggregation_enh.Base.TextOrder.{text_lt}
use map_data_aggregation_enh.Core.Identity.{Fields, end, field, Json}

pub data JobStatus : Type 0 where
  pending processing completed failed : JobStatus

pub record Job : Type 0 where
  pub id : ℕ
  pub job_type : String
  pub osm_id : String
  pub place_type : String
  pub priority : ℕ
  pub status : JobStatus
  pub worker_id : Option String
  pub attempts : ℕ
  pub max_attempts : ℕ
  pub last_error : Option String
  pub data_of : Option Fields
  pub created_at : String
  pub started_at : Option String
  pub completed_at : Option String

pub data WorkerStatus : Type 0 where
  idle working : WorkerStatus

pub record Worker : Type 0 where
  pub worker_id : String
  pub agent_type : String
  pub status : WorkerStatus
  pub current_job_id : Option ℕ
  pub jobs_completed : ℕ
  pub jobs_failed : ℕ
  pub last_heartbeat : String
  pub started_at : String
  pub config : Option Fields

-- The tables. `AUTOINCREMENT` never gives an ID again.
pub record Queue : Type 0 where
  pub next_id : ℕ
  pub jobs : List Job
  pub workers : List Worker

abbrev pub is_pending : JobStatus → Bool
is_pending pending = true
is_pending _ = false

abbrev pub is_processing : JobStatus → Bool
is_processing processing = true
is_processing _ = false

abbrev pub is_completed : JobStatus → Bool
is_completed completed = true
is_completed _ = false

-- `UPDATE jobs SET … WHERE …`
module _ {R : Type 0} (where_ : R → Bool) (set : R → R) where
  abbrev pub update_rows : List R → List R
  update_rows [] = []
  update_rows (r ∷ rows) =
      let rest = update_rows rows in if where_ r then set r ∷ rest else r ∷ rest

abbrev pub has_id : ℕ → Job → Bool
has_id id j = eqb j.id id

abbrev pub is_worker : String → Worker → Bool
is_worker id w = w.worker_id == id

-- `UNIQUE(job_type, place_type, osm_id)`
abbrev pub same_identity : String → String → String → Job → Bool
same_identity job_type place_type osm_id j =
    j.job_type == job_type && j.place_type == place_type && j.osm_id == osm_id

-- The rows that `claim` chooses from, where a place type may be demanded.
abbrev pub fits_place : Option String → Job → Bool
fits_place none j = true
fits_place (some place) j = place == "" || j.place_type == place

abbrev pub is_claimable : String → Option String → Job → Bool
is_claimable job_type place j =
    j.job_type == job_type
    && fits_place place j
    && is_pending j.status
    && ltb j.attempts j.max_attempts

-- `CASE WHEN job_type = 'scrape' AND last_error IS NULL THEN 0 ELSE 1 END`
abbrev pub is_fresh_scrape : Job → Bool
is_fresh_scrape j = j.job_type == "scrape" && not (is_some j.last_error)

-- The order of `ORDER BY`.
unfoldable pub comes_before : Job → Job → Bool
comes_before a b =
    (is_fresh_scrape a && not (is_fresh_scrape b))
    || (not (not (is_fresh_scrape a) && is_fresh_scrape b)
        && (ltb b.priority a.priority
            || (not (ltb a.priority b.priority) && text_lt a.created_at b.created_at)))

abbrev pub better : Job → Option Job → Option Job
better j none = some j
better j (some k) = if comes_before k j then some k else some j

-- The first row of the order, and of those that are equal in it the first of the table.
unfoldable pub pick : (Job → Bool) → List Job → Option Job
pick fits [] = none
pick fits (j ∷ jobs) = let rest = pick fits jobs in if fits j then better j rest else rest
