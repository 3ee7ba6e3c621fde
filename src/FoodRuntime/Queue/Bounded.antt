-- ===== src/FoodRuntime/Queue/Bounded.antt =====
-- What holds after any calls of a queue (packages/food-runtime/scripts/enrichment/queue.mjs).
use map_data_aggregation_enh.Base.{
  ℕ, suc, ◌≤◌, ◌<◌, ◌≡◌, refl, sym, subst, String, Bool, true, Option, none, some, List, [], ◌∷◌,
  ◌++◌, All, All-map, All-Any, Any, Bool-cases, inl, inr, eqb_iff, ltb→lt, arith,
}
use map_data_aggregation_enh.FoodRuntime.Queue.{Job, Queue, is_claimable, pick, has_id, update_rows}
use map_data_aggregation_enh.FoodRuntime.Queue.Methods.{taken_job, claim_row}
use map_data_aggregation_enh.FoodRuntime.Queue.Picked.{pick-IsPicked}

-- The IDs ascend from `low` and stay below `high`, and no job has more attempts than its maximum.
abbrev pub IsBounded : ℕ → ℕ → List Job → Type 0
IsBounded low high [] = low ≤ high
IsBounded low high (j ∷ jobs) =
    (low ≤ j.id) × (j.attempts ≤ j.max_attempts) × IsBounded (suc j.id) high jobs

abbrev pub Keeps : (Job → Job) → Job → Type 0
Keeps set j = j.attempts ≤ j.max_attempts → (set j).attempts ≤ (set j).max_attempts

pub update_rows-IsBounded :
    (where_ : Job → Bool) (set : Job → Job)
    → ((j : Job) → (set j).id ≡ j.id)
    → (low high : ℕ) (jobs : List Job) → All (λ j. where_ j ≡ true → Keeps set j) jobs
    → IsBounded low high jobs
    → IsBounded low high (update_rows where_ set jobs)
update_rows-IsBounded where_ set same low high [] k b = b
update_rows-IsBounded where_ set same low high (j ∷ jobs) k (a, le, b) =
    elim (Bool-cases (where_ j)) [
      | inl t ↦
          let rest = update_rows-IsBounded where_ set same (suc j.id) high jobs k.1 b in
          let moved : IsBounded (suc (set j).id) high (update_rows where_ set jobs) =
            subst (λ n. IsBounded (suc n) high (update_rows where_ set jobs)) (sym (same j)) rest in
          rw t (subst (λ n. low ≤ n) (sym (same j)) a, k.0 t le, moved)
      | inr f ↦ rw f (a, le, update_rows-IsBounded where_ set same (suc j.id) high jobs k.1 b)
    ]

pub everywhere : {P : Job → Type 0} → ((j : Job) → P j) → (jobs : List Job) → All P jobs
everywhere f [] = tt
everywhere f (j ∷ jobs) = (f j, everywhere f jobs)

-- A change that keeps IDs and bounds.
pub changed-IsBounded :
    (where_ : Job → Bool) (set : Job → Job) (low high : ℕ) (jobs : List Job)
    → ((j : Job) → (set j).id ≡ j.id)
    → ((j : Job) → Keeps set j)
    → IsBounded low high jobs
    → IsBounded low high (update_rows where_ set jobs)
changed-IsBounded where_ set low high jobs same keeps b =
    update_rows-IsBounded where_ set same low high jobs (everywhere (λ j t. keeps j) jobs) b

pub append-IsBounded :
    (low high : ℕ) (jobs : List Job) (j : Job)
    → j.id ≡ high
    → j.attempts ≤ j.max_attempts
    → IsBounded low high jobs
    → IsBounded low (suc high) (jobs ++ j ∷ [])
append-IsBounded low high [] j e le b = (omega (arith, e, b), le, omega (arith, e))
append-IsBounded low high (k ∷ jobs) j e le (a, le', b) =
    (a, le', append-IsBounded (suc k.id) high jobs j e le b)

above : (low high : ℕ) (jobs : List Job) → IsBounded low high jobs → All (λ j. low ≤ j.id) jobs
above low high [] b = tt
above low high (j ∷ jobs) (a, le, b) =
    (a, All-map (λ k h. omega (arith, h, a)) jobs (above (suc j.id) high jobs b))

-- The rows with the ID of a row are that row.
only_row :
    (low high : ℕ) (jobs : List Job) (j : Job)
    → IsBounded low high jobs
    → Any (λ x. x ≡ j) jobs
    → All (λ k. k.id ≡ j.id → k ≡ j) jobs
only_row low high [] j b t = tt
only_row low high (k ∷ jobs) j (a, le, b) (inl e) =
    let id : k.id ≡ j.id = λ i. (e i).id in
    (
      (λ _. e),
      All-map (λ x lower same. absurd (omega (arith, lower, same, id))) jobs
          (above (suc k.id) high jobs b),
    )
only_row low high (k ∷ jobs) j (a, le, b) (inr t) =
    let lower = All-Any (λ (x : Job). suc k.id ≤ x.id) jobs (above (suc k.id) high jobs b) t in
    ((λ same. absurd (omega (arith, lower, same))), only_row (suc k.id) high jobs j b t)

pub claim_row-IsBounded :
    (now worker job_type : String) (place : Option String) (q : Queue) (o : Option Job)
    → pick (is_claimable job_type place) q.jobs ≡ o
    → IsBounded 0 q.next_id q.jobs
    → IsBounded 0 (claim_row now worker o q).1.next_id (claim_row now worker o q).1.jobs
claim_row-IsBounded now worker job_type place q none e b = b
claim_row-IsBounded now worker job_type place q (some j) e b =
    let (fits, there, _) = pick-IsPicked (is_claimable job_type place) q.jobs e in
    let room : j.attempts < j.max_attempts = ltb→lt j.attempts j.max_attempts (ground arith) in
    let one = only_row 0 q.next_id q.jobs j b there in
    update_rows-IsBounded (has_id j.id) (taken_job now worker) (λ k. refl) 0 q.next_id q.jobs
      (All-map
        (λ k only t le.
          subst (λ (x : Job). x.attempts < x.max_attempts) (sym (only ((eqb_iff k.id j.id).0 t)))
            room)
        q.jobs one)
      b
