-- ===== src/FoodRuntime/Queue/Picked.antt =====
-- Which job is picked from the table (packages/food-runtime/scripts/enrichment/queue.mjs).
use map_data_aggregation_enh.Base.{
  ℕ, ◌≡◌, ◌≢◌, refl, sym, subst, String, Bool, true, false, not, ◌&&◌, ◌||◌, Option, none, some,
  List, [], ◌∷◌, All, All-map, Any, Bool-cases, inl, inr, some_inj, ltb, arith,
}
use map_data_aggregation_enh.Base.TextOrder.{text_lt, text_lt_of_not, text_lt_irrefl, text_lt_asymm}
use map_data_aggregation_enh.FoodRuntime.Queue.{
  Job, Queue, is_claimable, is_fresh_scrape, comes_before, better, pick, has_id, is_worker,
  update_rows,
}
use map_data_aggregation_enh.FoodRuntime.Queue.Methods.{taken_job, set_working, claim_row, claim}

-- The order on what it reads: freshness, priority, and the two comparisons of times.
rank_split :
    (fa fb fc : Bool) (pa pb pc : ℕ) (ab ac bc : Bool)
    → (ab ≡ false → ac ≡ true → bc ≡ true)
    → ((fa && not fc) || (not (not fa && fc) && (ltb pc pa || (not (ltb pa pc) && ac)))) ≡ true
    → ((fa && not fb) || (not (not fa && fb) && (ltb pb pa || (not (ltb pa pb) && ab)))) ≡ false
    → ((fb && not fc) || (not (not fb && fc) && (ltb pc pb || (not (ltb pb pc) && bc)))) ≡ true
rank_split true true true pa pb pc ab ac bc t h k = ground (arith, t)
rank_split true true false pa pb pc ab ac bc t h k = refl
rank_split true false fc pa pb pc ab ac bc t h k = cc
rank_split false true true pa pb pc ab ac bc t h k = cc
rank_split false true false pa pb pc ab ac bc t h k = refl
rank_split false false true pa pb pc ab ac bc t h k = cc
rank_split false false false pa pb pc ab ac bc t h k = ground (arith, t)

-- What comes before a job comes before any other job, or that one does.
before_split :
    (a b c : Job) → comes_before a c ≡ true → comes_before a b ≡ false → comes_before b c ≡ true
unfolding comes_before
before_split a b c h k =
    rank_split (is_fresh_scrape a) (is_fresh_scrape b) (is_fresh_scrape c) a.priority b.priority
      c.priority (text_lt a.created_at b.created_at) (text_lt a.created_at c.created_at)
      (text_lt b.created_at c.created_at) (text_lt_of_not a.created_at b.created_at c.created_at) h
      k

comes_before_irrefl : (a : Job) → comes_before a a ≡ false
unfolding comes_before
comes_before_irrefl a = ground (arith, text_lt_irrefl a.created_at)

-- The picked row is of the table, fits, and none that fits comes before it.
abbrev pub IsPicked : (Job → Bool) → List Job → Job → Type 0
IsPicked fits jobs j =
    (fits j ≡ true)
    × Any (λ x. x ≡ j) jobs
    × All (λ k. fits k ≡ true → comes_before k j ≡ false) jobs

comes_before_asym : (a b : Job) → comes_before a b ≡ true → comes_before b a ≡ false
unfolding comes_before
comes_before_asym a b h = ground (arith, text_lt_asymm a.created_at b.created_at)

not_before :
    (x k l : Job) → comes_before x l ≡ false → comes_before l k ≡ false → comes_before x k ≡ false
not_before x k l h last = elim (Bool-cases (comes_before x k)) [
  | inl before ↦ let early = before_split x l k before h in absurd (ground arith)
  | inr f₁ ↦ f₁
]

better-some : (k : Job) (o : Option Job) → better k o ≢ none
better-some k none h = cc
better-some k (some l) h = ground arith

pub none_fits :
    (fits : Job → Bool) (jobs : List Job) → pick fits jobs ≡ none → All (λ k. fits k ≡ false) jobs
unfolding pick
none_fits fits [] h = tt
none_fits fits (j ∷ jobs) h = elim (Bool-cases (fits j)) [
  | inl t ↦ absurd (better-some j (pick fits jobs) (rw t at h))
  | inr f ↦ (f, none_fits fits jobs (rw f at h))
]

-- A row that fits, before the picked one of the rest.
better-IsPicked :
    (fits : Job → Bool) (k : Job) (jobs : List Job) (o : Option Job) {j : Job}
    → fits k ≡ true
    → (o ≡ none → All (λ x. fits x ≡ false) jobs)
    → ((l : Job) → o ≡ some l → IsPicked fits jobs l)
    → better k o ≡ some j
    → IsPicked fits (k ∷ jobs) j
better-IsPicked fits k jobs none {j} t none_left some_left h =
    let same : k ≡ j = some_inj h in
    let alone : IsPicked fits (k ∷ jobs) k = (
      t,
      inl refl,
      (
        (λ _. comes_before_irrefl k),
        All-map (λ x f fit. absurd (ground arith)) jobs (none_left refl),
      ),
    ) in
    subst (IsPicked fits (k ∷ jobs)) same alone
better-IsPicked fits k jobs (some l) {j} t none_left some_left h =
    let (fit, there, others) = some_left l refl in
    elim (Bool-cases (comes_before l k)) [
      | inl first ↦
          let same : l ≡ j = some_inj (rw first at h) in
          let later : IsPicked fits (k ∷ jobs) l =
            (fit, inr there, ((λ _. comes_before_asym l k first), others)) in
          subst (IsPicked fits (k ∷ jobs)) same later
      | inr last ↦
          let same : k ≡ j = some_inj (rw last at h) in
          let now_first : IsPicked fits (k ∷ jobs) k = (
            t,
            inl refl,
            (
              (λ _. comes_before_irrefl k),
              All-map (λ x before fits_x. not_before x k l (before fits_x) last) jobs others,
            ),
          ) in
          subst (IsPicked fits (k ∷ jobs)) same now_first
    ]

pub pick-IsPicked :
    (fits : Job → Bool) (jobs : List Job) {j : Job} → pick fits jobs ≡ some j → IsPicked fits jobs j
unfolding pick
pick-IsPicked fits [] h = cc
pick-IsPicked fits (k ∷ jobs) {j} h = elim (Bool-cases (fits k)) [
  | inl t ↦
      better-IsPicked fits k jobs (pick fits jobs) t (none_fits fits jobs)
        (λ l e. pick-IsPicked fits jobs e) (rw t at h)
  | inr f ↦
      let (fit, there, others) = pick-IsPicked fits jobs {j = j} (rw f at h) in
      (fit, inr there, ((λ t. absurd (ground arith)), others))
]

-- What a claim that finds a job did, in the words of the model.
pub record HasTaken (now job_type worker : String) (place : Option String) (q q' : Queue) (c : Job)
    : Type 0 where
  pub job : Job
  pub picked : IsPicked (is_claimable job_type place) q.jobs job
  pub claimed_job : c ≡ taken_job now worker job
  pub jobs_after : q'.jobs ≡ update_rows (has_id job.id) (taken_job now worker) q.jobs
  pub workers_after : q'.workers ≡ update_rows (is_worker worker) (set_working now job.id) q.workers
  pub next_after : q'.next_id ≡ q.next_id

claim_row-HasTaken :
    (now job_type worker : String) (place : Option String) (q : Queue) (o : Option Job) {q' : Queue}
    {c : Job}
    → pick (is_claimable job_type place) q.jobs ≡ o
    → claim_row now worker o q ≡ (some c, q')
    → HasTaken now job_type worker place q q' c
claim_row-HasTaken now job_type worker place q none e h =
    let found : ◌≡◌ {A = Option Job} none (some _) = λ i. (h i).0 in absurd (ground arith)
claim_row-HasTaken now job_type worker place q (some j) e h = record {
  job = j;
  picked = pick-IsPicked (is_claimable job_type place) q.jobs e;
  claimed_job = some_inj (λ i. (sym h i).0);
  jobs_after = λ i. (sym h i).1.jobs;
  workers_after = λ i. (sym h i).1.workers;
  next_after = λ i. (sym h i).1.next_id;
}

pub claim-HasTaken :
    (now job_type worker : String) (place : Option String) (q : Queue) {q' : Queue} {c : Job}
    → claim now job_type worker place q ≡ (some c, q')
    → HasTaken now job_type worker place q q' c
unfolding claim
claim-HasTaken now job_type worker place q h =
    claim_row-HasTaken now job_type worker place q _ refl h
