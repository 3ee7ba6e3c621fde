-- ===== src/FoodRuntime/Queue/Rounds.antt =====
-- Claims run out (packages/food-runtime/scripts/enrichment/queue.mjs).
use map_data_aggregation_enh.Base.{
  ℕ, zero, suc, ◌≤◌, ◌<◌, ◌≡◌, refl, sym, subst, ◌∙◌, String, Option, none, some, inl, inr,
  Option-cases, ltb→lt, arith,
}
use map_data_aggregation_enh.FoodRuntime.Queue.{Job, Queue, is_claimable, pick}
use map_data_aggregation_enh.FoodRuntime.Queue.Methods.{claim_row, claim, fail}
use map_data_aggregation_enh.FoodRuntime.Queue.Picked.{claim-HasTaken}
use map_data_aggregation_enh.FoodRuntime.Queue.Attempts.{total_left, taken_job_lt, failed_same}

module _ (now job_type worker message : String) (place : Option String) where
  -- A worker that claims a job and fails it.
  abbrev pub after_round : Option Job × Queue → Queue
  after_round (none, q) = q
  after_round (some c, q) = fail now c.id message q

  abbrev pub rounds : ℕ → Queue → Queue
  rounds zero q = q
  rounds (suc n) q = rounds n (after_round (claim now job_type worker place q))

  claim_row-none :
      (o : Option Job) (q : Queue)
      → (claim_row now worker o q).0 ≡ none
      → claim_row now worker o q ≡ (none, q)
  claim_row-none none q h = refl
  claim_row-none (some j) q h = absurd (ground arith)

  claim-none :
      (q : Queue)
      → (claim now job_type worker place q).0 ≡ none
      → claim now job_type worker place q ≡ (none, q)
  unfolding claim
  claim-none q h = claim_row-none (pick (is_claimable job_type place) q.jobs) q h

  rounds-none : (n : ℕ) (q : Queue) → (claim now job_type worker place q).0 ≡ none → rounds n q ≡ q
  rounds-none zero q h = refl
  rounds-none (suc n) q h = (λ i. rounds n (after_round (claim-none q h i))) ∙ rounds-none n q h

  -- A claim uses up an attempt.
  claim_lt :
      (q : Queue) {q' : Queue} {c : Job}
      → claim now job_type worker place q ≡ (some c, q')
      → total_left q'.jobs < total_left q.jobs
  claim_lt q h =
      let a = claim-HasTaken now job_type worker place q h in
      let (fits, there, _) = a.picked in
      subst (λ jobs. total_left jobs < total_left q.jobs) (sym a.jobs_after)
        (taken_job_lt now worker q.jobs a.job
          (ltb→lt a.job.attempts a.job.max_attempts (ground arith)) there)

  fail_left : (id : ℕ) (q : Queue) → total_left (fail now id message q).jobs ≡ total_left q.jobs
  unfolding fail
  fail_left id q = failed_same now message id q.jobs

  still_none :
      (n : ℕ) (q : Queue)
      → (claim now job_type worker place q).0 ≡ none
      → (claim now job_type worker place (rounds n q)).0 ≡ none
  still_none n q h =
      subst (λ v. (claim now job_type worker place v).0 ≡ none) (sym (rounds-none n q h)) h

  -- A round in which a job is found.
  found_round :
      (q : Queue) (c : Job) (n : ℕ)
      → (claim now job_type worker place q).0 ≡ some c
      → total_left q.jobs ≤ suc n
      → total_left (after_round (claim now job_type worker place q)).jobs ≤ n
  found_round q c n h le =
      let q' = (claim now job_type worker place q).1 in
      let result : claim now job_type worker place q ≡ (some c, q') = λ i. (h i, q') in
      let less = claim_lt q result in
      let kept = fail_left c.id q' in
      let bound : total_left (fail now c.id message q').jobs ≤ n = omega (arith, less, kept, le) in
      subst (λ x. total_left (after_round x).jobs ≤ n) (sym result) bound

  -- After as many rounds as the jobs of the queue have attempts left together, in each of which a
  -- worker claims a job and fails it, there is none left for the worker to claim.
  pub rounds_end :
      (n : ℕ) (q : Queue)
      → total_left q.jobs ≤ n
      → (claim now job_type worker place (rounds n q)).0 ≡ none
  rounds_end zero q le = elim (Option-cases (claim now job_type worker place q).0) [
    | inl h ↦ h
    | inr (c, h) ↦
        let q' = (claim now job_type worker place q).1 in
        let less = claim_lt q {q' = q'} {c = c} (λ i. (h i, q')) in absurd (omega (arith, less, le))
  ]
  rounds_end (suc n) q le = elim (Option-cases (claim now job_type worker place q).0) [
    | inl h ↦ still_none (suc n) q h
    | inr (c, h) ↦
        rounds_end n (after_round (claim now job_type worker place q)) (found_round q c n h le)
  ]
