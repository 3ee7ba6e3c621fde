-- ===== src/FoodRuntime/Queue/Order.antt =====
-- Which jobs a claim may take, and in which order (packages/food-runtime/scripts/enrichment/queue.mjs).
use map_data_aggregation_enh.Base.{
  ◌<◌, ◌≡◌, refl, sym, subst, ◌↔◌, ◌⊎◌, inl, inr, String, true, false, not, Option, none, some,
  Bool-cases, eq_iff, is_some, ltb→lt, ◌==◌, and_true, arith,
}
use map_data_aggregation_enh.Base.TextOrder.{text_lt}
use map_data_aggregation_enh.FoodRuntime.Queue.{
  Job, JobStatus, pending, processing, completed, failed, is_pending, fits_place, is_claimable,
  is_fresh_scrape, comes_before,
}

abbrev FitsPlace : Option String → Job → Type 0
FitsPlace none j = Unit
FitsPlace (some place) j = (place ≡ "") ⊎ (j.place_type ≡ place)

-- A job that a claim may take.
pub record IsClaimable (job_type : String) (place : Option String) (j : Job) : Type 0 where
  pub of_type : j.job_type ≡ job_type
  pub of_place : FitsPlace place j
  pub not_started : j.status ≡ pending
  pub has_attempts : j.attempts < j.max_attempts

-- A scrape without an error.
abbrev IsFresh : Job → Type 0
IsFresh j = (j.job_type ≡ "scrape") × (j.last_error ≡ none)

-- The one is taken before the other: it is fresh and the other is not; or both are or none is, and it
-- has the greater priority, or the same and was made earlier.
abbrev pub Precedes : Job → Job → Type 0
Precedes a b =
    (IsFresh a × ¬ (IsFresh b))
    ⊎ ((IsFresh a ↔ IsFresh b)
        × ((b.priority < a.priority)
            ⊎ ((a.priority ≡ b.priority) × (text_lt a.created_at b.created_at ≡ true))))

fits_place_iff : (place : Option String) (j : Job) → (fits_place place j ≡ true) ↔ FitsPlace place j
fits_place_iff none j = (λ h. tt, λ h. refl)
fits_place_iff (some place) j = (
  λ h. elim (Bool-cases (place == "")) [
    | inl t ↦ inl ((eq_iff place "").0 t)
    | inr f ↦ inr ((eq_iff j.place_type place).0 (ground arith))
  ],
  λ h. elim h [
    | inl e ↦ let t = (eq_iff place "").1 e in ground arith
    | inr e ↦ let t = (eq_iff j.place_type place).1 e in ground arith
  ],
)

pending-eq : (s : JobStatus) → is_pending s ≡ true → s ≡ pending
pending-eq pending h = refl
pending-eq processing h = cc
pending-eq completed h = cc
pending-eq failed h = cc

pub is_claimable-IsClaimable :
    (job_type : String) (place : Option String) (j : Job)
    → is_claimable job_type place j ≡ true
    → IsClaimable job_type place j
is_claimable-IsClaimable job_type place j h = record {
  of_type = (eq_iff j.job_type job_type).0 (ground arith);
  of_place = (fits_place_iff place j).0 (ground arith);
  not_started = pending-eq j.status (ground arith);
  has_attempts = ltb→lt j.attempts j.max_attempts (ground arith);
}

pub IsClaimable-is_claimable :
    (job_type : String) (place : Option String) (j : Job)
    → IsClaimable job_type place j
    → is_claimable job_type place j ≡ true
IsClaimable-is_claimable job_type place j v =
    let of_type = (eq_iff j.job_type job_type).1 v.of_type in
    let of_place = (fits_place_iff place j).1 v.of_place in
    let not_started : is_pending j.status ≡ true =
      subst (λ s. is_pending s ≡ true) (sym v.not_started) refl in
    let left = v.has_attempts in ground arith

none-is_some : {A : Type 0} (o : Option A) → not (is_some o) ≡ true → o ≡ none
none-is_some none h = refl
none-is_some (some x) h = cc

IsFresh-iff : (j : Job) → (is_fresh_scrape j ≡ true) ↔ IsFresh j
IsFresh-iff j = (
  λ h.
      let (a, b) = and_true (j.job_type == "scrape") (not (is_some j.last_error)) h in
      ((eq_iff j.job_type "scrape").0 a, none-is_some j.last_error b),
  λ (a, b).
      let t = (eq_iff j.job_type "scrape").1 a in
      let n : not (is_some j.last_error) ≡ true =
        subst (λ o. not (is_some o) ≡ true) (sym b) refl in
      ground arith,
)

fresh_false : (j : Job) → ¬ (IsFresh j) → is_fresh_scrape j ≡ false
fresh_false j n = elim (Bool-cases (is_fresh_scrape j)) [
  | inl t ↦ absurd (n ((IsFresh-iff j).0 t))
  | inr f ↦ f
]

fresh_same : (a b : Job) → (IsFresh a ↔ IsFresh b) → is_fresh_scrape a ≡ is_fresh_scrape b
fresh_same a b h = elim (Bool-cases (is_fresh_scrape a)) [
  | inl t ↦ let u = (IsFresh-iff b).1 (h.0 ((IsFresh-iff a).0 t)) in cc
  | inr f ↦
      let u = fresh_false b (λ v. absurd (let w = (IsFresh-iff a).1 (h.1 v) in ground arith)) in cc
]

pub Precedes-comes_before : (a b : Job) → Precedes a b → comes_before a b ≡ true
unfolding comes_before
Precedes-comes_before a b (inl (fa, nb)) =
    let t = (IsFresh-iff a).1 fa in let f = fresh_false b nb in ground arith
Precedes-comes_before a b (inr (same, inl more)) = let e = fresh_same a b same in ground arith
Precedes-comes_before a b (inr (same, inr (p, t))) = let e = fresh_same a b same in ground arith
