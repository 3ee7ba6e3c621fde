-- ===== src/FoodRuntime/WorkBudget/Regions.antt =====
-- The budget is never passed, and the region is always one of those there are
-- (packages/food-runtime/scripts/lib/source-work-budget.mjs).
use map_data_aggregation_enh.Base.{
  ℕ, zero, suc, ◌+◌, ◌%◌, ◌<◌, ◌≤◌, ◌≡◌, ◌⊎◌, refl, ap, subst, ◌∙◌, Bool, true, false, ◌||◌, Option,
  none, some, List, [], ◌∷◌, length, All, Bool-cases, inl, inr, ltb, Result, ok, err, refuse-ok,
  bind-ok, ◌>>=◌, arith, if◌then◌else◌,
}
use map_data_aggregation_enh.Base.Numbers.{Num, nat, neg, nan, bad_natural, bad_positive, gt, add}
use map_data_aggregation_enh.FoodRuntime.WorkBudget.{
  BudgetError, invalid_rotation, budget_exceeded, next_source_work_unit_count, rem, is_rotating,
  source_region_index_for_run, Scored, with_work, scored_from, is_before, insert_scored,
  sort_scored, first_index, select_source_region_index,
}

-- The count after so many pages, each of which is charged.
unfoldable pub charge : ℕ → Num → Num → Result BudgetError Num
charge zero current maximum = ok current
charge (suc n) current maximum = do
  next ← next_source_work_unit_count current maximum
  charge n next maximum

eq_or_below : {m : ℕ} (c : ℕ) → c ≤ m → (c ≡ m) ⊎ (c < m)
eq_or_below {m} c h = elim (Bool-cases (ltb c m)) [
  | inl t ↦ inr (ground arith)
  | inr f ↦ inl (ground arith)
]

module _ (m : ℕ) (positive : 0 < m) (safe : m < 9007199254740992) where
  next-below : (c : ℕ) → c < m → next_source_work_unit_count (nat c) (nat m) ≡ ok (nat (c + 1))
  unfolding next_source_work_unit_count
  next-below c h = ground arith

  next-at : next_source_work_unit_count (nat m) (nat m) ≡ err budget_exceeded
  unfolding next_source_work_unit_count
  next-at = ground arith

  charge_from : (n c : ℕ) → c + n ≤ m → charge n (nat c) (nat m) ≡ ok (nat (c + n))
  unfolding charge
  charge_from zero c h = ap (λ x. ok (nat x)) (omega arith)
  charge_from (suc n) c h =
      rw (next-below c (omega arith))
        (charge_from n (c + 1) (omega arith) ∙ ap (λ x. ok (nat x)) (omega arith))

  charge_past : (n c : ℕ) → c ≤ m → m < c + n → charge n (nat c) (nat m) ≡ err budget_exceeded
  unfolding charge
  charge_past zero c h k = absurd (omega arith)
  charge_past (suc n) c h k = elim (eq_or_below c h) [
    | inl e ↦ rw (e, next-at) refl
    | inr b ↦ rw (next-below c b) (charge_past n (c + 1) (omega arith) (omega arith))
  ]

-- A budget of `m` pages, positive and a safe integer, lets `m` pages be charged, and any larger
-- number is refused.
pub charge_budget :
    (m : ℕ)
    → 0 < m
    → m < 9007199254740992
    → (charge m (nat 0) (nat m) ≡ ok (nat m))
      × ((n : ℕ) → m < n → charge n (nat 0) (nat m) ≡ err budget_exceeded)
charge_budget m positive safe = (
  charge_from m positive safe m 0 (omega arith) ∙ ap (λ x. ok (nat x)) (omega arith),
  λ n h. charge_past m positive safe n 0 (omega arith) (omega arith),
)

-- The index of a region.
abbrev pub IsListed : ℕ → Num → Type 0
IsListed count v = (i : ℕ) × (v ≡ nat i) × (i < count)

mod_below : (a b : ℕ) → 0 < b → a % b < b
mod_below a b h = omega arith

rotated-IsListed :
    (rotating : Bool) (i count : ℕ)
    → 0 < count
    → IsListed count
        (if rotating then rem (add (nat i) (nat 1)) (nat count) else rem (nat i) (nat count))
rotated-IsListed true i count h = ((i + 1) % count, refl, mod_below (i + 1) count h)
rotated-IsListed false i count h = (i % count, refl, mod_below i count h)

unchecked : Num → Num → Num → Num → Bool
unchecked index failures threshold count =
    bad_natural index || bad_natural failures || bad_natural threshold || bad_positive count

region_of :
    (index failures threshold : Num) (count : ℕ)
    → unchecked index failures threshold (nat count) ≡ false
    → IsListed count (
        if is_rotating failures threshold (nat count)
        then rem (add index (nat 1)) (nat count)
        else rem index (nat count))
unfolding unchecked
region_of (nat i) failures threshold count h =
    rotated-IsListed (is_rotating failures threshold (nat count)) i count (ground arith)
region_of (neg i) failures threshold count h = absurd (ground arith)
region_of nan failures threshold count h = cc

source_region_index-IsListed :
    (index failures threshold : Num) (count : ℕ) {v : Num}
    → source_region_index_for_run index failures threshold (nat count) ≡ ok v
    → IsListed count v
unfolding source_region_index_for_run unchecked
source_region_index-IsListed index failures threshold count {v} h =
    let w : Num =
      if is_rotating failures threshold (nat count)
      then rem (add index (nat 1)) (nat count)
      else rem index (nat count) in
    let (bad, last) =
      refuse-ok (unchecked index failures threshold (nat count)) invalid_rotation (ok w) h in
    let same : w ≡ v = ground arith in
    subst (IsListed count) same (region_of index failures threshold count bad)

-- Every scored region is one of those there are.
abbrev IsBelow : ℕ → Scored → Type 0
IsBelow count s = s.region_index < count

with_work-IsBelow :
    (i count : ℕ) (b : Option Num) (rest : List Scored)
    → i < count
    → All (IsBelow count) rest
    → All (IsBelow count) (with_work i b rest)
with_work-IsBelow i count none rest h k = k
with_work-IsBelow i count (some b) rest h k = elim (Bool-cases (gt b (nat 0))) [
  | inl t ↦ rw t (h, k)
  | inr f ↦ rw f k
]

scored_from-IsBelow :
    (i count : ℕ) (backlogs : List (Option Num))
    → i + length backlogs ≤ count
    → All (IsBelow count) (scored_from i backlogs)
unfolding scored_from
scored_from-IsBelow i count [] h = tt
scored_from-IsBelow i count (b ∷ rest) h =
    with_work-IsBelow i count b (scored_from (suc i) rest) (omega arith)
      (scored_from-IsBelow (suc i) count rest (omega arith))

insert_scored-IsBelow :
    (count : ℕ) (a : Scored) (xs : List Scored)
    → IsBelow count a
    → All (IsBelow count) xs
    → All (IsBelow count) (insert_scored a xs)
unfolding insert_scored
insert_scored-IsBelow count a [] h k = (h, tt)
insert_scored-IsBelow count a (b ∷ rest) h k = elim (Bool-cases (is_before b a)) [
  | inl t ↦ rw t (k.0, insert_scored-IsBelow count a rest h k.1)
  | inr f ↦ rw f (h, k)
]

sort_scored-IsBelow :
    (count : ℕ) (xs : List Scored) → All (IsBelow count) xs → All (IsBelow count) (sort_scored xs)
unfolding sort_scored
sort_scored-IsBelow count [] h = tt
sort_scored-IsBelow count (a ∷ rest) h =
    insert_scored-IsBelow count a (sort_scored rest) h.0 (sort_scored-IsBelow count rest h.1)

first_index-IsListed :
    (count : ℕ) (otherwise : Num) (xs : List Scored)
    → IsListed count otherwise
    → All (IsBelow count) xs
    → IsListed count (first_index otherwise xs)
first_index-IsListed count otherwise [] h k = h
first_index-IsListed count otherwise (a ∷ rest) h k = (a.region_index, refl, k.0)

either-IsListed :
    (count : ℕ) (b : Bool) (x y : Num)
    → IsListed count x
    → IsListed count y
    → IsListed count (if b then x else y)
either-IsListed count true x y h k = h
either-IsListed count false x y h k = k

-- The region that is selected, if the numbers pass the checks, is one of those whose backlog is
-- given.
pub select-IsListed :
    (index failures threshold : Num) (backlogs : List (Option Num)) (pending : Bool) {v : Num}
    → select_source_region_index index failures threshold backlogs pending ≡ ok v
    → IsListed (length backlogs) v
unfolding select_source_region_index
select-IsListed index failures threshold backlogs pending {v} h =
    let n = length backlogs in
    let (rotated, e, last) =
      bind-ok (source_region_index_for_run index failures threshold (nat n)) _ h in
    let here = source_region_index-IsListed index failures threshold n e in
    let chosen : Num = first_index rotated (sort_scored (scored_from 0 backlogs)) in
    let w : Num = if pending || is_rotating failures threshold (nat n) then rotated else chosen in
    let same : w ≡ v = ground (arith, last) in
    subst (IsListed n) same (
      either-IsListed n (pending || is_rotating failures threshold (nat n)) rotated chosen here (
        first_index-IsListed n rotated (sort_scored (scored_from 0 backlogs)) here (
          sort_scored-IsBelow n (scored_from 0 backlogs)
            (scored_from-IsBelow 0 n backlogs (omega arith)))))
