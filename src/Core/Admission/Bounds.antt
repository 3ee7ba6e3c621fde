-- ===== src/Core/Admission/Bounds.antt =====
-- What an admission decision guarantees of the reservations (packages/core/src/admission.ts).
use map_data_aggregation_enh.Base.{
  ℕ, ◌+◌, ◌≤◌, ◌<◌, ◌≡◌, refl, String, true, false, Option, none, some, List, [], ◌∷◌, lookup,
  is_some, is_empty, length, filter, failing-nil, append-eq-nil, All, All-map, or_false, arith,
}
use map_data_aggregation_enh.Base.Numbers.{
  Num, nat, neg, nan, bad_natural, bad_positive, gt, ge, add, to_ℕ,
}
use map_data_aggregation_enh.Core.Types.{ResourceReservation}
use map_data_aggregation_enh.Core.Admission.{
  GroupLimit, HostAdmissionLimits, Reason, natural_reasons, limit_entries, reservation_entries,
  active_reasons, in_group, group_reasons, cpu, rss, children, artifacts, free_disk, total,
  total_reasons,
}
use map_data_aggregation_enh.Core.Admission.Sums.{sum_of, IsNaturalOn, sum_from-nat}

-- Every entry of the list is a non-negative safe integer.
abbrev pub AreNatural : List (String × Num) → Type 0
AreNatural entries = All (λ e. bad_natural e.1 ≡ false) entries

pub natural_reasons-nil :
    (reason : String → Reason) (entries : List (String × Num))
    → natural_reasons reason entries ≡ []
    → AreNatural entries
unfolding natural_reasons
natural_reasons-nil reason [] h = tt
natural_reasons-nil reason ((name, v) ∷ rest) h =
    let (a, b) = append-eq-nil _ _ h in ((failing-nil _ a).0, natural_reasons-nil reason rest b)

-- A reservation whose fields all passed.
abbrev pub IsSound : ResourceReservation → Type 0
IsSound r = AreNatural (reservation_entries r)

-- The reservation names a group that the host policy has.
abbrev pub IsKnown : HostAdmissionLimits → ResourceReservation → Type 0
IsKnown limits r =
    (is_empty r.admission_group ≡ false) × (is_some (lookup r.admission_group limits.groups) ≡ true)

pub active_reasons-nil :
    (limits : HostAdmissionLimits) (i : ℕ) (rs : List ResourceReservation)
    → active_reasons limits i rs ≡ []
    → All (IsKnown limits) rs × All IsSound rs
unfolding active_reasons
active_reasons-nil limits i [] h = (tt, tt)
active_reasons-nil limits i (r ∷ rest) h =
    let (a, b) = append-eq-nil _ _ h in
    let (c, d) = append-eq-nil _ _ b in
    let (known, sound) = active_reasons-nil limits (i + 1) rest d in
    let (named, found) = or_false _ _ (failing-nil _ a).0 in
    (((named, ground arith), known), (natural_reasons-nil _ _ c, sound))

-- How many reservations a group holds.
abbrev pub group_size : String → List ResourceReservation → ℕ
group_size group rs = length (filter (in_group group) rs)

abbrev pub HasRoom : HostAdmissionLimits → List ResourceReservation → ResourceReservation → Type 0
HasRoom limits active candidate =
    (l : GroupLimit) × (lookup candidate.admission_group limits.groups ≡ some l)
    × (bad_positive l.max_concurrency ≡ false)
    × (group_size candidate.admission_group active < to_ℕ l.max_concurrency)

ge-false : (k : ℕ) (v : Num) → bad_positive v ≡ false → ge (nat k) v ≡ false → k < to_ℕ v
ge-false k (nat n) h e = ground arith
ge-false k (neg n) h e = absurd (ground arith)
ge-false k nan h e = cc

pub group_reasons-nil :
    (group : String) (rs : List ResourceReservation) (g : Option GroupLimit)
    → group_reasons group rs g ≡ []
    → (l : GroupLimit) × (g ≡ some l)
      × (bad_positive l.max_concurrency ≡ false)
      × (group_size group rs < to_ℕ l.max_concurrency)
unfolding group_reasons
group_reasons-nil group rs none h = cc
group_reasons-nil group rs (some l) h =
    let passed = failing-nil _ h in
    (l, refl, passed.0, ge-false _ l.max_concurrency passed.0 passed.1.0)

-- The comparison of a total with a limit, once both are natural.
gt-false :
    (t : ℕ) (c l : Num)
    → bad_natural c ≡ false
    → bad_natural l ≡ false
    → gt (add (nat t) c) l ≡ false
    → t + to_ℕ c ≤ to_ℕ l
gt-false t (nat c) (nat l) hc hl h = ground arith
gt-false t (neg c) l hc hl h = absurd (ground arith)
gt-false t nan l hc hl h = cc
gt-false t (nat c) (neg l) hc hl h = absurd (ground arith)
gt-false t (nat c) nan hc hl h = cc

pub naturals_cpu : (rs : List ResourceReservation) → All IsSound rs → All (IsNaturalOn cpu) rs
naturals_cpu rs h = All-map (λ r s. s.0) rs h

pub naturals_rss : (rs : List ResourceReservation) → All IsSound rs → All (IsNaturalOn rss) rs
naturals_rss rs h = All-map (λ r s. s.1.0) rs h

pub naturals_children :
    (rs : List ResourceReservation) → All IsSound rs → All (IsNaturalOn children) rs
naturals_children rs h = All-map (λ r s. s.1.1.0) rs h

pub naturals_artifacts :
    (rs : List ResourceReservation) → All IsSound rs → All (IsNaturalOn artifacts) rs
naturals_artifacts rs h = All-map (λ r s. s.1.1.1.1.0) rs h

pub naturals_free_disk :
    (rs : List ResourceReservation) → All IsSound rs → All (IsNaturalOn free_disk) rs
naturals_free_disk rs h = All-map (λ r s. s.1.1.1.1.1.0) rs h

module _ (limits : HostAdmissionLimits) (active : List ResourceReservation)
    (candidate : ResourceReservation) where
  -- Within the limit with the candidate, for each of the three resources.
  abbrev pub Fits : (ResourceReservation → Num) → Num → Type 0
  Fits f limit = sum_of f active + to_ℕ (f candidate) ≤ to_ℕ limit

  Fits-of_total :
      (f : ResourceReservation → Num) (limit : Num)
      → All (IsNaturalOn f) active
      → bad_natural (f candidate) ≡ false
      → bad_natural limit ≡ false
      → gt (add (total f active) (f candidate)) limit ≡ false
      → Fits f limit
  unfolding total
  Fits-of_total f limit ns nc nl h = omega (
    arith,
    gt-false (0 + sum_of f active) (f candidate) limit nc nl (rw (sum_from-nat f 0 active ns) at h),
  )

  pub total_reasons-nil :
      (observed : Num)
      → IsSound candidate
      → All IsSound active
      → AreNatural (limit_entries limits observed)
      → total_reasons limits active candidate ≡ []
      → Fits cpu limits.max_cpu_units
        × Fits rss limits.max_rss_bytes
        × Fits children limits.max_child_processes
  unfolding total_reasons
  total_reasons-nil observed sc sa sl h =
      let passed = failing-nil _ h in
      let sums = passed.1.1.1.1 in
      (
        Fits-of_total cpu limits.max_cpu_units (naturals_cpu active sa) sc.0 sl.0 sums.0,
        Fits-of_total rss limits.max_rss_bytes (naturals_rss active sa) sc.1.0 sl.1.0 sums.1.0,
        Fits-of_total children limits.max_child_processes (naturals_children active sa) sc.1.1.0
            sl.1.1.0 sums.1.1.0,
      )

  -- What the artifacts of all reservations may take, the candidate's included.
  abbrev pub reserved : ℕ
  reserved = to_ℕ (artifacts candidate) + sum_of artifacts active

  -- The free disk space that the reservations and the host insist on survives all the artifacts.
  abbrev pub KeepsDisk : Num → Type 0
  KeepsDisk observed =
      (to_ℕ limits.min_free_disk_bytes + reserved ≤ to_ℕ observed)
      × All (λ r. to_ℕ (free_disk r) + reserved ≤ to_ℕ observed) (candidate ∷ active)
