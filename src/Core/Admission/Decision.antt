-- ===== src/Core/Admission/Decision.antt =====
-- The admission decision against its meaning (packages/core/src/admission.ts).
use map_data_aggregation_enh.Base.{
  ℕ, ◌+◌, ◌≤◌, ◌<◌, ◌≡◌, refl, String, true, false, ◌↔◌, List, [], ◌∷◌, lookup, is_nil, failing,
  nil-failing, append-eq-nil, All, arith,
}
use map_data_aggregation_enh.Base.Numbers.{
  Num, nat, neg, nan, is_safe_integer, bad_natural, gt, ge, add, to_ℕ,
}
use map_data_aggregation_enh.Core.Types.{ResourceReservation}
use map_data_aggregation_enh.Core.Admission.{
  HostAdmissionLimits, Reason, bad_limit, bad_candidate, bad_active, natural_reasons, limit_entries,
  reservation_entries, active_reasons, group_reasons, cpu, rss, children, total, total_reasons,
  all_reasons, evaluate_admission,
}
use map_data_aggregation_enh.Core.Admission.Sums.{sum_of, IsNaturalOn, sum_from-nat}
use map_data_aggregation_enh.Core.Admission.Bounds.{
  AreNatural, natural_reasons-nil, IsSound, IsKnown, active_reasons-nil, HasRoom, group_reasons-nil,
  naturals_cpu, naturals_rss, naturals_children, Fits, total_reasons-nil, KeepsDisk,
}
use map_data_aggregation_enh.Core.Admission.Disk.{disk_reasons-nil, nil-disk_reasons}

-- What the check stands for: all numbers are natural, the groups are known, and the host has room
-- for the candidate beside the active reservations in its group and in every resource.
pub record IsAdmissible (limits : HostAdmissionLimits) (active : List ResourceReservation)
    (candidate : ResourceReservation) (observed : Num) : Type 0 where
  pub limits_natural : AreNatural (limit_entries limits observed)
  pub candidate_sound : IsSound candidate
  pub active_known : All (IsKnown limits) active
  pub active_sound : All IsSound active
  pub room : HasRoom limits active candidate
  pub cpu_fits : Fits limits active candidate cpu limits.max_cpu_units
  pub rss_fits : Fits limits active candidate rss limits.max_rss_bytes
  pub children_fit : Fits limits active candidate children limits.max_child_processes
  pub disk_kept : KeepsDisk limits active candidate observed

nil-natural_reasons :
    (reason : String → Reason) (entries : List (String × Num))
    → AreNatural entries
    → natural_reasons reason entries ≡ []
unfolding natural_reasons
nil-natural_reasons reason [] h = refl
nil-natural_reasons reason ((name, v) ∷ rest) h =
    rw (nil-failing ((bad_natural v, reason name) ∷ []) (h.0, tt))
      (nil-natural_reasons reason rest h.1)

nil-active_reasons :
    (limits : HostAdmissionLimits) (i : ℕ) (rs : List ResourceReservation)
    → All (IsKnown limits) rs
    → All IsSound rs
    → active_reasons limits i rs ≡ []
unfolding active_reasons failing
nil-active_reasons limits i [] k s = refl
nil-active_reasons limits i (r ∷ rest) k s = rw (
  k.0.0,
  k.0.1,
  nil-natural_reasons (bad_active i) (reservation_entries r) s.0,
  nil-active_reasons limits (i + 1) rest k.1 s.1,
)

ge-lt : (k : ℕ) (v : Num) → k < to_ℕ v → ge (nat k) v ≡ false
ge-lt k (nat n) h = ground arith
ge-lt k (neg n) h = absurd (omega arith)
ge-lt k nan h = absurd (omega arith)

gt-add-le :
    (t : ℕ) (c l : Num)
    → bad_natural c ≡ false
    → bad_natural l ≡ false
    → t + to_ℕ c ≤ to_ℕ l
    → gt (add (nat t) c) l ≡ false
gt-add-le t (nat c) (nat l) hc hl h = ground arith
gt-add-le t (neg c) l hc hl h = absurd (ground arith)
gt-add-le t nan l hc hl h = cc
gt-add-le t (nat c) (neg l) hc hl h = absurd (ground arith)
gt-add-le t (nat c) nan hc hl h = cc

gt-le :
    (c l : Num) → bad_natural c ≡ false → bad_natural l ≡ false → to_ℕ c ≤ to_ℕ l → gt c l ≡ false
gt-le (nat c) (nat l) hc hl h = ground arith
gt-le (neg c) l hc hl h = absurd (ground arith)
gt-le nan l hc hl h = cc
gt-le (nat c) (neg l) hc hl h = absurd (ground arith)
gt-le (nat c) nan hc hl h = cc

-- A total that fits below a safe integer is one.
safe_of_le : (t : ℕ) (l : Num) → bad_natural l ≡ false → t ≤ to_ℕ l → is_safe_integer (nat t) ≡ true
safe_of_le t (nat l) h le = ground arith
safe_of_le t (neg l) h le = absurd (ground arith)
safe_of_le t nan h le = cc

module _ {limits : HostAdmissionLimits} {active : List ResourceReservation}
    {candidate : ResourceReservation} {observed : Num}
    (h : IsAdmissible limits active candidate observed) where
  nil-group_reasons :
      group_reasons candidate.admission_group active
        (lookup candidate.admission_group limits.groups)
      ≡ []
  unfolding group_reasons
  nil-group_reasons =
      let (l, found, sound, fits) = h.room in
      rw found (nil-failing _ (sound, (ge-lt _ l.max_concurrency fits, tt)))

  -- One resource passes its three tests.
  resource_passes :
      (f : ResourceReservation → Num) (limit : Num)
      → All (IsNaturalOn f) active
      → bad_natural (f candidate) ≡ false
      → bad_natural limit ≡ false
      → Fits limits active candidate f limit
      → (is_safe_integer (total f active) ≡ true)
        × (gt (f candidate) limit ≡ false)
        × (gt (add (total f active) (f candidate)) limit ≡ false)
  unfolding total
  resource_passes f limit ns nc nl fits =
      let sum = sum_from-nat f 0 active ns in
      (
        rw sum (safe_of_le (0 + sum_of f active) limit nl (omega (arith, fits))),
        gt-le (f candidate) limit nc nl (omega (arith, fits)),
        rw sum (gt-add-le (0 + sum_of f active) (f candidate) limit nc nl (omega (arith, fits))),
      )

  nil-total_reasons : total_reasons limits active candidate ≡ []
  unfolding total_reasons
  nil-total_reasons =
      let sc = h.candidate_sound in
      let sl = h.limits_natural in
      let (c, c1, c2) =
        resource_passes cpu limits.max_cpu_units (naturals_cpu active h.active_sound) sc.0 sl.0
          h.cpu_fits in
      let (r, r1, r2) =
        resource_passes rss limits.max_rss_bytes (naturals_rss active h.active_sound) sc.1.0 sl.1.0
          h.rss_fits in
      let (p, p1, p2) =
        resource_passes children limits.max_child_processes
          (naturals_children active h.active_sound) sc.1.1.0 sl.1.1.0 h.children_fit in
      nil-failing _ (rw (c, r, p), (c1, (r1, (p1, (c2, (r2, (p2, tt)))))))

  admissible_admitted : (evaluate_admission limits active candidate observed).admitted ≡ true
  unfolding evaluate_admission all_reasons
  admissible_admitted = rw (
    nil-natural_reasons bad_limit (limit_entries limits observed) h.limits_natural,
    nil-natural_reasons bad_candidate (reservation_entries candidate) h.candidate_sound,
    nil-active_reasons limits 0 active h.active_known h.active_sound,
    nil-group_reasons,
    nil-total_reasons,
    nil-disk_reasons limits active candidate observed h.limits_natural h.candidate_sound
        h.active_sound h.disk_kept,
  )

module _ (limits : HostAdmissionLimits) (active : List ResourceReservation)
    (candidate : ResourceReservation) (observed : Num) where
  is_nil-eq : (rs : List Reason) → is_nil rs ≡ true → rs ≡ []
  is_nil-eq [] h = refl
  is_nil-eq (r ∷ rs) h = cc

  admitted-IsAdmissible :
      (evaluate_admission limits active candidate observed).admitted ≡ true
      → IsAdmissible limits active candidate observed
  unfolding evaluate_admission all_reasons
  admitted-IsAdmissible h =
      let (l, h1) = append-eq-nil _ _ (is_nil-eq _ h) in
      let (c, h2) = append-eq-nil _ _ h1 in
      let (a, h3) = append-eq-nil _ _ h2 in
      let (g, h4) = append-eq-nil _ _ h3 in
      let (t, d) = append-eq-nil _ _ h4 in
      let sl = natural_reasons-nil _ _ l in
      let sc = natural_reasons-nil _ _ c in
      let (known, sa) = active_reasons-nil limits 0 active a in
      let (cpu_ok, rss_ok, children_ok) =
        total_reasons-nil limits active candidate observed sc sa sl t in
      record {
        limits_natural = sl;
        candidate_sound = sc;
        active_known = known;
        active_sound = sa;
        room = group_reasons-nil _ active _ g;
        cpu_fits = cpu_ok;
        rss_fits = rss_ok;
        children_fit = children_ok;
        disk_kept = disk_reasons-nil limits active candidate observed sl sc sa d;
      }

  -- A candidate is admitted exactly when every number is a natural safe integer, the groups are
  -- known, its group has a free place, its CPU, memory and processes fit within the host limits
  -- beside the active ones, and all reserved artifacts leave every free-disk watermark intact.
  pub admitted_iff :
      ((evaluate_admission limits active candidate observed).admitted ≡ true)
      ↔ IsAdmissible limits active candidate observed
  admitted_iff = (admitted-IsAdmissible, λ h. admissible_admitted h)
