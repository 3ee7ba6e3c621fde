-- ===== src/Core/Admission.antt =====
-- packages/core/src/admission.ts: may one more stage be started beside the active reservations?
-- A reason is a constructor for each message of the source, with what the message interpolates.
pub mod Sums
pub mod Bounds
pub mod Disk
pub mod Decision
pub mod Overcommit
mod Examples
use map_data_aggregation_enh.Base.{
  ℕ, suc, ◌+◌, String, Bool, true, false, not, ◌||◌, Option, none, some, List, [], ◌∷◌, ◌++◌, Dict,
  lookup, is_some, is_empty, is_nil, length, filter, failing, ◌==◌,
}
use map_data_aggregation_enh.Base.Numbers.{
  Num, nat, is_safe_integer, bad_natural, bad_positive, gt, ge, lt, add, sub, max,
}
use map_data_aggregation_enh.Core.Types.{ResourceReservation}

pub record GroupLimit : Type 0 where
  pub max_concurrency : Num

pub record HostAdmissionLimits : Type 0 where
  pub max_cpu_units : Num
  pub max_rss_bytes : Num
  pub max_child_processes : Num
  pub min_free_disk_bytes : Num
  pub groups : Dict GroupLimit

pub data Reason : Type 0 where
  bad_limit bad_candidate unknown_group invalid_group_limit group_full : String → Reason
  unknown_active_group : ℕ → Reason
  bad_active : ℕ → String → Reason
  unsafe_totals : Reason
  candidate_cpu_exceeds candidate_rss_exceeds candidate_children_exceed : Reason
  cpu_exceeds rss_exceeds children_exceed : Reason
  disk_watermark : Reason

pub record AdmissionDecision : Type 0 where
  pub admitted : Bool
  pub reasons : List Reason

-- A loop over entries that must be non-negative safe integers.
pub natural_reasons : (String → Reason) → List (String × Num) → List Reason
natural_reasons reason [] = []
natural_reasons reason ((name, value) ∷ rest) =
    failing ((bad_natural value, reason name) ∷ []) ++ natural_reasons reason rest

abbrev pub limit_entries : HostAdmissionLimits → Num → List (String × Num)
limit_entries limits observed =
    ("maxCpuUnits", limits.max_cpu_units)
    ∷ ("maxRssBytes", limits.max_rss_bytes)
    ∷ ("maxChildProcesses", limits.max_child_processes)
    ∷ ("minFreeDiskBytes", limits.min_free_disk_bytes)
    ∷ ("observedFreeDiskBytes", observed)
    ∷ []

-- The entries of a reservation but for its group.
abbrev pub reservation_entries : ResourceReservation → List (String × Num)
reservation_entries r =
    ("maxCpuUnits", r.max_cpu_units)
    ∷ ("maxRssBytes", r.max_rss_bytes)
    ∷ ("maxChildProcesses", r.max_child_processes)
    ∷ ("maxWallTimeMs", r.max_wall_time_ms)
    ∷ ("maxArtifactBytes", r.max_artifact_bytes)
    ∷ ("minFreeDiskBytes", r.min_free_disk_bytes)
    ∷ []

pub active_reasons : HostAdmissionLimits → ℕ → List ResourceReservation → List Reason
active_reasons limits index [] = []
active_reasons limits index (r ∷ rest) =
    failing (
      (
        is_empty r.admission_group || not (is_some (lookup r.admission_group limits.groups)),
        unknown_active_group index,
      )
      ∷ [])
    ++ (natural_reasons (bad_active index) (reservation_entries r)
        ++ active_reasons limits (index + 1) rest)

abbrev pub in_group : String → ResourceReservation → Bool
in_group group r = r.admission_group == group

pub group_reasons : String → List ResourceReservation → Option GroupLimit → List Reason
group_reasons group active none = unknown_group group ∷ []
group_reasons group active (some g) = failing (
    (bad_positive g.max_concurrency, invalid_group_limit group)
    ∷ (ge (nat (length (filter (in_group group) active))) g.max_concurrency, group_full group)
    ∷ [])

-- `active.reduce((sum, item) => sum + f(item), acc)`
pub sum_from : (ResourceReservation → Num) → Num → List ResourceReservation → Num
sum_from f acc [] = acc
sum_from f acc (r ∷ rest) = sum_from f (add acc (f r)) rest

-- `Math.max(acc, ...active.map(f))`
pub max_from : (ResourceReservation → Num) → Num → List ResourceReservation → Num
max_from f acc [] = acc
max_from f acc (r ∷ rest) = max_from f (max acc (f r)) rest

abbrev pub cpu : ResourceReservation → Num
cpu r = r.max_cpu_units

abbrev pub rss : ResourceReservation → Num
rss r = r.max_rss_bytes

abbrev pub children : ResourceReservation → Num
children r = r.max_child_processes

abbrev pub artifacts : ResourceReservation → Num
artifacts r = r.max_artifact_bytes

abbrev pub free_disk : ResourceReservation → Num
free_disk r = r.min_free_disk_bytes

pub total : (ResourceReservation → Num) → List ResourceReservation → Num
total f active = sum_from f (nat 0) active

pub total_reasons :
    HostAdmissionLimits → List ResourceReservation → ResourceReservation → List Reason
unfolding total
total_reasons limits active candidate =
    let total_cpu = total cpu active in
    let total_rss = total rss active in
    let total_children = total children active in
    failing (
      (
        not (is_safe_integer total_cpu)
            || not (is_safe_integer total_rss)
            || not (is_safe_integer total_children),
        unsafe_totals,
      )
      ∷ (gt candidate.max_cpu_units limits.max_cpu_units, candidate_cpu_exceeds)
      ∷ (gt candidate.max_rss_bytes limits.max_rss_bytes, candidate_rss_exceeds)
      ∷ (gt candidate.max_child_processes limits.max_child_processes, candidate_children_exceed)
      ∷ (gt (add total_cpu candidate.max_cpu_units) limits.max_cpu_units, cpu_exceeds)
      ∷ (gt (add total_rss candidate.max_rss_bytes) limits.max_rss_bytes, rss_exceeds)
      ∷ (
        gt (add total_children candidate.max_child_processes) limits.max_child_processes,
        children_exceed,
      )
      ∷ [])

pub disk_reasons :
    HostAdmissionLimits → List ResourceReservation → ResourceReservation → Num → List Reason
disk_reasons limits active candidate observed =
    let required_free =
      max_from free_disk (max limits.min_free_disk_bytes candidate.min_free_disk_bytes) active in
    let reserved = sum_from artifacts candidate.max_artifact_bytes active in
    failing ((lt (sub observed reserved) required_free, disk_watermark) ∷ [])

pub all_reasons :
    HostAdmissionLimits → List ResourceReservation → ResourceReservation → Num → List Reason
all_reasons limits active candidate observed =
    natural_reasons bad_limit (limit_entries limits observed)
    ++ (natural_reasons bad_candidate (reservation_entries candidate)
        ++ (active_reasons limits 0 active
            ++ (group_reasons candidate.admission_group active
                  (lookup candidate.admission_group limits.groups)
                ++ (total_reasons limits active candidate
                    ++ disk_reasons limits active candidate observed))))

unfoldable pub evaluate_admission :
    HostAdmissionLimits → List ResourceReservation → ResourceReservation → Num → AdmissionDecision
evaluate_admission limits active candidate observed =
    let reasons = all_reasons limits active candidate observed in
    record { admitted = is_nil reasons; reasons = reasons }
