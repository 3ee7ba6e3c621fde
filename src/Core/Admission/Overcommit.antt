-- ===== src/Core/Admission/Overcommit.antt =====
-- Admission never overcommits the host (packages/core/src/admission.ts).
use map_data_aggregation_enh.Base.{◌≤◌, ◌≡◌, String, true, some, List, ◌∷◌, lookup, eq_iff, arith}
use map_data_aggregation_enh.Base.Numbers.{Num, to_ℕ}
use map_data_aggregation_enh.Core.Types.{ResourceReservation}
use map_data_aggregation_enh.Core.Admission.{
  GroupLimit, HostAdmissionLimits, cpu, rss, children, evaluate_admission,
}
use map_data_aggregation_enh.Core.Admission.Sums.{sum_of}
use map_data_aggregation_enh.Core.Admission.Bounds.{group_size, HasRoom}
use map_data_aggregation_enh.Core.Admission.Decision.{admitted_iff}

-- The reservations together stay within every limit of the host, and each group within its own.
pub record IsWithin (limits : HostAdmissionLimits) (rs : List ResourceReservation) : Type 0 where
  pub cpu_within : sum_of cpu rs ≤ to_ℕ limits.max_cpu_units
  pub rss_within : sum_of rss rs ≤ to_ℕ limits.max_rss_bytes
  pub children_within : sum_of children rs ≤ to_ℕ limits.max_child_processes
  pub groups_within :
      (group : String) (l : GroupLimit)
      → lookup group limits.groups ≡ some l
      → group_size group rs ≤ to_ℕ l.max_concurrency

group_size-cons :
    (limits : HostAdmissionLimits) (rs : List ResourceReservation) (c : ResourceReservation)
    (group : String) (l : GroupLimit)
    → HasRoom limits rs c
    → lookup group limits.groups ≡ some l
    → group_size group rs ≤ to_ℕ l.max_concurrency
    → group_size group (c ∷ rs) ≤ to_ℕ l.max_concurrency
group_size-cons limits rs c group l (m, found, _, fits) e le =
    ground (arith, eq_iff c.admission_group group)

-- If the active reservations are within the limits of the host and of every group, and a further
-- one is admitted, then they all are together.
pub admitted-IsWithin :
    (limits : HostAdmissionLimits) (active : List ResourceReservation)
    (candidate : ResourceReservation) (observed : Num)
    → IsWithin limits active
    → (evaluate_admission limits active candidate observed).admitted ≡ true
    → IsWithin limits (candidate ∷ active)
admitted-IsWithin limits active candidate observed w h =
    let a = (admitted_iff limits active candidate observed).0 h in
    record {
      cpu_within = omega (arith, a.cpu_fits);
      rss_within = omega (arith, a.rss_fits);
      children_within = omega (arith, a.children_fit);
      groups_within = λ group l e.
          group_size-cons limits active candidate group l a.room e (w.groups_within group l e);
    }
