-- ===== src/Core/Admission/Examples.antt =====
-- A host with one group of two places.
use map_data_aggregation_enh.Base.{ℕ, ◌≡◌, refl, true, ◌↔◌, [], ◌∷◌, failing, eq_iff, arith}
use map_data_aggregation_enh.Base.Numbers.{nat, nan}
use map_data_aggregation_enh.Core.Types.{ResourceReservation}
use map_data_aggregation_enh.Core.Admission.{
  HostAdmissionLimits, evaluate_admission, all_reasons, natural_reasons, active_reasons,
  group_reasons, total_reasons, disk_reasons, sum_from, max_from, total, cpu_exceeds, bad_candidate,
}
use map_data_aggregation_enh.Core.Admission.Decision.{IsAdmissible, admitted_iff}
use map_data_aggregation_enh.Core.Admission.Overcommit.{IsWithin, admitted-IsWithin}

abbrev host : HostAdmissionLimits
host = record {
  max_cpu_units = nat 4;
  max_rss_bytes = nat 100;
  max_child_processes = nat 2;
  min_free_disk_bytes = nat 10;
  groups = ("fetch", record { max_concurrency = nat 2 }) ∷ [];
}

abbrev job : ℕ → ResourceReservation
job cpus = record {
  admission_group = "fetch";
  max_cpu_units = nat cpus;
  max_rss_bytes = nat 40;
  max_child_processes = nat 0;
  max_wall_time_ms = nat 1000;
  max_artifact_bytes = nat 5;
  min_free_disk_bytes = nat 20;
}

fits : (evaluate_admission host (job 2 ∷ []) (job 2) (nat 30)).admitted ≡ true
unfolding evaluate_admission all_reasons natural_reasons active_reasons group_reasons total_reasons
    disk_reasons sum_from max_from total failing
fits = refl

too_much : (evaluate_admission host (job 2 ∷ []) (job 3) (nat 30)).reasons ≡ cpu_exceeds ∷ []
unfolding evaluate_admission all_reasons natural_reasons active_reasons group_reasons total_reasons
    disk_reasons sum_from max_from total failing
too_much = refl

-- NaN passes every comparison with a limit; only the test on safe integers stops it.
nan_stopped :
    (evaluate_admission host [] (record (job 1) { max_cpu_units = nan }) (nat 30)).reasons
    ≡ bad_candidate "maxCpuUnits" ∷ []
unfolding evaluate_admission all_reasons natural_reasons active_reasons group_reasons total_reasons
    disk_reasons sum_from max_from total failing
nan_stopped = refl

admitted_iff_example :
    ((evaluate_admission host (job 2 ∷ []) (job 2) (nat 30)).admitted ≡ true)
    ↔ IsAdmissible host (job 2 ∷ []) (job 2) (nat 30)
admitted_iff_example = admitted_iff host (job 2 ∷ []) (job 2) (nat 30)

one_active : IsWithin host (job 2 ∷ [])
one_active = record {
  cpu_within = omega arith;
  rss_within = omega arith;
  children_within = omega arith;
  groups_within = λ group l e. ground (arith, eq_iff "fetch" group);
}

admitted-IsWithin_example : IsWithin host (job 2 ∷ job 2 ∷ [])
admitted-IsWithin_example = admitted-IsWithin host (job 2 ∷ []) (job 2) (nat 30) one_active fits
