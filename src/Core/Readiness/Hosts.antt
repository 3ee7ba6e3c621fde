-- ===== src/Core/Readiness/Hosts.antt =====
-- The host policy that a deployment names (packages/core/src/readiness.ts).
use map_data_aggregation_enh.Base.{
  String, Bool, ◌||◌, List, [], ◌∷◌, is_empty, Result, refuse, for_each, ◌>>◌, if◌then◌else◌, ◌==◌,
}
use map_data_aggregation_enh.Base.Numbers.{Num, bad_natural, bad_positive}
use map_data_aggregation_enh.Core.Admission.{GroupLimit}
use map_data_aggregation_enh.Core.Types.Policies.{HostLimits, HostPolicyManifest}
use map_data_aggregation_enh.Core.Readiness.{
  NotReady, bad_host_limit, bad_host_identity, bad_admission_group,
}

abbrev pub host_limits : HostLimits → List (String × Num)
host_limits l =
    ("maxCpuUnits", l.max_cpu_units)
    ∷ ("maxRssBytes", l.max_rss_bytes)
    ∷ ("maxChildProcesses", l.max_child_processes)
    ∷ ("minFreeDiskBytes", l.min_free_disk_bytes)
    ∷ []

abbrev pub bad_limit_value : String → Num → Bool
bad_limit_value name v = if name == "maxChildProcesses" then bad_natural v else bad_positive v

abbrev pub check_host_limit : String × Num → Result NotReady (Unit {0})
check_host_limit (name, v) = refuse (bad_limit_value name v) (bad_host_limit name)

abbrev pub check_admission_group : String × GroupLimit → Result NotReady (Unit {0})
check_admission_group (name, group) =
    refuse (is_empty name || bad_positive group.max_concurrency) (bad_admission_group name)

unfoldable pub check_host_policy : HostPolicyManifest → Result NotReady (Unit {0})
check_host_policy h = do
  for_each check_host_limit (host_limits h.limits)
  refuse (is_empty h.id || bad_positive h.version) bad_host_identity
  for_each check_admission_group h.admission_groups
