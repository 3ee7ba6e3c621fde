-- ===== src/Core/Migration/Examples.antt =====
-- A planner's state that is imported, and two services that write to different scopes.
use map_data_aggregation_enh.Base.{
  String, true, ◌≡◌, refl, ◌↔◌, none, some, [], ◌∷◌, failing, ok, err,
}
use map_data_aggregation_enh.Base.Numbers.{nat}
use map_data_aggregation_enh.Core.Platform.{plain_platform}
use map_data_aggregation_enh.Core.Validation.Formats.{is_sha256}
use map_data_aggregation_enh.Core.Migration.{
  planner_state, LegacyStateDescriptor, LegacyImportBinding, check_digests, check_artifacts,
  BoundLegacyStateDescriptor, bind_legacy_import, target_differs,
}
use map_data_aggregation_enh.Core.Migration.Import.{IsBindable, IsImport, bind_legacy_import_iff}
use map_data_aggregation_enh.Core.Migration.Topology.{
  persistent, apply_changes, loaded, manual_writer, ServiceTopologyEntry, TopologyCutoverEvidence,
  also_written, of_service, queue_mutators, schedule_problems, command_problems, queue_problems,
  scope_problems, binding_problems, service_issues, services_issues, topology_cutover_issues,
}
use map_data_aggregation_enh.Core.Migration.SingleWriter.{IsSettled, topology-IsSettled}

abbrev state_digest : String
state_digest = "sha256:0123456789abcdef0123456789abcdef0123456789abcdef0123456789abcdef"

abbrev planner : LegacyStateDescriptor
planner = record {
  kind = planner_state;
  content_digest = state_digest;
  schema_version = nat 2;
  source_path_digest = state_digest;
  profile = none;
  target = some "places";
  referenced_artifacts = (record { content_digest = state_digest; is_relocatable = true }) ∷ [];
}

abbrev import_to : String → LegacyImportBinding
import_to target = record {
  kind = planner_state;
  profile = "pizza";
  target = target;
  expected_content_digest = state_digest;
  expected_source_path_digest = state_digest;
  supported_schema_versions = nat 1 ∷ nat 2 ∷ [];
}

abbrev imported : BoundLegacyStateDescriptor
imported = record {
  kind = planner_state;
  content_digest = state_digest;
  schema_version = nat 2;
  source_path_digest = state_digest;
  profile = "pizza";
  target = "places";
  referenced_artifacts = (record { content_digest = state_digest; is_relocatable = true }) ∷ [];
}

planner_imports : bind_legacy_import planner (import_to "places") ≡ ok imported
unfolding bind_legacy_import check_digests check_artifacts is_sha256
planner_imports = refl

other_target_refused : bind_legacy_import planner (import_to "reviews") ≡ err target_differs
unfolding bind_legacy_import check_digests check_artifacts is_sha256
other_target_refused = refl

bind_legacy_import_iff_example :
    (bind_legacy_import planner (import_to "places") ≡ ok imported)
    ↔ (IsBindable planner (import_to "places") × IsImport planner (import_to "places") imported)
bind_legacy_import_iff_example = bind_legacy_import_iff planner (import_to "places") imported

abbrev writer : String → String → ServiceTopologyEntry
writer id scope = record {
  id = id;
  profile = "pizza";
  mode = apply_changes;
  desired_schedule = some persistent;
  live_schedule = some persistent;
  is_desired = true;
  live_state = loaded;
  definition_present = true;
  desired_command_digest = some state_digest;
  live_command_digest = some state_digest;
  queue_roles = manual_writer ∷ [];
  queue_bindings =
      (record {
        queue_id = "q";
        store_uri = "file:///q";
        lock_identity = "q.lock";
        produces_tasks = [];
        consumes_tasks = [];
      })
      ∷ [];
  target_write_scopes = scope ∷ [];
  state_refs = [];
  admission_groups = [];
  credential_refs = [];
}

abbrev evidence : TopologyCutoverEvidence
evidence = record {
  claims_reconciled = true;
  enqueue_routing_switched = true;
  legacy_writers_disabled = true;
}

apart_passes :
    topology_cutover_issues plain_platform
      (writer "a" "places" ∷ writer "b" "reviews" ∷ [])
      evidence
    ≡ []
unfolding topology_cutover_issues services_issues service_issues schedule_problems command_problems
    queue_problems queue_mutators scope_problems binding_problems failing is_sha256
apart_passes = refl

together_refused :
    topology_cutover_issues plain_platform (writer "a" "places" ∷ writer "b" "places" ∷ []) evidence
    ≡ of_service "b" (also_written "a" "places") ∷ []
unfolding topology_cutover_issues services_issues service_issues schedule_problems command_problems
    queue_problems queue_mutators scope_problems binding_problems failing is_sha256
together_refused = refl

topology-IsSettled_example : IsSettled (writer "a" "places" ∷ writer "b" "reviews" ∷ []) evidence
topology-IsSettled_example =
    topology-IsSettled plain_platform (writer "a" "places" ∷ writer "b" "reviews" ∷ []) evidence
      apart_passes
