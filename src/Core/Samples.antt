-- ===== src/Core/Samples.antt =====
-- A pipeline that fetches a feed and writes it to a canonical store: for runs on sample inputs.
use map_data_aggregation_enh.Base.{◌≡◌, refl, failing, String, true, none, some, [], ◌∷◌, Dict}
use map_data_aggregation_enh.Base.Numbers.{nat}
use map_data_aggregation_enh.Core.Types.{
  pipeline_api_version, SchemaRef, PortDeclaration, one, global, canonical, required, derived,
  PluginLock, StagePluginManifest, EffectClass, network_read, canonical_write, verified_receipt,
  no_delivery, EffectRequestDeclaration, ResourceReservation, StageDefinition, PipelineDefinition,
}
use map_data_aggregation_enh.Base.TextOrder.{text_lt}
use map_data_aggregation_enh.Base.Sorting.{sort, insert_sorted}
use map_data_aggregation_enh.Core.Platform.{plain_platform}
use map_data_aggregation_enh.Core.SameValues.{same_values, every_at}
use map_data_aggregation_enh.Core.Validation.Issues.{each_from}
use map_data_aggregation_enh.Core.Validation.Formats.{
  is_sha256, split_dots, same_port, is_canonical_resource_uri,
}
use map_data_aggregation_enh.Core.Validation.Catalog.{
  manifest_issues, catalog_issues, partition_issues, header_issues,
}
use map_data_aggregation_enh.Core.Validation.Inputs.{
  resolve, input_issues, consumed_stages, undeclared_issues,
}
use map_data_aggregation_enh.Core.Validation.Bindings.{
  matches_binding, binding_issues, bound_after, ports_issues, bindings_issues, bound_ports,
  coverage_issues, source_coverage_issues, source_stage_issues,
}
use map_data_aggregation_enh.Core.Validation.Requests.{
  validate_requested_effect, write_issues, request_issues, requests_issues, resource_issues,
  missing_issues,
}
use map_data_aggregation_enh.Core.Validation.Stages.{
  id_issues, lock_issues, plugin_issues, stages_issues,
}
use map_data_aggregation_enh.Core.Validation.Sinks.{
  list_issues, sinks_issues, overlap_issues, writers_issues,
}
use map_data_aggregation_enh.Core.Validation.Definition.{validate_definition}

abbrev pub digest : String
digest = "sha256:00112233445566778899aabbccddeeff00112233445566778899aabbccddeeff"

abbrev pub places : SchemaRef
places = record { name = "places"; version = nat 1 }

abbrev pub port : PortDeclaration
port = record {
  schema = places;
  cardinality = one;
  partitioning = global;
  ordering = canonical;
  artifact_policy = required;
  is_required = true;
}

abbrev pub lock : PluginLock
lock = record {
  package_name = "p";
  package_version = "1.0.0";
  plugin_api_version = pipeline_api_version;
  integrity = digest;
  executable_digest = none;
  config_schema = places;
  config_schema_digest = digest;
}

abbrev pub reader : StagePluginManifest
reader = record {
  id = "reader";
  lock = lock;
  inputs = [];
  outputs = ("feed", port) ∷ [];
  source_adapter = some "http";
  effects = network_read ∷ [];
  delivery = no_delivery;
  secret_refs = [];
}

abbrev pub store : StagePluginManifest
store = record {
  id = "store";
  lock = lock;
  inputs = ("rows", port) ∷ [];
  outputs = [];
  source_adapter = none;
  effects = canonical_write ∷ [];
  delivery = verified_receipt;
  secret_refs = [];
}

abbrev pub plugins : Dict StagePluginManifest
plugins = ("reader", reader) ∷ ("store", store) ∷ []

abbrev pub reservation : ResourceReservation
reservation = record {
  admission_group = "g";
  max_cpu_units = nat 1;
  max_rss_bytes = nat 1;
  max_child_processes = nat 0;
  max_wall_time_ms = nat 1;
  max_artifact_bytes = nat 0;
  min_free_disk_bytes = nat 1;
}

abbrev pub request : EffectClass → String → EffectRequestDeclaration
request e uri = record {
  effect_class = e;
  resource_uri = uri;
  operations = "run" ∷ [];
  max_records = nat 5;
  verification = none;
}

abbrev pub fetch : StageDefinition
fetch = record {
  id = "fetch";
  uses = "reader";
  inputs = [];
  source_bindings =
      (record {
        policy_id = "feed-policy";
        effect_class = network_read;
        resource_uri = "https://feed/";
        operations = "run" ∷ [];
        output_ports = "feed" ∷ [];
        artifact_class = derived;
        child_ids = [];
      })
      ∷ [];
  resources = reservation;
  requested_effects = request network_read "https://feed/" ∷ [];
}

abbrev pub write_from : String → StageDefinition
write_from reference = record {
  id = "write";
  uses = "store";
  inputs = ("rows", reference) ∷ [];
  source_bindings = [];
  resources = reservation;
  requested_effects = request canonical_write "db://places/" ∷ [];
}

abbrev pub pipeline : String → PipelineDefinition
pipeline reference = record {
  api_version = pipeline_api_version;
  kind = "Pipeline";
  name = "sync";
  version = nat 1;
  profile = "pizza";
  partitions = none;
  stages = fetch ∷ write_from reference ∷ [];
  required_sinks = "write" ∷ [];
  optional_sinks = [];
}

pub pipeline_passes : validate_definition plain_platform (pipeline "fetch.feed") plugins ≡ []
unfolding validate_definition header_issues partition_issues catalog_issues manifest_issues
    each_from failing stages_issues id_issues plugin_issues lock_issues input_issues resolve
    split_dots same_port consumed_stages undeclared_issues write_issues source_stage_issues
    bindings_issues binding_issues matches_binding same_values every_at sort insert_sorted text_lt
    ports_issues bound_after bound_ports coverage_issues source_coverage_issues requests_issues
    request_issues validate_requested_effect resource_issues missing_issues is_sha256
    is_canonical_resource_uri list_issues sinks_issues overlap_issues writers_issues
pipeline_passes = refl
