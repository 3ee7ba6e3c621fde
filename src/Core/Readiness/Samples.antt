-- ===== src/Core/Readiness/Samples.antt =====
-- A deployment of the sample pipeline: for runs on sample inputs.
use map_data_aggregation_enh.Base.{String, ◌≡◌, refl, true, none, some, [], ◌∷◌, ok, for_each}
use map_data_aggregation_enh.Base.Numbers.{nat}
use map_data_aggregation_enh.Base.TextOrder.{text_lt}
use map_data_aggregation_enh.Base.Sorting.{sort, insert_sorted}
use map_data_aggregation_enh.Core.Types.{
  EffectClass, network_read, canonical_write, required, EffectAuthorization,
}
use map_data_aggregation_enh.Core.Types.Policies.{
  official, policy_approved, redistribution_approved, terms_of_source, EffectPolicy,
  SourcePolicyDeclaration, ProfileDeclaration, keychain, DeploymentManifest, HostPolicyManifest,
}
use map_data_aggregation_enh.Core.Platform.{plain_platform}
use map_data_aggregation_enh.Core.Samples.{pipeline_passes, digest, places, plugins, pipeline}
use map_data_aggregation_enh.Core.Identity.{null, canonicalize, normalize}
use map_data_aggregation_enh.Core.Identity.Keys.{digest_of}
use map_data_aggregation_enh.Core.SameValues.{same_values, every_at}
use map_data_aggregation_enh.Core.Validation.Formats.{is_sha256}
use map_data_aggregation_enh.Core.Readiness.{
  Runtime, ApplyReadinessInput, digest_object, compute_definition_digest,
  compute_profile_policy_digest, compute_plugin_catalog_digest, compute_host_policy_digest,
}
use map_data_aggregation_enh.Core.Readiness.Matches.{policy_matches, grant_matches}
use map_data_aggregation_enh.Core.Readiness.Hosts.{check_host_policy}
use map_data_aggregation_enh.Core.Readiness.Sources.{
  check_source_ids, check_stage_sources, source_faults, valid_provisional_ceilings,
  outputs_match_policy, retention_ceiling,
}
use map_data_aggregation_enh.Core.Readiness.Apply.{
  assert_apply_ready, check_identities, check_pinned_digests, check_definition_digest,
  check_profile_digest, check_lock_digest, check_host_digest, check_target, check_stage_effects,
  check_request,
}

-- Every text has the same digest.
abbrev pub runtime : Runtime
runtime = record {
  platform = plain_platform;
  hex = λ v. "00112233445566778899aabbccddeeff00112233445566778899aabbccddeeff";
  definition_json = λ d. null;
  catalog_json = λ c. null;
  profile_json = λ p. null;
  host_policy_json = λ h. null;
  restrictions_json = λ r. null;
  locale_lt = text_lt;
}

abbrev pub feed_policy : SourcePolicyDeclaration
feed_policy = record {
  id = "feed-policy";
  adapter = "http";
  namespace = "feed";
  artifact_policy = required;
  authority = official;
  policy_status = policy_approved;
  terms_ref = some "terms";
  attribution_ref = some "feed";
  retention_days = some (nat 7);
  resource_uris = "https://feed/" ∷ [];
  allowed_schemas = places ∷ [];
  upstream_terms = [];
  provisional_retention = record {
    post_approval_artifact_policy = required;
    raw_max_days = nat 7;
    derived_max_days = nat 30;
    review_evidence_after_terminal_days = nat 7;
    upstream_terms_mode = terms_of_source;
  };
  allowed_fields = "name" ∷ [];
  redistribution = redistribution_approved;
}

abbrev pub policy : String → EffectClass → String → EffectPolicy
policy stage e uri = record {
  stage_id = stage;
  effect_class = e;
  resource_uri = uri;
  operations = "run" ∷ [];
  max_records = nat 5;
  verification = none;
}

abbrev pub profile : ProfileDeclaration
profile = record {
  id = "pizza";
  policy_version = nat 1;
  sources = feed_policy ∷ [];
  shadow_sources = [];
  target_contract = record {
    owner_repository = "contracts";
    contract_name = "places";
    supported_versions = nat 1 ∷ [];
    digest_kind = "sha256-canonical-json-v1";
    digest = some digest;
  };
  observed_target_contract = none;
  plugin_lock_digest = some digest;
  invariants = [];
  deployment_enabled = true;
  effect_policy =
      policy "fetch" network_read "https://feed/"
      ∷ policy "write" canonical_write "db://places/"
      ∷ [];
}

abbrev pub grant : String → EffectClass → String → EffectAuthorization
grant stage e uri = record {
  profile = "pizza";
  stage_id = stage;
  deployment_identity = "d1";
  effect_class = e;
  resource_uri = uri;
  operations = "run" ∷ [];
  max_records = nat 5;
  verification = none;
}

abbrev pub deployment : DeploymentManifest
deployment = record {
  profile = "pizza";
  deployment_identity = "d1";
  enabled = true;
  definition_digest = digest;
  profile_policy_digest = digest;
  plugin_lock_digest = digest;
  target_contract_version = nat 1;
  target_contract_digest_kind = "sha256-canonical-json-v1";
  target_contract_digest = digest;
  effect_authorizations =
      grant "fetch" network_read "https://feed/"
      ∷ grant "write" canonical_write "db://places/"
      ∷ [];
  host_policy_digest = digest;
  secret_provider = keychain;
}

abbrev pub host : HostPolicyManifest
host = record {
  id = "host";
  version = nat 1;
  limits = record {
    max_cpu_units = nat 4;
    max_rss_bytes = nat 4;
    max_child_processes = nat 0;
    min_free_disk_bytes = nat 1;
  };
  admission_groups = ("g", record { max_concurrency = nat 1 }) ∷ [];
}

abbrev pub ready_input : ApplyReadinessInput
ready_input = record {
  definition = pipeline "fetch.feed";
  catalog = plugins;
  profile = profile;
  deployment = deployment;
  host_policy = host;
}

pub ready_input_passes : assert_apply_ready runtime ready_input ≡ ok tt
unfolding assert_apply_ready check_identities check_pinned_digests check_definition_digest
    check_profile_digest check_lock_digest check_host_digest check_target check_source_ids
    check_stage_sources source_faults valid_provisional_ceilings outputs_match_policy
    retention_ceiling for_each check_host_policy check_stage_effects check_request policy_matches
    grant_matches same_values every_at sort insert_sorted text_lt is_sha256 digest_object
    compute_definition_digest compute_profile_policy_digest compute_plugin_catalog_digest
    compute_host_policy_digest digest_of canonicalize normalize
ready_input_passes = rw pipeline_passes refl
