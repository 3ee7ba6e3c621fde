-- ===== src/Core/Readiness/Apply.antt =====
-- `assertApplyReady` (packages/core/src/readiness.ts).
use map_data_aggregation_enh.Base.{
  String, Bool, true, false, not, ◌||◌, Option, none, some, [], any, find, lookup, is_nil, is_some,
  is_empty, is_truthy, Result, refuse, for_each, ◌>>◌, ◌>>=◌, ◌==◌,
}
use map_data_aggregation_enh.Base.Numbers.{bad_positive}
use map_data_aggregation_enh.Core.Types.{
  StageDefinition, EffectRequestDeclaration, EffectAuthorization,
}
use map_data_aggregation_enh.Core.Types.Policies.{
  ProfileDeclaration, DeploymentManifest, SecretProvider, test_stub,
}
use map_data_aggregation_enh.Core.Migration.{supports}
use map_data_aggregation_enh.Core.Validation.Formats.{is_sha256}
use map_data_aggregation_enh.Core.Validation.Definition.{validate_definition}
use map_data_aggregation_enh.Core.Readiness.{
  Runtime, NotReady, ApplyReadinessInput, compute_definition_digest, compute_plugin_catalog_digest,
  compute_profile_policy_digest, compute_host_policy_digest, profile_disabled, deployment_disabled,
  ids_differ, digests_differ, no_deployment_identity, lock_digests_differ, host_digest_differs,
  bad_target_contract, no_credentials, invalid_definition, bad_policy_version,
  unknown_admission_group, not_allowed_by_profile, not_granted, unused_grant,
}
use map_data_aggregation_enh.Core.Readiness.Matches.{policy_matches, grant_matches}
use map_data_aggregation_enh.Core.Readiness.Sources.{
  index_sources, check_stage_sources, check_source_ids,
}
use map_data_aggregation_enh.Core.Readiness.Hosts.{check_host_policy}

-- `SHA256_DIGEST.test` takes `null` for the text "null".
abbrev pub is_digest : Option String → Bool
is_digest none = false
is_digest (some d) = is_sha256 d

abbrev pub is_text : Option String → String → Bool
is_text none t = false
is_text (some s) t = s == t

abbrev pub is_stub : SecretProvider → Bool
is_stub test_stub = true
is_stub _ = false

unfoldable pub check_identities :
    ProfileDeclaration → String → DeploymentManifest → Result NotReady (Unit {0})
check_identities profile definition_profile deployment = do
  refuse (not profile.deployment_enabled) profile_disabled
  refuse (not deployment.enabled) deployment_disabled
  refuse (not (definition_profile == profile.id) || not (deployment.profile == profile.id))
      ids_differ

-- A digest is computed where the tests before it pass.
unfoldable pub check_definition_digest : Runtime → ApplyReadinessInput → Result NotReady (Unit {0})
check_definition_digest r i = do
  refuse (not (is_sha256 i.deployment.definition_digest)) digests_differ
  definition ← compute_definition_digest r i.definition
  refuse (not (i.deployment.definition_digest == definition)) digests_differ

unfoldable pub check_profile_digest : Runtime → ApplyReadinessInput → Result NotReady (Unit {0})
check_profile_digest r i = do
  refuse (not (is_sha256 i.deployment.profile_policy_digest)) digests_differ
  policy ← compute_profile_policy_digest r i.profile
  refuse (not (i.deployment.profile_policy_digest == policy)) digests_differ

unfoldable pub check_lock_digest : Runtime → ApplyReadinessInput → Result NotReady (Unit {0})
check_lock_digest r i = do
  refuse (not (is_digest i.profile.plugin_lock_digest)) lock_digests_differ
  lock ← compute_plugin_catalog_digest r i.catalog
  refuse
      (not (is_text i.profile.plugin_lock_digest lock)
        || not (is_text i.profile.plugin_lock_digest i.deployment.plugin_lock_digest))
      lock_digests_differ

unfoldable pub check_host_digest : Runtime → ApplyReadinessInput → Result NotReady (Unit {0})
check_host_digest r i = do
  refuse (not (is_sha256 i.deployment.host_policy_digest)) host_digest_differs
  host ← compute_host_policy_digest r i.host_policy
  refuse (not (host == i.deployment.host_policy_digest)) host_digest_differs

unfoldable pub check_pinned_digests : Runtime → ApplyReadinessInput → Result NotReady (Unit {0})
check_pinned_digests r i = do
  check_definition_digest r i
  check_profile_digest r i
  refuse (is_empty i.deployment.deployment_identity) no_deployment_identity
  check_lock_digest r i
  check_host_digest r i

abbrev pub digest_kind_v1 : String
digest_kind_v1 = "sha256-canonical-json-v1"

unfoldable pub check_target : ProfileDeclaration → DeploymentManifest → Result NotReady (Unit {0})
check_target profile deployment = do
  refuse
      (not (is_truthy profile.target_contract.digest)
        || not (profile.target_contract.digest_kind == digest_kind_v1)
        || not (deployment.target_contract_digest_kind == digest_kind_v1)
        || not (is_digest profile.target_contract.digest)
        || not (is_text profile.target_contract.digest deployment.target_contract_digest)
        || is_some profile.observed_target_contract
        || not (
            supports profile.target_contract.supported_versions deployment.target_contract_version))
      bad_target_contract
  refuse (is_stub deployment.secret_provider) no_credentials

-- The request is allowed by the profile's policy and granted by the deployment.
unfoldable pub check_request :
    ProfileDeclaration
    → DeploymentManifest
    → String
    → EffectRequestDeclaration
    → Result NotReady (Unit {0})
check_request profile deployment stage_id request = do
  refuse (not (any (λ policy. policy_matches policy stage_id request) profile.effect_policy))
      (not_allowed_by_profile stage_id)
  refuse
      (not (
        any
          (λ grant. grant_matches grant profile.id deployment.deployment_identity stage_id request)
          deployment.effect_authorizations))
      (not_granted stage_id)

unfoldable pub check_stage_effects :
    ApplyReadinessInput → StageDefinition → Result NotReady (Unit {0})
check_stage_effects i s = do
  refuse (not (is_some (lookup s.resources.admission_group i.host_policy.admission_groups)))
      (unknown_admission_group s.resources.admission_group)
  for_each (check_request i.profile i.deployment s.id) s.requested_effects

abbrev pub has_stage_id : String → StageDefinition → Bool
has_stage_id id s = s.id == id

-- The stage of a grant requests what is granted.
abbrev pub is_used : ApplyReadinessInput → EffectAuthorization → Option StageDefinition → Bool
is_used i g none = false
is_used i g (some s) =
    any (λ request. grant_matches g i.profile.id i.deployment.deployment_identity s.id request)
      s.requested_effects

abbrev pub check_grant_used : ApplyReadinessInput → EffectAuthorization → Result NotReady (Unit {0})
check_grant_used i g =
    refuse (not (is_used i g (find (has_stage_id g.stage_id) i.definition.stages)))
      (unused_grant g.stage_id)

unfoldable pub assert_apply_ready : Runtime → ApplyReadinessInput → Result NotReady (Unit {0})
assert_apply_ready r i = do
  check_identities i.profile i.definition.profile i.deployment
  check_pinned_digests r i
  check_target i.profile i.deployment
  refuse (not (is_nil (validate_definition r.platform i.definition i.catalog))) invalid_definition
  refuse (bad_positive i.profile.policy_version) bad_policy_version
  check_source_ids i.profile.sources
  for_each (check_stage_sources (index_sources [] i.profile.sources) i.catalog) i.definition.stages
  check_host_policy i.host_policy
  for_each (check_stage_effects i) i.definition.stages
  for_each (check_grant_used i) i.deployment.effect_authorizations
