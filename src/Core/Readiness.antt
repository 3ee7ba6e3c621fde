-- ===== src/Core/Readiness.antt =====
-- packages/core/src/readiness.ts: when a definition may be applied, and the context that
-- authorizes the effects of its stages.
pub mod Matches
pub mod Sources
pub mod Hosts
pub mod Apply
pub mod Terms
pub mod Approved
pub mod Pinned
pub mod Ready
pub mod Context
pub mod Samples
mod Examples
use map_data_aggregation_enh.Base.{
  String, Bool, true, false, not, ◌&&◌, ◌||◌, Option, none, some, Dict, Result, ok, err, ◌==◌,
}
use map_data_aggregation_enh.Base.Numbers.{Num, num_eq, is_nan}
use map_data_aggregation_enh.Core.Types.{SchemaRef, StagePluginManifest, PipelineDefinition}
use map_data_aggregation_enh.Core.Types.Policies.{
  ProfileDeclaration, HostPolicyManifest, DeploymentManifest,
}
use map_data_aggregation_enh.Core.Types.Datasets.{DatasetHandle, DatasetRestrictions}
use map_data_aggregation_enh.Core.Platform.{Platform}
use map_data_aggregation_enh.Core.Identity.{Json, IdentityError}
use map_data_aggregation_enh.Core.Identity.Keys.{digest_of}

-- What the code takes from the runtime beyond the platform: the SHA-256 of a canonical text in
-- hexadecimal, `JSON.parse(JSON.stringify(value))` of the objects that are digested, and the order
-- of `localeCompare`.
pub record Runtime : Type 0 where
  pub platform : Platform
  pub hex : Json → String
  pub definition_json : PipelineDefinition → Json
  pub catalog_json : Dict StagePluginManifest → Json
  pub profile_json : ProfileDeclaration → Json
  pub host_policy_json : HostPolicyManifest → Json
  pub restrictions_json : DatasetRestrictions → Json
  pub locale_lt : String → String → Bool

pub data NotReady : Type 0 where
  cannot_digest : IdentityError → NotReady
  profile_disabled deployment_disabled ids_differ digests_differ no_deployment_identity : NotReady
  lock_digests_differ host_digest_differs bad_target_contract no_credentials : NotReady
  invalid_definition bad_policy_version bad_source_ids : NotReady
  unknown_source_policy unapproved_source_policy bad_host_limit : String → NotReady
  bad_host_identity : NotReady
  bad_admission_group unknown_admission_group : String → NotReady
  not_allowed_by_profile not_granted unused_grant : String → NotReady

module _ (r : Runtime) where
  -- `digestObject`, after the object is made JSON.
  unfoldable pub digest_object : Json → Result NotReady String
  digest_object v = elim (digest_of r.platform r.hex v) [
    | ok d ↦ ok d
    | err e ↦ err (cannot_digest e)
  ]

  pub compute_definition_digest : PipelineDefinition → Result NotReady String
  compute_definition_digest d = digest_object (r.definition_json d)

  pub compute_plugin_catalog_digest : Dict StagePluginManifest → Result NotReady String
  compute_plugin_catalog_digest c = digest_object (r.catalog_json c)

  pub compute_profile_policy_digest : ProfileDeclaration → Result NotReady String
  compute_profile_policy_digest d = digest_object (r.profile_json d)

  pub compute_host_policy_digest : HostPolicyManifest → Result NotReady String
  compute_host_policy_digest h = digest_object (r.host_policy_json h)

  unfoldable pub is_canonical_iso_instant : String → Bool
  is_canonical_iso_instant value =
      let parsed = r.platform.parse_date value in
      not (is_nan parsed) && r.platform.to_iso parsed == value

abbrev pub same_schema : SchemaRef → SchemaRef → Bool
same_schema l r = l.name == r.name && num_eq l.version r.version

-- `DatasetRegistryVerifier.verifyDataset`, which the broker supplies.
abbrev pub Registry : Type 0
Registry = DatasetHandle → Bool

-- `ApplyReadinessInput`
pub record ApplyReadinessInput : Type 0 where
  pub definition : PipelineDefinition
  pub catalog : Dict StagePluginManifest
  pub profile : ProfileDeclaration
  pub deployment : DeploymentManifest
  pub host_policy : HostPolicyManifest
