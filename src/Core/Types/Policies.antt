-- ===== src/Core/Types/Policies.antt =====
-- packages/core/src/types.ts: source policies, profiles, deployments and host policies.
use map_data_aggregation_enh.Base.{String, Bool, List, Option, Dict}
use map_data_aggregation_enh.Base.Numbers.{Num}
use map_data_aggregation_enh.Core.Admission.{GroupLimit}
use map_data_aggregation_enh.Core.Types.{
  ArtifactPolicy, ArtifactClass, SchemaRef, EffectClass, EffectAuthorization, Verification,
}

pub data Authority : Type 0 where
  discovery_only official review_decision : Authority

pub data PolicyStatus : Type 0 where
  policy_pending policy_approved : PolicyStatus

pub data Redistribution : Type 0 where
  redistribution_forbidden redistribution_approved : Redistribution

pub data UpstreamTermsMode : Type 0 where
  terms_of_source terms_per_child : UpstreamTermsMode

pub record UpstreamTerms : Type 0 where
  pub child_id : String
  pub terms_ref : String

pub record ProvisionalRetention : Type 0 where
  pub post_approval_artifact_policy : ArtifactPolicy
  pub raw_max_days : Num
  pub derived_max_days : Num
  pub review_evidence_after_terminal_days : Num
  pub upstream_terms_mode : UpstreamTermsMode

pub record SourcePolicyDeclaration : Type 0 where
  pub id : String
  pub adapter : String
  pub namespace : String
  pub artifact_policy : ArtifactPolicy
  pub authority : Authority
  pub policy_status : PolicyStatus
  pub terms_ref : Option String
  pub attribution_ref : Option String
  pub retention_days : Option Num
  pub resource_uris : List String
  pub allowed_schemas : List SchemaRef
  pub upstream_terms : List UpstreamTerms
  pub provisional_retention : ProvisionalRetention
  pub allowed_fields : List String
  pub redistribution : Redistribution

pub record ShadowSourcePolicyDeclaration : Type 0 where
  pub stage_id : String
  pub plugin_id : String
  pub policy_id : String
  pub adapter : String
  pub effect_class : EffectClass
  pub resource_uri : String
  pub operations : List String
  pub output_ports : List String
  pub artifact_class : ArtifactClass

pub record ObservedTargetContractSourceReference : Type 0 where
  pub repository : String
  pub revision : String
  pub file_path : String
  pub digest_kind : String

pub record ObservedTargetContractReference : Type 0 where
  pub owner_repository : String
  pub contract_name : String
  pub version : Num
  pub profile : String
  pub entity : String
  pub raw_byte_digest : String
  pub byte_length : Num
  pub reference : ObservedTargetContractSourceReference

pub record TargetContract : Type 0 where
  pub owner_repository : String
  pub contract_name : String
  pub supported_versions : List Num
  pub digest_kind : String
  pub digest : Option String

pub record EffectPolicy : Type 0 where
  pub stage_id : String
  pub effect_class : EffectClass
  pub resource_uri : String
  pub operations : List String
  pub max_records : Num
  pub verification : Option Verification

-- An inert profile and an active one in one record: an inert one is not `deployment_enabled` and
-- has no effect policy.
pub record ProfileDeclaration : Type 0 where
  pub id : String
  pub policy_version : Num
  pub sources : List SourcePolicyDeclaration
  pub shadow_sources : List ShadowSourcePolicyDeclaration
  pub target_contract : TargetContract
  pub observed_target_contract : Option ObservedTargetContractReference
  pub plugin_lock_digest : Option String
  pub invariants : List String
  pub deployment_enabled : Bool
  pub effect_policy : List EffectPolicy

pub data SecretProvider : Type 0 where
  test_stub keychain secret_file injected_environment : SecretProvider

pub record DeploymentManifest : Type 0 where
  pub profile : String
  pub deployment_identity : String
  pub enabled : Bool
  pub definition_digest : String
  pub profile_policy_digest : String
  pub plugin_lock_digest : String
  pub target_contract_version : Num
  pub target_contract_digest_kind : String
  pub target_contract_digest : String
  pub effect_authorizations : List EffectAuthorization
  pub host_policy_digest : String
  pub secret_provider : SecretProvider

pub record HostLimits : Type 0 where
  pub max_cpu_units : Num
  pub max_rss_bytes : Num
  pub max_child_processes : Num
  pub min_free_disk_bytes : Num

pub record HostPolicyManifest : Type 0 where
  pub id : String
  pub version : Num
  pub limits : HostLimits
  pub admission_groups : Dict GroupLimit
