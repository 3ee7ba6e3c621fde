-- ===== src/Core/Types/Datasets.antt =====
-- packages/core/src/types.ts: datasets, where they come from and what restricts them.
use map_data_aggregation_enh.Base.{String, List, Option}
use map_data_aggregation_enh.Base.Numbers.{Num}
use map_data_aggregation_enh.Core.Types.{ArtifactPolicy, ArtifactClass, SchemaRef, EffectClass}
use map_data_aggregation_enh.Core.Types.Policies.{Redistribution}
use map_data_aggregation_enh.Core.Identity.{Json}

pub record SourcePolicyStamp : Type 0 where
  pub profile_id : String
  pub profile_policy_version : Num
  pub profile_policy_digest : String
  pub source_policy_id : String

pub record DatasetRestrictions : Type 0 where
  pub source_policies : List SourcePolicyStamp
  pub redistribution : Redistribution
  pub attribution_refs : List String

pub data Consistency : Type 0 where
  immutable repeatable_read : Consistency

pub record SourceSnapshotDescriptor : Type 0 where
  pub snapshot_id : String
  pub source_instance_digest : Option String
  pub reader_binding_digest : String
  pub captured_at : Option String
  pub consistency : Consistency
  pub cursor_schema : Option SchemaRef
  pub start_exclusive : Option Json
  pub end_inclusive : Option Json
  pub contract_name : String
  pub contract_version : Num
  pub contract_digest : String

pub record SourceDatasetProvenance : Type 0 where
  pub producing_stage_id : String
  pub profile_id : String
  pub profile_policy_version : Num
  pub profile_policy_digest : String
  pub source_policy_id : String
  pub source_adapter : String
  pub effect_class : EffectClass
  pub resource_uri : String
  pub operations : List String
  pub output_port : String
  pub child_ids : List String
  pub snapshot : SourceSnapshotDescriptor

pub data RuntimeClass : Type 0 where
  fixture_preview read_only_shadow : RuntimeClass

pub record PreviewSourceDatasetProvenance : Type 0 where
  pub runtime_class : RuntimeClass
  pub runtime_policy_digest : String
  pub record_count : Num
  pub producing_stage_id : String
  pub profile_id : String
  pub binding_policy_id : String
  pub source_adapter : String
  pub effect_class : EffectClass
  pub resource_uri : String
  pub operations : List String
  pub output_port : String
  pub child_ids : List String
  pub snapshot : SourceSnapshotDescriptor

pub data Attestation : Type 0 where
  by_source : SourceDatasetProvenance → Attestation
  by_preview : PreviewSourceDatasetProvenance → Attestation

pub record InternalDatasetProvenance : Type 0 where
  pub producing_stage_id : String
  pub output_port : String
  pub parent_handles : List String
  pub source_provenance : List Attestation

pub record BrokerAuditDatasetProvenance : Type 0 where
  pub run_id : String
  pub stage_id : String

pub data DatasetProvenance : Type 0 where
  from_source : SourceDatasetProvenance → DatasetProvenance
  from_preview : PreviewSourceDatasetProvenance → DatasetProvenance
  from_parents : InternalDatasetProvenance → DatasetProvenance
  from_audit : BrokerAuditDatasetProvenance → DatasetProvenance

pub record DatasetRef : Type 0 where
  pub broker_handle : String
  pub artifact_policy : ArtifactPolicy
  pub artifact_class : ArtifactClass
  pub manifest_digest : String
  pub content_digest : String
  pub schema : SchemaRef
  pub fields : List String
  pub record_count : Num
  pub uri : String
  pub retention_started_at : String
  pub expires_at : Option String
  pub restrictions : DatasetRestrictions
  pub provenance : DatasetProvenance

-- Its artifact policy is `forbidden`.
pub record EphemeralDatasetHandle : Type 0 where
  pub broker_handle : String
  pub schema : SchemaRef
  pub record_count : Num

pub data DatasetHandle : Type 0 where
  artifact : DatasetRef → DatasetHandle
  ephemeral : EphemeralDatasetHandle → DatasetHandle
