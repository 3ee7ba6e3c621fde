-- ===== src/Core/Types.antt =====
-- packages/core/src/types.ts: the data model. A union of text literals is a data type, an optional
-- field an `Option`, an object used as a dictionary a `Dict`. The field `with` of a stage, which
-- only plugins read, and the brands, which only the type checker of the source sees, are left out.
pub mod Tags
pub mod Policies
pub mod Datasets
use map_data_aggregation_enh.Base.{ℕ, String, Bool, List, Option, Dict, eqb}
use map_data_aggregation_enh.Base.Numbers.{Num}

abbrev pub pipeline_api_version : String
pipeline_api_version = "mapdata.pipeline/v1alpha1"

pub data PipelineMode : Type 0 where
  validate plan preview apply : PipelineMode

pub data EffectClass : Type 0 where
  network_read artifact_read artifact_write state_write : EffectClass
  evidence_write review_write canonical_write public_write : EffectClass

-- `===` on effect classes, by the place of each in the union.
abbrev pub effect_tag : EffectClass → ℕ
effect_tag network_read = 0
effect_tag artifact_read = 1
effect_tag artifact_write = 2
effect_tag state_write = 3
effect_tag evidence_write = 4
effect_tag review_write = 5
effect_tag canonical_write = 6
effect_tag public_write = 7

abbrev pub effect_eq : EffectClass → EffectClass → Bool
effect_eq a b = eqb (effect_tag a) (effect_tag b)

pub data ArtifactPolicy : Type 0 where
  required derived_only restricted forbidden : ArtifactPolicy

abbrev pub policy_tag : ArtifactPolicy → ℕ
policy_tag required = 0
policy_tag derived_only = 1
policy_tag restricted = 2
policy_tag forbidden = 3

pub data ArtifactClass : Type 0 where
  raw derived review_evidence audit_metadata : ArtifactClass

pub record SchemaRef : Type 0 where
  pub name : String
  pub version : Num

pub data Cardinality : Type 0 where
  one many : Cardinality

pub data Partitioning : Type 0 where
  global by_partition : Partitioning

pub data PortOrdering : Type 0 where
  canonical irrelevant : PortOrdering

-- `required` is `false` only where the declaration says so.
pub record PortDeclaration : Type 0 where
  pub schema : SchemaRef
  pub cardinality : Cardinality
  pub partitioning : Partitioning
  pub ordering : PortOrdering
  pub artifact_policy : ArtifactPolicy
  pub is_required : Bool

pub record PluginLock : Type 0 where
  pub package_name : String
  pub package_version : String
  pub plugin_api_version : String
  pub integrity : String
  pub executable_digest : Option String
  pub config_schema : SchemaRef
  pub config_schema_digest : String

pub data Delivery : Type 0 where
  no_delivery verified_receipt : Delivery

pub record StagePluginManifest : Type 0 where
  pub id : String
  pub lock : PluginLock
  pub inputs : Dict PortDeclaration
  pub outputs : Dict PortDeclaration
  pub source_adapter : Option String
  pub effects : List EffectClass
  pub delivery : Delivery
  pub secret_refs : List String

pub data Verification : Type 0 where
  no_verification post_read : Verification

pub record EffectRequestDeclaration : Type 0 where
  pub effect_class : EffectClass
  pub resource_uri : String
  pub operations : List String
  pub max_records : Num
  pub verification : Option Verification

pub record EffectAuthorization : Type 0 where
  pub profile : String
  pub stage_id : String
  pub deployment_identity : String
  pub effect_class : EffectClass
  pub resource_uri : String
  pub operations : List String
  pub max_records : Num
  pub verification : Option Verification

pub record EffectRequest : Type 0 where
  pub effect_class : EffectClass
  pub resource_uri : String
  pub operation : String
  pub record_count : Num

pub record ResourceReservation : Type 0 where
  pub admission_group : String
  pub max_cpu_units : Num
  pub max_rss_bytes : Num
  pub max_child_processes : Num
  pub max_wall_time_ms : Num
  pub max_artifact_bytes : Num
  pub min_free_disk_bytes : Num

pub record SourceBinding : Type 0 where
  pub policy_id : String
  pub effect_class : EffectClass
  pub resource_uri : String
  pub operations : List String
  pub output_ports : List String
  pub artifact_class : ArtifactClass
  pub child_ids : List String

-- An absent `inputs`, `sourceBindings` or `requestedEffects` is read as an empty one everywhere.
pub record StageDefinition : Type 0 where
  pub id : String
  pub uses : String
  pub inputs : Dict String
  pub source_bindings : List SourceBinding
  pub resources : ResourceReservation
  pub requested_effects : List EffectRequestDeclaration

pub record PipelineDefinition : Type 0 where
  pub api_version : String
  pub kind : String
  pub name : String
  pub version : Num
  pub profile : String
  pub partitions : Option (List String)
  pub stages : List StageDefinition
  pub required_sinks : List String
  pub optional_sinks : List String

-- What the platform's `new URL(text)` gives, where it does not throw.
pub record Url : Type 0 where
  pub href : String
  pub username : String
  pub password : String
  pub search : String
  pub hash : String
