-- ===== src/Core/Readiness/Context/SourceOutput.antt =====
-- `assertSourceDatasetBinding` and `assertBrokerAuditDataset` (packages/core/src/readiness.ts).
use map_data_aggregation_enh.Base.{
  String, Bool, true, false, not, ◌&&◌, ◌||◌, Option, none, some, List, [], ◌∷◌, Result, refuse,
  any, lookup, includes, is_nil, is_some, is_empty, is_unique, same_option, ◌==◌, ◌>>◌, ◌>>=◌,
}
use map_data_aggregation_enh.Base.Numbers.{Num, nat, num_eq, bad_natural, gt, lt, sub, times, min}
use map_data_aggregation_enh.Core.Types.{
  effect_eq, ArtifactClass, raw, derived, review_evidence, audit_metadata, restricted, SchemaRef,
  PortDeclaration, StagePluginManifest, SourceBinding,
}
use map_data_aggregation_enh.Core.Types.Policies.{
  Redistribution, redistribution_approved, redistribution_forbidden, ProfileDeclaration,
  SourcePolicyDeclaration,
}
use map_data_aggregation_enh.Core.Types.Datasets.{
  artifact, DatasetRef, DatasetProvenance, from_source, from_preview, from_parents, from_audit,
  SourcePolicyStamp,
}
use map_data_aggregation_enh.Core.SameValues.{same_values}
use map_data_aggregation_enh.Core.Readiness.{
  Runtime, Registry, compute_profile_policy_digest, is_canonical_iso_instant, same_schema,
}
use map_data_aggregation_enh.Core.Readiness.Sources.{same_policy, retention_ceiling}
use map_data_aggregation_enh.Core.Readiness.Context.{
  ContextError, provenance_differs, no_expiry, expiry_too_late, audit_not_minimal, readiness,
}
use map_data_aggregation_enh.Core.Readiness.Context.Begin.{is_instant, instant}
use map_data_aggregation_enh.Core.Readiness.Context.Effects.{is_redistributable}

abbrev pub same_class : ArtifactClass → ArtifactClass → Bool
same_class raw raw = true
same_class derived derived = true
same_class review_evidence review_evidence = true
same_class audit_metadata audit_metadata = true
same_class _ _ = false

abbrev pub same_redistribution : Redistribution → Redistribution → Bool
same_redistribution redistribution_approved redistribution_approved = true
same_redistribution redistribution_forbidden redistribution_forbidden = true
same_redistribution _ _ = false

-- `[source.attributionRef]` where it is truthy.
abbrev pub attribution_of : Option String → List String
attribution_of none = []
attribution_of (some a) = elim (is_empty a) [ true ↦ [] | false ↦ a ∷ [] ]

-- The argument but for the dataset and the registry.
pub record BoundOutput : Type 0 where
  pub binding : SourceBinding
  pub stage_id : String
  pub output_port : String
  pub manifest : StagePluginManifest
  pub profile : ProfileDeclaration
  pub source : SourcePolicyDeclaration

abbrev pub duration : Runtime → DatasetRef → Num
duration r d = sub (instant r d.expires_at) (r.platform.parse_date d.retention_started_at)

module _ (o : BoundOutput) where
  abbrev pub max_days : Option Num → Num
  max_days none = nat 0
  max_days (some days) = min days (retention_ceiling o.source o.binding.artifact_class)

  abbrev pub has_schema : SchemaRef → Option PortDeclaration → Bool
  has_schema s none = false
  has_schema s (some output) = same_schema s output.schema

  abbrev pub is_stamped : String → List SourcePolicyStamp → Bool
  is_stamped digest (stamp ∷ []) =
      stamp.profile_id == o.profile.id
      && num_eq stamp.profile_policy_version o.profile.policy_version
      && stamp.profile_policy_digest == digest
      && stamp.source_policy_id == o.source.id
  is_stamped digest _ = false

  abbrev pub is_of_binding : String → DatasetProvenance → Bool
  is_of_binding digest (from_source p) =
      p.producing_stage_id == o.stage_id
      && p.profile_id == o.profile.id
      && num_eq p.profile_policy_version o.profile.policy_version
      && p.profile_policy_digest == digest
      && p.source_policy_id == o.binding.policy_id
      && same_option (some p.source_adapter) o.manifest.source_adapter
      && effect_eq p.effect_class o.binding.effect_class
      && p.resource_uri == o.binding.resource_uri
      && same_values p.operations o.binding.operations
      && p.output_port == o.output_port
      && same_values p.child_ids o.binding.child_ids
  is_of_binding digest (from_preview p) = false
  is_of_binding digest (from_parents p) = false
  is_of_binding digest (from_audit p) = false

  abbrev pub field_bad : String → Bool
  field_bad field = is_empty field || not (includes o.source.allowed_fields field)

  module _ (r : Runtime) (registry : Registry) where
    -- The source's conditions but for the registration, in its order.
    unfoldable pub is_not_bound : String → DatasetRef → Bool
    is_not_bound digest d =
        is_empty d.broker_handle
        || bad_natural d.record_count
        || not (is_unique d.fields)
        || any field_bad d.fields
        || (gt d.record_count (nat 0) && is_nil d.fields)
        || not (is_some o.manifest.source_adapter)
        || not (same_option o.manifest.source_adapter (some o.source.adapter))
        || not (o.binding.policy_id == o.source.id)
        || not (includes o.binding.output_ports o.output_port)
        || not (has_schema d.schema (lookup o.output_port o.manifest.outputs))
        || not (any (same_schema d.schema) o.source.allowed_schemas)
        || not (same_class d.artifact_class o.binding.artifact_class)
        || not (same_policy d.artifact_policy o.source.artifact_policy)
        || not (is_stamped digest d.restrictions.source_policies)
        || not (same_redistribution d.restrictions.redistribution o.source.redistribution)
        || not
            (same_values d.restrictions.attribution_refs (attribution_of o.source.attribution_ref))
        || not (is_of_binding digest d.provenance)
        || not (is_canonical_iso_instant r d.retention_started_at)

    unfoldable pub assert_source_dataset_binding : DatasetRef → Result ContextError (Unit {0})
    assert_source_dataset_binding d = do
      digest ← readiness (compute_profile_policy_digest r o.profile)
      refuse (not (registry (artifact d)) || is_not_bound digest d) provenance_differs
      refuse (not (is_instant r d.expires_at) || not (is_some o.source.retention_days)) no_expiry
      refuse
          (lt (duration r d) (nat 0)
            || gt (duration r d) (times (max_days o.source.retention_days) 86400000))
          expiry_too_late

abbrev pub broker_audit_schema : SchemaRef
broker_audit_schema = record { name = "mapdata.broker-audit-metadata"; version = nat 1 }

abbrev pub broker_audit_fields : List String
broker_audit_fields =
    "contentDigest" ∷ "eventType" ∷ "manifestDigest" ∷ "occurredAt" ∷ "runId" ∷ "stageId" ∷ []

abbrev pub is_audit : DatasetProvenance → Bool
is_audit (from_audit p) = not (is_empty p.run_id) && not (is_empty p.stage_id)
is_audit _ = false

unfoldable pub assert_broker_audit_dataset :
    Runtime → Registry → DatasetRef → Result ContextError (Unit {0})
assert_broker_audit_dataset r registry d =
    refuse
      (not (registry (artifact d))
        || is_empty d.broker_handle
        || not (same_policy d.artifact_policy restricted)
        || not (same_class d.artifact_class audit_metadata)
        || not (same_schema d.schema broker_audit_schema)
        || not (same_values d.fields broker_audit_fields)
        || not (num_eq d.record_count (nat 1))
        || is_some d.expires_at
        || not (is_canonical_iso_instant r d.retention_started_at)
        || not (is_nil d.restrictions.source_policies)
        || is_redistributable d.restrictions.redistribution
        || not (is_nil d.restrictions.attribution_refs)
        || not (is_audit d.provenance))
      audit_not_minimal
