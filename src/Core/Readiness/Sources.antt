-- ===== src/Core/Readiness/Sources.antt =====
-- The source policies that a definition refers to (packages/core/src/readiness.ts).
use map_data_aggregation_enh.Base.{
  String, Bool, true, false, not, ◌&&◌, ◌||◌, Option, none, some, List, [], ◌∷◌, Dict, any, all,
  lookup, insert, map, includes, is_nil, is_empty, is_truthy, is_unique, same_option, eqb, Result,
  err, refuse, for_each, ◌==◌,
}
use map_data_aggregation_enh.Base.Numbers.{Num, nat, nan, bad_natural, bad_positive, num_eq, gt}
use map_data_aggregation_enh.Core.Types.{
  ArtifactClass, raw, derived, review_evidence, audit_metadata, ArtifactPolicy, forbidden,
  derived_only, policy_tag, SchemaRef, PortDeclaration, StagePluginManifest, SourceBinding,
  StageDefinition,
}
use map_data_aggregation_enh.Core.Types.Policies.{
  PolicyStatus, policy_approved, policy_pending, UpstreamTermsMode, terms_per_child,
  terms_of_source, UpstreamTerms, SourcePolicyDeclaration,
}
use map_data_aggregation_enh.Core.Readiness.{
  NotReady, same_schema, unknown_source_policy, unapproved_source_policy, bad_source_ids,
}

-- The union of the source has no `audit_metadata` here: a switch that misses it returns `undefined`.
unfoldable pub retention_ceiling : SourcePolicyDeclaration → ArtifactClass → Num
retention_ceiling s raw = s.provisional_retention.raw_max_days
retention_ceiling s review_evidence = s.provisional_retention.review_evidence_after_terminal_days
retention_ceiling s derived = s.provisional_retention.derived_max_days
retention_ceiling s audit_metadata = nan

abbrev pub is_ceiling : Num → Bool
is_ceiling days = not (bad_natural days) && not (gt days (nat 30))

unfoldable pub valid_provisional_ceilings : SourcePolicyDeclaration → Bool
valid_provisional_ceilings s =
    is_ceiling s.provisional_retention.raw_max_days
    && is_ceiling s.provisional_retention.derived_max_days
    && is_ceiling s.provisional_retention.review_evidence_after_terminal_days

abbrev pub is_approved : PolicyStatus → Bool
is_approved policy_approved = true
is_approved policy_pending = false

abbrev pub is_per_child : UpstreamTermsMode → Bool
is_per_child terms_per_child = true
is_per_child terms_of_source = false

abbrev pub same_policy : ArtifactPolicy → ArtifactPolicy → Bool
same_policy a b = eqb (policy_tag a) (policy_tag b)

abbrev pub is_raw_class : ArtifactClass → Bool
is_raw_class raw = true
is_raw_class _ = false

-- `${schema.name}@${schema.version}`, compared by its parts: the versions are integers here.
abbrev pub schemas_unique : List SchemaRef → Bool
schemas_unique [] = true
schemas_unique (s ∷ rest) = not (any (same_schema s) rest) && schemas_unique rest

abbrev pub child_ids_of : SourcePolicyDeclaration → List String
child_ids_of s = map (λ (t : UpstreamTerms). t.child_id) s.upstream_terms

abbrev pub fits_policy : SourcePolicyDeclaration → Option PortDeclaration → Bool
fits_policy s none = false
fits_policy s (some output) =
    same_policy output.artifact_policy s.artifact_policy
    && any (same_schema output.schema) s.allowed_schemas

unfoldable pub outputs_match_policy :
    SourcePolicyDeclaration → SourceBinding → StagePluginManifest → Bool
outputs_match_policy s b m = all (λ port. fits_policy s (lookup port m.outputs)) b.output_ports

abbrev pub bad_retention : SourcePolicyDeclaration → ArtifactClass → Option Num → Bool
bad_retention s c none = true
bad_retention s c (some days) = bad_natural days || gt days (retention_ceiling s c)

-- What the source refuses, once there is a manifest.
unfoldable pub source_faults :
    SourcePolicyDeclaration → SourceBinding → StagePluginManifest → List Bool
unfolding valid_provisional_ceilings outputs_match_policy
source_faults s b m =
    let retention = s.provisional_retention in
    not (same_option m.source_adapter (some s.adapter))
    ∷ not (includes s.resource_uris b.resource_uri)
    ∷ not (is_unique s.resource_uris)
    ∷ not (
        all
          (λ (schema : SchemaRef). not (is_empty schema.name) && not (bad_positive schema.version))
          s.allowed_schemas)
    ∷ is_nil s.allowed_schemas
    ∷ not (schemas_unique s.allowed_schemas)
    ∷ not (
        all (λ (t : UpstreamTerms). not (is_empty t.child_id) && not (is_empty t.terms_ref))
          s.upstream_terms)
    ∷ not (is_unique (child_ids_of s))
    ∷ not (valid_provisional_ceilings s)
    ∷ not (is_approved s.policy_status)
    ∷ not (is_truthy s.terms_ref)
    ∷ not (is_truthy s.attribution_ref)
    ∷ same_policy s.artifact_policy forbidden
    ∷ not (same_policy s.artifact_policy retention.post_approval_artifact_policy)
    ∷ (is_raw_class b.artifact_class && same_policy s.artifact_policy derived_only)
    ∷ not (outputs_match_policy s b m)
    ∷ bad_retention s b.artifact_class s.retention_days
    ∷ is_nil s.allowed_fields
    ∷ (is_per_child retention.upstream_terms_mode
        && (is_nil b.child_ids || any (λ c. not (includes (child_ids_of s) c)) b.child_ids))
    ∷ (s.adapter == "official-website"
        && (not (num_eq retention.raw_max_days (nat 0))
            || not (same_policy s.artifact_policy derived_only)
            || is_raw_class b.artifact_class))
    ∷ []

abbrev pub has_fault : SourcePolicyDeclaration → SourceBinding → Option StagePluginManifest → Bool
has_fault s b none = true
has_fault s b (some m) = any (λ fault. fault) (source_faults s b m)

abbrev pub check_source :
    SourceBinding
    → Option StagePluginManifest
    → Option SourcePolicyDeclaration
    → Result NotReady (Unit {0})
check_source b m none = err (unknown_source_policy b.policy_id)
check_source b m (some s) = refuse (has_fault s b m) (unapproved_source_policy b.policy_id)

-- `new Map(profile.sources.map((source) => [source.id, source]))`
abbrev pub index_sources :
    Dict SourcePolicyDeclaration → List SourcePolicyDeclaration → Dict SourcePolicyDeclaration
index_sources index [] = index
index_sources index (s ∷ rest) = index_sources (insert s.id s index) rest

abbrev pub check_binding :
    Dict SourcePolicyDeclaration
    → Option StagePluginManifest
    → SourceBinding
    → Result NotReady (Unit {0})
check_binding index m b = check_source b m (lookup b.policy_id index)

unfoldable pub check_stage_sources :
    Dict SourcePolicyDeclaration
    → Dict StagePluginManifest
    → StageDefinition
    → Result NotReady (Unit {0})
check_stage_sources index catalog s =
    for_each (check_binding index (lookup s.uses catalog)) s.source_bindings

-- The IDs and namespaces of the sources are there and unique.
unfoldable pub check_source_ids : List SourcePolicyDeclaration → Result NotReady (Unit {0})
check_source_ids sources =
    let ids = map (λ (s : SourcePolicyDeclaration). s.id) sources in
    let namespaces = map (λ (s : SourcePolicyDeclaration). s.namespace) sources in
    refuse
      (any is_empty ids
        || any is_empty namespaces
        || not (is_unique ids)
        || not (is_unique namespaces))
      bad_source_ids
