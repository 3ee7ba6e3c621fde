-- ===== src/Core/Validation/Bindings.antt =====
-- The checks of the source bindings of a stage (packages/core/src/validation.ts).
use map_data_aggregation_enh.Base.{
  ℕ, suc, String, Bool, true, false, not, ◌&&◌, ◌||◌, Option, none, some, List, [], ◌∷◌, ◌++◌, Dict,
  any, filter, length, lookup, keys, includes, is_nil, is_some, is_empty, is_unique, failing, eqb,
  ◌==◌,
}
use map_data_aggregation_enh.Core.Types.{
  ArtifactClass, raw, audit_metadata, derived_only, policy_tag, effect_eq, SourceBinding,
  EffectRequestDeclaration, StagePluginManifest, PortDeclaration,
}
use map_data_aggregation_enh.Core.Platform.{Platform}
use map_data_aggregation_enh.Core.SameValues.{same_values}
use map_data_aggregation_enh.Core.Validation.Catalog.{is_read}
use map_data_aggregation_enh.Core.Validation.Formats.{is_canonical_resource_uri}
use map_data_aggregation_enh.Core.Validation.Issues.{
  Segment, key, at, ValidationIssue, row, each, is_required, must_not_be_empty, has_duplicates,
  must_bind_sources, bindings_not_allowed, not_a_read_effect, not_canonical_uri, bad_artifact_class,
  bad_operations, bad_child_ids, no_single_request, no_single_binding, unknown_port, bound_twice,
  raw_as_derived, not_policy_bound,
}

-- `ARTIFACT_CLASSES.has(artifactClass)`
abbrev pub is_artifact_class : ArtifactClass → Bool
is_artifact_class audit_metadata = false
is_artifact_class _ = true

abbrev pub is_raw : ArtifactClass → Bool
is_raw raw = true
is_raw _ = false

-- A request and a binding are of the same read, written either way round in the source.
unfoldable pub matches_binding : SourceBinding → EffectRequestDeclaration → Bool
matches_binding b r =
    effect_eq r.effect_class b.effect_class
    && r.resource_uri == b.resource_uri
    && same_values r.operations b.operations

-- The checks of a binding but for those of its ports.
unfoldable pub binding_issues :
    Platform → List EffectRequestDeclaration → List Segment → SourceBinding → List ValidationIssue
binding_issues p requests place b = failing (
    row (is_empty b.policy_id) (place ++ key "policyId" ∷ []) is_required
    ∷ row (not (is_read b.effect_class)) (place ++ key "effectClass" ∷ []) not_a_read_effect
    ∷ row (not (is_canonical_resource_uri p b.resource_uri)) (place ++ key "resourceUri" ∷ [])
        not_canonical_uri
    ∷ row (not (is_artifact_class b.artifact_class)) (place ++ key "artifactClass" ∷ [])
        bad_artifact_class
    ∷ row (is_nil b.output_ports) (place ++ key "outputPorts" ∷ []) must_not_be_empty
    ∷ row (is_nil b.operations || not (is_unique b.operations) || any is_empty b.operations)
        (place ++ key "operations" ∷ []) bad_operations
    ∷ row (not (is_unique b.output_ports)) (place ++ key "outputPorts" ∷ []) has_duplicates
    ∷ row (not (is_unique b.child_ids) || any is_empty b.child_ids) (place ++ key "childIds" ∷ [])
        bad_child_ids
    ∷ row (not (eqb (length (filter (matches_binding b) requests)) 1)) place no_single_request
    ∷ [])

-- What becomes of a port that a binding names, among those that are bound already.
abbrev pub port_binding_issues :
    List Segment
    → SourceBinding
    → List String
    → String
    → Option PortDeclaration
    → List ValidationIssue
port_binding_issues place b bound port none =
    failing (row true (place ++ key "outputPorts" ∷ []) (unknown_port port) ∷ [])
port_binding_issues place b bound port (some d) = failing (
    row (includes bound port) (place ++ key "outputPorts" ∷ []) (bound_twice port)
    ∷ row
        (not (includes bound port)
          && is_raw b.artifact_class
          && eqb (policy_tag d.artifact_policy) (policy_tag derived_only))
        (place ++ key "artifactClass" ∷ []) (raw_as_derived port)
    ∷ [])

-- `boundOutputPorts` after a port: one that the plugin does not declare is not added.
abbrev pub bind_port : List String → String → Option PortDeclaration → List String
bind_port bound port none = bound
bind_port bound port (some d) = port ∷ bound

unfoldable pub bound_after : Dict PortDeclaration → List String → List String → List String
bound_after outputs bound [] = bound
bound_after outputs bound (port ∷ ports) =
    bound_after outputs (bind_port bound port (lookup port outputs)) ports

unfoldable pub ports_issues :
    Dict PortDeclaration
    → List Segment
    → SourceBinding
    → List String
    → List String
    → List ValidationIssue
ports_issues outputs place b bound [] = []
ports_issues outputs place b bound (port ∷ ports) =
    port_binding_issues place b bound port (lookup port outputs)
    ++ ports_issues outputs place b (bind_port bound port (lookup port outputs)) ports

unfoldable pub bindings_issues :
    Platform
    → List EffectRequestDeclaration
    → Dict PortDeclaration
    → List Segment
    → ℕ
    → List String
    → List SourceBinding
    → List ValidationIssue
bindings_issues p requests outputs stage i bound [] = []
bindings_issues p requests outputs stage i bound (b ∷ bs) =
    let place = stage ++ key "sourceBindings" ∷ at i ∷ [] in
    binding_issues p requests place b
    ++ (ports_issues outputs place b bound b.output_ports
        ++ bindings_issues p requests outputs stage (suc i)
            (bound_after outputs bound b.output_ports) bs)

unfoldable pub bound_ports : Dict PortDeclaration → List String → List SourceBinding → List String
bound_ports outputs bound [] = bound
bound_ports outputs bound (b ∷ bs) =
    bound_ports outputs (bound_after outputs bound b.output_ports) bs

-- Every read of a source plugin is bound, and so is every output port.
unfoldable pub coverage_issues :
    StagePluginManifest
    → List EffectRequestDeclaration
    → List SourceBinding
    → List Segment
    → List ValidationIssue
coverage_issues m requests bindings stage =
    each
      (λ i (r : EffectRequestDeclaration). failing (
        row
          (is_read r.effect_class
            && not (eqb (length (filter (λ b. matches_binding b r) bindings)) 1))
          (stage ++ key "requestedEffects" ∷ at i ∷ []) no_single_binding
        ∷ []))
      requests
    ++ each
        (λ _ port. failing (
          row (not (includes (bound_ports m.outputs [] bindings) port))
            (stage ++ key "sourceBindings" ∷ []) (not_policy_bound port)
          ∷ []))
        (keys m.outputs)

unfoldable pub source_coverage_issues :
    Option String
    → StagePluginManifest
    → List EffectRequestDeclaration
    → List SourceBinding
    → List Segment
    → List ValidationIssue
source_coverage_issues none m requests bindings stage = []
source_coverage_issues (some adapter) m requests bindings stage =
    coverage_issues m requests bindings stage

unfoldable pub source_stage_issues :
    Platform
    → StagePluginManifest
    → List EffectRequestDeclaration
    → List SourceBinding
    → List Segment
    → List ValidationIssue
unfolding bindings_issues source_coverage_issues
source_stage_issues p m requests bindings stage =
    failing (
      row (is_some m.source_adapter && is_nil bindings) (stage ++ key "sourceBindings" ∷ [])
        must_bind_sources
      ∷ row (not (is_some m.source_adapter) && not (is_nil bindings))
          (stage ++ key "sourceBindings" ∷ []) bindings_not_allowed
      ∷ [])
    ++ (bindings_issues p requests m.outputs stage 0 [] bindings
        ++ source_coverage_issues m.source_adapter m requests bindings stage)
