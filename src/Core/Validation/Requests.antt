-- ===== src/Core/Validation/Requests.antt =====
-- The checks of the requested effects and of the resources of a stage
-- (packages/core/src/validation.ts).
use map_data_aggregation_enh.Base.{
  ℕ, String, Bool, true, not, ◌&&◌, ◌||◌, List, [], ◌∷◌, ◌++◌, any, is_nil, is_empty, failing,
  if◌then◌else◌,
}
use map_data_aggregation_enh.Base.Numbers.{bad_natural, bad_positive}
use map_data_aggregation_enh.Core.Types.{
  EffectClass, artifact_write, evidence_write, review_write, canonical_write, public_write,
  effect_eq, EffectRequestDeclaration, ResourceReservation, StagePluginManifest, StageDefinition,
}
use map_data_aggregation_enh.Core.Platform.{Platform}
use map_data_aggregation_enh.Core.Authorization.{is_post_read, declares}
use map_data_aggregation_enh.Core.Validation.Formats.{is_canonical_resource_uri}
use map_data_aggregation_enh.Core.Validation.Issues.{
  Segment, key, at, ValidationIssue, row, each, is_required, must_not_be_empty, not_positive,
  not_natural, not_canonical_uri, write_without_input, write_without_output,
  unverified_public_write, undeclared_effect, missing_request,
}

unfoldable pub validate_requested_effect :
    Platform → EffectRequestDeclaration → List Segment → List ValidationIssue
validate_requested_effect p r place = failing (
    row (not (is_canonical_resource_uri p r.resource_uri)) (place ++ key "resourceUri" ∷ [])
      not_canonical_uri
    ∷ row (is_nil r.operations) (place ++ key "operations" ∷ []) must_not_be_empty
    ∷ row (bad_positive r.max_records) (place ++ key "maxRecords" ∷ []) not_positive
    ∷ row (effect_eq r.effect_class public_write && not (is_post_read r.verification))
        (place ++ key "verification" ∷ []) unverified_public_write
    ∷ [])

abbrev pub is_consumer_write : EffectRequestDeclaration → Bool
is_consumer_write r =
    effect_eq r.effect_class canonical_write || effect_eq r.effect_class public_write

abbrev pub is_output_write : EffectRequestDeclaration → Bool
is_output_write r =
    effect_eq r.effect_class artifact_write
    || effect_eq r.effect_class evidence_write
    || effect_eq r.effect_class review_write

unfoldable pub write_issues :
    StageDefinition → StagePluginManifest → List Segment → List ValidationIssue
write_issues s m stage = failing (
    row (any is_consumer_write s.requested_effects && is_nil s.inputs) (stage ++ key "inputs" ∷ [])
      write_without_input
    ∷ row (any is_output_write s.requested_effects && is_nil m.outputs)
        (stage ++ key "requestedEffects" ∷ []) write_without_output
    ∷ [])

unfoldable pub request_issues :
    Platform
    → StagePluginManifest
    → List Segment
    → ℕ
    → EffectRequestDeclaration
    → List ValidationIssue
unfolding validate_requested_effect
request_issues p m stage i r =
    validate_requested_effect p r (stage ++ key "requestedEffects" ∷ at i ∷ [])
    ++ failing (
        row (not (declares m.effects r.effect_class))
          (stage ++ key "requestedEffects" ∷ at i ∷ key "effectClass" ∷ []) undeclared_effect
        ∷ [])

unfoldable pub requests_issues :
    Platform → StageDefinition → StagePluginManifest → List Segment → List ValidationIssue
unfolding request_issues
requests_issues p s m stage = each (request_issues p m stage) s.requested_effects

-- An absent `resources` is a reservation without a group.
unfoldable pub resource_issues : List Segment → ResourceReservation → List ValidationIssue
resource_issues stage r =
    let place = λ (k : String). stage ++ key "resources" ∷ key k ∷ [] in
    if is_empty r.admission_group
    then failing (row true (place "admissionGroup") is_required ∷ [])
    else failing (
        row (bad_positive r.max_cpu_units) (place "maxCpuUnits") not_positive
        ∷ row (bad_positive r.max_rss_bytes) (place "maxRssBytes") not_positive
        ∷ row (bad_natural r.max_child_processes) (place "maxChildProcesses") not_natural
        ∷ row (bad_positive r.max_wall_time_ms) (place "maxWallTimeMs") not_positive
        ∷ row (bad_natural r.max_artifact_bytes) (place "maxArtifactBytes") not_natural
        ∷ row (bad_positive r.min_free_disk_bytes) (place "minFreeDiskBytes") not_positive
        ∷ [])

abbrev pub effect_issues : StageDefinition → List Segment → ℕ → EffectClass → List ValidationIssue
effect_issues s stage i e = failing (
    row (not (any (λ r. effect_eq r.effect_class e) s.requested_effects))
      (stage ++ key "requestedEffects" ∷ []) (missing_request e)
    ∷ [])

-- Every effect that the plugin declares is requested.
unfoldable pub missing_issues :
    StageDefinition → StagePluginManifest → List Segment → List ValidationIssue
missing_issues s m stage = each (effect_issues s stage) m.effects
