-- ===== src/Core/Validation/Catalog.antt =====
-- The checks of the definition's own fields and of the catalog
-- (packages/core/src/validation.ts, up to the loop over the stages).
use map_data_aggregation_enh.Base.{
  String, Bool, false, not, ◌&&◌, ◌||◌, Option, none, some, List, [], ◌∷◌, ◌++◌, Dict, any, is_nil,
  is_some, is_empty, is_unique, failing, ◌==◌,
}
use map_data_aggregation_enh.Base.Numbers.{bad_positive}
use map_data_aggregation_enh.Core.Types.{
  pipeline_api_version, PipelineDefinition, StagePluginManifest, EffectClass, effect_eq,
  network_read, artifact_read,
}
use map_data_aggregation_enh.Core.Platform.{Platform}
use map_data_aggregation_enh.Core.Identity.{bad_identity_text}
use map_data_aggregation_enh.Core.Validation.Issues.{
  key, at, ValidationIssue, row, each, is_unsupported, must_be_pipeline, is_required,
  must_not_be_empty, has_duplicates, not_identity_text, not_positive, differs_from_key,
  bad_adapter_name, undeclared_adapter, undeclared_read, source_with_inputs,
}

abbrev pub is_read : EffectClass → Bool
is_read e = effect_eq e network_read || effect_eq e artifact_read

abbrev pub is_empty_name : Option String → Bool
is_empty_name none = false
is_empty_name (some name) = is_empty name

unfoldable pub manifest_issues : String × StagePluginManifest → List ValidationIssue
manifest_issues (id, m) =
    let declares_read = any is_read m.effects in
    failing (
      row (not (id == m.id)) (key "catalog" ∷ key id ∷ key "id" ∷ []) differs_from_key
      ∷ row (is_empty_name m.source_adapter) (key "catalog" ∷ key id ∷ key "sourceAdapter" ∷ [])
          bad_adapter_name
      ∷ row (not (is_some m.source_adapter) && declares_read)
          (key "catalog" ∷ key id ∷ key "sourceAdapter" ∷ []) undeclared_adapter
      ∷ row (is_some m.source_adapter && not declares_read)
          (key "catalog" ∷ key id ∷ key "effects" ∷ []) undeclared_read
      ∷ row (is_some m.source_adapter && not (is_nil m.inputs))
          (key "catalog" ∷ key id ∷ key "inputs" ∷ []) source_with_inputs
      ∷ [])

unfoldable pub catalog_issues : Dict StagePluginManifest → List ValidationIssue
catalog_issues catalog = each (λ _ entry. manifest_issues entry) catalog

module _ (p : Platform) where
  unfoldable pub partition_issues : Option (List String) → List ValidationIssue
  partition_issues none = []
  partition_issues (some partitions) =
      failing (
        row (is_nil partitions) (key "partitions" ∷ []) must_not_be_empty
        ∷ row (not (is_unique partitions)) (key "partitions" ∷ []) has_duplicates
        ∷ [])
      ++ each
          (λ i partition. failing (
            row (bad_identity_text p partition) (key "partitions" ∷ at i ∷ []) not_identity_text
            ∷ []))
          partitions

  unfoldable pub header_issues : PipelineDefinition → List ValidationIssue
  header_issues d =
      failing (
        row (not (d.api_version == pipeline_api_version)) (key "apiVersion" ∷ []) is_unsupported
        ∷ row (not (d.kind == "Pipeline")) (key "kind" ∷ []) must_be_pipeline
        ∷ row (is_empty d.profile) (key "profile" ∷ []) is_required
        ∷ [])
      ++ (partition_issues d.partitions
          ++ failing (
              row (bad_positive d.version) (key "metadata" ∷ key "version" ∷ []) not_positive
              ∷ row (is_nil d.stages) (key "stages" ∷ []) must_not_be_empty
              ∷ []))
