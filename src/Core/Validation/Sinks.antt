-- ===== src/Core/Validation/Sinks.antt =====
-- The checks of the sinks (packages/core/src/validation.ts, after the loop over the stages).
use map_data_aggregation_enh.Base.{
  ℕ, String, Bool, true, false, not, ◌&&◌, Option, none, some, List, [], ◌∷◌, any, lookup, includes,
  is_nil, is_unique, failing, if◌then◌else◌,
}
use map_data_aggregation_enh.Core.Types.{
  evidence_write, review_write, canonical_write, public_write, EffectClass, Delivery, no_delivery,
  verified_receipt, StagePluginManifest, PipelineDefinition,
}
use map_data_aggregation_enh.Core.Authorization.{declares}
use map_data_aggregation_enh.Core.Validation.Stages.{Seen}
use map_data_aggregation_enh.Core.Validation.Issues.{
  key, at, ValidationIssue, row, each, must_not_be_empty, has_duplicates, not_a_stage, not_terminal,
  no_verified_receipt, both_required_and_optional, undelivered_writer,
}

abbrev pub is_verified : Delivery → Bool
is_verified verified_receipt = true
is_verified no_delivery = false

unfoldable pub list_issues : PipelineDefinition → List ValidationIssue
list_issues d = failing (
    row (not (is_unique d.required_sinks)) (key "requiredSinks" ∷ []) has_duplicates
    ∷ row (not (is_unique d.optional_sinks)) (key "optionalSinks" ∷ []) has_duplicates
    ∷ row (is_nil d.required_sinks) (key "requiredSinks" ∷ []) must_not_be_empty
    ∷ [])

-- The body of the loop over a list of sinks, which is the required ones or not.
abbrev pub sink_issues :
    Bool → String → Seen → ℕ → String → Option StagePluginManifest → List ValidationIssue
sink_issues required name seen i sink none =
    failing (row true (key name ∷ at i ∷ []) not_a_stage ∷ [])
sink_issues required name seen i sink (some m) = failing (
    row (includes seen.consumed sink) (key name ∷ at i ∷ []) not_terminal
    ∷ row (required && not (is_verified m.delivery)) (key name ∷ at i ∷ []) no_verified_receipt
    ∷ [])

unfoldable pub sinks_issues : Bool → String → Seen → List String → List ValidationIssue
sinks_issues required name seen sinks =
    each (λ i sink. sink_issues required name seen i sink (lookup sink seen.plugins)) sinks

-- The set of the required sinks, in insertion order, against the optional ones. A list that has
-- a sink twice names it once.
abbrev pub without : String → List String → List String
without s [] = []
without s (t ∷ rest) =
    let others = without s rest in if includes (s ∷ []) t then others else t ∷ others

abbrev pub distinct : List String → List String
distinct [] = []
distinct (s ∷ rest) = s ∷ without s (distinct rest)

unfoldable pub overlap_issues : PipelineDefinition → List ValidationIssue
overlap_issues d =
    each
      (λ _ sink. failing (
        row (includes d.optional_sinks sink) (key "optionalSinks" ∷ [])
          (both_required_and_optional sink)
        ∷ []))
      (distinct d.required_sinks)

abbrev pub write_effects : List EffectClass
write_effects = evidence_write ∷ review_write ∷ canonical_write ∷ public_write ∷ []

abbrev pub is_terminal_writer : Seen → String → StagePluginManifest → Bool
is_terminal_writer seen id m =
    not (includes seen.consumed id) && any (declares write_effects) m.effects

abbrev pub writer_issues :
    PipelineDefinition → Seen → String × StagePluginManifest → List ValidationIssue
writer_issues d seen (id, m) = failing (
    row
      (is_terminal_writer seen id m
        && (not (includes d.required_sinks id) && not (includes d.optional_sinks id)))
      (key "requiredSinks" ∷ []) (undelivered_writer id)
    ∷ [])

unfoldable pub writers_issues : PipelineDefinition → Seen → List ValidationIssue
writers_issues d seen = each (λ _ entry. writer_issues d seen entry) seen.plugins
