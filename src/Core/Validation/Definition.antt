-- ===== src/Core/Validation/Definition.antt =====
-- `validateDefinition` (packages/core/src/validation.ts).
use map_data_aggregation_enh.Base.{true, false, List, [], ◌++◌, Dict}
use map_data_aggregation_enh.Core.Types.{StagePluginManifest, PipelineDefinition}
use map_data_aggregation_enh.Core.Platform.{Platform}
use map_data_aggregation_enh.Core.Validation.Issues.{ValidationIssue}
use map_data_aggregation_enh.Core.Validation.Catalog.{header_issues, catalog_issues}
use map_data_aggregation_enh.Core.Validation.Stages.{Seen, see_stages, stages_issues}
use map_data_aggregation_enh.Core.Validation.Sinks.{
  list_issues, sinks_issues, overlap_issues, writers_issues,
}

abbrev pub nothing_seen : Seen
nothing_seen = record { plugins = []; consumed = [] }

unfoldable pub validate_definition :
    Platform → PipelineDefinition → Dict StagePluginManifest → List ValidationIssue
validate_definition p d catalog =
    let seen = see_stages catalog nothing_seen d.stages in
    header_issues p d
    ++ (catalog_issues catalog
        ++ (stages_issues p catalog nothing_seen 0 d.stages
            ++ (list_issues d
                ++ (sinks_issues true "requiredSinks" seen d.required_sinks
                    ++ (sinks_issues false "optionalSinks" seen d.optional_sinks
                        ++ (overlap_issues d ++ writers_issues d seen))))))
