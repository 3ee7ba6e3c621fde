-- ===== src/Core/Validation/Valid/Whole.antt =====
-- A definition without issues is valid (packages/core/src/validation.ts).
use map_data_aggregation_enh.Base.{◌≡◌, [], Dict, append-eq-nil}
use map_data_aggregation_enh.Core.Types.{StagePluginManifest, PipelineDefinition}
use map_data_aggregation_enh.Core.Platform.{Platform}
use map_data_aggregation_enh.Core.Validation.Stages.{see_stages}
use map_data_aggregation_enh.Core.Validation.Definition.{nothing_seen, validate_definition}
use map_data_aggregation_enh.Core.Validation.Valid.{IsValid}
use map_data_aggregation_enh.Core.Validation.Valid.Stage.{stages_issues-nil, ids_unique_of}
use map_data_aggregation_enh.Core.Validation.Valid.Sink.{sinks_issues-nil, writers_issues-nil}

-- A definition in which no issue is found is valid: the stage IDs are unique and well formed; each
-- plugin is in the catalog, of the current API and locked by a digest; each input takes a compatible
-- output port of an earlier stage or is optional; each request is declared, limited and, where it
-- writes in public, read back, and each effect is requested; each required sink is a terminal
-- stage with verified receipts; and each terminal stage that writes is a sink.
pub validate_definition-IsValid :
    (p : Platform) (d : PipelineDefinition) (catalog : Dict StagePluginManifest)
    → validate_definition p d catalog ≡ []
    → IsValid d catalog
unfolding validate_definition
validate_definition-IsValid p d catalog h =
    let seen = see_stages catalog nothing_seen d.stages in
    let (_, h1) = append-eq-nil _ _ h in
    let (_, h2) = append-eq-nil _ _ h1 in
    let (stages, h3) = append-eq-nil _ _ h2 in
    let (_, h4) = append-eq-nil _ _ h3 in
    let (sinks, h5) = append-eq-nil _ _ h4 in
    let (_, h6) = append-eq-nil _ _ h5 in
    let (_, writers) = append-eq-nil _ _ h6 in
    let valid = stages_issues-nil p catalog nothing_seen 0 d.stages stages in
    record {
      stages_valid = valid;
      ids_unique = ids_unique_of catalog nothing_seen d.stages valid;
      sinks_valid = sinks_issues-nil "requiredSinks" seen d.required_sinks sinks;
      writers_delivered = writers_issues-nil d seen writers;
    }
