-- ===== src/Core/Validation/Examples.antt =====
-- A pipeline that fetches a feed and writes it to a canonical store.
use map_data_aggregation_enh.Base.{◌≡◌, refl, [], ◌∷◌, failing}
use map_data_aggregation_enh.Core.Samples.{pipeline_passes, plugins, write_from, pipeline}
use map_data_aggregation_enh.Core.Platform.{plain_platform}
use map_data_aggregation_enh.Core.Validation.Issues.{key, at, each_from, not_earlier_output}
use map_data_aggregation_enh.Core.Validation.Formats.{
  is_sha256, split_dots, is_canonical_resource_uri,
}
use map_data_aggregation_enh.Core.Validation.Inputs.{resolve, input_issues, undeclared_issues}
use map_data_aggregation_enh.Core.Validation.Bindings.{
  bindings_issues, source_coverage_issues, source_stage_issues,
}
use map_data_aggregation_enh.Core.Validation.Requests.{
  validate_requested_effect, write_issues, request_issues, requests_issues, resource_issues,
  missing_issues,
}
use map_data_aggregation_enh.Core.Validation.Stages.{
  id_issues, lock_issues, plugin_issues, stages_issues,
}
use map_data_aggregation_enh.Core.Validation.Valid.{IsValid}
use map_data_aggregation_enh.Core.Validation.Valid.Whole.{validate_definition-IsValid}

own_output_refused :
    stages_issues plain_platform plugins
      (record { plugins = []; consumed = [] })
      0
      (write_from "write.rows" ∷ [])
    ≡ (record {
      place = key "stages" ∷ at 0 ∷ key "inputs" ∷ key "rows" ∷ [];
      message = not_earlier_output;
    })
      ∷ []
unfolding each_from failing stages_issues id_issues plugin_issues lock_issues input_issues resolve
    split_dots undeclared_issues write_issues source_stage_issues bindings_issues
    source_coverage_issues requests_issues request_issues validate_requested_effect resource_issues
    missing_issues is_sha256 is_canonical_resource_uri
own_output_refused = refl

validate_definition-IsValid_example : IsValid (pipeline "fetch.feed") plugins
validate_definition-IsValid_example =
    validate_definition-IsValid plain_platform (pipeline "fetch.feed") plugins pipeline_passes
