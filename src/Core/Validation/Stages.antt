-- ===== src/Core/Validation/Stages.antt =====
-- The loop over the stages (packages/core/src/validation.ts), with the plugins of the stages that
-- are `seen` and the stages that are consumed.
use map_data_aggregation_enh.Base.{
  ℕ, suc, String, Bool, true, false, not, Option, none, some, List, [], ◌∷◌, ◌++◌, Dict, lookup,
  insert, is_some, failing, ◌==◌,
}
use map_data_aggregation_enh.Core.Types.{
  pipeline_api_version, PluginLock, StagePluginManifest, StageDefinition,
}
use map_data_aggregation_enh.Core.Platform.{Platform}
use map_data_aggregation_enh.Core.Validation.Formats.{is_stage_id, is_sha256}
use map_data_aggregation_enh.Core.Validation.Inputs.{
  input_issues, consumed_stages, undeclared_issues,
}
use map_data_aggregation_enh.Core.Validation.Bindings.{source_stage_issues}
use map_data_aggregation_enh.Core.Validation.Requests.{
  write_issues, requests_issues, resource_issues, missing_issues,
}
use map_data_aggregation_enh.Core.Validation.Issues.{
  Segment, key, at, ValidationIssue, concat, row, invalid_stage_id, stage_id_taken, not_in_lock,
  incompatible_api, bad_integrity, bad_config_digest, bad_executable_digest,
}

pub record Seen : Type 0 where
  pub plugins : Dict StagePluginManifest
  pub consumed : List String

abbrev pub stage_place : ℕ → List Segment
stage_place i = key "stages" ∷ at i ∷ []

unfoldable pub id_issues : Seen → ℕ → StageDefinition → List ValidationIssue
id_issues seen i s = failing (
    row (not (is_stage_id s.id)) (stage_place i ++ key "id" ∷ []) invalid_stage_id
    ∷ row (is_some (lookup s.id seen.plugins)) (stage_place i ++ key "id" ∷ []) stage_id_taken
    ∷ [])

abbrev pub is_bad_digest : Option String → Bool
is_bad_digest none = false
is_bad_digest (some d) = not (is_sha256 d)

unfoldable pub lock_issues : ℕ → PluginLock → List ValidationIssue
lock_issues i l = failing (
    row (not (l.plugin_api_version == pipeline_api_version)) (stage_place i ++ key "uses" ∷ [])
      incompatible_api
    ∷ row (not (is_sha256 l.integrity)) (stage_place i ++ key "uses" ∷ []) bad_integrity
    ∷ row (not (is_sha256 l.config_schema_digest)) (stage_place i ++ key "uses" ∷ [])
        bad_config_digest
    ∷ row (is_bad_digest l.executable_digest) (stage_place i ++ key "uses" ∷ [])
        bad_executable_digest
    ∷ [])

-- The checks of a stage whose plugin is found, in their order.
abbrev pub plugin_checks :
    Platform → Seen → ℕ → StageDefinition → StagePluginManifest → List (List ValidationIssue)
plugin_checks p seen i s m =
    lock_issues i m.lock
    ∷ input_issues seen.plugins (stage_place i) s.inputs m.inputs
    ∷ undeclared_issues (stage_place i) m.inputs s.inputs
    ∷ write_issues s m (stage_place i)
    ∷ source_stage_issues p m s.requested_effects s.source_bindings (stage_place i)
    ∷ requests_issues p s m (stage_place i)
    ∷ resource_issues (stage_place i) s.resources
    ∷ missing_issues s m (stage_place i)
    ∷ []

-- The body of the loop, once the plugin is found.
unfoldable pub plugin_issues :
    Platform → Seen → ℕ → StageDefinition → StagePluginManifest → List ValidationIssue
plugin_issues p seen i s m = concat (plugin_checks p seen i s m)

abbrev pub used_issues :
    Platform → Seen → ℕ → StageDefinition → Option StagePluginManifest → List ValidationIssue
used_issues p seen i s none = failing (row true (stage_place i ++ key "uses" ∷ []) not_in_lock ∷ [])
used_issues p seen i s (some m) = plugin_issues p seen i s m

-- `continue` for a plugin that is not in the catalog: nothing is recorded.
abbrev pub see_stage : Seen → StageDefinition → Option StagePluginManifest → Seen
see_stage seen s none = seen
see_stage seen s (some m) = record {
  plugins = insert s.id m seen.plugins;
  consumed = consumed_stages seen.plugins s.inputs m.inputs ++ seen.consumed;
}

abbrev pub see_stages : Dict StagePluginManifest → Seen → List StageDefinition → Seen
see_stages catalog seen [] = seen
see_stages catalog seen (s ∷ rest) =
    see_stages catalog (see_stage seen s (lookup s.uses catalog)) rest

unfoldable pub stages_issues :
    Platform → Dict StagePluginManifest → Seen → ℕ → List StageDefinition → List ValidationIssue
stages_issues p catalog seen i [] = []
stages_issues p catalog seen i (s ∷ rest) =
    id_issues seen i s
    ++ (used_issues p seen i s (lookup s.uses catalog)
        ++ stages_issues p catalog (see_stage seen s (lookup s.uses catalog)) (suc i) rest)
