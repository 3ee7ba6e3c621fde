-- ===== src/Core/Validation/Valid.antt =====
-- What a definition without issues is (packages/core/src/validation.ts).
pub mod Binding
pub mod Stage
pub mod Sink
pub mod Whole
use map_data_aggregation_enh.Base.{
  length, filter, ℕ, ◌≡◌, ◌<◌, ◌↔◌, String, true, false, ◌⊎◌, Option, none, some, List, [], ◌∷◌,
  Dict, lookup, All, any, includes, is_unique, map,
}
use map_data_aggregation_enh.Base.Numbers.{IsNatural}
use map_data_aggregation_enh.Core.Types.{
  SourceBinding, EffectClass, public_write, effect_eq, post_read, pipeline_api_version,
  EffectRequestDeclaration, StagePluginManifest, StageDefinition, PipelineDefinition,
  verified_receipt,
}
use map_data_aggregation_enh.Core.Authorization.{declares}
use map_data_aggregation_enh.Core.Validation.Formats.{is_sha256, is_stage_id}
use map_data_aggregation_enh.Core.Validation.Inputs.{given}
use map_data_aggregation_enh.Core.Validation.Catalog.{is_read}
use map_data_aggregation_enh.Core.Validation.Bindings.{is_artifact_class, matches_binding}
use map_data_aggregation_enh.Core.Validation.Stages.{Seen, see_stage, see_stages}
use map_data_aggregation_enh.Core.Validation.Sinks.{write_effects}
use map_data_aggregation_enh.Core.Validation.Definition.{nothing_seen}
use map_data_aggregation_enh.Core.Validation.Wiring.{IsWired}

-- A request is declared by the plugin, for a positive number of records, and a public one is read
-- back.
pub record IsRequestValid (m : StagePluginManifest) (r : EffectRequestDeclaration) : Type 0 where
  pub declared : declares m.effects r.effect_class ≡ true
  pub limited : (n : ℕ) × IsNatural r.max_records n × (0 < n)
  pub read_back : r.effect_class ≡ public_write → r.verification ≡ some post_read

-- A source binding is a read that the stage requests exactly once, for an artifact class that there
-- is.
pub record IsBindingValid (requests : List EffectRequestDeclaration) (b : SourceBinding)
    : Type 0 where
  pub reads : is_read b.effect_class ≡ true
  pub classed : is_artifact_class b.artifact_class ≡ true
  pub requested_once : length (filter (matches_binding b) requests) ≡ 1

-- A stage whose plugin is `m`, after those that are seen.
pub record IsStageValid (seen : Seen) (s : StageDefinition) (m : StagePluginManifest) : Type 0 where
  pub named : is_stage_id s.id ≡ true
  pub fresh : lookup s.id seen.plugins ≡ none
  pub current : m.lock.plugin_api_version ≡ pipeline_api_version
  pub locked : is_sha256 m.lock.integrity ≡ true
  pub wired : All (λ x. IsWired seen.plugins x.1 (given (lookup x.0 s.inputs))) m.inputs
  pub bindings_valid : All (IsBindingValid s.requested_effects) s.source_bindings
  pub requests_valid : All (IsRequestValid m) s.requested_effects
  pub all_requested :
      All (λ e. any (λ r. effect_eq r.effect_class e) s.requested_effects ≡ true) m.effects

-- Every stage is valid after those before it.
abbrev pub AreValid : Dict StagePluginManifest → Seen → List StageDefinition → Type 0
AreValid catalog seen [] = Unit
AreValid catalog seen (s ∷ rest) =
    ((m : StagePluginManifest) × (lookup s.uses catalog ≡ some m) × IsStageValid seen s m)
    × AreValid catalog (see_stage seen s (lookup s.uses catalog)) rest

-- A required sink is a stage that no other consumes, and whose plugin gives verified receipts.
abbrev pub IsRequiredSink : Seen → String → Type 0
IsRequiredSink seen sink =
    (m : StagePluginManifest) × (lookup sink seen.plugins ≡ some m)
    × (includes seen.consumed sink ≡ false)
    × (m.delivery ≡ verified_receipt)

-- A stage that writes to a consumer and that no other stage consumes is a sink.
abbrev pub IsDelivered : PipelineDefinition → Seen → String × StagePluginManifest → Type 0
IsDelivered d seen (id, m) =
    includes seen.consumed id ≡ false
    → any (declares write_effects) m.effects ≡ true
    → (includes d.required_sinks id ≡ true) ⊎ (includes d.optional_sinks id ≡ true)

pub record IsValid (d : PipelineDefinition) (catalog : Dict StagePluginManifest) : Type 0 where
  pub stages_valid : AreValid catalog nothing_seen d.stages
  pub ids_unique : is_unique (map (λ (s : StageDefinition). s.id) d.stages) ≡ true
  pub sinks_valid : All (IsRequiredSink (see_stages catalog nothing_seen d.stages)) d.required_sinks
  pub writers_delivered :
      All
        (IsDelivered d (see_stages catalog nothing_seen d.stages))
        (see_stages catalog nothing_seen d.stages).plugins
