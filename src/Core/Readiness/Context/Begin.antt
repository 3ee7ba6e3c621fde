-- ===== src/Core/Readiness/Context/Begin.antt =====
-- `beginStageInvocation` (packages/core/src/readiness.ts).
use map_data_aggregation_enh.Base.{
  map, is_unique, if◌then◌else◌, ℕ, suc, String, Bool, false, not, ◌&&◌, ◌||◌, Option, none, some,
  List, [], ◌∷◌, Dict, Result, ok, err, refuse, for_each, ◌>>◌, ◌>>=◌, ◌==◌, eqb, any, find, lookup,
  is_some, is_nil, is_empty, is_truthy, set,
}
use map_data_aggregation_enh.Base.Numbers.{Num, num_eq, gt}
use map_data_aggregation_enh.Core.Types.{StageDefinition, StagePluginManifest, PortDeclaration}
use map_data_aggregation_enh.Core.Types.Policies.{ProfileDeclaration, SourcePolicyDeclaration}
use map_data_aggregation_enh.Core.Types.Datasets.{
  DatasetHandle, artifact, ephemeral, DatasetRef, DatasetProvenance, from_source, from_preview,
  from_parents, from_audit, SourcePolicyStamp,
}
use map_data_aggregation_enh.Core.Identity.Keys.{append_text}
use map_data_aggregation_enh.Core.Validation.Formats.{split_dots}
use map_data_aggregation_enh.Core.Readiness.{
  Runtime, Registry, compute_profile_policy_digest, is_canonical_iso_instant, same_schema,
}
use map_data_aggregation_enh.Core.Readiness.Sources.{same_policy}
use map_data_aggregation_enh.Core.Readiness.Apply.{has_stage_id}
use map_data_aggregation_enh.Core.Readiness.Context.{
  ContextError, stage_run_not_unique, unknown_stage, input_not_declared, input_missing,
  input_not_finalized, input_expired, foreign_ancestry, input_differs, undeclared_input,
  AuthorizedStageInvocation, World, Context, readiness,
}

-- The argument of `beginStageInvocation`.
pub record BeginInput : Type 0 where
  pub run_id : String
  pub stage_run_id : String
  pub stage_id : String
  pub inputs : Dict DatasetHandle

abbrev pub is_used_id : List (ℕ × String) → ℕ → String → Bool
is_used_id used context id = any (λ (entry : ℕ × String). eqb entry.0 context && entry.1 == id) used

-- `${profileId}:${profilePolicyDigest}:${sourcePolicyId}`
abbrev pub stamp_key : SourcePolicyStamp → String
stamp_key s =
    append_text s.profile_id
      (append_text ":" (append_text s.profile_policy_digest (append_text ":" s.source_policy_id)))

-- The stamp is of this profile, version and digest, and of one of its sources.
abbrev pub has_source : ProfileDeclaration → String → Bool
has_source profile id = any (λ (s : SourcePolicyDeclaration). s.id == id) profile.sources

abbrev pub is_foreign : ProfileDeclaration → String → SourcePolicyStamp → Bool
is_foreign profile digest stamp =
    not (stamp.profile_id == profile.id)
    || not (num_eq stamp.profile_policy_version profile.policy_version)
    || not (stamp.profile_policy_digest == digest)
    || not (has_source profile stamp.source_policy_id)

abbrev pub bad_ancestry : ProfileDeclaration → String → List SourcePolicyStamp → Bool
bad_ancestry profile digest stamps =
    is_nil stamps
    || not (is_unique (map stamp_key stamps))
    || any (is_foreign profile digest) stamps

-- The stage and the port that made a dataset, where it is no audit record.
abbrev pub producer : DatasetProvenance → Option (String × String)
producer (from_source p) = some (p.producing_stage_id, p.output_port)
producer (from_preview p) = some (p.producing_stage_id, p.output_port)
producer (from_parents p) = some (p.producing_stage_id, p.output_port)
producer (from_audit p) = none

abbrev pub is_produced_by : Option (String × String) → String → String → Bool
is_produced_by none stage port = false
is_produced_by (some (s, p)) stage port = s == stage && p == port

-- The parts of `reference.split(".")`: two, that are not empty, and that the dataset came from.
abbrev pub comes_from : DatasetProvenance → List String → Bool
comes_from p (stage ∷ port ∷ []) =
    not (is_empty stage) && not (is_empty port) && is_produced_by (producer p) stage port
comes_from p _ = false

abbrev pub with_manifest :
    StageDefinition → Option StagePluginManifest → Option (StageDefinition × StagePluginManifest)
with_manifest stage none = none
with_manifest stage (some m) = some (stage, m)

-- The stage and its entry of the catalog.
abbrev pub catalog_entry :
    Context → Option StageDefinition → Option (StageDefinition × StagePluginManifest)
catalog_entry c none = none
catalog_entry c (some stage) = with_manifest stage (lookup stage.uses c.catalog)

abbrev pub next_invocation : World → StageDefinition → BeginInput → AuthorizedStageInvocation
next_invocation w stage i = record {
  reference = suc w.stage_invocation_sequence;
  run_id = i.run_id;
  stage_run_id = i.stage_run_id;
  stage_id = stage.id;
}

abbrev pub with_invocation :
    Context → World → StageDefinition → StagePluginManifest → BeginInput → World
with_invocation c w stage manifest i = record {
  stage_invocation_sequence = suc w.stage_invocation_sequence;
  mutation_subject_sequence = w.mutation_subject_sequence;
  stage_invocations =
      set (suc w.stage_invocation_sequence)
        (record { owner = c.reference; stage = stage; manifest = manifest; inputs = i.inputs })
        w.stage_invocations;
  output_mutations = w.output_mutations;
  state_mutations = w.state_mutations;
  used_stage_run_ids = (c.reference, i.stage_run_id) ∷ w.used_stage_run_ids;
}

module _ (r : Runtime) where
  -- The text is there and is the canonical text of an instant.
  abbrev pub is_instant : Option String → Bool
  is_instant none = false
  is_instant (some t) = is_canonical_iso_instant r t

  abbrev pub instant : Option String → Num
  instant none = r.platform.parse_date ""
  instant (some t) = r.platform.parse_date t

  abbrev pub bad_retention_times : Num → DatasetRef → Bool
  bad_retention_times now d =
      not (is_canonical_iso_instant r d.retention_started_at)
      || not (is_instant d.expires_at)
      || gt (r.platform.parse_date d.retention_started_at) (instant d.expires_at)
      || not (gt (instant d.expires_at) now)

  module _ (now : Num) (registry : Registry) (c : Context) where
    unfoldable pub check_artifact :
        String → PortDeclaration → String → DatasetRef → Result ContextError (Unit {0})
    check_artifact port declaration reference d = do
      refuse (bad_retention_times now d) (input_expired port)
      digest ← readiness (compute_profile_policy_digest r c.profile)
      refuse (bad_ancestry c.profile digest d.restrictions.source_policies) (foreign_ancestry port)
      refuse
          (not (comes_from d.provenance (split_dots reference))
            || not (same_policy d.artifact_policy declaration.artifact_policy)
            || not (same_schema d.schema declaration.schema))
          (input_differs port)

    abbrev pub check_dataset :
        String → PortDeclaration → String → Option DatasetHandle → Result ContextError (Unit {0})
    check_dataset port declaration reference none = err (input_missing port)
    check_dataset port declaration reference (some (ephemeral e)) = do
      refuse (not (registry (ephemeral e))) (input_missing port)
      err (input_not_finalized port)
    check_dataset port declaration reference (some (artifact d)) = do
      refuse (not (registry (artifact d))) (input_missing port)
      check_artifact port declaration reference d

    -- `!reference` holds of an empty text too.
    abbrev pub check_reference :
        String
        → PortDeclaration
        → Option String
        → Option DatasetHandle
        → Result ContextError (Unit {0})
    check_reference port declaration none dataset =
        refuse (declaration.is_required || is_some dataset) (input_not_declared port)
    check_reference port declaration (some reference) dataset =
        if is_empty reference
        then refuse (declaration.is_required || is_some dataset) (input_not_declared port)
        else check_dataset port declaration reference dataset

    abbrev pub check_input_port :
        StageDefinition
        → Dict DatasetHandle
        → String × PortDeclaration
        → Result ContextError (Unit {0})
    check_input_port stage inputs (port, declaration) =
        check_reference port declaration (lookup port stage.inputs) (lookup port inputs)

    abbrev pub check_known_input :
        StageDefinition
        → StagePluginManifest
        → String × DatasetHandle
        → Result ContextError (Unit {0})
    check_known_input stage manifest (port, dataset) =
        refuse
          (not (is_some (lookup port manifest.inputs))
            || not (is_truthy (lookup port stage.inputs)))
          (undeclared_input port)

    unfoldable pub check_inputs :
        StageDefinition → StagePluginManifest → Dict DatasetHandle → Result ContextError (Unit {0})
    check_inputs stage manifest inputs = do
      for_each (check_input_port stage inputs) manifest.inputs
      for_each (check_known_input stage manifest) inputs

  abbrev pub begin_at :
      Num
      → Registry
      → Context
      → BeginInput
      → World
      → Option (StageDefinition × StagePluginManifest)
      → Result ContextError (World × AuthorizedStageInvocation)
  begin_at now registry c i w none = err (unknown_stage i.stage_id)
  begin_at now registry c i w (some (stage, manifest)) =
      check_inputs now registry c stage manifest i.inputs >>= λ checked.
      ok (with_invocation c w stage manifest i, next_invocation w stage i)

  -- The inputs can be cloned: where `structuredClone` throws, the source has used up the ID.
  unfoldable pub begin_stage_invocation :
      Num
      → Registry
      → Context
      → BeginInput
      → World
      → Result ContextError (World × AuthorizedStageInvocation)
  begin_stage_invocation now registry c i w = do
    refuse
        (is_empty i.run_id
          || is_empty i.stage_run_id
          || is_used_id w.used_stage_run_ids c.reference i.stage_run_id)
        stage_run_not_unique
    begin_at now registry c i w
        (catalog_entry c (find (has_stage_id i.stage_id) c.definition.stages))
