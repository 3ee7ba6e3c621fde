-- ===== src/Core/Identity/Keys.antt =====
-- The keys of source records, observations, jobs and checkpoints (packages/core/src/identity.ts).
-- `hex` is the hexadecimal SHA-256 of a canonical text, and the prefix `sha256:` that `digest` puts
-- before it is cut off again by `slice`.
pub mod Jobs
use map_data_aggregation_enh.Base.{
  ℕ, String, Bool, Option, none, some, List, [], ◌∷◌, Result, ok, err, refuse, ◌>>◌, ◌>>=◌,
}
use map_data_aggregation_enh.Base.Numbers.{Num}
use map_data_aggregation_enh.Core.Types.{PipelineMode, validate, plan, preview, apply}
use map_data_aggregation_enh.Core.Platform.{Platform}
use map_data_aggregation_enh.Core.Identity.{
  Json, null, str, num, obj, field, end, IdentityError, canonicalize, assert_identity_text,
  assert_positive_version,
}

abbrev pub append_text : String → String → String
append_text String.[] t = t
append_text (String.◌∷◌ c s) t = String.◌∷◌ c (append_text s t)

-- `text.slice("sha256:".length)`
abbrev pub slice_digest : String → String
slice_digest
      (String.◌∷◌ a (
        String.◌∷◌ b
          (String.◌∷◌ c (String.◌∷◌ d (String.◌∷◌ e (String.◌∷◌ f (String.◌∷◌ g rest))))))) =
    rest
slice_digest _ = ""

pub record SourceRecord : Type 0 where
  pub profile : String
  pub source_namespace : String
  pub external_id : String

pub record JobIdentity : Type 0 where
  pub profile : String
  pub pipeline : String
  pub pipeline_version : Num
  pub task : String
  pub plugin_id : String
  pub plugin_version : String
  pub entity_key : String
  pub mode : PipelineMode

pub record CheckpointIdentity : Type 0 where
  pub profile : String
  pub pipeline : String
  pub pipeline_version : Num
  pub stage_id : String
  pub plugin_id : String
  pub plugin_version : String
  pub source_namespace : String
  pub target : String
  pub partition : String
  pub mode : PipelineMode

abbrev pub mode_text : PipelineMode → String
mode_text validate = "validate"
mode_text plan = "plan"
mode_text preview = "preview"
mode_text apply = "apply"

abbrev pub record_texts : SourceRecord → List (String × String)
record_texts r =
    ("profile", r.profile)
    ∷ ("sourceNamespace", r.source_namespace)
    ∷ ("externalId", r.external_id)
    ∷ []

abbrev pub record_value : SourceRecord → Json
record_value r = obj (
    field "profile" (str r.profile) (
      field "sourceNamespace" (str r.source_namespace)
        (field "externalId" (str r.external_id) end)))

-- `sourceRevision ?? null`
abbrev pub or_null : Option String → Json
or_null none = null
or_null (some s) = str s

abbrev pub observation_value : String → Json → Option String → Json
observation_value key payload revision = obj (
    field "sourceRecordKey" (str key)
      (field "sourceRevision" (or_null revision) (field "payload" payload end)))

abbrev pub job_texts : JobIdentity → List (String × String)
job_texts i =
    ("profile", i.profile)
    ∷ ("pipeline", i.pipeline)
    ∷ ("task", i.task)
    ∷ ("pluginId", i.plugin_id)
    ∷ ("pluginVersion", i.plugin_version)
    ∷ ("entityKey", i.entity_key)
    ∷ ("mode", mode_text i.mode)
    ∷ []

abbrev pub job_value : JobIdentity → Json
job_value i = obj (
    field "profile" (str i.profile) (
      field "pipeline" (str i.pipeline) (
        field "pipelineVersion" (num i.pipeline_version) (
          field "task" (str i.task) (
            field "pluginId" (str i.plugin_id) (
              field "pluginVersion" (str i.plugin_version) (
                field "entityKey" (str i.entity_key)
                  (field "mode" (str (mode_text i.mode)) end))))))))

abbrev pub checkpoint_texts : CheckpointIdentity → List (String × String)
checkpoint_texts i =
    ("profile", i.profile)
    ∷ ("pipeline", i.pipeline)
    ∷ ("stageId", i.stage_id)
    ∷ ("pluginId", i.plugin_id)
    ∷ ("pluginVersion", i.plugin_version)
    ∷ ("sourceNamespace", i.source_namespace)
    ∷ ("target", i.target)
    ∷ ("partition", i.partition)
    ∷ ("mode", mode_text i.mode)
    ∷ []

abbrev pub checkpoint_value : CheckpointIdentity → Json
checkpoint_value i = obj (
    field "profile" (str i.profile) (
      field "pipeline" (str i.pipeline) (
        field "pipelineVersion" (num i.pipeline_version) (
          field "stageId" (str i.stage_id) (
            field "pluginId" (str i.plugin_id) (
              field "pluginVersion" (str i.plugin_version) (
                field "sourceNamespace" (str i.source_namespace) (
                  field "target" (str i.target) (
                    field "partition" (str i.partition)
                      (field "mode" (str (mode_text i.mode)) end))))))))))

module _ (p : Platform) (hex : Json → String) where
  unfoldable pub digest_of : Json → Result IdentityError String
  digest_of v = do w ← canonicalize v; ok (append_text "sha256:" (hex w))

  unfoldable pub key_of : String → Json → Result IdentityError String
  unfolding digest_of
  key_of prefix v = do d ← digest_of v; ok (append_text prefix (slice_digest d))

  unfoldable pub create_source_record_key : SourceRecord → Result IdentityError String
  create_source_record_key r = do
    assert_identity_text p (record_texts r)
    key_of "srk_" (record_value r)

  unfoldable pub create_observation_id : String → Json → Option String → Result IdentityError String
  create_observation_id key payload revision =
      key_of "obs_" (observation_value key payload revision)

  unfoldable pub create_job_key : JobIdentity → Result IdentityError String
  create_job_key i = do
    assert_identity_text p (job_texts i)
    assert_positive_version "pipelineVersion" i.pipeline_version
    key_of "job_" (job_value i)

  -- The mode of a checkpoint is `preview` or `apply`, which the type of the source says.
  unfoldable pub create_checkpoint_key : CheckpointIdentity → Result IdentityError String
  create_checkpoint_key i = do
    assert_identity_text p (checkpoint_texts i)
    assert_positive_version "pipelineVersion" i.pipeline_version
    key_of "chk_" (checkpoint_value i)
