-- ===== src/Core/Readiness/Context.antt =====
-- `ApplyAuthorizationContext` (packages/core/src/readiness.ts): the state of the module, the
-- contexts, and the objects that they hand out. An object that is compared by identity is a number.
-- The broker handles of the objects are texts made of these numbers, and are left out.
pub mod Begin
pub mod Bind
pub mod Effects
pub mod SourceOutput
pub mod Outputs
pub mod Steps
pub mod Fresh
pub mod Once
pub mod Closed
pub mod Granted
pub mod Public
pub mod Validated
pub mod Retention
pub mod Retained
mod Examples
use map_data_aggregation_enh.Base.{
  ℕ, suc, String, Bool, true, false, not, ◌||◌, Option, none, some, List, [], ◌∷◌, Dict, Result, ok,
  err, refuse, Store, no_entries, ◌>>◌, ◌>>=◌, eqb,
}
use map_data_aggregation_enh.Base.Numbers.{Num}
use map_data_aggregation_enh.Core.Types.{StageDefinition, StagePluginManifest, PipelineDefinition}
use map_data_aggregation_enh.Core.Types.Policies.{
  ProfileDeclaration, DeploymentManifest, HostPolicyManifest,
}
use map_data_aggregation_enh.Core.Types.Datasets.{DatasetHandle}
use map_data_aggregation_enh.Core.Authorization.{EffectDenied}
use map_data_aggregation_enh.Core.Readiness.{
  Runtime, NotReady, ApplyReadinessInput, compute_host_policy_digest,
}
use map_data_aggregation_enh.Core.Readiness.Apply.{assert_apply_ready}

pub data ContextError : Type 0 where
  not_ready : NotReady → ContextError
  effect_denied : EffectDenied → ContextError
  stage_run_not_unique : ContextError
  unknown_stage : String → ContextError
  input_not_declared input_missing input_not_finalized input_expired : String → ContextError
  foreign_ancestry input_differs undeclared_input : String → ContextError
  invocation_not_owned : ContextError
  cannot_bind : String → ContextError
  no_staged_artifact bad_proposal_digest bad_mutation_count : ContextError
  not_its_stage : String → ContextError
  subject_not_registered subject_no_input subject_expired subject_not_public : ContextError
  invalid_output_subject invalid_state_subject : ContextError
  input_not_registered : ContextError
  undeclared_output incompatible_output output_not_finalized no_exact_binding :
      String → ContextError
  no_profile_policy no_persisted_parents parent_never_expires ancestry_lost : String → ContextError
  omitted_output : String → ContextError
  provenance_differs no_expiry expiry_too_late audit_not_minimal : ContextError

-- `AuthorizedStageInvocation`
pub record AuthorizedStageInvocation : Type 0 where
  pub reference : ℕ
  pub run_id : String
  pub stage_run_id : String
  pub stage_id : String

-- `AuthorizedOutputMutationSubject` and `AuthorizedStateMutationSubject`
pub record OutputSubject : Type 0 where
  pub reference : ℕ
  pub output_port : String

pub record StateSubject : Type 0 where
  pub reference : ℕ
  pub proposal_digest : String

pub record StageInvocationSnapshot : Type 0 where
  pub owner : ℕ
  pub stage : StageDefinition
  pub manifest : StagePluginManifest
  pub inputs : Dict DatasetHandle

pub record MutationSubjectSnapshot (T : Type 0) : Type 0 where
  pub owner : ℕ
  pub invocation : ℕ
  pub authoritative_record_count : Num
  pub consumed : Bool
  pub detail : T

pub record OutputDetail : Type 0 where
  pub output_port : String
  pub staged_artifact_handle : String

-- The variables of the module, and the sets `#usedStageRunIds` of all contexts in one list. The
-- detail of a state mutation is its proposal digest.
pub record World : Type 0 where
  pub stage_invocation_sequence : ℕ
  pub mutation_subject_sequence : ℕ
  pub stage_invocations : Store StageInvocationSnapshot
  pub output_mutations : Store (MutationSubjectSnapshot OutputDetail)
  pub state_mutations : Store (MutationSubjectSnapshot String)
  pub used_stage_run_ids : List (ℕ × String)

abbrev pub first_world : World
first_world = record {
  stage_invocation_sequence = 0;
  mutation_subject_sequence = 0;
  stage_invocations = no_entries;
  output_mutations = no_entries;
  state_mutations = no_entries;
  used_stage_run_ids = [];
}

pub record Context : Type 0 where
  pub reference : ℕ
  pub definition : PipelineDefinition
  pub catalog : Dict StagePluginManifest
  pub profile : ProfileDeclaration
  pub deployment : DeploymentManifest
  pub host_policy : HostPolicyManifest
  pub host_policy_digest : String

abbrev pub readiness : {A : Type 0} → Result NotReady A → Result ContextError A
readiness (ok a) = ok a
readiness (err e) = err (not_ready e)

abbrev pub effect_check : {A : Type 0} → Result EffectDenied A → Result ContextError A
effect_check (ok a) = ok a
effect_check (err e) = err (effect_denied e)

abbrev pub context_of : ℕ → ApplyReadinessInput → String → Context
context_of reference i digest = record {
  reference = reference;
  definition = i.definition;
  catalog = i.catalog;
  profile = i.profile;
  deployment = i.deployment;
  host_policy = i.host_policy;
  host_policy_digest = digest;
}

-- `create`, for the context that is the object `reference`. The input is cloned and frozen, which
-- changes nothing of it.
unfoldable pub create : Runtime → ℕ → ApplyReadinessInput → Result ContextError Context
create r reference i = do
  readiness (assert_apply_ready r i)
  digest ← readiness (compute_host_policy_digest r i.host_policy)
  ok (context_of reference i digest)

abbrev pub snapshot_of :
    Context → Option StageInvocationSnapshot → Result ContextError StageInvocationSnapshot
snapshot_of c none = err invocation_not_owned
snapshot_of c (some s) = do refuse (not (eqb s.owner c.reference)) invocation_not_owned; ok s

-- `#invocationSnapshot`
abbrev pub invocation_snapshot : Context → World → ℕ → Result ContextError StageInvocationSnapshot
invocation_snapshot c w invocation = snapshot_of c (w.stage_invocations invocation)
