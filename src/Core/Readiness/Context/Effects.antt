-- ===== src/Core/Readiness/Context/Effects.antt =====
-- `authorizeEffect` (packages/core/src/readiness.ts).
use map_data_aggregation_enh.Base.{
  ℕ, String, Bool, true, false, not, ◌&&◌, ◌||◌, Option, none, some, Dict, Result, ok, err, refuse,
  any, find, is_nil, change, eqb, ◌==◌, ◌>>◌, ◌>>=◌,
}
use map_data_aggregation_enh.Base.Numbers.{Num, num_eq, gt}
use map_data_aggregation_enh.Core.Types.{
  EffectClass, network_read, artifact_read, artifact_write, state_write, evidence_write,
  review_write, canonical_write, public_write, apply,
}
use map_data_aggregation_enh.Core.Types.Policies.{
  Redistribution, redistribution_approved, redistribution_forbidden, ProfileDeclaration,
  SourcePolicyDeclaration,
}
use map_data_aggregation_enh.Core.Types.Datasets.{
  DatasetHandle, artifact, ephemeral, SourcePolicyStamp,
}
use map_data_aggregation_enh.Core.Authorization.{EffectInput, assert_effect_authorized_internal}
use map_data_aggregation_enh.Core.Readiness.{
  Runtime, NotReady, Registry, compute_profile_policy_digest,
}
use map_data_aggregation_enh.Core.Readiness.Context.{
  ContextError, not_its_stage, subject_not_registered, subject_no_input, subject_expired,
  subject_not_public, invalid_output_subject, invalid_state_subject, OutputSubject, StateSubject,
  StageInvocationSnapshot, MutationSubjectSnapshot, World, Context, effect_check,
  invocation_snapshot,
}
use map_data_aggregation_enh.Core.Readiness.Context.Begin.{is_instant, instant}

-- What an attempt of each effect class is given.
pub data AttemptSubject : Type 0 where
  reads_network reads_artifact : Num → AttemptSubject
  writes_canonical writes_public : DatasetHandle → AttemptSubject
  writes_artifact writes_evidence writes_review : OutputSubject → AttemptSubject
  writes_state : StateSubject → AttemptSubject

abbrev pub class_of : AttemptSubject → EffectClass
class_of (reads_network n) = network_read
class_of (reads_artifact n) = artifact_read
class_of (writes_canonical d) = canonical_write
class_of (writes_public d) = public_write
class_of (writes_artifact s) = artifact_write
class_of (writes_evidence s) = evidence_write
class_of (writes_review s) = review_write
class_of (writes_state s) = state_write

-- `AuthorizedEffectAttempt`
pub record AuthorizedEffectAttempt : Type 0 where
  pub invocation : ℕ
  pub stage_id : String
  pub resource_uri : String
  pub operation : String
  pub subject : AttemptSubject

abbrev pub handle_of : DatasetHandle → String
handle_of (artifact d) = d.broker_handle
handle_of (ephemeral e) = e.broker_handle

abbrev pub count_of : DatasetHandle → Num
count_of (artifact d) = d.record_count
count_of (ephemeral e) = e.record_count

abbrev pub is_input : Dict DatasetHandle → DatasetHandle → Bool
is_input inputs d =
    any (λ (entry : String × DatasetHandle). handle_of entry.1 == handle_of d) inputs

abbrev pub is_redistributable : Redistribution → Bool
is_redistributable redistribution_approved = true
is_redistributable redistribution_forbidden = false

abbrev pub allows_public : Option SourcePolicyDeclaration → Bool
allows_public none = false
allows_public (some s) = is_redistributable s.redistribution

abbrev pub profile_source : ProfileDeclaration → String → Option SourcePolicyDeclaration
profile_source profile id = find (λ (s : SourcePolicyDeclaration). s.id == id) profile.sources

abbrev pub is_result : String → Result NotReady String → Bool
is_result digest (ok d) = digest == d
is_result digest (err e) = false

module _ (r : Runtime) where
  abbrev pub is_digest_of : ProfileDeclaration → String → Bool
  is_digest_of profile digest = is_result digest (compute_profile_policy_digest r profile)

  -- Where there is no digest, the source throws the error of the digest.
  abbrev pub is_not_public : ProfileDeclaration → SourcePolicyStamp → Bool
  is_not_public profile stamp =
      not (stamp.profile_id == profile.id)
      || not (num_eq stamp.profile_policy_version profile.policy_version)
      || not (is_digest_of profile stamp.profile_policy_digest)
      || not (allows_public (profile_source profile stamp.source_policy_id))

  abbrev pub is_unexpired : Num → DatasetHandle → Bool
  is_unexpired now (ephemeral e) = false
  is_unexpired now (artifact d) = is_instant r d.expires_at && gt (instant r d.expires_at) now

  abbrev pub check_consumed :
      Num → Registry → StageInvocationSnapshot → DatasetHandle → Result ContextError (Unit {0})
  check_consumed now registry invocation d = do
    refuse (not (registry d)) subject_not_registered
    refuse (not (is_input invocation.inputs d)) subject_no_input
    refuse (not (is_unexpired now d)) subject_expired

  abbrev pub may_be_public : ProfileDeclaration → DatasetHandle → Bool
  may_be_public profile (ephemeral e) = false
  may_be_public profile (artifact d) =
      is_redistributable d.restrictions.redistribution
      && not (is_nil d.restrictions.source_policies)
      && not (any (is_not_public profile) d.restrictions.source_policies)

module _ {T : Type 0} (c : Context) (invocation : ℕ) where
  -- The snapshot of a mutation is of this context and invocation, for the detail, and not consumed.
  abbrev pub check_mutation :
      ContextError → (T → Bool) → Option (MutationSubjectSnapshot T) → Result ContextError Num
  check_mutation e fits none = err e
  check_mutation e fits (some m) = do
    refuse
        (not (eqb m.owner c.reference)
          || not (eqb m.invocation invocation)
          || not (fits m.detail)
          || m.consumed)
        e
    ok m.authoritative_record_count

module _ (c : Context) where
  abbrev pub output_count : World → ℕ → OutputSubject → Result ContextError Num
  output_count w invocation s =
      check_mutation c invocation invalid_output_subject
        (λ detail. detail.output_port == s.output_port) (w.output_mutations s.reference)

  abbrev pub effect_input : StageInvocationSnapshot → AuthorizedEffectAttempt → Num → EffectInput
  effect_input snapshot a n = record {
    profile = c.definition.profile;
    stage_id = snapshot.stage.id;
    deployment_identity = c.deployment.deployment_identity;
    manifest = snapshot.manifest;
    grants = c.deployment.effect_authorizations;
    request = record {
      effect_class = class_of a.subject;
      resource_uri = a.resource_uri;
      operation = a.operation;
      record_count = n;
    };
  }

module _ (r : Runtime) (now : Num) (registry : Registry) (c : Context) where
  -- The record count of an attempt, after the checks of its effect class.
  unfoldable pub record_count_of :
      World → StageInvocationSnapshot → ℕ → AttemptSubject → Result ContextError Num
  record_count_of w snapshot invocation (reads_network n) = ok n
  record_count_of w snapshot invocation (reads_artifact n) = ok n
  record_count_of w snapshot invocation (writes_canonical d) =
      check_consumed r now registry snapshot d >>= λ passed. ok (count_of d)
  record_count_of w snapshot invocation (writes_public d) =
      check_consumed r now registry snapshot d >>= λ passed.
      (refuse (not (may_be_public r c.profile d)) subject_not_public >>= λ public. ok (count_of d))
  record_count_of w snapshot invocation (writes_artifact s) = output_count c w invocation s
  record_count_of w snapshot invocation (writes_evidence s) = output_count c w invocation s
  record_count_of w snapshot invocation (writes_review s) = output_count c w invocation s
  record_count_of w snapshot invocation (writes_state s) =
      check_mutation c invocation invalid_state_subject (λ detail. detail == s.proposal_digest)
        (w.state_mutations s.reference)

abbrev pub consume : {T : Type 0} → MutationSubjectSnapshot T → MutationSubjectSnapshot T
consume m = record {
  owner = m.owner;
  invocation = m.invocation;
  authoritative_record_count = m.authoritative_record_count;
  consumed = true;
  detail = m.detail;
}

abbrev pub output_consumed : ℕ → World → World
output_consumed subject w = record {
  stage_invocation_sequence = w.stage_invocation_sequence;
  mutation_subject_sequence = w.mutation_subject_sequence;
  stage_invocations = w.stage_invocations;
  output_mutations = change subject consume w.output_mutations;
  state_mutations = w.state_mutations;
  used_stage_run_ids = w.used_stage_run_ids;
}

abbrev pub state_consumed : ℕ → World → World
state_consumed subject w = record {
  stage_invocation_sequence = w.stage_invocation_sequence;
  mutation_subject_sequence = w.mutation_subject_sequence;
  stage_invocations = w.stage_invocations;
  output_mutations = w.output_mutations;
  state_mutations = change subject consume w.state_mutations;
  used_stage_run_ids = w.used_stage_run_ids;
}

-- `if (mutationSubject) mutationSubject.consumed = true`
unfoldable pub consumed : AttemptSubject → World → World
consumed (reads_network n) w = w
consumed (reads_artifact n) w = w
consumed (writes_canonical d) w = w
consumed (writes_public d) w = w
consumed (writes_artifact s) w = output_consumed s.reference w
consumed (writes_evidence s) w = output_consumed s.reference w
consumed (writes_review s) w = output_consumed s.reference w
consumed (writes_state s) w = state_consumed s.reference w

unfoldable pub authorize_effect :
    Runtime → Num → Registry → Context → AuthorizedEffectAttempt → World → Result ContextError World
authorize_effect r now registry c a w = do
  snapshot ← invocation_snapshot c w a.invocation
  refuse (not (snapshot.stage.id == a.stage_id)) (not_its_stage a.stage_id)
  n ← record_count_of r now registry c w snapshot a.invocation a.subject
  effect_check (assert_effect_authorized_internal r.platform apply (effect_input c snapshot a n))
  ok (consumed a.subject w)
