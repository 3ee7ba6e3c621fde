-- ===== src/Core/Readiness/Context/Examples.antt =====
-- The contexts of two processes of the sample deployment, and one more deployment that writes.
use map_data_aggregation_enh.Base.{
  ℕ, ◌≡◌, ◌≢◌, refl, String, true, false, Option, none, some, [], ◌∷◌, All, Dict, ok, for_each, set,
  no_entries, ◌&&◌, not, is_some, lookup,
}
use map_data_aggregation_enh.Base.Numbers.{Num, nat, neg}
use map_data_aggregation_enh.Base.TextOrder.{text_lt}
use map_data_aggregation_enh.Base.Sorting.{sort, insert_sorted}
use map_data_aggregation_enh.Core.Types.{
  required, derived, artifact_write, public_write, network_read, post_read, no_delivery,
  EffectAuthorization, EffectClass, StagePluginManifest, StageDefinition, Verification,
}
use map_data_aggregation_enh.Core.Types.Policies.{redistribution_approved}
use map_data_aggregation_enh.Core.Types.Datasets.{
  DatasetRef, DatasetHandle, artifact, from_source, from_parents, immutable, SourcePolicyStamp,
}
use map_data_aggregation_enh.Core.Samples.{
  digest, places, port, lock, reader, fetch, pipeline, reservation,
}
use map_data_aggregation_enh.Core.SameValues.{same_values, every_at}
use map_data_aggregation_enh.Core.Identity.{canonicalize, normalize}
use map_data_aggregation_enh.Core.Identity.Keys.{digest_of}
use map_data_aggregation_enh.Core.Authorization.{
  check_resource, check_mode, check_grant, grant_covers, assert_effect_authorized_internal,
}
use map_data_aggregation_enh.Core.Readiness.{
  Registry, digest_object, compute_profile_policy_digest, compute_host_policy_digest,
  is_canonical_iso_instant,
}
use map_data_aggregation_enh.Core.Readiness.Sources.{retention_ceiling}
use map_data_aggregation_enh.Core.Readiness.Samples.{
  runtime, ready_input, ready_input_passes, profile, deployment, host,
}
use map_data_aggregation_enh.Core.Readiness.Context.{
  StageInvocationSnapshot, World, first_world, Context, OutputSubject, context_of, create,
}
use map_data_aggregation_enh.Core.Readiness.Context.Begin.{
  BeginInput, check_inputs, with_invocation, next_invocation, begin_stage_invocation,
}
use map_data_aggregation_enh.Core.Readiness.Context.Bind.{
  BindOutputInput, with_output, without_invocation, close_stage_invocation,
  bind_output_mutation_subject,
}
use map_data_aggregation_enh.Core.Readiness.Context.Effects.{
  AuthorizedEffectAttempt, AttemptSubject, reads_network, writes_artifact, writes_evidence,
  writes_public, record_count_of, output_consumed, consumed, authorize_effect,
}
use map_data_aggregation_enh.Core.Readiness.Context.SourceOutput.{
  is_not_bound, assert_source_dataset_binding,
}
use map_data_aggregation_enh.Core.Readiness.Context.Outputs.{
  assert_stage_outputs_registered, validate_stage_outputs, dataset_values, check_internal,
  earliest_expiry,
}
use map_data_aggregation_enh.Core.Readiness.Context.Steps.{
  Contexts, Reach, here, later, begins, binds_output, IsOwned,
}
use map_data_aggregation_enh.Core.Readiness.Context.Fresh.{Inv, Reach-Inv}
use map_data_aggregation_enh.Core.Readiness.Context.Once.{output_mutation, authorize_once}
use map_data_aggregation_enh.Core.Readiness.Context.Closed.{begin_once, IsRefused, closed_forever}
use map_data_aggregation_enh.Core.Readiness.Context.Granted.{
  IsJustified, authorize_effect-IsJustified,
}
use map_data_aggregation_enh.Core.Readiness.Context.Public.{
  IsPublishable, public_write-IsPublishable,
}
use map_data_aggregation_enh.Core.Readiness.Context.Validated.{
  IsOutput, validate_stage_outputs-IsOutput,
}
use map_data_aggregation_enh.Core.Readiness.Context.Retention.{IsRetained}
use map_data_aggregation_enh.Core.Readiness.Context.Retained.{validate_stage_outputs-IsRetained}

abbrev contexts : Contexts
contexts = record { at = λ k. context_of k ready_input digest; references = λ k. refl }

first_created : create runtime 0 ready_input ≡ ok (contexts.at 0)
unfolding create digest_object compute_host_policy_digest digest_of canonicalize normalize
first_created = rw ready_input_passes refl

-- Everything is registered, and it is the millisecond before the dates of the sample platform.
abbrev registry : Registry
registry d = true

abbrev now : Num
now = neg 0

abbrev fetch_run : BeginInput
fetch_run = record { run_id = "r"; stage_run_id = "s1"; stage_id = "fetch"; inputs = [] }

abbrev begun : World
begun = with_invocation (contexts.at 0) first_world fetch reader fetch_run

fetch_begins :
    begin_stage_invocation runtime now registry (contexts.at 0) fetch_run first_world
    ≡ ok (begun, next_invocation first_world fetch fetch_run)
unfolding begin_stage_invocation check_inputs for_each
fetch_begins = refl

abbrev reached : Reach runtime contexts first_world begun
reached =
    later here
      (begins now registry 0 fetch_run (next_invocation first_world fetch fetch_run) fetch_begins)

Reach-Inv_example : Inv contexts begun
Reach-Inv_example = Reach-Inv reached

begin_once_example :
    begin_stage_invocation runtime now registry (contexts.at 0) fetch_run begun
    ≢ ok (begun, next_invocation begun fetch fetch_run)
begin_once_example =
    begin_once runtime contexts first_world now registry 0 fetch_run
      (next_invocation first_world fetch fetch_run) fetch_begins here now registry fetch_run refl

fetch_closes : close_stage_invocation (contexts.at 0) 1 begun ≡ ok (without_invocation 1 begun)
unfolding close_stage_invocation
fetch_closes = refl

closed_forever_example : IsRefused runtime (without_invocation 1 begun) 1
closed_forever_example = closed_forever runtime contexts 0 1 reached fetch_closes here

abbrev reading : AuthorizedEffectAttempt
reading = record {
  invocation = 1;
  stage_id = "fetch";
  resource_uri = "https://feed/";
  operation = "run";
  subject = reads_network (nat 3);
}

reading_passes : authorize_effect runtime now registry (contexts.at 0) reading begun ≡ ok begun
unfolding authorize_effect record_count_of consumed assert_effect_authorized_internal check_resource
    check_mode check_grant grant_covers
reading_passes = refl

authorize_effect-IsJustified_example :
    (snapshot : StageInvocationSnapshot) × (count : Num) × (record_count_of runtime now registry
        (contexts.at 0)
        begun
        snapshot
        1
        (reads_network (nat 3))
      ≡ ok count)
    × IsJustified ready_input reading count
authorize_effect-IsJustified_example =
    authorize_effect-IsJustified runtime 0 ready_input (contexts.at 0) now registry reading begun
      first_created reading_passes

abbrev stamp : SourcePolicyStamp
stamp = record {
  profile_id = "pizza";
  profile_policy_version = nat 1;
  profile_policy_digest = digest;
  source_policy_id = "feed-policy";
}

abbrev feed : DatasetRef
feed = record {
  broker_handle = "b1";
  artifact_policy = required;
  artifact_class = derived;
  manifest_digest = digest;
  content_digest = digest;
  schema = places;
  fields = "name" ∷ [];
  record_count = nat 1;
  uri = "artifact://b1";
  retention_started_at = "";
  expires_at = some "";
  restrictions = record {
    source_policies = stamp ∷ [];
    redistribution = redistribution_approved;
    attribution_refs = "feed" ∷ [];
  };
  provenance = from_source (record {
    producing_stage_id = "fetch";
    profile_id = "pizza";
    profile_policy_version = nat 1;
    profile_policy_digest = digest;
    source_policy_id = "feed-policy";
    source_adapter = "http";
    effect_class = network_read;
    resource_uri = "https://feed/";
    operations = "run" ∷ [];
    output_port = "feed";
    child_ids = [];
    snapshot = record {
      snapshot_id = "n1";
      source_instance_digest = none;
      reader_binding_digest = digest;
      captured_at = none;
      consistency = immutable;
      cursor_schema = none;
      start_exclusive = none;
      end_inclusive = none;
      contract_name = "places";
      contract_version = nat 1;
      contract_digest = digest;
    };
  });
}

abbrev outputs : Dict DatasetHandle
outputs = ("feed", artifact feed) ∷ []

outputs_pass : validate_stage_outputs runtime registry (contexts.at 0) 1 outputs begun ≡ ok tt
unfolding validate_stage_outputs assert_stage_outputs_registered for_each
    assert_source_dataset_binding is_not_bound compute_profile_policy_digest digest_object digest_of
    canonicalize normalize is_canonical_iso_instant same_values every_at sort insert_sorted text_lt
    retention_ceiling
outputs_pass = refl

validate_stage_outputs-IsRetained_example :
    (s : StageInvocationSnapshot) × IsOwned (contexts.at 0) begun 1 s
    × ((adapter : String)
        → s.manifest.source_adapter ≡ some adapter
        → All (λ entry. (d : DatasetRef) × (entry.1 ≡ artifact d) × IsRetained runtime d) outputs)
validate_stage_outputs-IsRetained_example =
    validate_stage_outputs-IsRetained runtime contexts 0 ready_input begun registry 1 outputs
      first_created reached outputs_pass

-- A plugin that writes artifacts and in public, of a deployment that grants both.
abbrev writer : StagePluginManifest
writer = record {
  id = "writer";
  lock = lock;
  inputs = [];
  outputs = ("out", port) ∷ [];
  source_adapter = none;
  effects = artifact_write ∷ public_write ∷ [];
  delivery = no_delivery;
  secret_refs = [];
}

abbrev writing : StageDefinition
writing = record {
  id = "writing";
  uses = "writer";
  inputs = [];
  source_bindings = [];
  resources = reservation;
  requested_effects = [];
}

abbrev writes : EffectClass → String → Option Verification → EffectAuthorization
writes e uri v = record {
  profile = "pizza";
  stage_id = "writing";
  deployment_identity = "d1";
  effect_class = e;
  resource_uri = uri;
  operations = "put" ∷ [];
  max_records = nat 5;
  verification = v;
}

abbrev writing_context : ℕ → Context
writing_context k = record {
  reference = k;
  definition = record (pipeline "fetch.feed") { stages = writing ∷ [] };
  catalog = ("writer", writer) ∷ [];
  profile = profile;
  deployment = record deployment {
    effect_authorizations =
        writes artifact_write "artifact://out/" none
        ∷ writes public_write "https://out/" (some post_read)
        ∷ [];
  };
  host_policy = host;
  host_policy_digest = digest;
}

abbrev writing_contexts : Contexts
writing_contexts = record { at = writing_context; references = λ k. refl }

abbrev writing_run : BeginInput
writing_run = record { run_id = "r"; stage_run_id = "s2"; stage_id = "writing"; inputs = [] }

abbrev writing_begun : World
writing_begun = with_invocation (writing_context 0) first_world writing writer writing_run

writing_begins :
    begin_stage_invocation runtime now registry (writing_context 0) writing_run first_world
    ≡ ok (writing_begun, next_invocation first_world writing writing_run)
unfolding begin_stage_invocation check_inputs for_each
writing_begins = refl

abbrev out_bound : BindOutputInput
out_bound = record {
  invocation = 1;
  output_port = "out";
  staged_artifact_handle = "staged";
  authoritative_record_count = nat 2;
}

abbrev out_subject : OutputSubject
out_subject = record { reference = 1; output_port = "out" }

abbrev bound_world : World
bound_world = with_output (writing_context 0) out_bound writing_begun

out_binds :
    bind_output_mutation_subject (writing_context 0) out_bound writing_begun
    ≡ ok (bound_world, out_subject)
unfolding bind_output_mutation_subject
out_binds = refl

abbrev put : AttemptSubject → String → AuthorizedEffectAttempt
put subject uri = record {
  invocation = 1;
  stage_id = "writing";
  resource_uri = uri;
  operation = "put";
  subject = subject;
}

put_passes :
    authorize_effect runtime now registry
      (writing_context 0)
      (put (writes_artifact out_subject) "artifact://out/")
      bound_world
    ≡ ok (output_consumed 1 bound_world)
unfolding authorize_effect record_count_of consumed assert_effect_authorized_internal check_resource
    check_mode check_grant grant_covers
put_passes = refl

authorize_once_example :
    authorize_effect runtime now registry
      (writing_context 0)
      (put (writes_evidence out_subject) "artifact://out/")
      (output_consumed 1 bound_world)
    ≢ ok first_world
authorize_once_example =
    authorize_once runtime writing_contexts now registry 0
      (put (writes_artifact out_subject) "artifact://out/") (output_mutation 1)
      (later
        (later here (
          begins now registry 0 writing_run (next_invocation first_world writing writing_run)
            writing_begins))
        (binds_output 0 out_bound out_subject out_binds))
      refl put_passes here now registry (writing_context 0)
      (put (writes_evidence out_subject) "artifact://out/") refl

-- The invocation has the feed as an input.
abbrev with_feed : World
with_feed = record first_world {
  stage_invocation_sequence = 1;
  stage_invocations =
      set 1
        (record {
          owner = 0;
          stage = writing;
          manifest = writer;
          inputs = ("rows", artifact feed) ∷ [];
        })
        no_entries;
}

abbrev publishing : AuthorizedEffectAttempt
publishing = put (writes_public (artifact feed)) "https://out/"

publishing_passes :
    authorize_effect runtime now registry (writing_context 0) publishing with_feed ≡ ok with_feed
unfolding authorize_effect record_count_of consumed assert_effect_authorized_internal check_resource
    check_mode check_grant grant_covers compute_profile_policy_digest digest_object digest_of
    canonicalize normalize is_canonical_iso_instant
publishing_passes = refl

public_write-IsPublishable_example :
    (s : StageInvocationSnapshot) × IsOwned (writing_context 0) with_feed 1 s
    × IsPublishable runtime now registry profile s (artifact feed)
public_write-IsPublishable_example =
    public_write-IsPublishable runtime now registry (writing_context 0) publishing with_feed
      (artifact feed) refl publishing_passes

-- What the writing stage makes of the feed.
abbrev made : DatasetRef
made = record feed {
  broker_handle = "b2";
  provenance = from_parents (record {
    producing_stage_id = "writing";
    output_port = "out";
    parent_handles = "b1" ∷ [];
    source_provenance = [];
  });
}

abbrev made_outputs : Dict DatasetHandle
made_outputs = ("out", artifact made) ∷ []

made_outputs_pass :
    validate_stage_outputs runtime registry (writing_context 0) 1 made_outputs with_feed ≡ ok tt
unfolding validate_stage_outputs assert_stage_outputs_registered for_each check_internal
    earliest_expiry digest_object digest_of canonicalize normalize is_canonical_iso_instant
    same_values every_at sort insert_sorted text_lt
made_outputs_pass = refl

validate_stage_outputs-IsOutput_example :
    (s : StageInvocationSnapshot) × IsOwned (writing_context 0) with_feed 1 s
    × All (λ d. registry d ≡ true) (dataset_values s.inputs)
    × All (IsOutput runtime registry s) made_outputs
    × All
        (λ p. (p.1.is_required && not (is_some (lookup p.0 made_outputs))) ≡ false)
        s.manifest.outputs
validate_stage_outputs-IsOutput_example =
    validate_stage_outputs-IsOutput runtime registry (writing_context 0) 1 made_outputs with_feed
      made_outputs_pass
