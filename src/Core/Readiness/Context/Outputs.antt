-- ===== src/Core/Readiness/Context/Outputs.antt =====
-- `assertStageOutputsRegistered`, `validateStageOutputs` and `evaluateAdmission` of the context
-- (packages/core/src/readiness.ts).
use map_data_aggregation_enh.Base.{
  String, Bool, true, false, not, ◌&&◌, ◌||◌, Option, none, some, List, [], ◌∷◌, Dict, Result, ok,
  err, refuse, for_each, filter, map, lookup, insert, length, includes, is_nil, is_some, eqb, ◌==◌,
  ◌>>◌, ◌>>=◌, if◌then◌else◌, ℕ,
}
use map_data_aggregation_enh.Base.Numbers.{Num, min, gt}
use map_data_aggregation_enh.Base.Sorting.{sort}
use map_data_aggregation_enh.Core.Types.{
  ArtifactPolicy, forbidden, audit_metadata, SchemaRef, PortDeclaration, StageDefinition,
  StagePluginManifest, SourceBinding, ResourceReservation,
}
use map_data_aggregation_enh.Core.Types.Policies.{
  Redistribution, redistribution_approved, redistribution_forbidden, ProfileDeclaration,
  SourcePolicyDeclaration,
}
use map_data_aggregation_enh.Core.Types.Datasets.{
  DatasetHandle, artifact, ephemeral, DatasetRef, DatasetRestrictions, DatasetProvenance,
  from_parents, SourcePolicyStamp,
}
use map_data_aggregation_enh.Core.Admission.{
  HostAdmissionLimits, AdmissionDecision, evaluate_admission,
}
use map_data_aggregation_enh.Core.SameValues.{same_values}
use map_data_aggregation_enh.Core.Readiness.{
  Runtime, NotReady, Registry, digest_object, is_canonical_iso_instant, same_schema,
}
use map_data_aggregation_enh.Core.Readiness.Sources.{same_policy}
use map_data_aggregation_enh.Core.Readiness.Context.{
  ContextError, input_not_registered, undeclared_output, incompatible_output, output_not_finalized,
  no_exact_binding, no_profile_policy, no_persisted_parents, parent_never_expires, ancestry_lost,
  omitted_output, World, Context, StageInvocationSnapshot, invocation_snapshot,
}
use map_data_aggregation_enh.Core.Readiness.Context.Begin.{stamp_key, is_instant, instant}
use map_data_aggregation_enh.Core.Readiness.Context.Effects.{is_redistributable, profile_source}
use map_data_aggregation_enh.Core.Readiness.Context.SourceOutput.{
  same_class, BoundOutput, assert_source_dataset_binding,
}

abbrev pub policy_of : DatasetHandle → ArtifactPolicy
policy_of (artifact d) = d.artifact_policy
policy_of (ephemeral e) = forbidden

abbrev pub schema_of : DatasetHandle → SchemaRef
schema_of (artifact d) = d.schema
schema_of (ephemeral e) = e.schema

abbrev pub is_audit_artifact : DatasetHandle → Bool
is_audit_artifact (artifact d) = same_class d.artifact_class audit_metadata
is_audit_artifact (ephemeral e) = false

-- The artifacts among the inputs.
abbrev pub artifact_parents : List DatasetHandle → List DatasetRef
artifact_parents [] = []
artifact_parents (artifact d ∷ rest) = d ∷ artifact_parents rest
artifact_parents (ephemeral e ∷ rest) = artifact_parents rest

-- What the loop over the parents collects.
abbrev pub collect_stamps : Dict SourcePolicyStamp → List SourcePolicyStamp → Dict SourcePolicyStamp
collect_stamps found [] = found
collect_stamps found (s ∷ rest) = collect_stamps (insert (stamp_key s) s found) rest

abbrev pub all_stamps : Dict SourcePolicyStamp → List DatasetRef → Dict SourcePolicyStamp
all_stamps found [] = found
all_stamps found (p ∷ rest) = all_stamps (collect_stamps found p.restrictions.source_policies) rest

abbrev pub add_ref : List String → String → List String
add_ref [] a = a ∷ []
add_ref (x ∷ xs) a = let rest = add_ref xs a in if x == a then x ∷ xs else x ∷ rest

abbrev pub add_refs : List String → List String → List String
add_refs found [] = found
add_refs found (a ∷ rest) = add_refs (add_ref found a) rest

abbrev pub all_refs : List String → List DatasetRef → List String
all_refs found [] = found
all_refs found (p ∷ rest) = all_refs (add_refs found p.restrictions.attribution_refs) rest

abbrev pub joint_redistribution : List DatasetRef → Redistribution
joint_redistribution [] = redistribution_approved
joint_redistribution (p ∷ rest) = elim (is_redistributable p.restrictions.redistribution) [
  | true ↦ joint_redistribution rest
  | false ↦ redistribution_forbidden
]

-- The least of two expiries, where the first may be infinite.
abbrev pub sooner : Option Num → Num → Option Num
sooner none t = some t
sooner (some s) t = some (min s t)

abbrev pub is_later : Num → Option Num → Bool
is_later t none = false
is_later t (some s) = gt t s

module _ (r : Runtime) where
  -- `[...sourcePolicies.values()].sort` by `localeCompare` of the keys.
  abbrev pub insert_stamp : SourcePolicyStamp → List SourcePolicyStamp → List SourcePolicyStamp
  insert_stamp s [] = s ∷ []
  insert_stamp s (x ∷ xs) =
      let rest = insert_stamp s xs in
      if r.locale_lt (stamp_key x) (stamp_key s) then x ∷ rest else s ∷ x ∷ xs

  abbrev pub sort_stamps : List SourcePolicyStamp → List SourcePolicyStamp
  sort_stamps [] = []
  sort_stamps (x ∷ xs) = insert_stamp x (sort_stamps xs)

  abbrev pub stamp_entries : Dict SourcePolicyStamp → List SourcePolicyStamp
  stamp_entries [] = []
  stamp_entries ((k, s) ∷ rest) = s ∷ stamp_entries rest

  abbrev pub expected_restrictions : List DatasetRef → DatasetRestrictions
  expected_restrictions parents = record {
    source_policies = sort_stamps (stamp_entries (all_stamps [] parents));
    redistribution = joint_redistribution parents;
    attribution_refs = sort (λ s. s) (all_refs [] parents);
  }

  unfoldable pub earliest_expiry :
      String → List DatasetRef → Option Num → Result ContextError (Option Num)
  earliest_expiry port [] earliest = ok earliest
  earliest_expiry port (p ∷ rest) earliest =
      refuse (not (is_instant r p.expires_at)) (parent_never_expires port) >>= λ passed.
      earliest_expiry port rest (sooner earliest (instant r p.expires_at))

  -- Where a digest cannot be computed, the source throws the error of the digest.
  abbrev pub same_digest : Result NotReady String → Result NotReady String → Bool
  same_digest (ok a) (ok b) = a == b
  same_digest _ _ = false

  abbrev pub same_restrictions : DatasetRestrictions → DatasetRestrictions → Bool
  same_restrictions a b =
      same_digest (digest_object r (r.restrictions_json a))
        (digest_object r (r.restrictions_json b))

  abbrev pub is_child_of : String → String → List DatasetRef → DatasetProvenance → Bool
  is_child_of stage_id port parents (from_parents p) =
      p.producing_stage_id == stage_id
      && p.output_port == port
      && same_values p.parent_handles (map (λ (d : DatasetRef). d.broker_handle) parents)
  is_child_of stage_id port parents _ = false

  abbrev pub is_ancestry_lost : String → String → List DatasetRef → Option Num → DatasetRef → Bool
  is_ancestry_lost stage_id port parents earliest d =
      not (is_child_of stage_id port parents d.provenance)
      || not (same_restrictions d.restrictions (expected_restrictions parents))
      || not (is_canonical_iso_instant r d.retention_started_at)
      || not (is_instant r d.expires_at)
      || is_later (instant r d.expires_at) earliest

  unfoldable pub check_internal :
      StageDefinition → String → List DatasetHandle → DatasetRef → Result ContextError (Unit {0})
  check_internal stage port inputs d = do
    refuse
        (not (eqb (length (artifact_parents inputs)) (length inputs))
          || is_nil (artifact_parents inputs))
        (no_persisted_parents port)
    earliest ← earliest_expiry port (artifact_parents inputs) none
    refuse (is_ancestry_lost stage.id port (artifact_parents inputs) earliest d)
        (ancestry_lost port)

-- The argument of `assertStageOutputsRegistered` but for the outputs and the registry.
pub record StageOutputs : Type 0 where
  pub stage : StageDefinition
  pub manifest : StagePluginManifest
  pub profile : ProfileDeclaration
  pub inputs : List DatasetHandle

module _ (r : Runtime) (registry : Registry) (o : StageOutputs) where
  abbrev pub bound_output : String → SourceBinding → SourcePolicyDeclaration → BoundOutput
  bound_output port binding source = record {
    binding = binding;
    stage_id = o.stage.id;
    output_port = port;
    manifest = o.manifest;
    profile = o.profile;
    source = source;
  }

  abbrev pub check_bound :
      String
      → DatasetRef
      → SourceBinding
      → Option SourcePolicyDeclaration
      → Result ContextError (Unit {0})
  check_bound port d binding none = err (no_profile_policy port)
  check_bound port d binding (some source) =
      assert_source_dataset_binding (bound_output port binding source) r registry d

  abbrev pub check_only : String → DatasetRef → List SourceBinding → Result ContextError (Unit {0})
  check_only port d (binding ∷ []) =
      check_bound port d binding (profile_source o.profile binding.policy_id)
  check_only port d _ = err (no_exact_binding port)

  abbrev pub check_source_output : String → DatasetHandle → Result ContextError (Unit {0})
  check_source_output port (ephemeral e) = err (output_not_finalized port)
  check_source_output port (artifact d) =
      check_only port d
        (filter (λ (b : SourceBinding). includes b.output_ports port) o.stage.source_bindings)

  abbrev pub check_internal_output : String → DatasetHandle → Result ContextError (Unit {0})
  check_internal_output port (ephemeral e) = ok tt
  check_internal_output port (artifact d) = check_internal r o.stage port o.inputs d

  abbrev pub check_origin : Option String → String → DatasetHandle → Result ContextError (Unit {0})
  check_origin none port d = check_internal_output port d
  check_origin (some adapter) port d = check_source_output port d

  abbrev pub check_declared :
      String → DatasetHandle → Option PortDeclaration → Result ContextError (Unit {0})
  check_declared port d none = err (undeclared_output port)
  check_declared port d (some declaration) = do
    refuse
        (not (registry d)
          || not (same_policy (policy_of d) declaration.artifact_policy)
          || not (same_schema (schema_of d) declaration.schema)
          || is_audit_artifact d)
        (incompatible_output port)
    check_origin o.manifest.source_adapter port d

  abbrev pub check_output : String × DatasetHandle → Result ContextError (Unit {0})
  check_output (port, d) = check_declared port d (lookup port o.manifest.outputs)

  abbrev pub check_input : DatasetHandle → Result ContextError (Unit {0})
  check_input d = refuse (not (registry d)) input_not_registered

  abbrev pub check_there :
      Dict DatasetHandle → String × PortDeclaration → Result ContextError (Unit {0})
  check_there outputs (port, declaration) =
      refuse (declaration.is_required && not (is_some (lookup port outputs))) (omitted_output port)

  unfoldable pub assert_stage_outputs_registered :
      Dict DatasetHandle → Result ContextError (Unit {0})
  assert_stage_outputs_registered outputs = do
    for_each check_input o.inputs
    for_each check_output outputs
    for_each (check_there outputs) o.manifest.outputs

abbrev pub dataset_values : Dict DatasetHandle → List DatasetHandle
dataset_values [] = []
dataset_values ((port, d) ∷ rest) = d ∷ dataset_values rest

abbrev pub stage_outputs : Context → StageInvocationSnapshot → StageOutputs
stage_outputs c s = record {
  stage = s.stage;
  manifest = s.manifest;
  profile = c.profile;
  inputs = dataset_values s.inputs;
}

unfoldable pub validate_stage_outputs :
    Runtime → Registry → Context → ℕ → Dict DatasetHandle → World → Result ContextError (Unit {0})
validate_stage_outputs r registry c invocation outputs w = do
  snapshot ← invocation_snapshot c w invocation
  assert_stage_outputs_registered r registry (stage_outputs c snapshot) outputs

abbrev pub context_limits : Context → HostAdmissionLimits
context_limits c = record {
  max_cpu_units = c.host_policy.limits.max_cpu_units;
  max_rss_bytes = c.host_policy.limits.max_rss_bytes;
  max_child_processes = c.host_policy.limits.max_child_processes;
  min_free_disk_bytes = c.host_policy.limits.min_free_disk_bytes;
  groups = c.host_policy.admission_groups;
}

-- `evaluateAdmission` of the context.
unfoldable pub evaluate_context_admission :
    Context → List ResourceReservation → ResourceReservation → Num → AdmissionDecision
evaluate_context_admission c active candidate observed =
    evaluate_admission (context_limits c) active candidate observed
