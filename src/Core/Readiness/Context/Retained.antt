-- ===== src/Core/Readiness/Context/Retained.antt =====
-- How long the outputs of a source are kept (packages/core/src/readiness.ts).
use map_data_aggregation_enh.Base.{
  ℕ, ◌≡◌, refl, sym, subst, ◌∙◌, String, not, ◌||◌, Option, none, some, List, [], ◌∷◌, All, All-map,
  All-Any, Any, Dict, lookup, filter, filter-Any, find-some, includes, unique-eq, ok, refuse-ok,
  bind-ok, for_each, for_each-ok, inl, eq_iff, ◌==◌,
}
use map_data_aggregation_enh.Core.Types.{PortDeclaration, SourceBinding, StageDefinition}
use map_data_aggregation_enh.Core.Types.Policies.{SourcePolicyDeclaration}
use map_data_aggregation_enh.Core.Types.Datasets.{DatasetHandle, artifact, ephemeral, DatasetRef}
use map_data_aggregation_enh.Core.Readiness.{same_schema, Runtime, Registry, ApplyReadinessInput}
use map_data_aggregation_enh.Core.Readiness.Approved.{IsApproved}
use map_data_aggregation_enh.Core.Readiness.Sources.{same_policy}
use map_data_aggregation_enh.Core.Readiness.Ready.{IsSourced, IsReady, assert_apply_ready-IsReady}
use map_data_aggregation_enh.Core.Readiness.Context.{
  incompatible_output, StageInvocationSnapshot, World, Context, first_world, invocation_snapshot,
  create,
}
use map_data_aggregation_enh.Core.Readiness.Context.Effects.{profile_source}
use map_data_aggregation_enh.Core.Readiness.Context.Outputs.{
  policy_of, schema_of, is_audit_artifact, StageOutputs, bound_output, check_bound, check_only,
  check_origin, check_source_output, check_declared, check_input, check_output, stage_outputs,
  assert_stage_outputs_registered, validate_stage_outputs,
}
use map_data_aggregation_enh.Core.Readiness.Context.Steps.{Contexts, Reach, IsOwned, snapshot_of-ok}
use map_data_aggregation_enh.Core.Readiness.Context.Fresh.{Reach-Inv}
use map_data_aggregation_enh.Core.Readiness.Context.Granted.{create-ok}
use map_data_aggregation_enh.Core.Readiness.Context.Retention.{
  IsRetained, assert_source_dataset_binding-IsRetained,
}

module _ (r : Runtime) (registry : Registry) (i : ApplyReadinessInput) (ready : IsReady r i) where
  -- A policy under the ID that an approved one has is that one.
  bound-IsRetained :
      (o : StageOutputs) (port : String) (d : DatasetRef) (b : SourceBinding)
      (found : Option SourcePolicyDeclaration)
      → o.profile ≡ i.profile
      → IsSourced i o.stage b
      → profile_source i.profile b.policy_id ≡ found
      → check_bound r registry o port d b found ≡ ok tt
      → IsRetained r d
  bound-IsRetained o port d b none p sourced e h = cc
  bound-IsRetained o port d b (some source) p (m, approved, _, (there, id), a) e h =
      let (same, listed) =
        find-some (λ (x : SourcePolicyDeclaration). x.id == b.policy_id) i.profile.sources e in
      let one : approved ≡ source =
        unique-eq (λ (x : SourcePolicyDeclaration). x.id) i.profile.sources approved source
          ready.sources_unique there listed (id ∙ sym ((eq_iff source.id b.policy_id).0 same)) in
      let (days, ceiling, kept, limit, le, small) = (subst (λ x. IsApproved x b m) one a).kept in
      assert_source_dataset_binding-IsRetained (bound_output r registry o port b source) r registry
        d days ceiling kept limit le small h

  only-IsRetained :
      (o : StageOutputs) (port : String) (d : DatasetRef) (bindings : List SourceBinding)
      → o.profile ≡ i.profile
      → ((b : SourceBinding) → Any (λ x. x ≡ b) bindings → IsSourced i o.stage b)
      → check_only r registry o port d bindings ≡ ok tt
      → IsRetained r d
  only-IsRetained o port d [] p sourced h = cc
  only-IsRetained o port d (b ∷ []) p sourced h =
      bound-IsRetained o port d b (profile_source o.profile b.policy_id) p (sourced b (inl refl))
        (λ j. profile_source (sym p j) b.policy_id) h
  only-IsRetained o port d (b ∷ b' ∷ rest) p sourced h = cc

  -- Every output of a source stage is an artifact that is kept for a bounded time.
  source_output-IsRetained :
      (o : StageOutputs) (port : String) (h : DatasetHandle)
      → o.profile ≡ i.profile
      → All (IsSourced i o.stage) o.stage.source_bindings
      → check_source_output r registry o port h ≡ ok tt
      → (d : DatasetRef) × (h ≡ artifact d) × IsRetained r d
  source_output-IsRetained o port (ephemeral e) p sourced h = cc
  source_output-IsRetained o port (artifact d) p sourced h =
      let mine = λ (b : SourceBinding). includes b.output_ports port in
      (
        d,
        refl,
        only-IsRetained o port d (filter mine o.stage.source_bindings) p
            (λ b t.
              All-Any (IsSourced i o.stage) o.stage.source_bindings sourced
                (filter-Any mine o.stage.source_bindings b t))
            h,
      )

  declared-IsRetained :
      (o : StageOutputs) (port : String) (h : DatasetHandle) (declaration : Option PortDeclaration)
      (adapter : String)
      → o.profile ≡ i.profile
      → All (IsSourced i o.stage) o.stage.source_bindings
      → o.manifest.source_adapter ≡ some adapter
      → check_declared r registry o port h declaration ≡ ok tt
      → (d : DatasetRef) × (h ≡ artifact d) × IsRetained r d
  declared-IsRetained o port h none adapter p sourced e k = cc
  declared-IsRetained o port h (some declaration) adapter p sourced e k =
      let bad =
        not (registry h)
        || not (same_policy (policy_of h) declaration.artifact_policy)
        || not (same_schema (schema_of h) declaration.schema)
        || is_audit_artifact h in
      let (_, origin) =
        refuse-ok bad (incompatible_output port)
          (check_origin r registry o o.manifest.source_adapter port h) k in
      source_output-IsRetained o port h p sourced
        (subst (λ x. check_origin r registry o x port h ≡ ok tt) e origin)

-- Where a context that was created for an input validates the outputs of a stage with a source, after
-- any calls, each output is an artifact that expires, at a canonical time which is not before its
-- retention starts and at most 30 days after.
pub validate_stage_outputs-IsRetained :
    (r : Runtime) (cs : Contexts) (k : ℕ) (i : ApplyReadinessInput) (w : World)
    (registry : Registry) (j : ℕ) (outputs : Dict DatasetHandle)
    → create r k i ≡ ok (cs.at k)
    → Reach r cs first_world w
    → validate_stage_outputs r registry (cs.at k) j outputs w ≡ ok tt
    → (s : StageInvocationSnapshot) × IsOwned (cs.at k) w j s
      × ((adapter : String)
          → s.manifest.source_adapter ≡ some adapter
          → All (λ entry. (d : DatasetRef) × (entry.1 ≡ artifact d) × IsRetained r d) outputs)
unfolding validate_stage_outputs assert_stage_outputs_registered
validate_stage_outputs-IsRetained r cs k i w registry j outputs made before h =
    let c = cs.at k in
    let (digest, passed, _, same) = create-ok r k i made in
    let ready = assert_apply_ready-IsReady r i passed in
    let (s, a, h1) = bind-ok (invocation_snapshot c w j) _ h in
    let owned = snapshot_of-ok c (w.stage_invocations j) a in
    let owner : s.owner ≡ k = owned.1 ∙ cs.references k in
    let (there, _) = (Reach-Inv before).invocations_sound j s owned.0 in
    let here_too : Any (λ x. x ≡ s.stage) (cs.at k).definition.stages =
      subst (λ n. Any (λ x. x ≡ s.stage) (cs.at n).definition.stages) owner there in
    let in_definition : Any (λ x. x ≡ s.stage) i.definition.stages =
      subst (λ (x : Context). Any (λ y. y ≡ s.stage) x.definition.stages) same here_too in
    let sourced =
      All-Any (λ (t : StageDefinition). All (IsSourced i t) t.source_bindings) i.definition.stages
        ready.sourced in_definition in
    let o = stage_outputs c s in
    let (_, _, h2) = bind-ok (for_each (check_input r registry o) o.inputs) _ h1 in
    let (_, d, _) = bind-ok (for_each (check_output r registry o) outputs) _ h2 in
    (
      s,
      owned,
      λ adapter e.
          All-map
            (λ entry checked.
              declared-IsRetained r registry i ready o entry.0 entry.1
                (lookup entry.0 s.manifest.outputs) adapter (λ n. (same n).profile) sourced e
                checked)
            outputs (for_each-ok (check_output r registry o) outputs d),
    )
