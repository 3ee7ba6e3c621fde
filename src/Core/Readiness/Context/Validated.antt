-- ===== src/Core/Readiness/Context/Validated.antt =====
-- What a validated output satisfies (packages/core/src/readiness.ts).
use map_data_aggregation_enh.Base.{
  ℕ, ◌≡◌, refl, sym, subst, String, true, false, not, ◌&&◌, ◌||◌, Option, none, some, List, [], ◌∷◌,
  All, All-map, Dict, lookup, length, eqb, eqb_iff, is_nil, is_some, ok, refuse-ok, refuse_iff,
  bind-ok, for_each, for_each-ok, not-false, or_false, and_true, eq_iff, map, ◌==◌, ok_inj, arith,
}
use map_data_aggregation_enh.Base.Numbers.{Num, gt, gt-min, min-is_nan, is_nan}
use map_data_aggregation_enh.Core.Types.{PortDeclaration}
use map_data_aggregation_enh.Core.Types.Datasets.{
  DatasetHandle, artifact, DatasetRef, DatasetProvenance, InternalDatasetProvenance, from_source,
  from_preview, from_parents, from_audit,
}
use map_data_aggregation_enh.Core.SameValues.{same_values}
use map_data_aggregation_enh.Core.Readiness.{
  Runtime, Registry, is_canonical_iso_instant, same_schema,
}
use map_data_aggregation_enh.Core.Readiness.Sources.{same_policy}
use map_data_aggregation_enh.Core.Readiness.Context.{
  parent_never_expires, no_persisted_parents, ancestry_lost, incompatible_output,
  input_not_registered, omitted_output, StageInvocationSnapshot, World, Context,
  invocation_snapshot,
}
use map_data_aggregation_enh.Core.Readiness.Context.Begin.{is_instant, instant}
use map_data_aggregation_enh.Core.Readiness.Context.Outputs.{
  policy_of, schema_of, artifact_parents, sooner, is_later, earliest_expiry, is_child_of,
  is_ancestry_lost, check_internal, check_origin, check_declared, check_output, check_input,
  check_there, assert_stage_outputs_registered, dataset_values, stage_outputs,
  validate_stage_outputs, is_audit_artifact,
}
use map_data_aggregation_enh.Core.Readiness.Context.Steps.{IsOwned, snapshot_of-ok}

-- The time is canonical and the other does not lie after it.
abbrev pub IsNotAfter : Runtime → Num → DatasetRef → Type 0
IsNotAfter r t p = (is_instant r p.expires_at ≡ true) × (gt t (instant r p.expires_at) ≡ false)

abbrev IsDefinite : Option Num → Type 0
IsDefinite none = Unit
IsDefinite (some s) = is_nan s ≡ false

instant-definite :
    (r : Runtime) (e : Option String) → is_instant r e ≡ true → is_nan (instant r e) ≡ false
unfolding is_canonical_iso_instant
instant-definite r none h = cc
instant-definite r (some t) h = ground arith

sooner-IsDefinite :
    (o : Option Num) (t : Num) → IsDefinite o → is_nan t ≡ false → IsDefinite (sooner o t)
sooner-IsDefinite none t d h = h
sooner-IsDefinite (some s) t d h = min-is_nan s t d h

is_later-sooner :
    (t : Num) (o : Option Num) (s : Num)
    → IsDefinite o
    → is_nan s ≡ false
    → is_later t (sooner o s) ≡ false
    → (is_later t o ≡ false) × (gt t s ≡ false)
is_later-sooner t none s d h e = (refl, e)
is_later-sooner t (some u) s d h e = gt-min t u s d h e

-- What is not later than the earliest expiry of the parents is not later than that of any parent.
earliest_expiry-IsNotAfter :
    (r : Runtime) (port : String) (parents : List DatasetRef) (o : Option Num) (t : Num)
    {e : Option Num}
    → IsDefinite o
    → earliest_expiry r port parents o ≡ ok e
    → is_later t e ≡ false
    → All (IsNotAfter r t) parents × (is_later t o ≡ false)
unfolding earliest_expiry
earliest_expiry-IsNotAfter r port [] o t d h k =
    (tt, subst (λ x. is_later t x ≡ false) (sym (ok_inj h)) k)
earliest_expiry-IsNotAfter r port (p ∷ rest) o t d h k =
    let (a, h1) = refuse-ok (not (is_instant r p.expires_at)) (parent_never_expires port) _ h in
    let there = not-false _ a in
    let definite = instant-definite r p.expires_at there in
    let (below, last) =
      earliest_expiry-IsNotAfter r port rest (sooner o (instant r p.expires_at)) t
        (sooner-IsDefinite o (instant r p.expires_at) d definite) h1 k in
    let (a1, a2) = is_later-sooner t o (instant r p.expires_at) d definite last in
    (((there, a2), below), a1)

-- The stage made it at the port, from exactly the parents, in whatever order.
abbrev pub IsMadeFrom : String → String → List DatasetRef → DatasetProvenance → Type 0
IsMadeFrom stage_id port parents provenance =
    (p : InternalDatasetProvenance) × (provenance ≡ from_parents p)
    × (p.producing_stage_id ≡ stage_id)
    × (p.output_port ≡ port)
    × (same_values p.parent_handles (map (λ (d : DatasetRef). d.broker_handle) parents) ≡ true)

made_from :
    (r : Runtime) (stage_id port : String) (parents : List DatasetRef)
    (provenance : DatasetProvenance)
    → is_child_of r stage_id port parents provenance ≡ true
    → IsMadeFrom stage_id port parents provenance
made_from r stage_id port parents (from_source p) h = cc
made_from r stage_id port parents (from_preview p) h = cc
made_from r stage_id port parents (from_audit p) h = cc
made_from r stage_id port parents (from_parents p) h =
    let handles = map (λ (d : DatasetRef). d.broker_handle) parents in
    let (a, same) =
      and_true (p.producing_stage_id == stage_id && p.output_port == port)
        (same_values p.parent_handles handles) h in
    let (b, c) = and_true (p.producing_stage_id == stage_id) (p.output_port == port) a in
    (p, refl, (eq_iff p.producing_stage_id stage_id).0 b, (eq_iff p.output_port port).0 c, same)

-- An artifact that a stage without a source made from its inputs, with the earliest of their
-- expiries or an earlier one.
pub record IsHeir (r : Runtime) (s : StageInvocationSnapshot) (port : String) (d : DatasetRef)
    : Type 0 where
  pub all_artifacts :
      length (artifact_parents (dataset_values s.inputs)) ≡ length (dataset_values s.inputs)
  pub some_parent : is_nil (artifact_parents (dataset_values s.inputs)) ≡ false
  pub of_parents :
      IsMadeFrom s.stage.id port (artifact_parents (dataset_values s.inputs)) d.provenance
  pub expires : is_instant r d.expires_at ≡ true
  pub in_time :
      All (IsNotAfter r (instant r d.expires_at)) (artifact_parents (dataset_values s.inputs))

check_internal-IsHeir :
    (r : Runtime) (s : StageInvocationSnapshot) (port : String) (d : DatasetRef)
    → check_internal r s.stage port (dataset_values s.inputs) d ≡ ok tt
    → IsHeir r s port d
unfolding check_internal
check_internal-IsHeir r s port d h =
    let inputs = dataset_values s.inputs in
    let parents = artifact_parents inputs in
    let (a, h1) =
      refuse-ok (not (eqb (length parents) (length inputs)) || is_nil parents)
        (no_persisted_parents port) _ h in
    let (e, b, h2) = bind-ok (earliest_expiry r port parents none) _ h1 in
    let lost =
      (refuse_iff (is_ancestry_lost r s.stage.id port parents e d) (ancestry_lost port)).0 h2 in
    let (l1, in_time) = or_false _ (is_later (instant r d.expires_at) e) lost in
    let (l2, there) = or_false _ (not (is_instant r d.expires_at)) l1 in
    let (same, persisted) =
      or_false (not (eqb (length parents) (length inputs))) (is_nil parents) a in
    record {
      all_artifacts = (eqb_iff (length parents) (length inputs)).0 (not-false _ same);
      some_parent = persisted;
      of_parents = made_from r s.stage.id port parents d.provenance (ground arith);
      expires = not-false _ there;
      in_time =
          (earliest_expiry-IsNotAfter r port parents none (instant r d.expires_at) tt b in_time).0;
    }

-- An output that is declared and registered, of the declared policy and schema.
pub record IsOutput (r : Runtime) (registry : Registry) (s : StageInvocationSnapshot)
    (entry : String × DatasetHandle) : Type 0 where
  pub declaration : PortDeclaration
  pub declared : lookup entry.0 s.manifest.outputs ≡ some declaration
  pub is_registered : registry entry.1 ≡ true
  pub of_policy : same_policy (policy_of entry.1) declaration.artifact_policy ≡ true
  pub of_schema : same_schema (schema_of entry.1) declaration.schema ≡ true
  pub no_audit : is_audit_artifact entry.1 ≡ false
  pub heir :
      s.manifest.source_adapter ≡ none
      → (d : DatasetRef) → entry.1 ≡ artifact d
      → IsHeir r s entry.0 d

origin-IsHeir :
    (r : Runtime) (registry : Registry) (c : Context) (s : StageInvocationSnapshot) (port : String)
    (h : DatasetHandle)
    → check_origin r registry (stage_outputs c s) s.manifest.source_adapter port h ≡ ok tt
    → s.manifest.source_adapter ≡ none
    → (d : DatasetRef) → h ≡ artifact d
    → IsHeir r s port d
origin-IsHeir r registry c s port h passed e d f =
    let moved : check_origin r registry (stage_outputs c s) none port (artifact d) ≡ ok tt =
      rw (e, f) at passed in
    check_internal-IsHeir r s port d moved

declared-IsOutput :
    (r : Runtime) (registry : Registry) (c : Context) (s : StageInvocationSnapshot) (port : String)
    (h : DatasetHandle) (o : Option PortDeclaration)
    → lookup port s.manifest.outputs ≡ o
    → check_declared r registry (stage_outputs c s) port h o ≡ ok tt
    → IsOutput r registry s (port, h)
declared-IsOutput r registry c s port h none e k = cc
declared-IsOutput r registry c s port h (some declaration) e k =
    let policy = same_policy (policy_of h) declaration.artifact_policy in
    let schema = same_schema (schema_of h) declaration.schema in
    let (bad, origin) =
      refuse-ok (not (registry h) || not policy || not schema || is_audit_artifact h)
        (incompatible_output port) _ k in
    let (b1, audit) =
      or_false (not (registry h) || not policy || not schema) (is_audit_artifact h) bad in
    let (b2, c2) = or_false (not (registry h) || not policy) (not schema) b1 in
    let (b3, c3) = or_false (not (registry h)) (not policy) b2 in
    record {
      declaration = declaration;
      declared = e;
      is_registered = not-false _ b3;
      of_policy = not-false _ c3;
      of_schema = not-false _ c2;
      no_audit = audit;
      heir = origin-IsHeir r registry c s port h origin;
    }

-- Where the outputs of an invocation are validated, its inputs are all registered; each output is
-- declared, registered, of the declared policy and schema and no audit record, and, where it is an
-- artifact of a stage without a source, made by the stage at its port from its inputs, of which there
-- are some and all are artifacts, with an expiry that is not after that of any of them; and each
-- required output is there.
pub validate_stage_outputs-IsOutput :
    (r : Runtime) (registry : Registry) (c : Context) (j : ℕ) (outputs : Dict DatasetHandle)
    (w : World)
    → validate_stage_outputs r registry c j outputs w ≡ ok tt
    → (s : StageInvocationSnapshot) × IsOwned c w j s
      × All (λ d. registry d ≡ true) (dataset_values s.inputs)
      × All (IsOutput r registry s) outputs
      × All
          (λ p. (p.1.is_required && not (is_some (lookup p.0 outputs))) ≡ false)
          s.manifest.outputs
unfolding validate_stage_outputs assert_stage_outputs_registered
validate_stage_outputs-IsOutput r registry c j outputs w h =
    let (s, a, h1) = bind-ok (invocation_snapshot c w j) _ h in
    let o = stage_outputs c s in
    let (_, b, h2) = bind-ok (for_each (check_input r registry o) o.inputs) _ h1 in
    let (_, d, e) = bind-ok (for_each (check_output r registry o) outputs) _ h2 in
    (
      s,
      snapshot_of-ok c (w.stage_invocations j) a,
      All-map (λ x k. not-false _ ((refuse_iff (not (registry x)) input_not_registered).0 k))
          o.inputs (for_each-ok (check_input r registry o) o.inputs b),
      All-map
          (λ entry k.
            declared-IsOutput r registry c s entry.0 entry.1 (lookup entry.0 s.manifest.outputs)
              refl k)
          outputs (for_each-ok (check_output r registry o) outputs d),
      All-map (λ p k. (refuse_iff _ (omitted_output p.0)).0 k) s.manifest.outputs
          (for_each-ok (check_there r registry o outputs) s.manifest.outputs e),
    )
