-- ===== src/Core/Readiness/Context/Steps.antt =====
-- The calls of contexts that change the state of the module, as steps
-- (packages/core/src/readiness.ts). A call that throws changes nothing, so it is no step.
use map_data_aggregation_enh.Base.{
  ℕ, ◌≡◌, refl, sym, ap, false, not, ◌||◌, Option, none, some, find, lookup, Result, ok, err,
  refuse-ok, bind-ok, or_false, is_empty, ok_inj, some_inj, eqb, eqb_iff, not-false, ◌∙◌, eq_iff,
}
use map_data_aggregation_enh.Base.Numbers.{Num}
use map_data_aggregation_enh.Core.Types.{StageDefinition, StagePluginManifest, apply}
use map_data_aggregation_enh.Core.Authorization.{EffectDenied, assert_effect_authorized_internal}
use map_data_aggregation_enh.Core.Readiness.{Runtime, Registry}
use map_data_aggregation_enh.Core.Readiness.Apply.{has_stage_id}
use map_data_aggregation_enh.Core.Readiness.Context.{
  stage_run_not_unique, AuthorizedStageInvocation, OutputSubject, StateSubject,
  StageInvocationSnapshot, World, Context, invocation_snapshot, snapshot_of, effect_check,
  not_its_stage, invocation_not_owned, cannot_bind, no_staged_artifact, bad_mutation_count,
  bad_proposal_digest,
}
use map_data_aggregation_enh.Core.Readiness.Context.Begin.{
  BeginInput, is_used_id, check_inputs, with_manifest, catalog_entry, next_invocation,
  with_invocation, begin_at, begin_stage_invocation,
}
use map_data_aggregation_enh.Core.Readiness.Context.Bind.{
  BindOutputInput, BindStateInput, without_invocation, with_output, with_state,
  close_stage_invocation, bind_output_mutation_subject, bind_state_mutation_subject,
}
use map_data_aggregation_enh.Core.Readiness.Context.Effects.{
  AuthorizedEffectAttempt, record_count_of, effect_input, consumed, authorize_effect,
}

-- The contexts of a process, each the object with its number.
pub record Contexts : Type 0 where
  pub at : ℕ → Context
  pub references : (k : ℕ) → (at k).reference ≡ k

pub data Step (r : Runtime) (cs : Contexts) (w w' : World) : Type 0 where
  begins :
      (now : Num) (registry : Registry) (k : ℕ) (i : BeginInput) (h : AuthorizedStageInvocation)
      → begin_stage_invocation r now registry (cs.at k) i w ≡ ok (w', h)
      → Step r cs w w'
  closes :
      (k : ℕ) (invocation : ℕ)
      → close_stage_invocation (cs.at k) invocation w ≡ ok w'
      → Step r cs w w'
  binds_output :
      (k : ℕ) (i : BindOutputInput) (s : OutputSubject)
      → bind_output_mutation_subject (cs.at k) i w ≡ ok (w', s)
      → Step r cs w w'
  binds_state :
      (k : ℕ) (i : BindStateInput) (s : StateSubject)
      → bind_state_mutation_subject (cs.at k) i w ≡ ok (w', s)
      → Step r cs w w'
  authorizes :
      (now : Num) (registry : Registry) (k : ℕ) (a : AuthorizedEffectAttempt)
      → authorize_effect r now registry (cs.at k) a w ≡ ok w'
      → Step r cs w w'

-- The states that follow a state.
pub data Reach (r : Runtime) (cs : Contexts) (w : World) : World → Type 0 where
  here : Reach r cs w w
  later : {v v' : World} → Reach r cs w v → Step r cs v v' → Reach r cs w v'

-- What an invocation that a context can use is.
abbrev pub IsOwned : Context → World → ℕ → StageInvocationSnapshot → Type 0
IsOwned c w k s = (w.stage_invocations k ≡ some s) × (s.owner ≡ c.reference)

pub snapshot_of-ok :
    (c : Context) (o : Option StageInvocationSnapshot) {s : StageInvocationSnapshot}
    → snapshot_of c o ≡ ok s
    → (o ≡ some s) × (s.owner ≡ c.reference)
snapshot_of-ok c none h = cc
snapshot_of-ok c (some t) {s} h =
    let (a, b) = refuse-ok (not (eqb t.owner c.reference)) invocation_not_owned (ok t) h in
    let e : t ≡ s = ok_inj b in
    (
      (λ i. some (e i)),
      ap (λ (x : StageInvocationSnapshot). x.owner) (sym e)
          ∙ (eqb_iff t.owner c.reference).0 (not-false _ a),
    )

-- What a stage that begins satisfies, and the state after it.
pub record HasBegun (c : Context) (i : BeginInput) (w w' : World) (h : AuthorizedStageInvocation)
    : Type 0 where
  pub stage : StageDefinition
  pub manifest : StagePluginManifest
  pub unused : is_used_id w.used_stage_run_ids c.reference i.stage_run_id ≡ false
  pub stage_found : find (has_stage_id i.stage_id) c.definition.stages ≡ some stage
  pub manifest_found : lookup stage.uses c.catalog ≡ some manifest
  pub state_after : w' ≡ with_invocation c w stage manifest i
  pub handle : h ≡ next_invocation w stage i

with_manifest-some :
    (t : StageDefinition) (o : Option StagePluginManifest) {s : StageDefinition}
    {m : StagePluginManifest}
    → with_manifest t o ≡ some (s, m)
    → (t ≡ s) × (o ≡ some m)
with_manifest-some t none h = cc
with_manifest-some t (some n) h = let same = some_inj h in ((λ i. (same i).0), λ i. some (same i).1)

catalog_entry-some :
    (c : Context) (o : Option StageDefinition) {s : StageDefinition} {m : StagePluginManifest}
    → catalog_entry c o ≡ some (s, m)
    → (o ≡ some s) × (lookup s.uses c.catalog ≡ some m)
catalog_entry-some c none h = cc
catalog_entry-some c (some t) {s} h =
    let (e, f) = with_manifest-some t (lookup t.uses c.catalog) h in
    let moved : lookup s.uses c.catalog ≡ lookup t.uses c.catalog =
      λ i. lookup (sym e i).uses c.catalog in
    ((λ i. some (e i)), moved ∙ f)

module _ (r : Runtime) where
  begin_at-HasBegun :
      (now : Num) (registry : Registry) (c : Context) (i : BeginInput) (w : World)
      (o : Option (StageDefinition × StagePluginManifest)) {w' : World}
      {h : AuthorizedStageInvocation}
      → catalog_entry c (find (has_stage_id i.stage_id) c.definition.stages) ≡ o
      → is_used_id w.used_stage_run_ids c.reference i.stage_run_id ≡ false
      → begin_at r now registry c i w o ≡ ok (w', h)
      → HasBegun c i w w' h
  begin_at-HasBegun now registry c i w none e u b = cc
  begin_at-HasBegun now registry c i w (some (stage, manifest)) e u b =
      let (_, _, d) = bind-ok (check_inputs r now registry c stage manifest i.inputs) _ b in
      let same = sym (ok_inj d) in
      let (found, there) = catalog_entry-some c _ e in
      record {
        stage = stage;
        manifest = manifest;
        unused = u;
        stage_found = found;
        manifest_found = there;
        state_after = λ j. (same j).0;
        handle = λ j. (same j).1;
      }

  pub begin_stage_invocation-HasBegun :
      (now : Num) (registry : Registry) (c : Context) (i : BeginInput) (w : World) {w' : World}
      {h : AuthorizedStageInvocation}
      → begin_stage_invocation r now registry c i w ≡ ok (w', h)
      → HasBegun c i w w' h
  unfolding begin_stage_invocation
  begin_stage_invocation-HasBegun now registry c i w b =
      let used = is_used_id w.used_stage_run_ids c.reference i.stage_run_id in
      let (a, d) =
        refuse-ok (is_empty i.run_id || is_empty i.stage_run_id || used) stage_run_not_unique _ b in
      begin_at-HasBegun now registry c i w _ refl
        (or_false (is_empty i.run_id || is_empty i.stage_run_id) used a).1 d

pub close_stage_invocation-ok :
    (c : Context) (k : ℕ) (w : World) {w' : World}
    → close_stage_invocation c k w ≡ ok w'
    → (s : StageInvocationSnapshot) × IsOwned c w k s × (w' ≡ without_invocation k w)
unfolding close_stage_invocation
close_stage_invocation-ok c k w h =
    let (s, a, b) = bind-ok (invocation_snapshot c w k) _ h in
    (s, snapshot_of-ok c (w.stage_invocations k) a, sym (ok_inj b))

pub bind_output-ok :
    (c : Context) (i : BindOutputInput) (w : World) {w' : World} {s : OutputSubject}
    → bind_output_mutation_subject c i w ≡ ok (w', s)
    → w' ≡ with_output c i w
unfolding bind_output_mutation_subject
bind_output-ok c i w h =
    let (s, a, b) = bind-ok (invocation_snapshot c w i.invocation) _ h in
    let (_, d) = refuse-ok _ (cannot_bind i.output_port) _ b in
    let (_, e) = refuse-ok _ no_staged_artifact _ d in
    let (_, f) = refuse-ok _ bad_mutation_count _ e in let same = sym (ok_inj f) in λ j. (same j).0

pub bind_state-ok :
    (c : Context) (i : BindStateInput) (w : World) {w' : World} {s : StateSubject}
    → bind_state_mutation_subject c i w ≡ ok (w', s)
    → w' ≡ with_state c i w
unfolding bind_state_mutation_subject
bind_state-ok c i w h =
    let (s, a, b) = bind-ok (invocation_snapshot c w i.invocation) _ h in
    let (_, d) = refuse-ok _ bad_proposal_digest _ b in
    let (_, e) = refuse-ok _ bad_mutation_count _ d in let same = sym (ok_inj e) in λ j. (same j).0

effect_check-ok :
    {A : Type 0} (m : Result EffectDenied A) {a : A} → effect_check m ≡ ok a → m ≡ ok a
effect_check-ok (ok a) h = ap ok (ok_inj h)
effect_check-ok (err e) h = cc

-- What an authorized effect satisfies, and the state after it.
pub record IsGranted (r : Runtime) (now : Num) (registry : Registry) (c : Context)
    (a : AuthorizedEffectAttempt) (w w' : World) : Type 0 where
  pub snapshot : StageInvocationSnapshot
  pub owned : IsOwned c w a.invocation snapshot
  pub of_stage : snapshot.stage.id ≡ a.stage_id
  pub count : Num
  pub counted : record_count_of r now registry c w snapshot a.invocation a.subject ≡ ok count
  pub allowed :
      assert_effect_authorized_internal r.platform apply (effect_input c snapshot a count) ≡ ok tt
  pub state_after : w' ≡ consumed a.subject w

pub authorize_effect-IsGranted :
    (r : Runtime) (now : Num) (registry : Registry) (c : Context) (a : AuthorizedEffectAttempt)
    (w : World) {w' : World}
    → authorize_effect r now registry c a w ≡ ok w'
    → IsGranted r now registry c a w w'
unfolding authorize_effect
authorize_effect-IsGranted r now registry c a w h =
    let (s, o, h1) = bind-ok (invocation_snapshot c w a.invocation) _ h in
    let (same, h2) = refuse-ok _ (not_its_stage a.stage_id) _ h1 in
    let (n, k, h3) = bind-ok (record_count_of r now registry c w s a.invocation a.subject) _ h2 in
    let internal = assert_effect_authorized_internal r.platform apply (effect_input c s a n) in
    let (_, e, h4) = bind-ok (effect_check internal) _ h3 in
    record {
      snapshot = s;
      owned = snapshot_of-ok c (w.stage_invocations a.invocation) o;
      of_stage = (eq_iff s.stage.id a.stage_id).0 (not-false _ same);
      count = n;
      counted = k;
      allowed = effect_check-ok internal e;
      state_after = sym (ok_inj h4);
    }
