-- ===== src/Core/Readiness/Context/Fresh.antt =====
-- What holds of the state of the module after any calls (packages/core/src/readiness.ts): objects
-- that are not made yet have no entries, and an invocation is of a stage of its owner's definition.
use map_data_aggregation_enh.Base.{
  ℕ, suc, ◌<◌, ◌≡◌, refl, sym, subst, none, some, Any, find-some, lookup, Store, set, delete,
  change, eqb, Bool-cases, inl, inr, some_inj, arith,
}
use map_data_aggregation_enh.Core.Types.{StageDefinition, StagePluginManifest}
use map_data_aggregation_enh.Core.Readiness.{Runtime}
use map_data_aggregation_enh.Core.Readiness.Apply.{has_stage_id}
use map_data_aggregation_enh.Core.Readiness.Context.{
  StageInvocationSnapshot, World, Context, first_world,
}
use map_data_aggregation_enh.Core.Readiness.Context.Begin.{with_invocation, BeginInput}
use map_data_aggregation_enh.Core.Readiness.Context.Bind.{
  without_invocation, with_output, with_state, BindOutputInput, BindStateInput,
}
use map_data_aggregation_enh.Core.Readiness.Context.Effects.{
  AttemptSubject, reads_network, reads_artifact, writes_canonical, writes_public, writes_artifact,
  writes_evidence, writes_review, writes_state, consume, output_consumed, consumed,
}
use map_data_aggregation_enh.Core.Readiness.Context.Steps.{
  Contexts, Step, begins, closes, binds_output, binds_state, authorizes, Reach, here, later,
  begin_stage_invocation-HasBegun, close_stage_invocation-ok, bind_output-ok, bind_state-ok,
  authorize_effect-IsGranted,
}

-- The entries of objects that are not made yet.
abbrev pub IsFresh : {V : Type 0} → ℕ → Store V → Type 0
IsFresh n map = (k : ℕ) → n < k → map k ≡ none

module _ {V : Type 0} (n : ℕ) (map : Store V) (f : IsFresh n map) where
  pub set-IsFresh : (v : V) → IsFresh (suc n) (set (suc n) v map)
  set-IsFresh v k lt = ground (arith, f k (omega arith))

  pub next-IsFresh : IsFresh (suc n) map
  next-IsFresh k lt = f k (omega arith)

  pub delete-IsFresh : (j : ℕ) → IsFresh n (delete j map)
  delete-IsFresh j k lt = ground (arith, f k lt)

  pub change-IsFresh : (j : ℕ) (g : V → V) → IsFresh n (change j g map)
  change-IsFresh j g k lt = ground (arith, f k lt)

-- An invocation is of a stage of the definition of its owner, with the plugin of that stage.
abbrev pub IsSound : Contexts → StageInvocationSnapshot → Type 0
IsSound cs s =
    Any (λ x. x ≡ s.stage) (cs.at s.owner).definition.stages
    × (lookup s.stage.uses (cs.at s.owner).catalog ≡ some s.manifest)

abbrev pub AreSound : Contexts → Store StageInvocationSnapshot → Type 0
AreSound cs map = (k : ℕ) (s : StageInvocationSnapshot) → map k ≡ some s → IsSound cs s

set-AreSound :
    (cs : Contexts) (map : Store StageInvocationSnapshot) (n : ℕ) (s : StageInvocationSnapshot)
    → AreSound cs map
    → IsSound cs s
    → AreSound cs (set n s map)
set-AreSound cs map n s all sound k t e = elim (Bool-cases (eqb n k)) [
  | inl at_n ↦ let same : s ≡ t = some_inj (rw at_n at e) in subst (IsSound cs) same sound
  | inr other ↦ all k t (rw other at e)
]

delete-AreSound :
    (cs : Contexts) (map : Store StageInvocationSnapshot) (n : ℕ)
    → AreSound cs map
    → AreSound cs (delete n map)
delete-AreSound cs map n all k t e = elim (Bool-cases (eqb n k)) [
  | inl at_n ↦ absurd (ground arith)
  | inr other ↦ all k t (rw other at e)
]

pub record Inv (cs : Contexts) (w : World) : Type 0 where
  pub invocations_fresh : IsFresh w.stage_invocation_sequence w.stage_invocations
  pub outputs_fresh : IsFresh w.mutation_subject_sequence w.output_mutations
  pub states_fresh : IsFresh w.mutation_subject_sequence w.state_mutations
  pub invocations_sound : AreSound cs w.stage_invocations

module _ (cs : Contexts) (w : World) (v : Inv cs w) where
  begun-Inv :
      (k : ℕ) (i : BeginInput) (stage : StageDefinition) (m : StagePluginManifest)
      → Any (λ x. x ≡ stage) (cs.at k).definition.stages
      → lookup stage.uses (cs.at k).catalog ≡ some m
      → Inv cs (with_invocation (cs.at k) w stage m i)
  begun-Inv k i stage m there found = record {
    invocations_fresh =
        set-IsFresh w.stage_invocation_sequence w.stage_invocations v.invocations_fresh _;
    outputs_fresh = v.outputs_fresh;
    states_fresh = v.states_fresh;
    invocations_sound = set-AreSound cs w.stage_invocations _ _ v.invocations_sound (
        subst
          (λ (j : ℕ).
            IsSound cs (record { owner = j; stage = stage; manifest = m; inputs = i.inputs }))
          (sym (cs.references k)) (there, found));
  }

  closed-Inv : (k : ℕ) → Inv cs (without_invocation k w)
  closed-Inv k = record {
    invocations_fresh = delete-IsFresh _ w.stage_invocations v.invocations_fresh k;
    outputs_fresh = v.outputs_fresh;
    states_fresh = v.states_fresh;
    invocations_sound = delete-AreSound cs w.stage_invocations k v.invocations_sound;
  }

  output-Inv : (c : Context) (i : BindOutputInput) → Inv cs (with_output c i w)
  output-Inv c i = record {
    invocations_fresh = v.invocations_fresh;
    outputs_fresh = set-IsFresh w.mutation_subject_sequence w.output_mutations v.outputs_fresh _;
    states_fresh = next-IsFresh w.mutation_subject_sequence w.state_mutations v.states_fresh;
    invocations_sound = v.invocations_sound;
  }

  state-Inv : (c : Context) (i : BindStateInput) → Inv cs (with_state c i w)
  state-Inv c i = record {
    invocations_fresh = v.invocations_fresh;
    outputs_fresh = next-IsFresh w.mutation_subject_sequence w.output_mutations v.outputs_fresh;
    states_fresh = set-IsFresh w.mutation_subject_sequence w.state_mutations v.states_fresh _;
    invocations_sound = v.invocations_sound;
  }

  output_consumed-Inv : (n : ℕ) → Inv cs (output_consumed n w)
  output_consumed-Inv n = record {
    invocations_fresh = v.invocations_fresh;
    outputs_fresh = change-IsFresh _ w.output_mutations v.outputs_fresh n consume;
    states_fresh = v.states_fresh;
    invocations_sound = v.invocations_sound;
  }

  consumed-Inv : (s : AttemptSubject) → Inv cs (consumed s w)
  unfolding consumed
  consumed-Inv (reads_network n) = v
  consumed-Inv (reads_artifact n) = v
  consumed-Inv (writes_canonical d) = v
  consumed-Inv (writes_public d) = v
  consumed-Inv (writes_artifact s) = output_consumed-Inv s.reference
  consumed-Inv (writes_evidence s) = output_consumed-Inv s.reference
  consumed-Inv (writes_review s) = output_consumed-Inv s.reference
  consumed-Inv (writes_state s) = record {
    invocations_fresh = v.invocations_fresh;
    outputs_fresh = v.outputs_fresh;
    states_fresh = change-IsFresh _ w.state_mutations v.states_fresh s.reference consume;
    invocations_sound = v.invocations_sound;
  }

pub first-Inv : (cs : Contexts) → Inv cs first_world
first-Inv cs = record {
  invocations_fresh = λ k lt. refl;
  outputs_fresh = λ k lt. refl;
  states_fresh = λ k lt. refl;
  invocations_sound = λ k s e. cc;
}

pub Step-Inv : {r : Runtime} {cs : Contexts} {w w' : World} → Step r cs w w' → Inv cs w → Inv cs w'
Step-Inv {r} {cs} {w} (begins now registry k i h e) v =
    let b = begin_stage_invocation-HasBegun r now registry (cs.at k) i w e in
    let (_, there) =
      find-some (has_stage_id i.stage_id) (cs.at k).definition.stages b.stage_found in
    subst (Inv cs) (sym b.state_after)
      (begun-Inv cs w v k i b.stage b.manifest there b.manifest_found)
Step-Inv {cs} {w} (closes k j e) v =
    let (_, _, after) = close_stage_invocation-ok (cs.at k) j w e in
    subst (Inv cs) (sym after) (closed-Inv cs w v j)
Step-Inv {cs} {w} (binds_output k i s e) v =
    subst (Inv cs) (sym (bind_output-ok (cs.at k) i w e)) (output-Inv cs w v (cs.at k) i)
Step-Inv {cs} {w} (binds_state k i s e) v =
    subst (Inv cs) (sym (bind_state-ok (cs.at k) i w e)) (state-Inv cs w v (cs.at k) i)
Step-Inv {r} {cs} {w} (authorizes now registry k a e) v =
    let g = authorize_effect-IsGranted r now registry (cs.at k) a w e in
    subst (Inv cs) (sym g.state_after) (consumed-Inv cs w v a.subject)

-- After any calls of the contexts of a process, objects that are not made yet have no entries, and
-- each invocation that is open is of a stage of its owner's definition, with the plugin of that stage.
pub Reach-Inv : {r : Runtime} {cs : Contexts} {w : World} → Reach r cs first_world w → Inv cs w
Reach-Inv {cs} here = first-Inv cs
Reach-Inv (later before step) = Step-Inv step (Reach-Inv before)
