-- ===== src/Core/Readiness/Context/Once.antt =====
-- A mutation subject authorizes one effect (packages/core/src/readiness.ts).
use map_data_aggregation_enh.Base.{
  ℕ, suc, ◌≡◌, ◌≢◌, refl, sym, subst, ◌∙◌, Bool, true, false, not, ◌||◌, Option, none, some, Store,
  set, change, ok, refuse-ok, eqb, eqb_iff, ◌==◌, Bool-cases, inl, inr, some_inj, or_false, arith,
}
use map_data_aggregation_enh.Base.Numbers.{Num}
use map_data_aggregation_enh.Core.Readiness.{Runtime, Registry}
use map_data_aggregation_enh.Core.Readiness.Context.{
  ContextError, invalid_output_subject, invalid_state_subject, OutputSubject,
  StageInvocationSnapshot, MutationSubjectSnapshot, World, Context, first_world,
}
use map_data_aggregation_enh.Core.Readiness.Context.Bind.{
  with_output, with_state, BindOutputInput, BindStateInput,
}
use map_data_aggregation_enh.Core.Readiness.Context.Effects.{
  AttemptSubject, reads_network, reads_artifact, writes_canonical, writes_public, writes_artifact,
  writes_evidence, writes_review, writes_state, AuthorizedEffectAttempt, output_consumed,
  state_consumed, check_mutation, output_count, record_count_of, consume, consumed,
  authorize_effect,
}
use map_data_aggregation_enh.Core.Readiness.Context.Steps.{
  Contexts, Step, begins, closes, binds_output, binds_state, authorizes, Reach, here, later,
  begin_stage_invocation-HasBegun, close_stage_invocation-ok, bind_output-ok, bind_state-ok,
  authorize_effect-IsGranted,
}
use map_data_aggregation_enh.Core.Readiness.Context.Fresh.{IsFresh, Inv, Step-Inv, Reach-Inv}

-- The entry that an effect consumes: artifacts, evidence and reviews share one map.
pub data Mutation : Type 0 where
  output_mutation state_mutation : ℕ → Mutation

abbrev pub mutation_of : AttemptSubject → Option Mutation
mutation_of (reads_network n) = none
mutation_of (reads_artifact n) = none
mutation_of (writes_canonical d) = none
mutation_of (writes_public d) = none
mutation_of (writes_artifact s) = some (output_mutation s.reference)
mutation_of (writes_evidence s) = some (output_mutation s.reference)
mutation_of (writes_review s) = some (output_mutation s.reference)
mutation_of (writes_state s) = some (state_mutation s.reference)

abbrev pub IsSpent : {T : Type 0} → Store (MutationSubjectSnapshot T) → ℕ → Type 0
IsSpent {T} map k = (m : MutationSubjectSnapshot T) × (map k ≡ some m) × (m.consumed ≡ true)

abbrev pub IsConsumed : World → Mutation → Type 0
IsConsumed w (output_mutation k) = IsSpent w.output_mutations k
IsConsumed w (state_mutation k) = IsSpent w.state_mutations k

module _ {T : Type 0} where
  check_mutation-unspent :
      (c : Context) (invocation : ℕ) (e : ContextError) (fits : T → Bool)
      (o : Option (MutationSubjectSnapshot T)) {n : Num}
      → check_mutation c invocation e fits o ≡ ok n
      → (m : MutationSubjectSnapshot T) × (o ≡ some m) × (m.consumed ≡ false)
  check_mutation-unspent c invocation e fits none h = cc
  check_mutation-unspent c invocation e fits (some m) h =
      let foreign =
        not (eqb m.owner c.reference) || not (eqb m.invocation invocation) || not (fits m.detail) in
      let (a, _) = refuse-ok (foreign || m.consumed) e _ h in
      (m, refl, (or_false foreign m.consumed a).1)

  -- Spent entries stay spent.
  set-IsSpent :
      (map : Store (MutationSubjectSnapshot T)) (n k : ℕ) (v : MutationSubjectSnapshot T)
      → IsFresh n map
      → IsSpent map k
      → IsSpent (set (suc n) v map) k
  set-IsSpent map n k v fresh (m, e, spent) = (m, ground (arith, fresh k), spent)

  change-IsSpent :
      (map : Store (MutationSubjectSnapshot T)) (j k : ℕ)
      → IsSpent map k
      → IsSpent (change j consume map) k
  change-IsSpent map j k (m, e, spent) = elim (Bool-cases (eqb j k)) [
    | inl same ↦ (consume m, rw (same, e), refl)
    | inr other ↦ (m, rw other e, spent)
  ]

  IsSpent-now :
      (map : Store (MutationSubjectSnapshot T)) (k : ℕ) (m : MutationSubjectSnapshot T)
      → map k ≡ some m
      → IsSpent (change k consume map) k
  IsSpent-now map k m e = (consume m, rw ((eqb_iff k k).1 refl, e), refl)

  spent_refused :
      (c : Context) (invocation : ℕ) (e : ContextError) (fits : T → Bool)
      (map : Store (MutationSubjectSnapshot T)) (k : ℕ) {n : Num}
      → IsSpent map k
      → check_mutation c invocation e fits (map k) ≢ ok n
  spent_refused c invocation e fits map k (m, found, spent) h =
      let (m', found', unspent) = check_mutation-unspent c invocation e fits (map k) h in
      let same : m ≡ m' = some_inj (sym found ∙ found') in
      let moved : m.consumed ≡ m'.consumed = λ i. (same i).consumed in absurd (ground arith)

module _ (r : Runtime) (now : Num) (registry : Registry) (c : Context) where
  module _ (w : World) (k : ℕ) where
    output_now :
        (s : OutputSubject) (x : Mutation) {n : Num}
        → some (output_mutation s.reference) ≡ some x
        → output_count c w k s ≡ ok n
        → IsConsumed (output_consumed s.reference w) x
    output_now s x e h =
        let (m, there, _) =
          check_mutation-unspent c k invalid_output_subject
            (λ detail. detail.output_port == s.output_port) (w.output_mutations s.reference) h in
        subst (IsConsumed (output_consumed s.reference w)) (some_inj e)
          (IsSpent-now w.output_mutations s.reference m there)

    -- What an authorized effect consumes is consumed after it.
    counted-IsConsumed :
        (s : StageInvocationSnapshot) (a : AttemptSubject) (x : Mutation) {n : Num}
        → mutation_of a ≡ some x
        → record_count_of r now registry c w s k a ≡ ok n
        → IsConsumed (consumed a w) x
    unfolding record_count_of consumed
    counted-IsConsumed s (reads_network n) x e h = cc
    counted-IsConsumed s (reads_artifact n) x e h = cc
    counted-IsConsumed s (writes_canonical d) x e h = cc
    counted-IsConsumed s (writes_public d) x e h = cc
    counted-IsConsumed s (writes_artifact o) x e h = output_now o x e h
    counted-IsConsumed s (writes_evidence o) x e h = output_now o x e h
    counted-IsConsumed s (writes_review o) x e h = output_now o x e h
    counted-IsConsumed s (writes_state o) x e h =
        let (m, there, _) =
          check_mutation-unspent c k invalid_state_subject (λ detail. detail == o.proposal_digest)
            (w.state_mutations o.reference) h in
        subst (IsConsumed (state_consumed o.reference w)) (some_inj e)
          (IsSpent-now w.state_mutations o.reference m there)

    output_refused :
        (o : OutputSubject) (x : Mutation) {n : Num}
        → some (output_mutation o.reference) ≡ some x
        → IsConsumed w x
        → output_count c w k o ≢ ok n
    output_refused o x e spent =
        spent_refused c k invalid_output_subject (λ detail. detail.output_port == o.output_port)
          w.output_mutations o.reference (subst (IsConsumed w) (sym (some_inj e)) spent)

    consumed_refused :
        (s : StageInvocationSnapshot) (a : AttemptSubject) (x : Mutation) {n : Num}
        → mutation_of a ≡ some x
        → IsConsumed w x
        → record_count_of r now registry c w s k a ≢ ok n
    unfolding record_count_of
    consumed_refused s (reads_network n) x e spent = cc
    consumed_refused s (reads_artifact n) x e spent = cc
    consumed_refused s (writes_canonical d) x e spent = cc
    consumed_refused s (writes_public d) x e spent = cc
    consumed_refused s (writes_artifact o) x e spent = output_refused o x e spent
    consumed_refused s (writes_evidence o) x e spent = output_refused o x e spent
    consumed_refused s (writes_review o) x e spent = output_refused o x e spent
    consumed_refused s (writes_state o) x e spent =
        spent_refused c k invalid_state_subject (λ detail. detail == o.proposal_digest)
          w.state_mutations o.reference (subst (IsConsumed w) (sym (some_inj e)) spent)

-- A call keeps what is consumed.
output_keeps :
    (w : World) (j : ℕ) (x : Mutation) → IsConsumed w x → IsConsumed (output_consumed j w) x
output_keeps w j (output_mutation k) spent = change-IsSpent w.output_mutations j k spent
output_keeps w j (state_mutation k) spent = spent

consumed_keeps :
    (a : AttemptSubject) (w : World) (x : Mutation) → IsConsumed w x → IsConsumed (consumed a w) x
unfolding consumed
consumed_keeps (reads_network n) w x spent = spent
consumed_keeps (reads_artifact n) w x spent = spent
consumed_keeps (writes_canonical d) w x spent = spent
consumed_keeps (writes_public d) w x spent = spent
consumed_keeps (writes_artifact o) w x spent = output_keeps w o.reference x spent
consumed_keeps (writes_evidence o) w x spent = output_keeps w o.reference x spent
consumed_keeps (writes_review o) w x spent = output_keeps w o.reference x spent
consumed_keeps (writes_state o) w (output_mutation k) spent = spent
consumed_keeps (writes_state o) w (state_mutation k) spent =
    change-IsSpent w.state_mutations o.reference k spent

bound_output_keeps :
    (cs : Contexts) (c : Context) (i : BindOutputInput) (w : World) (x : Mutation)
    → Inv cs w
    → IsConsumed w x
    → IsConsumed (with_output c i w) x
bound_output_keeps cs c i w (output_mutation k) v spent =
    set-IsSpent w.output_mutations w.mutation_subject_sequence k _ v.outputs_fresh spent
bound_output_keeps cs c i w (state_mutation k) v spent = spent

bound_state_keeps :
    (cs : Contexts) (c : Context) (i : BindStateInput) (w : World) (x : Mutation)
    → Inv cs w
    → IsConsumed w x
    → IsConsumed (with_state c i w) x
bound_state_keeps cs c i w (output_mutation k) v spent = spent
bound_state_keeps cs c i w (state_mutation k) v spent =
    set-IsSpent w.state_mutations w.mutation_subject_sequence k _ v.states_fresh spent

abbrev IsConsumedBy : Mutation → World → Type 0
IsConsumedBy x w = IsConsumed w x

-- `with_invocation` and `without_invocation` leave both maps of mutations alone.
same_mutations :
    (v w : World) (x : Mutation)
    → v.output_mutations ≡ w.output_mutations
    → v.state_mutations ≡ w.state_mutations
    → IsConsumed v x
    → IsConsumed w x
same_mutations v w (output_mutation k) e f spent = subst (λ map. IsSpent map k) e spent
same_mutations v w (state_mutation k) e f spent = subst (λ map. IsSpent map k) f spent

Step-IsConsumed :
    {r : Runtime} {cs : Contexts} {w w' : World} (x : Mutation)
    → Step r cs w w'
    → Inv cs w
    → IsConsumed w x
    → IsConsumed w' x
Step-IsConsumed {r} {cs} {w} {w'} x (begins now registry k i h e) v spent =
    let b = begin_stage_invocation-HasBegun r now registry (cs.at k) i w e in
    same_mutations w w' x (λ j. (sym b.state_after j).output_mutations)
      (λ j. (sym b.state_after j).state_mutations) spent
Step-IsConsumed {cs} {w} {w'} x (closes k j e) v spent =
    let (_, _, after) = close_stage_invocation-ok (cs.at k) j w e in
    same_mutations w w' x (λ i. (sym after i).output_mutations) (λ i. (sym after i).state_mutations)
      spent
Step-IsConsumed {cs} {w} x (binds_output k i s e) v spent =
    subst (IsConsumedBy x) (sym (bind_output-ok (cs.at k) i w e))
      (bound_output_keeps cs (cs.at k) i w x v spent)
Step-IsConsumed {cs} {w} x (binds_state k i s e) v spent =
    subst (IsConsumedBy x) (sym (bind_state-ok (cs.at k) i w e))
      (bound_state_keeps cs (cs.at k) i w x v spent)
Step-IsConsumed {r} {cs} {w} x (authorizes now registry k a e) v spent =
    let g = authorize_effect-IsGranted r now registry (cs.at k) a w e in
    subst (IsConsumedBy x) (sym g.state_after) (consumed_keeps a.subject w x spent)

Reach-IsConsumed :
    {r : Runtime} {cs : Contexts} {w w' : World} (x : Mutation)
    → Reach r cs w w'
    → Inv cs w
    → IsConsumed w x
    → Inv cs w' × IsConsumed w' x
Reach-IsConsumed x here v spent = (v, spent)
Reach-IsConsumed x (later before step) v spent =
    let (v', spent') = Reach-IsConsumed x before v spent in
    (Step-Inv step v', Step-IsConsumed x step v' spent')

-- After any calls, once a context has authorized an effect with a mutation subject, no later call of
-- any context authorizes an effect with it, whatever was called in between: the artifacts, evidence
-- and reviews of a bound output count as one subject.
pub authorize_once :
    (r : Runtime) (cs : Contexts) {w w' w'' : World} (now : Num) (registry : Registry) (k : ℕ)
    (a : AuthorizedEffectAttempt) (x : Mutation)
    → Reach r cs first_world w
    → mutation_of a.subject ≡ some x
    → authorize_effect r now registry (cs.at k) a w ≡ ok w'
    → Reach r cs w' w''
    → (later_now : Num) (other : Registry) (c : Context) (again : AuthorizedEffectAttempt)
      {v : World}
    → mutation_of again.subject ≡ some x
    → authorize_effect r later_now other c again w'' ≢ ok v
authorize_once r cs {w} {w'} {w''} now registry k a x before e h after later_now other c again f
      h' =
    let g = authorize_effect-IsGranted r now registry (cs.at k) a w h in
    let spent : IsConsumed w' x = subst (IsConsumedBy x) (sym g.state_after) (
      counted-IsConsumed r now registry (cs.at k) w a.invocation g.snapshot a.subject x e
        g.counted) in
    let (_, spent_still) =
      Reach-IsConsumed x after (Step-Inv (authorizes now registry k a h) (Reach-Inv before))
        spent in
    let g' = authorize_effect-IsGranted r later_now other c again w'' h' in
    consumed_refused r later_now other c w'' again.invocation g'.snapshot again.subject x f
      spent_still g'.counted
