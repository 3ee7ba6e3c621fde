-- ===== src/Core/Readiness/Context/Closed.antt =====
-- Stage runs begin once, and a closed invocation stays closed (packages/core/src/readiness.ts).
use map_data_aggregation_enh.Base.{
  ℕ, suc, ◌≤◌, ◌≡◌, ◌≢◌, refl, sym, subst, ◌∙◌, String, true, false, none, some, List, ◌∷◌, Store,
  set, delete, ok, err, eqb_iff, eq_refl, Bool-cases, inl, inr, arith, ltb, ltb→lt, ltb→ge,
}
use map_data_aggregation_enh.Base.Numbers.{Num}
use map_data_aggregation_enh.Core.Readiness.{Runtime, Registry}
use map_data_aggregation_enh.Core.Types.Datasets.{DatasetHandle}
use map_data_aggregation_enh.Core.Readiness.Context.{
  AuthorizedStageInvocation, StageInvocationSnapshot, World, Context, first_world,
  invocation_not_owned,
}
use map_data_aggregation_enh.Core.Readiness.Context.Begin.{
  BeginInput, is_used_id, begin_stage_invocation,
}
use map_data_aggregation_enh.Core.Readiness.Context.Bind.{
  BindOutputInput, BindStateInput, close_stage_invocation, bind_output_mutation_subject,
  bind_state_mutation_subject,
}
use map_data_aggregation_enh.Core.Readiness.Context.Effects.{
  AttemptSubject, reads_network, reads_artifact, writes_canonical, writes_public, writes_artifact,
  writes_evidence, writes_review, writes_state, AuthorizedEffectAttempt, consumed, authorize_effect,
}
use map_data_aggregation_enh.Core.Readiness.Context.Outputs.{validate_stage_outputs}
use map_data_aggregation_enh.Core.Readiness.Context.Steps.{
  Contexts, Step, begins, closes, binds_output, binds_state, authorizes, Reach, here, later,
  begin_stage_invocation-HasBegun, close_stage_invocation-ok, bind_output-ok, bind_state-ok,
  authorize_effect-IsGranted,
}
use map_data_aggregation_enh.Core.Readiness.Context.Fresh.{Inv, Reach-Inv}

-- A consumed mutation changes neither the used IDs nor the invocations.
consumed_others :
    (a : AttemptSubject) (w : World)
    → ((consumed a w).used_stage_run_ids ≡ w.used_stage_run_ids)
      × ((consumed a w).stage_invocations ≡ w.stage_invocations)
      × ((consumed a w).stage_invocation_sequence ≡ w.stage_invocation_sequence)
unfolding consumed
consumed_others (reads_network n) w = (refl, refl, refl)
consumed_others (reads_artifact n) w = (refl, refl, refl)
consumed_others (writes_canonical d) w = (refl, refl, refl)
consumed_others (writes_public d) w = (refl, refl, refl)
consumed_others (writes_artifact o) w = (refl, refl, refl)
consumed_others (writes_evidence o) w = (refl, refl, refl)
consumed_others (writes_review o) w = (refl, refl, refl)
consumed_others (writes_state o) w = (refl, refl, refl)

-- What each call does to the used IDs and to the invocations.
abbrev IsUsed : ℕ → String → List (ℕ × String) → Type 0
IsUsed k id used = is_used_id used k id ≡ true

Step-IsUsed :
    {r : Runtime} {cs : Contexts} {w w' : World} (c : ℕ) (id : String)
    → Step r cs w w'
    → IsUsed c id w.used_stage_run_ids
    → IsUsed c id w'.used_stage_run_ids
Step-IsUsed {r} {cs} {w} {w'} c id (begins now registry k i h e) used =
    let b = begin_stage_invocation-HasBegun r now registry (cs.at k) i w e in
    let grown : IsUsed c id (((cs.at k).reference, i.stage_run_id) ∷ w.used_stage_run_ids) =
      ground arith in
    subst (IsUsed c id) (λ j. (sym b.state_after j).used_stage_run_ids) grown
Step-IsUsed {cs} {w} c id (closes k j e) used =
    let (_, _, after) = close_stage_invocation-ok (cs.at k) j w e in
    subst (IsUsed c id) (λ i. (sym after i).used_stage_run_ids) used
Step-IsUsed {cs} {w} c id (binds_output k i s e) used =
    subst (IsUsed c id) (λ j. (sym (bind_output-ok (cs.at k) i w e) j).used_stage_run_ids) used
Step-IsUsed {cs} {w} c id (binds_state k i s e) used =
    subst (IsUsed c id) (λ j. (sym (bind_state-ok (cs.at k) i w e) j).used_stage_run_ids) used
Step-IsUsed {r} {cs} {w} c id (authorizes now registry k a e) used =
    let g = authorize_effect-IsGranted r now registry (cs.at k) a w e in
    subst (IsUsed c id)
      (sym (consumed_others a.subject w).0 ∙ λ j. (sym g.state_after j).used_stage_run_ids) used

Reach-IsUsed :
    {r : Runtime} {cs : Contexts} {w w' : World} (c : ℕ) (id : String)
    → Reach r cs w w'
    → IsUsed c id w.used_stage_run_ids
    → IsUsed c id w'.used_stage_run_ids
Reach-IsUsed c id here used = used
Reach-IsUsed c id (later before step) used = Step-IsUsed c id step (Reach-IsUsed c id before used)

-- Once a context has begun a stage run, it begins no other with the same ID, for whatever stage and
-- run, and whatever was called in between.
pub begin_once :
    (r : Runtime) (cs : Contexts) (w : World) {w' w'' : World} (now : Num) (registry : Registry)
    (k : ℕ) (i : BeginInput) (h : AuthorizedStageInvocation)
    → begin_stage_invocation r now registry (cs.at k) i w ≡ ok (w', h)
    → Reach r cs w' w''
    → (later_now : Num) (other : Registry) (again : BeginInput) {v : World}
      {h' : AuthorizedStageInvocation}
    → again.stage_run_id ≡ i.stage_run_id
    → begin_stage_invocation r later_now other (cs.at k) again w'' ≢ ok (v, h')
begin_once r cs w {w'} {w''} now registry k i h e after later_now other again same e' =
    let b = begin_stage_invocation-HasBegun r now registry (cs.at k) i w e in
    let id = i.stage_run_id in
    let c = (cs.at k).reference in
    let first : IsUsed c id ((c, id) ∷ w.used_stage_run_ids) =
      ground (arith, (eqb_iff c c).1 refl, eq_refl id) in
    let used =
      Reach-IsUsed c id after
        (subst (IsUsed c id) (λ j. (sym b.state_after j).used_stage_run_ids) first) in
    let b' = begin_stage_invocation-HasBegun r later_now other (cs.at k) again w'' e' in
    let unused : is_used_id w''.used_stage_run_ids c id ≡ false =
      subst (λ (x : String). is_used_id w''.used_stage_run_ids c x ≡ false) same b'.unused in
    absurd (ground arith)

-- An invocation that was made and has no entry.
abbrev IsGone : ℕ → World → Type 0
IsGone k w = (w.stage_invocations k ≡ none) × (k ≤ w.stage_invocation_sequence)

IsGone-as :
    (k : ℕ) (v w : World)
    → v.stage_invocations ≡ w.stage_invocations
    → v.stage_invocation_sequence ≡ w.stage_invocation_sequence
    → IsGone k v
    → IsGone k w
IsGone-as k v w e f (a, b) = ((λ i. sym e i k) ∙ a, subst (λ n. k ≤ n) f b)

begun_gone :
    (k : ℕ) (s : StageInvocationSnapshot) (map : Store StageInvocationSnapshot) (n : ℕ)
    → map k ≡ none
    → k ≤ n
    → (set (suc n) s map k ≡ none) × (k ≤ suc n)
begun_gone k s map n e le = (ground arith, omega arith)

deleted_gone :
    (k j : ℕ) (map : Store StageInvocationSnapshot) → map k ≡ none → delete j map k ≡ none
deleted_gone k j map e = ground arith

Step-IsGone :
    {r : Runtime} {cs : Contexts} {w w' : World} (j : ℕ) → Step r cs w w' → IsGone j w → IsGone j w'
Step-IsGone {r} {cs} {w} {w'} j (begins now registry k i h e) gone =
    let b = begin_stage_invocation-HasBegun r now registry (cs.at k) i w e in
    subst (IsGone j) (sym b.state_after)
      (begun_gone j _ w.stage_invocations w.stage_invocation_sequence gone.0 gone.1)
Step-IsGone {cs} {w} {w'} j (closes k l e) gone =
    let (_, _, after) = close_stage_invocation-ok (cs.at k) l w e in
    subst (IsGone j) (sym after) (deleted_gone j l w.stage_invocations gone.0, gone.1)
Step-IsGone {cs} {w} {w'} j (binds_output k i s e) gone =
    subst (IsGone j) (sym (bind_output-ok (cs.at k) i w e)) gone
Step-IsGone {cs} {w} {w'} j (binds_state k i s e) gone =
    subst (IsGone j) (sym (bind_state-ok (cs.at k) i w e)) gone
Step-IsGone {r} {cs} {w} {w'} j (authorizes now registry k a e) gone =
    let g = authorize_effect-IsGranted r now registry (cs.at k) a w e in
    let (_, invocations, sequence) = consumed_others a.subject w in
    subst (IsGone j) (sym g.state_after)
      (IsGone-as j w (consumed a.subject w) (sym invocations) (sym sequence) gone)

Reach-IsGone :
    {r : Runtime} {cs : Contexts} {w w' : World} (j : ℕ)
    → Reach r cs w w'
    → IsGone j w
    → IsGone j w'
Reach-IsGone j here gone = gone
Reach-IsGone j (later before step) gone = Step-IsGone j step (Reach-IsGone j before gone)

-- An invocation with an entry was made.
made :
    (cs : Contexts) (w : World) (j : ℕ) (s : StageInvocationSnapshot)
    → Inv cs w
    → w.stage_invocations j ≡ some s
    → j ≤ w.stage_invocation_sequence
made cs w j s v e = elim (Bool-cases (ltb w.stage_invocation_sequence j)) [
  | inl above ↦
      let nothing = v.invocations_fresh j (ltb→lt w.stage_invocation_sequence j above) in
      absurd (ground arith)
  | inr below ↦ ltb→ge w.stage_invocation_sequence j below
]

-- What refuses an invocation without an entry.
pub record IsRefused (r : Runtime) (w : World) (j : ℕ) : Type 0 where
  pub no_effect :
      (now : Num) (registry : Registry) (c : Context) (a : AuthorizedEffectAttempt)
      → a.invocation ≡ j
      → authorize_effect r now registry c a w ≡ err invocation_not_owned
  pub no_output :
      (c : Context) (i : BindOutputInput)
      → i.invocation ≡ j
      → bind_output_mutation_subject c i w ≡ err invocation_not_owned
  pub no_state :
      (c : Context) (i : BindStateInput)
      → i.invocation ≡ j
      → bind_state_mutation_subject c i w ≡ err invocation_not_owned
  pub no_validation :
      (registry : Registry) (c : Context) (outputs : List (String × DatasetHandle))
      → validate_stage_outputs r registry c j outputs w ≡ err invocation_not_owned
  pub no_close : (c : Context) → close_stage_invocation c j w ≡ err invocation_not_owned

none-IsRefused : (r : Runtime) (w : World) (j : ℕ) → w.stage_invocations j ≡ none → IsRefused r w j
unfolding authorize_effect bind_output_mutation_subject bind_state_mutation_subject
    validate_stage_outputs close_stage_invocation
none-IsRefused r w j e = record {
  no_effect = λ now registry c a same. rw (same, e) refl;
  no_output = λ c i same. rw (same, e) refl;
  no_state = λ c i same. rw (same, e) refl;
  no_validation = λ registry c outputs. rw e refl;
  no_close = λ c. rw e refl;
}

-- After any calls, once an invocation is closed, it is refused forever: no context authorizes an
-- effect with it, binds a mutation to it, validates outputs of it or closes it again.
pub closed_forever :
    (r : Runtime) (cs : Contexts) {w w' w'' : World} (k j : ℕ)
    → Reach r cs first_world w
    → close_stage_invocation (cs.at k) j w ≡ ok w'
    → Reach r cs w' w''
    → IsRefused r w'' j
closed_forever r cs {w} {w'} {w''} k j before e after =
    let (s, owned, state) = close_stage_invocation-ok (cs.at k) j w e in
    let gone : IsGone j w' =
      subst (IsGone j) (sym state)
        (ground (arith, (eqb_iff j j).1 refl), made cs w j s (Reach-Inv before) owned.0) in
    none-IsRefused r w'' j (Reach-IsGone j after gone).0
