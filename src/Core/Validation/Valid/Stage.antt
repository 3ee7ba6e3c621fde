-- ===== src/Core/Validation/Valid/Stage.antt =====
-- A stage without issues is valid (packages/core/src/validation.ts).
use map_data_aggregation_enh.Base.{
  ℕ, suc, ◌≡◌, refl, subst, String, true, false, Option, none, some, List, [], ◌∷◌, Dict, lookup,
  insert, lookup-insert, is_some, All, All-map, any, includes, is_unique, map, append-eq-nil,
  failing-nil, not-false, guard_iff, eq_iff, ◌==◌, arith,
}
use map_data_aggregation_enh.Base.Numbers.{bad_positive-false}
use map_data_aggregation_enh.Core.Types.{
  public_write, effect_eq, StagePluginManifest, StageDefinition, EffectRequestDeclaration,
  pipeline_api_version,
}
use map_data_aggregation_enh.Core.Types.Tags.{effect_eq_iff}
use map_data_aggregation_enh.Core.Platform.{Platform}
use map_data_aggregation_enh.Core.Authorization.{is_post_read}
use map_data_aggregation_enh.Core.Authorization.Laws.{is_post_read_iff}
use map_data_aggregation_enh.Core.Validation.Issues.{Segment}
use map_data_aggregation_enh.Core.Validation.Requests.{
  validate_requested_effect, request_issues, requests_issues, effect_issues, missing_issues,
}
use map_data_aggregation_enh.Core.Validation.Stages.{
  Seen, stage_place, id_issues, lock_issues, plugin_checks, plugin_issues, used_issues, see_stage,
  stages_issues,
}
use map_data_aggregation_enh.Core.Validation.Wiring.{
  each_from-nil, concat-nil, row-nil, input_issues-nil,
}
use map_data_aggregation_enh.Core.Validation.Valid.Binding.{source_stage_issues-nil}
use map_data_aggregation_enh.Core.Validation.Valid.{IsRequestValid, IsStageValid, AreValid}

validate_requested_effect-nil :
    (p : Platform) (m : StagePluginManifest) (stage : List Segment) (i : ℕ)
    (r : EffectRequestDeclaration)
    → request_issues p m stage i r ≡ []
    → IsRequestValid m r
unfolding request_issues validate_requested_effect
validate_requested_effect-nil p m stage i r h =
    let (a, b) = append-eq-nil _ _ h in
    let rows = failing-nil _ a in
    record {
      declared = not-false _ (failing-nil _ b).0;
      limited = bad_positive-false r.max_records rows.1.1.0;
      read_back = λ e. (is_post_read_iff r.verification).0 (
          (guard_iff (effect_eq r.effect_class public_write) (is_post_read r.verification)).0
            rows.1.1.1.0 ((effect_eq_iff r.effect_class public_write).1 e));
    }

requests_issues-nil :
    (p : Platform) (s : StageDefinition) (m : StagePluginManifest) (stage : List Segment)
    → requests_issues p s m stage ≡ []
    → All (IsRequestValid m) s.requested_effects
unfolding requests_issues
requests_issues-nil p s m stage h =
    All-map (λ r x. validate_requested_effect-nil p m stage x.0 r x.1) s.requested_effects
      (each_from-nil (request_issues p m stage) 0 s.requested_effects h)

missing_issues-nil :
    (s : StageDefinition) (m : StagePluginManifest) (stage : List Segment)
    → missing_issues s m stage ≡ []
    → All (λ e. any (λ r. effect_eq r.effect_class e) s.requested_effects ≡ true) m.effects
unfolding missing_issues
missing_issues-nil s m stage h =
    All-map
      (λ e (x : (j : ℕ) × (effect_issues s stage j e ≡ [])). not-false _ (failing-nil _ x.1).0)
      m.effects (each_from-nil (effect_issues s stage) 0 m.effects h)

not_some : {A : Type 0} (o : Option A) → is_some o ≡ false → o ≡ none
not_some none h = refl
not_some (some a) h = cc

plugin_issues-nil :
    (p : Platform) (seen : Seen) (i : ℕ) (s : StageDefinition) (m : StagePluginManifest)
    → id_issues seen i s ≡ []
    → plugin_issues p seen i s m ≡ []
    → IsStageValid seen s m
unfolding id_issues lock_issues plugin_issues
plugin_issues-nil p seen i s m named h =
    let ids = failing-nil _ named in
    let checks = concat-nil (plugin_checks p seen i s m) h in
    let locks = failing-nil _ checks.0 in
    record {
      named = not-false _ ids.0;
      fresh = not_some (lookup s.id seen.plugins) ids.1.0;
      current = (eq_iff m.lock.plugin_api_version pipeline_api_version).0 (not-false _ locks.0);
      locked = not-false _ locks.1.0;
      wired = input_issues-nil seen.plugins (stage_place i) s.inputs m.inputs checks.1.0;
      bindings_valid =
          source_stage_issues-nil p m s.requested_effects s.source_bindings (stage_place i)
            checks.1.1.1.1.0;
      requests_valid = requests_issues-nil p s m (stage_place i) checks.1.1.1.1.1.0;
      all_requested = missing_issues-nil s m (stage_place i) checks.1.1.1.1.1.1.1.0;
    }

used_issues-nil :
    (p : Platform) (seen : Seen) (i : ℕ) (s : StageDefinition) (o : Option StagePluginManifest)
    → id_issues seen i s ≡ []
    → used_issues p seen i s o ≡ []
    → (m : StagePluginManifest) × (o ≡ some m) × IsStageValid seen s m
used_issues-nil p seen i s none named h = absurd (row-nil _ h)
used_issues-nil p seen i s (some m) named h = (m, refl, plugin_issues-nil p seen i s m named h)

pub stages_issues-nil :
    (p : Platform) (catalog : Dict StagePluginManifest) (seen : Seen) (i : ℕ)
    (stages : List StageDefinition)
    → stages_issues p catalog seen i stages ≡ []
    → AreValid catalog seen stages
unfolding stages_issues
stages_issues-nil p catalog seen i [] h = tt
stages_issues-nil p catalog seen i (s ∷ rest) h =
    let (a, h1) = append-eq-nil _ _ h in
    let (b, c) = append-eq-nil _ _ h1 in
    (
      used_issues-nil p seen i s (lookup s.uses catalog) a b,
      stages_issues-nil p catalog (see_stage seen s (lookup s.uses catalog)) (suc i) rest c,
    )

-- A stage that is seen is not the ID of a later valid one.
insert-none :
    {V : Type 0} (k j : String) (v : V) (d : Dict V)
    → lookup j (insert k v d) ≡ none
    → (lookup j d ≡ none) × ((j == k) ≡ false)
insert-none k j v d h = ground (arith, lookup-insert k j v d, eq_iff k j, eq_iff j k)

later_fresh :
    (catalog : Dict StagePluginManifest) (seen : Seen) (stages : List StageDefinition)
    → AreValid catalog seen stages
    → All (λ s. lookup s.id seen.plugins ≡ none) stages
later_fresh catalog seen [] v = tt
later_fresh catalog seen (s ∷ rest) ((m, found, valid), v) =
    let step = λ (o : Option StagePluginManifest). see_stage seen s o in
    let v' : AreValid catalog (see_stage seen s (some m)) rest =
      subst (λ o. AreValid catalog (see_stage seen s o) rest) found v in
    (
      valid.fresh,
      All-map (λ t f. (insert-none s.id t.id m seen.plugins f).0) rest
          (later_fresh catalog (see_stage seen s (some m)) rest v'),
    )

not_among :
    (id : String) (stages : List StageDefinition)
    → All (λ t. (t.id == id) ≡ false) stages
    → includes (map (λ (s : StageDefinition). s.id) stages) id ≡ false
not_among id [] h = refl
not_among id (t ∷ rest) h = rw h.0 (not_among id rest h.1)

pub ids_unique_of :
    (catalog : Dict StagePluginManifest) (seen : Seen) (stages : List StageDefinition)
    → AreValid catalog seen stages
    → is_unique (map (λ (s : StageDefinition). s.id) stages) ≡ true
ids_unique_of catalog seen [] v = refl
ids_unique_of catalog seen (s ∷ rest) ((m, found, valid), v) =
    let v' : AreValid catalog (see_stage seen s (some m)) rest =
      subst (λ o. AreValid catalog (see_stage seen s o) rest) found v in
    let absent = not_among s.id rest (
      All-map (λ t f. (insert-none s.id t.id m seen.plugins f).1) rest
        (later_fresh catalog (see_stage seen s (some m)) rest v')) in
    rw absent (ids_unique_of catalog (see_stage seen s (some m)) rest v')
