-- ===== src/Core/Readiness/Ready.antt =====
-- What `assertApplyReady` lets pass (packages/core/src/readiness.ts).
use map_data_aggregation_enh.Base.Numbers.{bad_positive}
use map_data_aggregation_enh.Base.{
  is_unique, map, any, is_empty, not, ◌||◌, for_each, ◌≡◌, refl, subst, ◌≢◌, String, true, false,
  Option, none, some, List, [], ◌∷◌, Dict, All, All-map, All-map₂, Any, Any-map, any-Any, find,
  find-some, lookup, is_nil, or_false, not-false, ok, refuse-ok, refuse_iff, bind-ok, for_each-ok,
  eq_iff, arith,
}
use map_data_aggregation_enh.Core.Types.{
  StageDefinition, EffectRequestDeclaration, EffectAuthorization, SourceBinding,
  StagePluginManifest,
}
use map_data_aggregation_enh.Core.Types.Policies.{
  ProfileDeclaration, SourcePolicyDeclaration, SecretProvider, test_stub, DeploymentManifest,
}
use map_data_aggregation_enh.Core.Validation.Stages.{Seen, see_stage}
use map_data_aggregation_enh.Core.Validation.Bindings.{is_artifact_class}
use map_data_aggregation_enh.Core.Validation.Valid.{IsValid, AreValid}
use map_data_aggregation_enh.Core.Validation.Valid.Whole.{validate_definition-IsValid}
use map_data_aggregation_enh.Core.Readiness.{
  bad_source_ids, bad_policy_version, Runtime, ApplyReadinessInput, unused_grant,
}
use map_data_aggregation_enh.Core.Readiness.Matches.{policy_matches, grant_matches}
use map_data_aggregation_enh.Core.Readiness.Pinned.{IsPinned, check_pinned_digests-IsPinned}
use map_data_aggregation_enh.Core.Readiness.Terms.{
  Allows, Grants, policy_matches-Allows, grant_matches-Grants,
}
use map_data_aggregation_enh.Core.Readiness.Sources.{
  check_source_ids, check_stage_sources, index_sources, check_binding,
}
use map_data_aggregation_enh.Core.Readiness.Approved.{
  IsApproved, IsSourceOf, check_source-IsApproved,
}
use map_data_aggregation_enh.Core.Readiness.Hosts.{check_host_policy}
use map_data_aggregation_enh.Core.Readiness.Apply.{
  is_stub, check_identities, check_pinned_digests, check_target, check_request, check_stage_effects,
  has_stage_id, is_used, check_grant_used, assert_apply_ready,
}

-- A binding of a stage refers to an approved source of the profile.
abbrev pub IsSourced : ApplyReadinessInput → StageDefinition → SourceBinding → Type 0
IsSourced i s b =
    (m : StagePluginManifest) × (source : SourcePolicyDeclaration) × (lookup s.uses i.catalog
      ≡ some m)
    × IsSourceOf i.profile.sources b.policy_id source
    × IsApproved source b m

-- A request is allowed by the policy of the profile and granted by the deployment.
abbrev pub IsPermitted : ApplyReadinessInput → StageDefinition → EffectRequestDeclaration → Type 0
IsPermitted i s r =
    Any (λ policy. Allows policy s.id r) i.profile.effect_policy
    × Any (λ grant. Grants grant i.profile.id i.deployment.deployment_identity s.id r)
        i.deployment.effect_authorizations

-- A grant is for a request of a stage.
abbrev pub IsRequested : ApplyReadinessInput → EffectAuthorization → Type 0
IsRequested i g =
    (s : StageDefinition) × Any (λ x. x ≡ s) i.definition.stages
    × (s.id ≡ g.stage_id)
    × Any (λ r. Grants g i.profile.id i.deployment.deployment_identity s.id r) s.requested_effects

pub record IsReady (r : Runtime) (i : ApplyReadinessInput) : Type 0 where
  pub enabled : (i.profile.deployment_enabled ≡ true) × (i.deployment.enabled ≡ true)
  pub same_profile : (i.definition.profile ≡ i.profile.id) × (i.deployment.profile ≡ i.profile.id)
  pub pinned : IsPinned r i
  pub credentials : i.deployment.secret_provider ≢ test_stub
  pub sources_unique :
      is_unique (map (λ (s : SourcePolicyDeclaration). s.id) i.profile.sources) ≡ true
  pub valid : IsValid i.definition i.catalog
  pub sourced : All (λ s. All (IsSourced i s) s.source_bindings) i.definition.stages
  pub permitted : All (λ s. All (IsPermitted i s) s.requested_effects) i.definition.stages
  pub requested : All (IsRequested i) i.deployment.effect_authorizations

check_identities-ok :
    (profile : ProfileDeclaration) (id : String) (deployment : DeploymentManifest)
    → check_identities profile id deployment ≡ ok tt
    → ((profile.deployment_enabled ≡ true) × (deployment.enabled ≡ true))
      × (id ≡ profile.id)
      × (deployment.profile ≡ profile.id)
unfolding check_identities
check_identities-ok profile id deployment h =
    let (a, h1) = refuse-ok _ _ _ h in
    let (b, h2) = refuse-ok _ _ _ h1 in
    let same = or_false _ _ ((refuse_iff _ _).0 h2) in
    (
      (not-false _ a, not-false _ b),
      (eq_iff id profile.id).0 (not-false _ same.0),
      (eq_iff deployment.profile profile.id).0 (not-false _ same.1),
    )

check_source_ids-ok :
    (sources : List SourcePolicyDeclaration)
    → check_source_ids sources ≡ ok tt
    → is_unique (map (λ (s : SourcePolicyDeclaration). s.id) sources) ≡ true
unfolding check_source_ids
check_source_ids-ok sources h =
    let ids = map (λ (s : SourcePolicyDeclaration). s.id) sources in
    let namespaces = map (λ (s : SourcePolicyDeclaration). s.namespace) sources in
    let empty = any is_empty ids || any is_empty namespaces in
    let bad =
      (refuse_iff (empty || not (is_unique ids) || not (is_unique namespaces)) bad_source_ids).0
        h in
    not-false _
      (or_false empty (not (is_unique ids)) (or_false _ (not (is_unique namespaces)) bad).0).1

is_stub-false : (s : SecretProvider) → is_stub s ≡ false → s ≢ test_stub
is_stub-false s h e =
    let stub : is_stub test_stub ≡ false = subst (λ x. is_stub x ≡ false) e h in
    absurd (ground arith)

check_request-IsPermitted :
    (i : ApplyReadinessInput) (s : StageDefinition) (r : EffectRequestDeclaration)
    → check_request i.profile i.deployment s.id r ≡ ok tt
    → IsPermitted i s r
unfolding check_request
check_request-IsPermitted i s r h =
    let (a, b) = refuse-ok _ _ _ h in
    (
      Any-map (λ policy m. policy_matches-Allows policy s.id r m) i.profile.effect_policy
          (any-Any (λ policy. policy_matches policy s.id r) i.profile.effect_policy
            (not-false _ a)),
      Any-map (λ g m. grant_matches-Grants g i.profile.id i.deployment.deployment_identity s.id r m)
          i.deployment.effect_authorizations
          (any-Any (λ g. grant_matches g i.profile.id i.deployment.deployment_identity s.id r)
            i.deployment.effect_authorizations (not-false _ ((refuse_iff _ _).0 b))),
    )

check_stage_effects-ok :
    (i : ApplyReadinessInput) (s : StageDefinition)
    → check_stage_effects i s ≡ ok tt
    → All (IsPermitted i s) s.requested_effects
unfolding check_stage_effects
check_stage_effects-ok i s h =
    let (_, b) = refuse-ok _ _ _ h in
    All-map (λ r k. check_request-IsPermitted i s r k) s.requested_effects
      (for_each-ok (check_request i.profile i.deployment s.id) s.requested_effects b)

is_used-IsRequested :
    (i : ApplyReadinessInput) (g : EffectAuthorization) (o : Option StageDefinition)
    → find (has_stage_id g.stage_id) i.definition.stages ≡ o
    → is_used i g o ≡ true
    → IsRequested i g
is_used-IsRequested i g none e h = cc
is_used-IsRequested i g (some s) e h =
    let (same, there) = find-some (has_stage_id g.stage_id) i.definition.stages e in
    (
      s,
      there,
      (eq_iff s.id g.stage_id).0 same,
      Any-map (λ r m. grant_matches-Grants g i.profile.id i.deployment.deployment_identity s.id r m)
          s.requested_effects
          (any-Any (λ r. grant_matches g i.profile.id i.deployment.deployment_identity s.id r)
            s.requested_effects h),
    )

check_grant_used-IsRequested :
    (i : ApplyReadinessInput) (g : EffectAuthorization)
    → check_grant_used i g ≡ ok tt
    → IsRequested i g
check_grant_used-IsRequested i g h =
    is_used-IsRequested i g (find (has_stage_id g.stage_id) i.definition.stages) refl
      (not-false _ ((refuse_iff _ (unused_grant g.stage_id)).0 h))

check_stage_sources-ok :
    (i : ApplyReadinessInput) (s : StageDefinition)
    → All (λ b. is_artifact_class b.artifact_class ≡ true) s.source_bindings
    → check_stage_sources (index_sources [] i.profile.sources) i.catalog s ≡ ok tt
    → All (IsSourced i s) s.source_bindings
unfolding check_stage_sources
check_stage_sources-ok i s classed h =
    let index = index_sources [] i.profile.sources in
    let m = lookup s.uses i.catalog in
    All-map₂
      (λ b a k. check_source-IsApproved b m i.profile.sources (lookup b.policy_id index) a refl k)
      s.source_bindings classed (for_each-ok (check_binding index m) s.source_bindings h)

AreValid-classed :
    (catalog : Dict StagePluginManifest) (seen : Seen) (stages : List StageDefinition)
    → AreValid catalog seen stages
    → All (λ s. All (λ b. is_artifact_class b.artifact_class ≡ true) s.source_bindings) stages
AreValid-classed catalog seen [] v = tt
AreValid-classed catalog seen (s ∷ rest) ((m, found, valid), v) = (
  All-map (λ b x. x.classed) s.source_bindings valid.bindings_valid,
  AreValid-classed catalog (see_stage seen s (lookup s.uses catalog)) rest v,
)

nil_of : {A : Type 0} (xs : List A) → is_nil xs ≡ true → xs ≡ []
nil_of [] h = refl
nil_of (x ∷ xs) h = cc

-- What may be applied is enabled, of one profile, deployed by digests of exactly this definition,
-- profile, catalog and host policy, with credentials that are not a stub, and valid; each source
-- binding refers to an approved source of the profile; each request is allowed by the profile and
-- granted by the deployment; and each grant is for a request of a stage.
pub assert_apply_ready-IsReady :
    (r : Runtime) (i : ApplyReadinessInput) → assert_apply_ready r i ≡ ok tt → IsReady r i
unfolding assert_apply_ready check_target
assert_apply_ready-IsReady r i h =
    let (_, a, h1) = bind-ok (check_identities i.profile i.definition.profile i.deployment) _ h in
    let (_, b, h2) = bind-ok (check_pinned_digests r i) _ h1 in
    let (_, c, h3) = bind-ok (check_target i.profile i.deployment) _ h2 in
    let (d, h4) = refuse-ok _ _ _ h3 in
    let (_, h5) = refuse-ok (bad_positive i.profile.policy_version) bad_policy_version _ h4 in
    let (_, ids, h6) = bind-ok (check_source_ids i.profile.sources) _ h5 in
    let sources = check_stage_sources (index_sources [] i.profile.sources) i.catalog in
    let (_, f, h7) = bind-ok (for_each sources i.definition.stages) _ h6 in
    let (_, _, h8) = bind-ok (check_host_policy i.host_policy) _ h7 in
    let (_, g, k) = bind-ok (for_each (check_stage_effects i) i.definition.stages) _ h8 in
    let (_, stub) = refuse-ok _ _ _ c in
    let (enabled, same_id, same_deployment) =
      check_identities-ok i.profile i.definition.profile i.deployment a in
    let valid =
      validate_definition-IsValid r.platform i.definition i.catalog (nil_of _ (not-false _ d)) in
    record {
      enabled = enabled;
      same_profile = (same_id, same_deployment);
      pinned = check_pinned_digests-IsPinned r i b;
      credentials = is_stub-false i.deployment.secret_provider ((refuse_iff _ _).0 stub);
      sources_unique = check_source_ids-ok i.profile.sources ids;
      valid = valid;
      sourced =
          All-map₂ (λ s x y. check_stage_sources-ok i s x y) i.definition.stages
            (AreValid-classed i.catalog _ i.definition.stages valid.stages_valid)
            (for_each-ok sources i.definition.stages f);
      permitted =
          All-map (λ s x. check_stage_effects-ok i s x) i.definition.stages
            (for_each-ok (check_stage_effects i) i.definition.stages g);
      requested =
          All-map (λ x y. check_grant_used-IsRequested i x y) i.deployment.effect_authorizations
            (for_each-ok (check_grant_used i) i.deployment.effect_authorizations k);
    }
