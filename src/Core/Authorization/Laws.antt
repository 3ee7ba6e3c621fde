-- ===== src/Core/Authorization/Laws.antt =====
-- What an authorized effect satisfies, and that nothing else is refused
-- (packages/core/src/authorization.ts).
use text.Mathlib.Text.{starts_with}
use map_data_aggregation_enh.Base.{
  String, Bool, true, false, not, ◌&&◌, ◌||◌, ◌≡◌, refl, ◌↔◌, Option, none, some, find, includes,
  ◌==◌, eq_iff, ok, refuse, refuse-ok, ok-refuse, refuse_iff, not-false, guard_iff, bind-ok, subst,
  or_false, arith,
}
use map_data_aggregation_enh.Base.Numbers.{bad_natural, gt}
use map_data_aggregation_enh.Core.Types.{
  PipelineMode, validate, plan, preview, apply, artifact_write, public_write, effect_eq,
  Verification, post_read, no_verification, Url, EffectRequest, EffectAuthorization,
}
use map_data_aggregation_enh.Core.Types.Tags.{effect_eq_iff}
use map_data_aggregation_enh.Core.Platform.{Platform, has_forbidden}
use map_data_aggregation_enh.Core.Authorization.{
  bad_resource_uri, not_in_preview, outside_preview_namespace, exceeds_grant,
  unverified_public_write, EffectInput, preview_effects, declares, is_post_read, check_resource,
  check_mode, grant_covers, check_grant, assert_effect_authorized_internal,
}

-- The resource parses to itself and has no credentials, query or fragment.
abbrev pub IsCanonical : Platform → String → Type 0
IsCanonical p uri =
    (u : Url) × (p.parse_url uri ≡ some u) × (has_forbidden u ≡ false) × (u.href ≡ uri)

-- What the mode lets through: nothing in validation and planning, reads and artifacts of the
-- preview namespace in a preview.
abbrev pub ModeAllows : PipelineMode → EffectRequest → Type 0
ModeAllows validate r = ⊥
ModeAllows plan r = ⊥
ModeAllows preview r =
    (declares preview_effects r.effect_class ≡ true)
    × (r.effect_class ≡ artifact_write → starts_with r.resource_uri "preview://" ≡ true)
ModeAllows apply r = Unit

-- The grant is for this profile, stage, deployment, effect, resource and operation.
pub record Covers (i : EffectInput) (g : EffectAuthorization) : Type 0 where
  pub same_effect : g.effect_class ≡ i.request.effect_class
  pub same_profile : g.profile ≡ i.profile
  pub same_stage : g.stage_id ≡ i.stage_id
  pub same_deployment : g.deployment_identity ≡ i.deployment_identity
  pub same_resource : g.resource_uri ≡ i.request.resource_uri
  pub has_operation : includes g.operations i.request.operation ≡ true

-- The grant's own conditions on the request.
abbrev pub Permits : EffectAuthorization → EffectRequest → Type 0
Permits g r =
    (gt r.record_count g.max_records ≡ false)
    × (r.effect_class ≡ public_write → g.verification ≡ some post_read)

pub record IsAuthorized (p : Platform) (mode : PipelineMode) (i : EffectInput) : Type 0 where
  pub counted : bad_natural i.request.record_count ≡ false
  pub canonical_uri : IsCanonical p i.request.resource_uri
  pub declared : declares i.manifest.effects i.request.effect_class ≡ true
  pub allowed : ModeAllows mode i.request
  pub granted :
      (g : EffectAuthorization) × (find (grant_covers i) i.grants ≡ some g) × Permits g i.request

pub grant_covers_lem :
    (i : EffectInput) (g : EffectAuthorization) → grant_covers i g ≡ true → Covers i g
unfolding grant_covers
grant_covers_lem i g h = record {
  same_effect = (effect_eq_iff g.effect_class i.request.effect_class).0 (ground arith);
  same_profile = (eq_iff g.profile i.profile).0 (ground arith);
  same_stage = (eq_iff g.stage_id i.stage_id).0 (ground arith);
  same_deployment = (eq_iff g.deployment_identity i.deployment_identity).0 (ground arith);
  same_resource = (eq_iff g.resource_uri i.request.resource_uri).0 (ground arith);
  has_operation = ground arith;
}

check_url :
    (p : Platform) (uri : String) (o : Option Url)
    → p.parse_url uri ≡ o
    → (check_resource p uri ≡ ok tt) ↔ IsCanonical p uri
unfolding check_resource
check_url p uri none e = (λ h. absurd (ground arith), λ c. absurd (ground arith))
check_url p uri (some u) e = (
  λ h.
      let bad = has_forbidden u || not (u.href == uri) in
      let passed = (refuse_iff bad bad_resource_uri).0 (rw (e, check_resource) at h) in
      let (clean, same) = or_false (has_forbidden u) (not (u.href == uri)) passed in
      (u, e, clean, (eq_iff u.href uri).0 (not-false _ same)),
  λ (v, f, clean, same).
      let same_url : u ≡ v = ground arith in
      rw (e, check_resource)
        ((refuse_iff _ bad_resource_uri).1 (rw (same_url, clean, (eq_iff v.href uri).1 same))),
)

abbrev outside : EffectRequest → Bool
outside r = effect_eq r.effect_class artifact_write && not (starts_with r.resource_uri "preview://")

check_mode_iff : (m : PipelineMode) (r : EffectRequest) → (check_mode m r ≡ ok tt) ↔ ModeAllows m r
unfolding check_mode
check_mode_iff validate r = (λ h. cc, λ h. absurd h)
check_mode_iff plan r = (λ h. cc, λ h. absurd h)
check_mode_iff preview r =
    let known = declares preview_effects r.effect_class in
    let inside = starts_with r.resource_uri "preview://" in
    let last = refuse (outside r) outside_preview_namespace in
    let same = effect_eq_iff r.effect_class artifact_write in
    let split = guard_iff (effect_eq r.effect_class artifact_write) inside in
    (
      λ h.
          let (a, b) = refuse-ok (not known) (not_in_preview r.effect_class) last h in
          (not-false known a, λ e. split.0 ((refuse_iff (outside r) _).0 b) (same.1 e)),
      λ (a, b).
          ok-refuse (not known) (not_in_preview r.effect_class) last (rw a)
            ((refuse_iff (outside r) _).1 (split.1 (λ t. b (same.0 t)))),
    )
check_mode_iff apply r = (λ h. tt, λ h. refl)

pub is_post_read_iff : (v : Option Verification) → (is_post_read v ≡ true) ↔ (v ≡ some post_read)
is_post_read_iff (some post_read) = (λ h. refl, λ h. refl)
is_post_read_iff (some no_verification) = (λ h. cc, λ h. absurd (ground arith))
is_post_read_iff none = (λ h. cc, λ h. absurd (ground arith))

check_grant_iff :
    (r : EffectRequest) (o : Option EffectAuthorization)
    → (check_grant r o ≡ ok tt) ↔ ((g : EffectAuthorization) × (o ≡ some g) × Permits g r)
unfolding check_grant
check_grant_iff r none = (λ h. cc, λ (g, e, _). absurd (ground arith))
check_grant_iff r (some g) =
    let exceeds = gt r.record_count g.max_records in
    let unverified = effect_eq r.effect_class public_write && not (is_post_read g.verification) in
    let last = refuse unverified unverified_public_write in
    let same = effect_eq_iff r.effect_class public_write in
    let verified = is_post_read_iff g.verification in
    let split = guard_iff (effect_eq r.effect_class public_write) (is_post_read g.verification) in
    (
      λ h.
          let (a, b) = refuse-ok exceeds exceeds_grant last h in
          (g, refl, (a, λ e. verified.0 (split.0 ((refuse_iff unverified _).0 b) (same.1 e)))),
      λ (g', e, fits).
          let same_grant : g' ≡ g = ground arith in
          let (a, b) = subst (λ x. Permits x r) same_grant fits in
          ok-refuse exceeds exceeds_grant last a
            ((refuse_iff unverified _).1 (split.1 (λ t. verified.1 (b (same.0 t))))),
    )

module _ (p : Platform) (mode : PipelineMode) (i : EffectInput) where
  -- An effect is authorized exactly when its record count is a natural safe integer, its resource
  -- is a canonical URI, the plugin declared it, the mode allows it, and the first grant made for
  -- this profile, stage, deployment, effect, resource and operation permits it.
  pub IsAuthorized-iff :
      (assert_effect_authorized_internal p mode i ≡ ok tt) ↔ IsAuthorized p mode i
  unfolding assert_effect_authorized_internal
  IsAuthorized-iff = (
    λ h.
        let (a, h1) = refuse-ok _ _ _ h in
        let (_, b, h2) = bind-ok _ _ h1 in
        let (c, h3) = refuse-ok _ _ _ h2 in
        let (_, d, e) = bind-ok _ _ h3 in
        record {
          counted = a;
          canonical_uri = (check_url p i.request.resource_uri _ refl).0 b;
          declared = not-false _ c;
          allowed = (check_mode_iff mode i.request).0 d;
          granted = (check_grant_iff i.request _).0 e;
        },
    λ h.
        rw
          (
            h.counted,
            (check_url p i.request.resource_uri _ refl).1 h.canonical_uri,
            h.declared,
            (check_mode_iff mode i.request).1 h.allowed,
          )
          ((check_grant_iff i.request _).1 h.granted),
  )
