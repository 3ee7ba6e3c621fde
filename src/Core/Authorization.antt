-- ===== src/Core/Authorization.antt =====
-- packages/core/src/authorization.ts: may a stage perform one effect? Each error message of the
-- source is a constructor.
pub mod Laws
pub mod Preview
mod Examples
use text.Mathlib.Text.{starts_with}
use map_data_aggregation_enh.Base.{
  String, Bool, true, false, not, ◌&&◌, ◌||◌, Option, none, some, List, [], ◌∷◌, any, find,
  includes, ◌==◌, Result, ok, err, refuse, ◌>>=◌, ◌>>◌,
}
use map_data_aggregation_enh.Base.Numbers.{bad_natural, gt}
use map_data_aggregation_enh.Core.Types.{
  PipelineMode, validate, plan, preview, apply, EffectClass, artifact_write, public_write,
  network_read, artifact_read, effect_eq, Verification, no_verification, post_read, EffectRequest,
  EffectAuthorization, StagePluginManifest,
}
use map_data_aggregation_enh.Core.Platform.{Platform, has_forbidden}

pub data EffectDenied : Type 0 where
  bad_record_count bad_resource_uri : EffectDenied
  undeclared : EffectClass → EffectDenied
  no_effects_in : PipelineMode → EffectDenied
  not_in_preview : EffectClass → EffectDenied
  outside_preview_namespace no_grant exceeds_grant unverified_public_write : EffectDenied

-- The parameters of the check but for the mode.
pub record EffectInput : Type 0 where
  pub profile : String
  pub stage_id : String
  pub deployment_identity : String
  pub manifest : StagePluginManifest
  pub grants : List EffectAuthorization
  pub request : EffectRequest

abbrev pub preview_effects : List EffectClass
preview_effects = network_read ∷ artifact_read ∷ artifact_write ∷ []

abbrev pub declares : List EffectClass → EffectClass → Bool
declares effects e = any (effect_eq e) effects

abbrev pub is_post_read : Option Verification → Bool
is_post_read (some post_read) = true
is_post_read _ = false

module _ (p : Platform) where
  -- The `try` block: the URL parses, has no forbidden component, and is written canonically.
  unfoldable pub check_resource : String → Result EffectDenied (Unit {0})
  check_resource uri = elim (p.parse_url uri) [
    | none ↦ err bad_resource_uri
    | some u ↦ refuse (has_forbidden u || not (u.href == uri)) bad_resource_uri
  ]

-- The checks of the mode.
unfoldable pub check_mode : PipelineMode → EffectRequest → Result EffectDenied (Unit {0})
check_mode validate r = err (no_effects_in validate)
check_mode plan r = err (no_effects_in plan)
check_mode preview r = do
  refuse (not (declares preview_effects r.effect_class)) (not_in_preview r.effect_class)
  refuse (effect_eq r.effect_class artifact_write && not (starts_with r.resource_uri "preview://"))
      outside_preview_namespace
check_mode apply r = ok tt

-- The predicate of `grants.find`.
unfoldable pub grant_covers : EffectInput → EffectAuthorization → Bool
grant_covers i g =
    effect_eq g.effect_class i.request.effect_class
    && g.profile == i.profile
    && g.stage_id == i.stage_id
    && g.deployment_identity == i.deployment_identity
    && g.resource_uri == i.request.resource_uri
    && includes g.operations i.request.operation

unfoldable pub check_grant :
    EffectRequest → Option EffectAuthorization → Result EffectDenied (Unit {0})
check_grant r none = err no_grant
check_grant r (some g) = do
  refuse (gt r.record_count g.max_records) exceeds_grant
  refuse (effect_eq r.effect_class public_write && not (is_post_read g.verification))
      unverified_public_write

module _ (p : Platform) where
  unfoldable pub assert_effect_authorized_internal :
      PipelineMode → EffectInput → Result EffectDenied (Unit {0})
  assert_effect_authorized_internal mode i = do
    refuse (bad_natural i.request.record_count) bad_record_count
    check_resource p i.request.resource_uri
    refuse (not (declares i.manifest.effects i.request.effect_class))
        (undeclared i.request.effect_class)
    check_mode mode i.request
    check_grant i.request (find (grant_covers i) i.grants)

  pub assert_preview_effect_authorized : EffectInput → Result EffectDenied (Unit {0})
  assert_preview_effect_authorized i = assert_effect_authorized_internal preview i
