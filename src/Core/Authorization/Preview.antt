-- ===== src/Core/Authorization/Preview.antt =====
-- Consequences for the callers of the effect check (packages/core/src/authorization.ts).
use text.Mathlib.Text.{starts_with}
use map_data_aggregation_enh.Base.{true, ◌≡◌, ◌⊎◌, Any, find-some, ok, arith}
use map_data_aggregation_enh.Core.Types.{
  PipelineMode, preview, apply, EffectClass, network_read, artifact_read, artifact_write,
  EffectRequest, EffectAuthorization,
}
use map_data_aggregation_enh.Core.Platform.{Platform}
use map_data_aggregation_enh.Core.Authorization.{
  EffectInput, preview_effects, declares, grant_covers, assert_effect_authorized_internal,
  assert_preview_effect_authorized,
}
use map_data_aggregation_enh.Core.Authorization.Laws.{
  Covers, Permits, grant_covers_lem, IsAuthorized-iff,
}

-- The only effects of a preview.
abbrev pub IsConfined : EffectRequest → Type 0
IsConfined r =
    (r.effect_class ≡ network_read)
    ⊎ (r.effect_class ≡ artifact_read)
    ⊎ (r.effect_class ≡ artifact_write) × (starts_with r.resource_uri "preview://" ≡ true)

preview_class :
    (e : EffectClass)
    → declares preview_effects e ≡ true
    → (e ≡ network_read) ⊎ (e ≡ artifact_read) ⊎ (e ≡ artifact_write)
preview_class e h = ground arith

module _ (p : Platform) (i : EffectInput) where
  -- An effect authorized in a preview is a read, or the write of an artifact of the preview
  -- namespace.
  pub preview-IsConfined : assert_preview_effect_authorized p i ≡ ok tt → IsConfined i.request
  unfolding assert_preview_effect_authorized
  preview-IsConfined h =
      let (known, inside) = ((IsAuthorized-iff p preview i).0 h).allowed in
      ground (arith, preview_class i.request.effect_class known, inside)

  -- An effect authorized in a preview is authorized when applied with the same grants.
  pub preview-apply :
      assert_preview_effect_authorized p i ≡ ok tt
      → assert_effect_authorized_internal p apply i ≡ ok tt
  unfolding assert_preview_effect_authorized
  preview-apply h =
      let a = (IsAuthorized-iff p preview i).0 h in
      (IsAuthorized-iff p apply i).1 (record {
        counted = a.counted;
        canonical_uri = a.canonical_uri;
        declared = a.declared;
        allowed = tt;
        granted = a.granted;
      })

  -- An authorized effect has a grant among those given that was made for exactly this profile,
  -- stage, deployment, effect, resource and operation, is not exceeded by the record count, and
  -- demands a read after a public write.
  pub authorized-Covers :
      (mode : PipelineMode)
      → assert_effect_authorized_internal p mode i ≡ ok tt
      → (g : EffectAuthorization) × Any (λ x. x ≡ g) i.grants × Covers i g × Permits g i.request
  authorized-Covers mode h =
      let (g, found, fits) = ((IsAuthorized-iff p mode i).0 h).granted in
      let (covers, there) = find-some (grant_covers i) i.grants found in
      (g, there, grant_covers_lem i g covers, fits)
