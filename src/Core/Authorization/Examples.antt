-- ===== src/Core/Authorization/Examples.antt =====
-- A preview stage that reads a feed and writes one preview artifact.
use map_data_aggregation_enh.Base.{String, ◌≡◌, refl, ◌↔◌, Any, none, [], ◌∷◌, ok, err}
use map_data_aggregation_enh.Base.Numbers.{Num, nat}
use map_data_aggregation_enh.Core.Types.{
  preview, apply, EffectClass, artifact_write, public_write, no_delivery, EffectAuthorization,
  StagePluginManifest,
}
use map_data_aggregation_enh.Core.Platform.{plain_platform}
use map_data_aggregation_enh.Core.Authorization.{
  EffectInput, exceeds_grant, not_in_preview, check_resource, check_mode, check_grant, grant_covers,
  assert_effect_authorized_internal, assert_preview_effect_authorized,
}
use map_data_aggregation_enh.Core.Authorization.Laws.{
  Covers, Permits, IsAuthorized, IsAuthorized-iff,
}
use map_data_aggregation_enh.Core.Authorization.Preview.{
  IsConfined, preview-IsConfined, preview-apply, authorized-Covers,
}

abbrev writer : StagePluginManifest
writer = record {
  id = "writer";
  lock = record {
    package_name = "writer";
    package_version = "1";
    plugin_api_version = "1";
    integrity = "";
    executable_digest = none;
    config_schema = record { name = "c"; version = nat 1 };
    config_schema_digest = "";
  };
  inputs = [];
  outputs = [];
  source_adapter = none;
  effects = artifact_write ∷ public_write ∷ [];
  delivery = no_delivery;
  secret_refs = [];
}

abbrev grant : EffectAuthorization
grant = record {
  profile = "pizza";
  stage_id = "write";
  deployment_identity = "d1";
  effect_class = artifact_write;
  resource_uri = "preview://out";
  operations = "put" ∷ [];
  max_records = nat 10;
  verification = none;
}

abbrev input : EffectClass → String → Num → EffectInput
input e uri n = record {
  profile = "pizza";
  stage_id = "write";
  deployment_identity = "d1";
  manifest = writer;
  grants = grant ∷ [];
  request = record { effect_class = e; resource_uri = uri; operation = "put"; record_count = n };
}

abbrev sample : EffectInput
sample = input artifact_write "preview://out" (nat 10)

sample_passes : assert_preview_effect_authorized plain_platform sample ≡ ok tt
unfolding assert_preview_effect_authorized assert_effect_authorized_internal check_resource
    check_mode check_grant grant_covers
sample_passes = refl

eleven_refused :
    assert_preview_effect_authorized plain_platform (input artifact_write "preview://out" (nat 11))
    ≡ err exceeds_grant
unfolding assert_preview_effect_authorized assert_effect_authorized_internal check_resource
    check_mode check_grant grant_covers
eleven_refused = refl

public_refused :
    assert_preview_effect_authorized plain_platform (input public_write "preview://out" (nat 1))
    ≡ err (not_in_preview public_write)
unfolding assert_preview_effect_authorized assert_effect_authorized_internal check_resource
    check_mode check_grant grant_covers
public_refused = refl

preview-IsConfined_example : IsConfined sample.request
preview-IsConfined_example = preview-IsConfined plain_platform sample sample_passes

preview-apply_example : assert_effect_authorized_internal plain_platform apply sample ≡ ok tt
preview-apply_example = preview-apply plain_platform sample sample_passes

authorized-Covers_example :
    (g : EffectAuthorization) × Any (λ x. x ≡ g) sample.grants
    × Covers sample g
    × Permits g sample.request
authorized-Covers_example =
    authorized-Covers plain_platform sample apply
      (preview-apply plain_platform sample sample_passes)

IsAuthorized-iff_example :
    (assert_effect_authorized_internal plain_platform preview sample ≡ ok tt)
    ↔ IsAuthorized plain_platform preview sample
IsAuthorized-iff_example = IsAuthorized-iff plain_platform preview sample
