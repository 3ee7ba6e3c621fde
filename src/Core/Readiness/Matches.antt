-- ===== src/Core/Readiness/Matches.antt =====
-- How requests, policies and grants are compared (packages/core/src/readiness.ts).
use map_data_aggregation_enh.Base.{String, Bool, true, false, ◌&&◌, Option, none, some, List, ◌==◌}
use map_data_aggregation_enh.Base.Numbers.{num_eq}
use map_data_aggregation_enh.Core.Types.{
  Verification, no_verification, post_read, EffectRequestDeclaration, EffectAuthorization,
  effect_eq,
}
use map_data_aggregation_enh.Core.Types.Policies.{EffectPolicy}
use map_data_aggregation_enh.Core.SameValues.{same_values}

-- `sameOperations` and `sameStrings`: the body is that of `sameValues`.
abbrev pub same_operations : List String → List String → Bool
same_operations l r = same_values l r

abbrev pub same_verification : Option Verification → Option Verification → Bool
same_verification none none = true
same_verification (some no_verification) (some no_verification) = true
same_verification (some post_read) (some post_read) = true
same_verification _ _ = false

unfoldable pub policy_matches : EffectPolicy → String → EffectRequestDeclaration → Bool
policy_matches policy stage_id request =
    policy.stage_id == stage_id
    && effect_eq policy.effect_class request.effect_class
    && policy.resource_uri == request.resource_uri
    && same_operations policy.operations request.operations
    && num_eq policy.max_records request.max_records
    && same_verification policy.verification request.verification

unfoldable pub grant_matches :
    EffectAuthorization
    → (profile_id deployment_identity stage_id : String) → EffectRequestDeclaration
    → Bool
grant_matches grant profile_id deployment_identity stage_id request =
    grant.profile == profile_id
    && grant.stage_id == stage_id
    && grant.deployment_identity == deployment_identity
    && effect_eq grant.effect_class request.effect_class
    && grant.resource_uri == request.resource_uri
    && same_operations grant.operations request.operations
    && num_eq grant.max_records request.max_records
    && same_verification grant.verification request.verification
