-- ===== src/Core/Readiness/Terms.antt =====
-- What a policy or a grant that matches a request agrees on (packages/core/src/readiness.ts).
use mathlib.Core.List.{Permᴰ}
use map_data_aggregation_enh.Base.{◌≡◌, refl, String, true, Option, none, some, eq_iff, arith}
use map_data_aggregation_enh.Base.Numbers.{num_eq-eq}
use map_data_aggregation_enh.Core.Types.{
  Verification, no_verification, post_read, EffectRequestDeclaration, EffectAuthorization,
}
use map_data_aggregation_enh.Core.Types.Tags.{effect_eq_iff}
use map_data_aggregation_enh.Core.Types.Policies.{EffectPolicy}
use map_data_aggregation_enh.Core.SameValues.{same_values_iff}
use map_data_aggregation_enh.Core.Readiness.Matches.{
  same_verification, policy_matches, grant_matches,
}

-- A policy of the profile for exactly the request of a stage.
pub record Allows (p : EffectPolicy) (stage_id : String) (r : EffectRequestDeclaration)
    : Type 0 where
  pub of_stage : p.stage_id ≡ stage_id
  pub same_effect : p.effect_class ≡ r.effect_class
  pub same_resource : p.resource_uri ≡ r.resource_uri
  pub same_operations : Permᴰ p.operations r.operations
  pub same_limit : p.max_records ≡ r.max_records
  pub same_check : p.verification ≡ r.verification

-- A grant for exactly the request of a stage in a deployment of a profile.
pub record Grants (g : EffectAuthorization) (profile_id deployment_identity stage_id : String)
    (r : EffectRequestDeclaration) : Type 0 where
  pub of_profile : g.profile ≡ profile_id
  pub of_stage : g.stage_id ≡ stage_id
  pub of_deployment : g.deployment_identity ≡ deployment_identity
  pub same_effect : g.effect_class ≡ r.effect_class
  pub same_resource : g.resource_uri ≡ r.resource_uri
  pub same_operations : Permᴰ g.operations r.operations
  pub same_limit : g.max_records ≡ r.max_records
  pub same_check : g.verification ≡ r.verification

same_verification-eq : (a b : Option Verification) → same_verification a b ≡ true → a ≡ b
same_verification-eq none none h = refl
same_verification-eq none (some w) h = absurd (ground arith)
same_verification-eq (some no_verification) (some no_verification) h = refl
same_verification-eq (some no_verification) (some post_read) h = cc
same_verification-eq (some post_read) (some no_verification) h = cc
same_verification-eq (some post_read) (some post_read) h = refl
same_verification-eq (some no_verification) none h = cc
same_verification-eq (some post_read) none h = cc

pub policy_matches-Allows :
    (p : EffectPolicy) (stage_id : String) (r : EffectRequestDeclaration)
    → policy_matches p stage_id r ≡ true
    → Allows p stage_id r
unfolding policy_matches
policy_matches-Allows p stage_id r h = record {
  of_stage = (eq_iff p.stage_id stage_id).0 (ground arith);
  same_effect = (effect_eq_iff p.effect_class r.effect_class).0 (ground arith);
  same_resource = (eq_iff p.resource_uri r.resource_uri).0 (ground arith);
  same_operations = (same_values_iff p.operations r.operations).0 (ground arith);
  same_limit = num_eq-eq p.max_records r.max_records (ground arith);
  same_check = same_verification-eq p.verification r.verification (ground arith);
}

pub grant_matches-Grants :
    (g : EffectAuthorization) (profile_id deployment_identity stage_id : String)
    (r : EffectRequestDeclaration)
    → grant_matches g profile_id deployment_identity stage_id r ≡ true
    → Grants g profile_id deployment_identity stage_id r
unfolding grant_matches
grant_matches-Grants g profile_id deployment_identity stage_id r h = record {
  of_profile = (eq_iff g.profile profile_id).0 (ground arith);
  of_stage = (eq_iff g.stage_id stage_id).0 (ground arith);
  of_deployment = (eq_iff g.deployment_identity deployment_identity).0 (ground arith);
  same_effect = (effect_eq_iff g.effect_class r.effect_class).0 (ground arith);
  same_resource = (eq_iff g.resource_uri r.resource_uri).0 (ground arith);
  same_operations = (same_values_iff g.operations r.operations).0 (ground arith);
  same_limit = num_eq-eq g.max_records r.max_records (ground arith);
  same_check = same_verification-eq g.verification r.verification (ground arith);
}
