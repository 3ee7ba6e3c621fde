-- ===== src/Core/Readiness/Approved.antt =====
-- What the check of a source policy lets pass (packages/core/src/readiness.ts).
use map_data_aggregation_enh.Base.{
  ℕ, ◌≤◌, ◌≡◌, refl, sym, ap, ◌∙◌, String, true, false, ◌⊎◌, Option, none, some, List, [], ◌∷◌,
  Dict, any, Any, lookup, insert, lookup-insert, includes, same_option, is_truthy, any-false,
  not-false, Bool-cases, inl, inr, ok, refuse_iff, eq_iff, ◌==◌, arith,
}
use map_data_aggregation_enh.Base.Numbers.{Num, nat, neg, nan}
use map_data_aggregation_enh.Core.Types.{
  ArtifactClass, StagePluginManifest, SourceBinding, raw, derived, review_evidence, audit_metadata,
}
use map_data_aggregation_enh.Core.Types.Policies.{
  PolicyStatus, policy_approved, policy_pending, SourcePolicyDeclaration,
}
use map_data_aggregation_enh.Core.Validation.Bindings.{is_artifact_class}
use map_data_aggregation_enh.Core.Readiness.{unapproved_source_policy}
use map_data_aggregation_enh.Core.Readiness.Sources.{
  retention_ceiling, is_ceiling, valid_provisional_ceilings, is_approved, bad_retention,
  source_faults, has_fault, check_source, index_sources,
}

-- A source policy that is approved for the outputs of a binding and keeps them for a bounded time.
pub record IsApproved (s : SourcePolicyDeclaration) (b : SourceBinding) (m : StagePluginManifest)
    : Type 0 where
  pub same_adapter : m.source_adapter ≡ some s.adapter
  pub listed : includes s.resource_uris b.resource_uri ≡ true
  pub approved : s.policy_status ≡ policy_approved
  pub terms : is_truthy s.terms_ref ≡ true
  pub attributed : is_truthy s.attribution_ref ≡ true
  pub kept :
      (days ceiling : ℕ) × (s.retention_days ≡ some (nat days))
      × (retention_ceiling s b.artifact_class ≡ nat ceiling)
      × (days ≤ ceiling)
      × (ceiling ≤ 30)

same_option-eq : (a : Option String) (t : String) → same_option a (some t) ≡ true → a ≡ some t
same_option-eq none t h = cc
same_option-eq (some s) t h = ap some ((eq_iff s t).0 h)

is_approved-eq : (v : PolicyStatus) → is_approved v ≡ true → v ≡ policy_approved
is_approved-eq policy_approved h = refl
is_approved-eq policy_pending h = cc

is_ceiling-nat : (v : Num) → is_ceiling v ≡ true → (n : ℕ) × (v ≡ nat n) × (n ≤ 30)
is_ceiling-nat (nat n) h = (n, refl, ground arith)
is_ceiling-nat (neg n) h = absurd (ground arith)
is_ceiling-nat nan h = cc

kept_below :
    (days : Option Num) (c : ℕ) (s : SourcePolicyDeclaration) (k : ArtifactClass)
    → retention_ceiling s k ≡ nat c
    → bad_retention s k days ≡ false
    → (d : ℕ) × (days ≡ some (nat d)) × (d ≤ c)
kept_below none c s k e h = cc
kept_below (some (nat d)) c s k e h = (d, refl, ground arith)
kept_below (some (neg d)) c s k e h = absurd (ground arith)
kept_below (some nan) c s k e h = cc

ceiling_of :
    (s : SourcePolicyDeclaration) (k : ArtifactClass)
    → is_artifact_class k ≡ true
    → valid_provisional_ceilings s ≡ true
    → bad_retention s k s.retention_days ≡ false
    → (c : ℕ) × (retention_ceiling s k ≡ nat c) × (c ≤ 30)
unfolding valid_provisional_ceilings retention_ceiling
ceiling_of s raw a h k = is_ceiling-nat s.provisional_retention.raw_max_days (ground arith)
ceiling_of s review_evidence a h k =
    is_ceiling-nat s.provisional_retention.review_evidence_after_terminal_days (ground arith)
ceiling_of s derived a h k = is_ceiling-nat s.provisional_retention.derived_max_days (ground arith)
ceiling_of s audit_metadata a h k = cc

source_faults-IsApproved :
    (s : SourcePolicyDeclaration) (b : SourceBinding) (m : StagePluginManifest)
    → is_artifact_class b.artifact_class ≡ true
    → any (λ fault. fault) (source_faults s b m) ≡ false
    → IsApproved s b m
unfolding source_faults
source_faults-IsApproved s b m a h =
    let f = any-false (λ fault. fault) (source_faults s b m) h in
    let ceilings = not-false _ f.1.1.1.1.1.1.1.1.0 in
    let retention = f.1.1.1.1.1.1.1.1.1.1.1.1.1.1.1.1.0 in
    let (c, e, small) = ceiling_of s b.artifact_class a ceilings retention in
    let (d, kept, below) = kept_below s.retention_days c s b.artifact_class e retention in
    record {
      same_adapter = same_option-eq m.source_adapter s.adapter (not-false _ f.0);
      listed = not-false _ f.1.0;
      approved = is_approved-eq s.policy_status (not-false _ f.1.1.1.1.1.1.1.1.1.0);
      terms = not-false _ f.1.1.1.1.1.1.1.1.1.1.0;
      attributed = not-false _ f.1.1.1.1.1.1.1.1.1.1.1.0;
      kept = (d, c, kept, e, below, small);
    }

-- A source of the profile under the ID that a binding names.
abbrev pub IsSourceOf : List SourcePolicyDeclaration → String → SourcePolicyDeclaration → Type 0
IsSourceOf sources id s = Any (λ x. x ≡ s) sources × (s.id ≡ id)

index_sources-lookup :
    (index : Dict SourcePolicyDeclaration) (sources : List SourcePolicyDeclaration) (id : String)
    {s : SourcePolicyDeclaration}
    → lookup id (index_sources index sources) ≡ some s
    → (lookup id index ≡ some s) ⊎ IsSourceOf sources id s
index_sources-lookup index [] id h = inl h
index_sources-lookup index (t ∷ rest) id {s} h =
    elim (index_sources-lookup (insert t.id t index) rest id h) [
      | inr (there, e) ↦ inr (inr there, e)
      | inl found ↦ elim (Bool-cases (t.id == id)) [
        | inl same ↦
            let e : t ≡ s = ground (arith, lookup-insert t.id id t index) in
            inr (inl e, (λ i. (sym e i).id) ∙ (eq_iff t.id id).0 same)
        | inr other ↦ inl (ground (arith, lookup-insert t.id id t index))
      ]
    ]

pub check_source-IsApproved :
    (b : SourceBinding) (o : Option StagePluginManifest) (sources : List SourcePolicyDeclaration)
    (found : Option SourcePolicyDeclaration)
    → is_artifact_class b.artifact_class ≡ true
    → lookup b.policy_id (index_sources [] sources) ≡ found
    → check_source b o found ≡ ok tt
    → (m : StagePluginManifest) × (s : SourcePolicyDeclaration) × (o ≡ some m)
      × IsSourceOf sources b.policy_id s
      × IsApproved s b m
check_source-IsApproved b o sources none a e h = cc
check_source-IsApproved b none sources (some s) a e h = cc
check_source-IsApproved b (some m) sources (some s) a e h =
    elim (index_sources-lookup [] sources b.policy_id e) [
      | inl impossible ↦ cc
      | inr here ↦ (
        m,
        s,
        refl,
        here,
        source_faults-IsApproved s b m a
            ((refuse_iff (has_fault s b (some m)) (unapproved_source_policy b.policy_id)).0 h),
      )
    ]
