-- ===== src/Core/Readiness/Pinned.antt =====
-- What the digests of a deployment pin (packages/core/src/readiness.ts).
use map_data_aggregation_enh.Base.{
  ◌≡◌, sym, ◌∙◌, ap, String, true, Option, none, some, or_false, not-false, ok, refuse-ok,
  refuse_iff, bind-ok, eq_iff,
}
use map_data_aggregation_enh.Core.Readiness.{
  Runtime, ApplyReadinessInput, compute_definition_digest, compute_plugin_catalog_digest,
  compute_profile_policy_digest, compute_host_policy_digest, digests_differ, lock_digests_differ,
  host_digest_differs,
}
use map_data_aggregation_enh.Core.Readiness.Apply.{
  is_text, check_definition_digest, check_profile_digest, check_lock_digest, check_host_digest,
  check_pinned_digests,
}

-- The deployment was made for exactly this definition, profile, catalog and host policy.
pub record IsPinned (r : Runtime) (i : ApplyReadinessInput) : Type 0 where
  pub definition_pinned :
      compute_definition_digest r i.definition ≡ ok i.deployment.definition_digest
  pub profile_pinned :
      compute_profile_policy_digest r i.profile ≡ ok i.deployment.profile_policy_digest
  pub catalog_pinned :
      compute_plugin_catalog_digest r i.catalog ≡ ok i.deployment.plugin_lock_digest
  pub host_pinned : compute_host_policy_digest r i.host_policy ≡ ok i.deployment.host_policy_digest

is_text-eq : (o : Option String) (s t : String) → is_text o s ≡ true → is_text o t ≡ true → s ≡ t
is_text-eq none s t h k = cc
is_text-eq (some u) s t h k = sym ((eq_iff u s).0 h) ∙ (eq_iff u t).0 k

definition_digest-pinned :
    (r : Runtime) (i : ApplyReadinessInput)
    → check_definition_digest r i ≡ ok tt
    → compute_definition_digest r i.definition ≡ ok i.deployment.definition_digest
unfolding check_definition_digest
definition_digest-pinned r i h =
    let (_, h1) = refuse-ok _ _ _ h in
    let (d, e, h2) = bind-ok (compute_definition_digest r i.definition) _ h1 in
    e
    ∙ ap ok (
        sym (
          (eq_iff i.deployment.definition_digest d).0
            (not-false _ ((refuse_iff _ digests_differ).0 h2))))

profile_digest-pinned :
    (r : Runtime) (i : ApplyReadinessInput)
    → check_profile_digest r i ≡ ok tt
    → compute_profile_policy_digest r i.profile ≡ ok i.deployment.profile_policy_digest
unfolding check_profile_digest
profile_digest-pinned r i h =
    let (_, h1) = refuse-ok _ _ _ h in
    let (d, e, h2) = bind-ok (compute_profile_policy_digest r i.profile) _ h1 in
    e
    ∙ ap ok (
        sym (
          (eq_iff i.deployment.profile_policy_digest d).0
            (not-false _ ((refuse_iff _ digests_differ).0 h2))))

lock_digest-pinned :
    (r : Runtime) (i : ApplyReadinessInput)
    → check_lock_digest r i ≡ ok tt
    → compute_plugin_catalog_digest r i.catalog ≡ ok i.deployment.plugin_lock_digest
unfolding check_lock_digest
lock_digest-pinned r i h =
    let (_, h1) = refuse-ok _ _ _ h in
    let (d, e, h2) = bind-ok (compute_plugin_catalog_digest r i.catalog) _ h1 in
    let (a, b) = or_false _ _ ((refuse_iff _ lock_digests_differ).0 h2) in
    e
    ∙ ap ok (
        is_text-eq i.profile.plugin_lock_digest d i.deployment.plugin_lock_digest (not-false _ a)
          (not-false _ b))

host_digest-pinned :
    (r : Runtime) (i : ApplyReadinessInput)
    → check_host_digest r i ≡ ok tt
    → compute_host_policy_digest r i.host_policy ≡ ok i.deployment.host_policy_digest
unfolding check_host_digest
host_digest-pinned r i h =
    let (_, h1) = refuse-ok _ _ _ h in
    let (d, e, h2) = bind-ok (compute_host_policy_digest r i.host_policy) _ h1 in
    e
    ∙ ap ok (
        (eq_iff d i.deployment.host_policy_digest).0
          (not-false _ ((refuse_iff _ host_digest_differs).0 h2)))

pub check_pinned_digests-IsPinned :
    (r : Runtime) (i : ApplyReadinessInput) → check_pinned_digests r i ≡ ok tt → IsPinned r i
unfolding check_pinned_digests
check_pinned_digests-IsPinned r i h =
    let (_, d, h1) = bind-ok (check_definition_digest r i) _ h in
    let (_, p, h2) = bind-ok (check_profile_digest r i) _ h1 in
    let (_, h3) = refuse-ok _ _ _ h2 in
    let (_, l, k) = bind-ok (check_lock_digest r i) _ h3 in
    record {
      definition_pinned = definition_digest-pinned r i d;
      profile_pinned = profile_digest-pinned r i p;
      catalog_pinned = lock_digest-pinned r i l;
      host_pinned = host_digest-pinned r i k;
    }
