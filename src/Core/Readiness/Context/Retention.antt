-- ===== src/Core/Readiness/Context/Retention.antt =====
-- The retention of a dataset of a source (packages/core/src/readiness.ts).
use map_data_aggregation_enh.Base.{
  ℕ, ◌≤◌, ◌≡◌, refl, sym, subst, String, true, false, not, ◌||◌, Option, none, some, is_some, ok,
  refuse-ok, refuse_iff, bind-ok, or_false, and_true, not-false, eq_iff, ◌==◌, arith,
}
use map_data_aggregation_enh.Base.Numbers.{
  Num, nat, neg, nan, is_nan, gt, lt, min, times, sub, sub-is_nan,
}
use map_data_aggregation_enh.Core.Types.Datasets.{artifact, DatasetRef}
use map_data_aggregation_enh.Core.Readiness.{
  Runtime, Registry, compute_profile_policy_digest, is_canonical_iso_instant,
}
use map_data_aggregation_enh.Core.Readiness.Sources.{retention_ceiling}
use map_data_aggregation_enh.Core.Readiness.Context.{
  provenance_differs, no_expiry, expiry_too_late, readiness,
}
use map_data_aggregation_enh.Core.Readiness.Context.Begin.{is_instant, instant}
use map_data_aggregation_enh.Core.Readiness.Context.SourceOutput.{
  BoundOutput, is_not_bound, max_days, duration, assert_source_dataset_binding,
}

-- A duration that is no NaN, not negative, and not after the retention: 30 days in milliseconds.
kept_for :
    (x : Num) (days ceiling : ℕ)
    → days ≤ ceiling
    → ceiling ≤ 30
    → is_nan x ≡ false
    → lt x (nat 0) ≡ false
    → gt x (times (min (nat days) (nat ceiling)) 86400000) ≡ false
    → (n : ℕ) × (x ≡ nat n) × (n ≤ 2592000000)
kept_for (nat n) days ceiling a b there early late = (n, refl, ground arith)
kept_for (neg n) days ceiling a b there early late = cc
kept_for nan days ceiling a b there early late = cc

-- What a canonical time is: the text of the date that it reads as.
canonical_time :
    (r : Runtime) (t : String)
    → is_canonical_iso_instant r t ≡ true
    → (is_nan (r.platform.parse_date t) ≡ false) × (r.platform.to_iso (r.platform.parse_date t) ≡ t)
unfolding is_canonical_iso_instant
canonical_time r t h =
    let date = r.platform.parse_date t in
    let (a, b) = and_true (not (is_nan date)) (r.platform.to_iso date == t) h in
    (ground arith, (eq_iff (r.platform.to_iso date) t).0 b)

instant_there :
    (r : Runtime) (e : Option String)
    → is_instant r e ≡ true
    → (t : String) × (e ≡ some t) × (is_canonical_iso_instant r t ≡ true)
instant_there r none h = cc
instant_there r (some t) h = (t, refl, h)

-- A dataset of a source that expires, at a canonical time, some milliseconds after its retention
-- starts, at most as many as 30 days have.
pub record IsRetained (r : Runtime) (d : DatasetRef) : Type 0 where
  pub expiry : String
  pub expires : d.expires_at ≡ some expiry
  pub is_canonical : r.platform.to_iso (r.platform.parse_date expiry) ≡ expiry
  pub kept : ℕ
  pub kept_from_start :
      sub (r.platform.parse_date expiry) (r.platform.parse_date d.retention_started_at) ≡ nat kept
  pub within_days : kept ≤ 2592000000

started_there :
    (o : BoundOutput) (r : Runtime) (registry : Registry) (digest : String) (d : DatasetRef)
    → is_not_bound o r registry digest d ≡ false
    → is_canonical_iso_instant r d.retention_started_at ≡ true
unfolding is_not_bound
started_there o r registry digest d h =
    not-false _ (or_false _ (not (is_canonical_iso_instant r d.retention_started_at)) h).1

-- The output of a source stage under a binding and a policy, whose dataset passed.
pub assert_source_dataset_binding-IsRetained :
    (o : BoundOutput) (r : Runtime) (registry : Registry) (d : DatasetRef) (days ceiling : ℕ)
    → o.source.retention_days ≡ some (nat days)
    → retention_ceiling o.source o.binding.artifact_class ≡ nat ceiling
    → days ≤ ceiling
    → ceiling ≤ 30
    → assert_source_dataset_binding o r registry d ≡ ok tt
    → IsRetained r d
unfolding assert_source_dataset_binding retention_ceiling
assert_source_dataset_binding-IsRetained o r registry d days ceiling e f le small h =
    let (digest, _, h1) = bind-ok (readiness (compute_profile_policy_digest r o.profile)) _ h in
    let (unbound, h2) =
      refuse-ok (not (registry (artifact d)) || is_not_bound o r registry digest d)
        provenance_differs _ h1 in
    let started = started_there o r registry digest d (or_false _ _ unbound).1 in
    let (missing, h3) =
      refuse-ok (not (is_instant r d.expires_at) || not (is_some o.source.retention_days)) no_expiry
        _ h2 in
    let limit = times (max_days o o.source.retention_days) 86400000 in
    let (early, late) =
      or_false (lt (duration r d) (nat 0)) (gt (duration r d) limit) (
        (refuse_iff (lt (duration r d) (nat 0) || gt (duration r d) limit) expiry_too_late).0 h3) in
    let there = not-false _ (or_false _ _ missing).0 in
    let (expiry, e', canonical) = instant_there r d.expires_at there in
    let (ends, text) = canonical_time r expiry canonical in
    let at_expiry : is_nan (instant r d.expires_at) ≡ false =
      subst (λ x. is_nan (instant r x) ≡ false) (sym e') ends in
    let definite =
      sub-is_nan (instant r d.expires_at) (r.platform.parse_date d.retention_started_at) at_expiry
        (canonical_time r d.retention_started_at started).0 in
    let (n, same, le_days) =
      kept_for (duration r d) days ceiling le small definite early (rw (e, f) at late) in
    record {
      expiry = expiry;
      expires = e';
      is_canonical = text;
      kept = n;
      kept_from_start =
          subst (λ x. sub (instant r x) (r.platform.parse_date d.retention_started_at) ≡ nat n) e'
            same;
      within_days = le_days;
    }
