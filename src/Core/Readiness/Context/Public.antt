-- ===== src/Core/Readiness/Context/Public.antt =====
-- What a context lets be written in public (packages/core/src/readiness.ts).
use map_data_aggregation_enh.Base.{
  ℕ, ◌≡◌, refl, sym, ap, subst, refuse, String, true, false, not, ◌&&◌, Option, none, some, All,
  All-map, Any, Any-map, any, any-Any, any-false, find-some, is_nil, Result, ok, err, refuse-ok,
  refuse_iff, bind-ok, not-false, or_false, and_true, eq_iff, ◌==◌, arith,
}
use map_data_aggregation_enh.Base.Numbers.{Num, gt, num_eq, num_eq-eq}
use map_data_aggregation_enh.Core.Types.Policies.{
  Redistribution, redistribution_approved, redistribution_forbidden, ProfileDeclaration,
  SourcePolicyDeclaration,
}
use map_data_aggregation_enh.Core.Types.Datasets.{
  DatasetHandle, artifact, ephemeral, DatasetRef, SourcePolicyStamp,
}
use map_data_aggregation_enh.Core.Readiness.{
  Runtime, NotReady, Registry, compute_profile_policy_digest,
}
use map_data_aggregation_enh.Core.Readiness.Approved.{IsSourceOf}
use map_data_aggregation_enh.Core.Readiness.Context.{
  subject_not_registered, subject_no_input, subject_expired, subject_not_public,
  StageInvocationSnapshot, World, Context,
}
use map_data_aggregation_enh.Core.Readiness.Context.Begin.{is_instant, instant}
use map_data_aggregation_enh.Core.Readiness.Context.Effects.{
  writes_public, AuthorizedEffectAttempt, handle_of, is_input, is_redistributable, allows_public,
  profile_source, is_digest_of, is_result, is_not_public, is_unexpired, check_consumed,
  may_be_public, record_count_of, authorize_effect,
}
use map_data_aggregation_enh.Core.Readiness.Context.Steps.{IsOwned, authorize_effect-IsGranted}

-- The stamp is of the profile as it is, and its source may be redistributed.
pub record IsReleased (r : Runtime) (profile : ProfileDeclaration) (stamp : SourcePolicyStamp)
    : Type 0 where
  pub of_profile : stamp.profile_id ≡ profile.id
  pub of_version : stamp.profile_policy_version ≡ profile.policy_version
  pub of_digest : compute_profile_policy_digest r profile ≡ ok stamp.profile_policy_digest
  pub source : SourcePolicyDeclaration
  pub of_source : IsSourceOf profile.sources stamp.source_policy_id source
  pub approved : source.redistribution ≡ redistribution_approved

-- The dataset is a registered, unexpired input of the invocation that may be redistributed.
pub record IsPublishable (r : Runtime) (now : Num) (registry : Registry)
    (profile : ProfileDeclaration) (s : StageInvocationSnapshot) (h : DatasetHandle) : Type 0 where
  pub dataset : DatasetRef
  pub is_artifact : h ≡ artifact dataset
  pub is_registered : registry h ≡ true
  pub is_input_of : Any (λ entry. handle_of entry.1 ≡ handle_of h) s.inputs
  pub expires : is_instant r dataset.expires_at ≡ true
  pub unexpired : gt (instant r dataset.expires_at) now ≡ true
  pub redistributable : dataset.restrictions.redistribution ≡ redistribution_approved
  pub stamped : is_nil dataset.restrictions.source_policies ≡ false
  pub released : All (IsReleased r profile) dataset.restrictions.source_policies

is_redistributable-eq :
    (x : Redistribution) → is_redistributable x ≡ true → x ≡ redistribution_approved
is_redistributable-eq redistribution_approved h = refl
is_redistributable-eq redistribution_forbidden h = cc

allows_public-source :
    (profile : ProfileDeclaration) (id : String) (o : Option SourcePolicyDeclaration)
    → profile_source profile id ≡ o
    → allows_public o ≡ true
    → (s : SourcePolicyDeclaration) × IsSourceOf profile.sources id s
      × (s.redistribution ≡ redistribution_approved)
allows_public-source profile id none e h = cc
allows_public-source profile id (some s) e h =
    let (same, there) = find-some (λ (x : SourcePolicyDeclaration). x.id == id) profile.sources e in
    (s, (there, (eq_iff s.id id).0 same), is_redistributable-eq s.redistribution h)

digest_is :
    (digest : String) (m : Result NotReady String) → is_result digest m ≡ true → m ≡ ok digest
digest_is digest (ok d) h = ap ok (sym ((eq_iff digest d).0 h))
digest_is digest (err e) h = cc

stamp-IsReleased :
    (r : Runtime) (profile : ProfileDeclaration) (stamp : SourcePolicyStamp)
    → is_not_public r profile stamp ≡ false
    → IsReleased r profile stamp
stamp-IsReleased r profile stamp h =
    let (h1, a) =
      or_false _ (not (allows_public (profile_source profile stamp.source_policy_id))) h in
    let (h2, b) = or_false _ (not (is_digest_of r profile stamp.profile_policy_digest)) h1 in
    let (c, d) =
      or_false (not (stamp.profile_id == profile.id))
        (not (num_eq stamp.profile_policy_version profile.policy_version)) h2 in
    let (source, there, approved) =
      allows_public-source profile stamp.source_policy_id _ refl (not-false _ a) in
    record {
      of_profile = (eq_iff stamp.profile_id profile.id).0 (not-false _ c);
      of_version = num_eq-eq stamp.profile_policy_version profile.policy_version (not-false _ d);
      of_digest =
          digest_is stamp.profile_policy_digest (compute_profile_policy_digest r profile)
            (not-false (is_digest_of r profile stamp.profile_policy_digest) b);
      source = source;
      of_source = there;
      approved = approved;
    }

dataset-IsPublishable :
    (r : Runtime) (now : Num) (registry : Registry) (profile : ProfileDeclaration)
    (s : StageInvocationSnapshot) (h : DatasetHandle)
    → registry h ≡ true
    → is_input s.inputs h ≡ true
    → is_unexpired r now h ≡ true
    → may_be_public r profile h ≡ true
    → IsPublishable r now registry profile s h
dataset-IsPublishable r now registry profile s (ephemeral e) a b c d = cc
dataset-IsPublishable r now registry profile s (artifact x) a b c d =
    let (instant_there, later_than_now) =
      and_true (is_instant r x.expires_at) (gt (instant r x.expires_at) now) c in
    let (d1, d2) =
      and_true
        (is_redistributable x.restrictions.redistribution
          && not (is_nil x.restrictions.source_policies))
        (not (any (is_not_public r profile) x.restrictions.source_policies)) d in
    let (free, stamped) =
      and_true (is_redistributable x.restrictions.redistribution)
        (not (is_nil x.restrictions.source_policies)) d1 in
    record {
      dataset = x;
      is_artifact = refl;
      is_registered = a;
      is_input_of =
          Any-map (λ entry e. (eq_iff (handle_of entry.1) x.broker_handle).0 e) s.inputs
            (any-Any (λ (entry : String × DatasetHandle). handle_of entry.1 == x.broker_handle)
              s.inputs b);
      expires = instant_there;
      unexpired = later_than_now;
      redistributable = is_redistributable-eq x.restrictions.redistribution free;
      stamped = ground arith;
      released =
          All-map (λ stamp e. stamp-IsReleased r profile stamp e) x.restrictions.source_policies
            (any-false (is_not_public r profile) x.restrictions.source_policies (ground arith));
    }

counted-IsPublishable :
    (r : Runtime) (now : Num) (registry : Registry) (c : Context) (w : World)
    (s : StageInvocationSnapshot) (invocation : ℕ) (h : DatasetHandle) {n : Num}
    → record_count_of r now registry c w s invocation (writes_public h) ≡ ok n
    → IsPublishable r now registry c.profile s h
unfolding record_count_of
counted-IsPublishable r now registry c w s invocation h e =
    let (_, a, e1) = bind-ok (check_consumed r now registry s h) _ e in
    let (_, b, _) = bind-ok (refuse (not (may_be_public r c.profile h)) subject_not_public) _ e1 in
    let (registered, a1) = refuse-ok (not (registry h)) subject_not_registered _ a in
    let (there, a2) = refuse-ok (not (is_input s.inputs h)) subject_no_input _ a1 in
    dataset-IsPublishable r now registry c.profile s h (not-false _ registered) (not-false _ there)
      (not-false _ ((refuse_iff (not (is_unexpired r now h)) subject_expired).0 a2))
      (not-false _ ((refuse_iff (not (may_be_public r c.profile h)) subject_not_public).0 b))

-- A public write is authorized only for an artifact that is an input of an invocation of the context,
-- registered, and not expired, whose redistribution is approved, and each of whose stamps is of the
-- profile, its version and its digest, and names a source of the profile with approved redistribution.
pub public_write-IsPublishable :
    (r : Runtime) (now : Num) (registry : Registry) (c : Context) (a : AuthorizedEffectAttempt)
    (w : World) {w' : World} (h : DatasetHandle)
    → a.subject ≡ writes_public h
    → authorize_effect r now registry c a w ≡ ok w'
    → (s : StageInvocationSnapshot) × IsOwned c w a.invocation s
      × IsPublishable r now registry c.profile s h
public_write-IsPublishable r now registry c a w h e passed =
    let g = authorize_effect-IsGranted r now registry c a w passed in
    let counted : record_count_of r now registry c w g.snapshot a.invocation (writes_public h)
        ≡ ok g.count =
      subst (λ x. record_count_of r now registry c w g.snapshot a.invocation x ≡ ok g.count) e
        g.counted in
    (
      g.snapshot,
      g.owned,
      counted-IsPublishable r now registry c w g.snapshot a.invocation h counted,
    )
