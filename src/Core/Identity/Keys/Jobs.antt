-- ===== src/Core/Identity/Keys/Jobs.antt =====
-- The keys of different jobs are digests of different values (packages/core/src/identity.ts).
use map_data_aggregation_enh.Base.{
  eq_iff, ◌≡◌, ◌≢◌, ◌↔◌, refl, ap, String, false, List, [], ◌∷◌, All, ok, refuse-ok, ok-refuse,
  bind-ok, arith, ◌==◌,
}
use map_data_aggregation_enh.Base.Numbers.{Num, nat, neg, nan, bad_positive}
use map_data_aggregation_enh.Base.TextOrder.{text_lt}
use map_data_aggregation_enh.Core.Types.{PipelineMode, validate, plan, preview, apply}
use map_data_aggregation_enh.Core.Platform.{Platform}
use map_data_aggregation_enh.Core.Identity.{
  Json, str, num, obj, field, end, bad_text, normalize, insert_field, canonicalize,
  bad_identity_text, assert_identity_text, assert_positive_version,
}
use map_data_aggregation_enh.Core.Identity.Keys.{
  JobIdentity, append_text, job_texts, job_value, mode_text, digest_of, key_of, create_job_key,
}

-- The canonical value of a job: the entries in the order of their keys.
abbrev pub job_canonical : JobIdentity → Json
job_canonical i = obj (
    field "entityKey" (str i.entity_key) (
      field "mode" (str (mode_text i.mode)) (
        field "pipeline" (str i.pipeline) (
          field "pipelineVersion" (num i.pipeline_version) (
            field "pluginId" (str i.plugin_id) (
              field "pluginVersion" (str i.plugin_version)
                (field "profile" (str i.profile) (field "task" (str i.task) end))))))))

-- The texts of a job are non-empty, trimmed and normalized, and its version is positive.
pub record IsJob (p : Platform) (i : JobIdentity) : Type 0 where
  pub texts : All (λ x. bad_identity_text p x.1 ≡ false) (job_texts i)
  pub versioned : bad_positive i.pipeline_version ≡ false

canonicalize-version :
    (i : JobIdentity) (v : Num)
    → bad_positive v ≡ false
    → canonicalize (job_value (record i { pipeline_version = v }))
      ≡ ok (job_canonical (record i { pipeline_version = v }))
unfolding canonicalize normalize insert_field text_lt
canonicalize-version i (nat n) h = refl
canonicalize-version i (neg n) h = refl
canonicalize-version i nan h = cc

canonicalize-job_value :
    (i : JobIdentity)
    → bad_positive i.pipeline_version ≡ false
    → canonicalize (job_value i) ≡ ok (job_canonical i)
canonicalize-job_value i h = canonicalize-version i i.pipeline_version h

assert_identity_text_iff :
    (p : Platform) (rows : List (String × String))
    → (assert_identity_text p rows ≡ ok tt) ↔ All (λ x. bad_identity_text p x.1 ≡ false) rows
unfolding assert_identity_text
assert_identity_text_iff p [] = (λ h. tt, λ h. refl)
assert_identity_text_iff p ((label, value) ∷ rest) = (
  λ h.
      let (a, b) =
        refuse-ok (bad_identity_text p value) (bad_text label) (assert_identity_text p rest) h in
      (a, (assert_identity_text_iff p rest).0 b),
  λ h.
      ok-refuse (bad_identity_text p value) (bad_text label) (assert_identity_text p rest) h.0
        ((assert_identity_text_iff p rest).1 h.1),
)

module _ (p : Platform) (hex : Json → String) where
  key_of-job_value :
      (i : JobIdentity)
      → bad_positive i.pipeline_version ≡ false
      → key_of p hex "job_" (job_value i) ≡ ok (append_text "job_" (hex (job_canonical i)))
  unfolding key_of digest_of
  key_of-job_value i h = rw (canonicalize-job_value i h) refl

  -- A key is made for a job exactly when its texts are non-empty, trimmed and normalized and its
  -- version is positive, and it is the prefix and the hash of the entries in the order of their keys.
  pub create_job_key_iff :
      (i : JobIdentity) (k : String)
      → (create_job_key p hex i ≡ ok k)
        ↔ (IsJob p i × (append_text "job_" (hex (job_canonical i)) ≡ k))
  unfolding create_job_key assert_positive_version
  create_job_key_iff i k = (
    λ h.
        let (_, a, h1) = bind-ok _ _ h in
        let (b, c) = refuse-ok _ _ _ h1 in
        (
          record { texts = (assert_identity_text_iff p (job_texts i)).0 a; versioned = b },
          ground (arith, key_of-job_value i b),
        ),
    λ (v, e).
        rw
          (
            (assert_identity_text_iff p (job_texts i)).1 v.texts,
            v.versioned,
            key_of-job_value i v.versioned,
          )
          (ap ok e),
  )

pub differ : (s t : String) → (s == t) ≡ false → s ≡ t → ⊥
differ s t f h = ground (arith, eq_iff s t)

mode_text-eq : (m n : PipelineMode) → mode_text m ≡ mode_text n → m ≡ n
mode_text-eq validate validate h = refl
mode_text-eq validate plan h = absurd (differ "validate" "plan" refl h)
mode_text-eq validate preview h = absurd (differ "validate" "preview" refl h)
mode_text-eq validate apply h = absurd (differ "validate" "apply" refl h)
mode_text-eq plan validate h = absurd (differ "plan" "validate" refl h)
mode_text-eq plan plan h = refl
mode_text-eq plan preview h = absurd (differ "plan" "preview" refl h)
mode_text-eq plan apply h = absurd (differ "plan" "apply" refl h)
mode_text-eq preview validate h = absurd (differ "preview" "validate" refl h)
mode_text-eq preview plan h = absurd (differ "preview" "plan" refl h)
mode_text-eq preview preview h = refl
mode_text-eq preview apply h = absurd (differ "preview" "apply" refl h)
mode_text-eq apply validate h = absurd (differ "apply" "validate" refl h)
mode_text-eq apply plan h = absurd (differ "apply" "plan" refl h)
mode_text-eq apply preview h = absurd (differ "apply" "preview" refl h)
mode_text-eq apply apply h = refl

job_canonical-eq : (i j : JobIdentity) → job_canonical i ≡ job_canonical j → i ≡ j
job_canonical-eq i j h =
    let e1 : i.entity_key ≡ j.entity_key = cc in
    let e2 : i.mode ≡ j.mode = mode_text-eq i.mode j.mode cc in
    let e3 : i.pipeline ≡ j.pipeline = cc in
    let e4 : i.pipeline_version ≡ j.pipeline_version = cc in
    let e5 : i.plugin_id ≡ j.plugin_id = cc in
    let e6 : i.plugin_version ≡ j.plugin_version = cc in
    let e7 : i.profile ≡ j.profile = cc in
    let e8 : i.task ≡ j.task = cc in
    λ d. record {
      profile = e7 d;
      pipeline = e3 d;
      pipeline_version = e4 d;
      task = e8 d;
      plugin_id = e5 d;
      plugin_version = e6 d;
      entity_key = e1 d;
      mode = e2 d;
    }

-- Two different jobs that both have keys have the hashes of two different canonical values in them.
pub create_job_key_distinct :
    (p : Platform) (hex : Json → String) (i j : JobIdentity) {k l : String}
    → i ≢ j
    → create_job_key p hex i ≡ ok k
    → create_job_key p hex j ≡ ok l
    → (v : Json) × (w : Json) × (v ≢ w)
      × (append_text "job_" (hex v) ≡ k)
      × (append_text "job_" (hex w) ≡ l)
create_job_key_distinct p hex i j {k} {l} ne h g = (
  job_canonical i,
  job_canonical j,
  (λ e. ne (job_canonical-eq i j e)),
  ((create_job_key_iff p hex i k).0 h).1,
  ((create_job_key_iff p hex j l).0 g).1,
)
