-- ===== src/Core/Identity/Examples.antt =====
-- An object in two orders, and the keys of two jobs.
use map_data_aggregation_enh.Base.{String, ◌≡◌, ◌≢◌, refl, ◌↔◌, ok, err}
use map_data_aggregation_enh.Base.Numbers.{nat, nan}
use map_data_aggregation_enh.Base.TextOrder.{text_lt}
use map_data_aggregation_enh.Core.Identity.{
  Json, num, obj, end, field, insert_field, normalize, canonicalize, non_finite_number,
}
use map_data_aggregation_enh.Core.Identity.Same.{Same}
use map_data_aggregation_enh.Core.Identity.Canonical.{canonicalize_iff, canonicalize_idem}
use map_data_aggregation_enh.Core.Types.{preview}
use map_data_aggregation_enh.Core.Platform.{plain_platform}
use map_data_aggregation_enh.Core.Identity.{bad_text, assert_identity_text, assert_positive_version}
use map_data_aggregation_enh.Core.Identity.Keys.{
  JobIdentity, append_text, digest_of, key_of, create_job_key,
}
use map_data_aggregation_enh.Core.Identity.Keys.Jobs.{
  job_canonical, IsJob, differ, create_job_key_iff, create_job_key_distinct,
}

abbrev one_way : Json
one_way = obj (field "b" (num (nat 1)) (field "a" (num (nat 2)) end))

abbrev other_way : Json
other_way = obj (field "a" (num (nat 2)) (field "b" (num (nat 1)) end))

one_way_sorts : canonicalize one_way ≡ ok other_way
unfolding canonicalize normalize insert_field text_lt
one_way_sorts = refl

nan_throws : canonicalize (num nan) ≡ err non_finite_number
unfolding canonicalize normalize
nan_throws = refl

canonicalize_iff_example : (canonicalize other_way ≡ ok other_way) ↔ Same one_way other_way
canonicalize_iff_example = canonicalize_iff one_way other_way one_way_sorts

canonicalize_idem_example : (canonicalize other_way ≡ ok other_way) × Same one_way other_way
canonicalize_idem_example = canonicalize_idem one_way one_way_sorts

abbrev job : String → JobIdentity
job entity = record {
  profile = "pizza";
  pipeline = "sync";
  pipeline_version = nat 1;
  task = "classify";
  plugin_id = "llm";
  plugin_version = "1.0.0";
  entity_key = entity;
  mode = preview;
}

-- A stand-in for the hash, which tells an object from the rest.
abbrev hex_of : Json → String
hex_of (obj fs) = "0b"
hex_of _ = "0f"

job_key : create_job_key plain_platform hex_of (job "e1") ≡ ok "job_0b"
unfolding create_job_key assert_identity_text assert_positive_version key_of digest_of canonicalize
    normalize insert_field text_lt
job_key = refl

other_job_key : create_job_key plain_platform hex_of (job "e2") ≡ ok "job_0b"
unfolding create_job_key assert_identity_text assert_positive_version key_of digest_of canonicalize
    normalize insert_field text_lt
other_job_key = refl

empty_refused : create_job_key plain_platform hex_of (job "") ≡ err (bad_text "entityKey")
unfolding create_job_key assert_identity_text assert_positive_version key_of digest_of canonicalize
    normalize insert_field text_lt
empty_refused = refl

two_jobs : job "e1" ≢ job "e2"
two_jobs e = differ "e1" "e2" refl (λ i. (e i).entity_key)

create_job_key_iff_example : (create_job_key plain_platform hex_of (job "e1") ≡ ok "job_0b") ↔ (
    IsJob plain_platform (job "e1")
    × (append_text "job_" (hex_of (job_canonical (job "e1"))) ≡ "job_0b"))
create_job_key_iff_example = create_job_key_iff plain_platform hex_of (job "e1") "job_0b"

create_job_key_distinct_example :
    (v : Json) × (w : Json) × (v ≢ w)
    × (append_text "job_" (hex_of v) ≡ "job_0b")
    × (append_text "job_" (hex_of w) ≡ "job_0b")
create_job_key_distinct_example =
    create_job_key_distinct plain_platform hex_of (job "e1") (job "e2") two_jobs job_key
      other_job_key
