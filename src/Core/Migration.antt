-- ===== src/Core/Migration.antt =====
-- packages/core/src/migration.ts: the import of legacy state under a binding, and the checks before
-- the services are cut over. Cloning and freezing an object do not change its value.
pub mod Import
pub mod Topology
pub mod SingleWriter
mod Examples
use map_data_aggregation_enh.Base.{
  ℕ, String, Bool, true, false, not, ◌&&◌, ◌||◌, Option, none, some, List, [], ◌∷◌, any, eqb,
  Result, ok, err, refuse, ◌>>◌, ◌>>=◌, is_empty, ◌==◌,
}
use map_data_aggregation_enh.Base.Numbers.{Num, num_eq}
use map_data_aggregation_enh.Core.Validation.Formats.{is_sha256}

pub data LegacyStateKind : Type 0 where
  planner_state acquisition_manifest delivery_checkpoint worker_queue : LegacyStateKind

abbrev pub kind_tag : LegacyStateKind → ℕ
kind_tag planner_state = 0
kind_tag acquisition_manifest = 1
kind_tag delivery_checkpoint = 2
kind_tag worker_queue = 3

pub record LegacyArtifact : Type 0 where
  pub content_digest : String
  pub is_relocatable : Bool

pub record LegacyStateDescriptor : Type 0 where
  pub kind : LegacyStateKind
  pub content_digest : String
  pub schema_version : Num
  pub source_path_digest : String
  pub profile : Option String
  pub target : Option String
  pub referenced_artifacts : List LegacyArtifact

pub record LegacyImportBinding : Type 0 where
  pub kind : LegacyStateKind
  pub profile : String
  pub target : String
  pub expected_content_digest : String
  pub expected_source_path_digest : String
  pub supported_schema_versions : List Num

pub record BoundLegacyStateDescriptor : Type 0 where
  pub kind : LegacyStateKind
  pub content_digest : String
  pub schema_version : Num
  pub source_path_digest : String
  pub profile : String
  pub target : String
  pub referenced_artifacts : List LegacyArtifact

pub data ImportError : Type 0 where
  kind_differs content_differs source_path_differs unsupported_version : ImportError
  profile_differs target_differs bad_artifact_digest unrelocatable_artifact : ImportError
  bad_digest : String → ImportError

unfoldable pub check_digests : List (String × String) → Result ImportError (Unit {0})
check_digests [] = ok tt
check_digests ((name, value) ∷ rest) = do
  refuse (not (is_sha256 value)) (bad_digest name)
  check_digests rest

unfoldable pub check_artifacts : List LegacyArtifact → Result ImportError (Unit {0})
check_artifacts [] = ok tt
check_artifacts (a ∷ rest) = do
  refuse (not (is_sha256 a.content_digest)) bad_artifact_digest
  refuse (not a.is_relocatable) unrelocatable_artifact
  check_artifacts rest

-- `value !== null && value !== expected`
abbrev pub differs : Option String → String → Bool
differs none expected = false
differs (some value) expected = not (value == expected)

-- `includes` finds NaN too.
abbrev pub same_value_zero : Num → Num → Bool
same_value_zero Num.nan Num.nan = true
same_value_zero a b = num_eq a b

abbrev pub supports : List Num → Num → Bool
supports versions v = any (same_value_zero v) versions

abbrev pub bound : LegacyStateDescriptor → LegacyImportBinding → BoundLegacyStateDescriptor
bound d b = record {
  kind = d.kind;
  content_digest = d.content_digest;
  schema_version = d.schema_version;
  source_path_digest = d.source_path_digest;
  profile = b.profile;
  target = b.target;
  referenced_artifacts = d.referenced_artifacts;
}

abbrev pub digests : LegacyStateDescriptor → LegacyImportBinding → List (String × String)
digests d b =
    ("content", d.content_digest)
    ∷ ("source path", d.source_path_digest)
    ∷ ("expected content", b.expected_content_digest)
    ∷ ("expected source path", b.expected_source_path_digest)
    ∷ []

unfoldable pub bind_legacy_import :
    LegacyStateDescriptor → LegacyImportBinding → Result ImportError BoundLegacyStateDescriptor
bind_legacy_import d b = do
  refuse (not (eqb (kind_tag d.kind) (kind_tag b.kind))) kind_differs
  check_digests (digests d b)
  refuse (not (d.content_digest == b.expected_content_digest)) content_differs
  refuse (not (d.source_path_digest == b.expected_source_path_digest)) source_path_differs
  refuse (not (supports b.supported_schema_versions d.schema_version)) unsupported_version
  refuse (differs d.profile b.profile) profile_differs
  refuse (differs d.target b.target) target_differs
  check_artifacts d.referenced_artifacts
  ok (bound d b)
