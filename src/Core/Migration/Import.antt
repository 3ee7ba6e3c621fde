-- ===== src/Core/Migration/Import.antt =====
-- What a binding accepts (packages/core/src/migration.ts).
use map_data_aggregation_enh.Base.{
  ℕ, zero, suc, ◌≡◌, refl, sym, ap, ◌∙◌, ◌↔◌, ◌⊎◌, inl, inr, String, true, false, not, Option, none,
  some, List, [], ◌∷◌, All, Any, Bool-cases, subst, ok_inj, eqb, eqb_iff, eq_iff, ok, refuse,
  refuse-ok, ok-refuse, bind-ok, ◌>>◌, not-false, arith,
}
use map_data_aggregation_enh.Base.Numbers.{Num, nat, neg, nan, num_eq-eq}
use map_data_aggregation_enh.Core.Validation.Formats.{is_sha256}
use map_data_aggregation_enh.Core.Migration.{
  LegacyStateKind, planner_state, acquisition_manifest, delivery_checkpoint, worker_queue, kind_tag,
  LegacyArtifact, LegacyStateDescriptor, LegacyImportBinding, BoundLegacyStateDescriptor,
  bad_digest, bad_artifact_digest, unrelocatable_artifact, check_digests, check_artifacts, differs,
  same_value_zero, supports, bound, digests, bind_legacy_import,
}

-- An artifact that can be moved with the state.
abbrev pub IsMovable : LegacyArtifact → Type 0
IsMovable a = (is_sha256 a.content_digest ≡ true) × (a.is_relocatable ≡ true)

-- The value is the expected one, where there is any.
abbrev pub Agrees : Option String → String → Type 0
Agrees value expected = (value ≡ none) ⊎ (value ≡ some expected)

-- The state fits the binding: its kind, its digests, which are digests, its schema version, which is
-- one of the supported ones, its profile and its target, and it can be moved.
pub record IsBindable (d : LegacyStateDescriptor) (b : LegacyImportBinding) : Type 0 where
  pub same_kind : d.kind ≡ b.kind
  pub content_hashed : is_sha256 d.content_digest ≡ true
  pub source_hashed : is_sha256 d.source_path_digest ≡ true
  pub same_content : d.content_digest ≡ b.expected_content_digest
  pub same_source : d.source_path_digest ≡ b.expected_source_path_digest
  pub supported : Any (λ v. v ≡ d.schema_version) b.supported_schema_versions
  pub profile_agrees : Agrees d.profile b.profile
  pub target_agrees : Agrees d.target b.target
  pub movable : All IsMovable d.referenced_artifacts

-- The state as it is, with the profile and the target of the binding.
pub record IsImport (d : LegacyStateDescriptor) (b : LegacyImportBinding)
    (w : BoundLegacyStateDescriptor) : Type 0 where
  pub kind : w.kind ≡ d.kind
  pub content_digest : w.content_digest ≡ d.content_digest
  pub schema_version : w.schema_version ≡ d.schema_version
  pub source_path_digest : w.source_path_digest ≡ d.source_path_digest
  pub profile : w.profile ≡ b.profile
  pub target : w.target ≡ b.target
  pub referenced_artifacts : w.referenced_artifacts ≡ d.referenced_artifacts

bound-IsImport :
    (d : LegacyStateDescriptor) (b : LegacyImportBinding) {w : BoundLegacyStateDescriptor}
    → bound d b ≡ w
    → IsImport d b w
bound-IsImport d b e = record {
  kind = λ i. (sym e i).kind;
  content_digest = λ i. (sym e i).content_digest;
  schema_version = λ i. (sym e i).schema_version;
  source_path_digest = λ i. (sym e i).source_path_digest;
  profile = λ i. (sym e i).profile;
  target = λ i. (sym e i).target;
  referenced_artifacts = λ i. (sym e i).referenced_artifacts;
}

IsImport-bound :
    (d : LegacyStateDescriptor) (b : LegacyImportBinding) (w : BoundLegacyStateDescriptor)
    → IsImport d b w
    → bound d b ≡ w
IsImport-bound d b w v = λ i. record {
  kind = sym v.kind i;
  content_digest = sym v.content_digest i;
  schema_version = sym v.schema_version i;
  source_path_digest = sym v.source_path_digest i;
  profile = sym v.profile i;
  target = sym v.target i;
  referenced_artifacts = sym v.referenced_artifacts i;
}

same_value_zero-eq : (a b : Num) → same_value_zero a b ≡ true → a ≡ b
same_value_zero-eq (nat a) b h = num_eq-eq (nat a) b h
same_value_zero-eq (neg a) b h = num_eq-eq (neg a) b h
same_value_zero-eq nan (nat b) h = cc
same_value_zero-eq nan (neg b) h = cc
same_value_zero-eq nan nan h = refl

same_value_zero_refl : (a : Num) → same_value_zero a a ≡ true
same_value_zero_refl (nat a) = ground arith
same_value_zero_refl (neg a) = ground arith
same_value_zero_refl nan = refl

supports_iff :
    (versions : List Num) (v : Num) → (supports versions v ≡ true) ↔ Any (λ x. x ≡ v) versions
supports_iff [] v = (λ h. absurd (ground arith), λ h. absurd h)
supports_iff (x ∷ xs) v = (
  λ h. elim (Bool-cases (same_value_zero x v)) [
    | inl t ↦ inl (same_value_zero-eq x v t)
    | inr f ↦ inr ((supports_iff xs v).0 (ground arith))
  ],
  λ h. elim h [
    | inl e ↦
        let same : same_value_zero x v ≡ true =
          subst (λ y. same_value_zero x y ≡ true) e (same_value_zero_refl x) in
        ground arith
    | inr t ↦ let rest = (supports_iff xs v).1 t in ground arith
  ],
)

kind_at : ℕ → LegacyStateKind
kind_at zero = planner_state
kind_at (suc zero) = acquisition_manifest
kind_at (suc (suc zero)) = delivery_checkpoint
kind_at (suc (suc (suc n))) = worker_queue

kind_at-kind_tag : (k : LegacyStateKind) → kind_at (kind_tag k) ≡ k
unfolding kind_at
kind_at-kind_tag planner_state = refl
kind_at-kind_tag acquisition_manifest = refl
kind_at-kind_tag delivery_checkpoint = refl
kind_at-kind_tag worker_queue = refl

kind-eq : (k l : LegacyStateKind) → eqb (kind_tag k) (kind_tag l) ≡ true → k ≡ l
kind-eq k l h =
    sym (kind_at-kind_tag k)
    ∙ (ap kind_at ((eqb_iff (kind_tag k) (kind_tag l)).0 h) ∙ kind_at-kind_tag l)

differs_iff : (o : Option String) (s : String) → (differs o s ≡ false) ↔ Agrees o s
differs_iff none s = (λ h. inl refl, λ h. refl)
differs_iff (some t) s = (
  λ h. inr (ap some ((eq_iff t s).0 (not-false _ h))),
  λ h. elim h [ inl e ↦ absurd (ground arith) | inr e ↦ ground (arith, eq_iff t s) ],
)

check_digests_iff :
    (rows : List (String × String))
    → (check_digests rows ≡ ok tt) ↔ All (λ x. is_sha256 x.1 ≡ true) rows
unfolding check_digests
check_digests_iff [] = (λ h. tt, λ h. refl)
check_digests_iff ((name, value) ∷ rest) = (
  λ h.
      let (a, b) = refuse-ok (not (is_sha256 value)) (bad_digest name) (check_digests rest) h in
      (not-false _ a, (check_digests_iff rest).0 b),
  λ h.
      ok-refuse (not (is_sha256 value)) (bad_digest name) (check_digests rest) (rw h.0)
        ((check_digests_iff rest).1 h.1),
)

check_artifacts_iff :
    (artifacts : List LegacyArtifact)
    → (check_artifacts artifacts ≡ ok tt) ↔ All IsMovable artifacts
unfolding check_artifacts
check_artifacts_iff [] = (λ h. tt, λ h. refl)
check_artifacts_iff (a ∷ rest) =
    let hashed = not (is_sha256 a.content_digest) in
    let movable = not a.is_relocatable in
    let later = check_artifacts rest in
    (
      λ h.
          let (x, k) =
            refuse-ok hashed bad_artifact_digest (refuse movable unrelocatable_artifact >> later)
              h in
          let (y, z) = refuse-ok movable unrelocatable_artifact later k in
          ((not-false _ x, not-false _ y), (check_artifacts_iff rest).0 z),
      λ h.
          ok-refuse hashed bad_artifact_digest (refuse movable unrelocatable_artifact >> later)
            (rw h.0.0)
            (ok-refuse movable unrelocatable_artifact later (rw h.0.1)
              ((check_artifacts_iff rest).1 h.1)),
    )

pub bind-IsBindable :
    (d : LegacyStateDescriptor) (b : LegacyImportBinding) {w : BoundLegacyStateDescriptor}
    → bind_legacy_import d b ≡ ok w
    → IsBindable d b × IsImport d b w
unfolding bind_legacy_import
bind-IsBindable d b h =
    let (kind, h1) = refuse-ok _ _ _ h in
    let (_, hashed, h2) = bind-ok _ _ h1 in
    let (content, h3) = refuse-ok _ _ _ h2 in
    let (source, h4) = refuse-ok _ _ _ h3 in
    let (version, h5) = refuse-ok _ _ _ h4 in
    let (profile, h6) = refuse-ok _ _ _ h5 in
    let (target, h7) = refuse-ok _ _ _ h6 in
    let (_, artifacts, last) = bind-ok _ _ h7 in
    let all_hashed = (check_digests_iff (digests d b)).0 hashed in
    (
      record {
        same_kind = kind-eq d.kind b.kind (not-false _ kind);
        content_hashed = all_hashed.0;
        source_hashed = all_hashed.1.0;
        same_content = (eq_iff d.content_digest b.expected_content_digest).0 (not-false _ content);
        same_source =
            (eq_iff d.source_path_digest b.expected_source_path_digest).0 (not-false _ source);
        supported =
            (supports_iff b.supported_schema_versions d.schema_version).0 (not-false _ version);
        profile_agrees = (differs_iff d.profile b.profile).0 profile;
        target_agrees = (differs_iff d.target b.target).0 target;
        movable = (check_artifacts_iff d.referenced_artifacts).0 artifacts;
      },
      bound-IsImport d b (ok_inj last),
    )

pub IsBindable-bind :
    (d : LegacyStateDescriptor) (b : LegacyImportBinding)
    → IsBindable d b
    → bind_legacy_import d b ≡ ok (bound d b)
unfolding bind_legacy_import
IsBindable-bind d b v =
    rw
      (
        (eqb_iff (kind_tag d.kind) (kind_tag b.kind)).1 (ap kind_tag v.same_kind),
        (check_digests_iff (digests d b)).1 (
          v.content_hashed,
          (
            v.source_hashed,
            (
              subst (λ x. is_sha256 x ≡ true) v.same_content v.content_hashed,
              (subst (λ x. is_sha256 x ≡ true) v.same_source v.source_hashed, tt),
            ),
          ),
        ),
        (eq_iff d.content_digest b.expected_content_digest).1 v.same_content,
        (eq_iff d.source_path_digest b.expected_source_path_digest).1 v.same_source,
        (supports_iff b.supported_schema_versions d.schema_version).1 v.supported,
        (differs_iff d.profile b.profile).1 v.profile_agrees,
        (differs_iff d.target b.target).1 v.target_agrees,
        (check_artifacts_iff d.referenced_artifacts).1 v.movable,
      )
      refl

-- A legacy state is imported exactly when it has the kind of the binding and its two digests, which
-- are SHA-256 digests, a schema version that the binding supports and, where it has them, the profile
-- and the target of the binding, and all its artifacts have SHA-256 digests and can be moved; and
-- what is imported has the binding's profile and target and is else the same.
pub bind_legacy_import_iff :
    (d : LegacyStateDescriptor) (b : LegacyImportBinding) (w : BoundLegacyStateDescriptor)
    → (bind_legacy_import d b ≡ ok w) ↔ (IsBindable d b × IsImport d b w)
bind_legacy_import_iff d b w =
    (λ h. bind-IsBindable d b h, λ (v, e). IsBindable-bind d b v ∙ ap ok (IsImport-bound d b w e))
