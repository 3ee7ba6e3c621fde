-- ===== src/Core/Validation/Issues.antt =====
-- Issues (packages/core/src/validation.ts). The text of a path such as `stages[0].inputs.feed` is a
-- list of keys and indices, and each message is a constructor with what it interpolates.
use map_data_aggregation_enh.Base.{ℕ, suc, String, Bool, List, [], ◌∷◌, ◌++◌}
use map_data_aggregation_enh.Core.Types.{EffectClass}

pub data Segment : Type 0 where
  key : String → Segment
  at : ℕ → Segment

pub data Message : Type 0 where
  is_unsupported must_be_pipeline is_required must_not_be_empty : Message
  has_duplicates not_identity_text not_positive not_natural : Message
  differs_from_key bad_adapter_name undeclared_adapter undeclared_read source_with_inputs : Message
  invalid_stage_id stage_id_taken not_in_lock incompatible_api bad_integrity : Message
  bad_config_digest bad_executable_digest : Message
  not_earlier_output unknown_output incompatible_port undeclared_input : Message
  write_without_input write_without_output must_bind_sources bindings_not_allowed : Message
  not_a_read_effect not_canonical_uri bad_artifact_class bad_operations bad_child_ids : Message
  no_single_request no_single_binding unverified_public_write undeclared_effect : Message
  unknown_port bound_twice raw_as_derived not_policy_bound : String → Message
  missing_request : EffectClass → Message
  not_a_stage not_terminal no_verified_receipt : Message
  both_required_and_optional undelivered_writer : String → Message

pub record ValidationIssue : Type 0 where
  pub place : List Segment
  pub message : Message

-- A statement `if (test) issues.push({ path, message })`.
abbrev pub row : Bool → List Segment → Message → Bool × ValidationIssue
row test place message = (test, record { place = place; message = message })

-- A loop with an index, whose body pushes issues.
unfoldable pub each_from {ℓ} :
    {A : Type ℓ} → (ℕ → A → List ValidationIssue) → ℕ → List A → List ValidationIssue
each_from check i [] = []
each_from check i (x ∷ xs) = check i x ++ each_from check (suc i) xs

abbrev pub each {ℓ} : {A : Type ℓ} → (ℕ → A → List ValidationIssue) → List A → List ValidationIssue
each check xs = each_from check 0 xs

-- The issues of checks made one after the other.
abbrev pub concat : List (List ValidationIssue) → List ValidationIssue
concat [] = []
concat (issues ∷ rest) = issues ++ concat rest
