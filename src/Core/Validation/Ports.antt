-- ===== src/Core/Validation/Ports.antt =====
-- When two ports are the same for `samePort` (packages/core/src/validation.ts).
use map_data_aggregation_enh.Base.{
  ℕ, zero, suc, ◌≡◌, refl, sym, ap, ◌∙◌, true, eqb, eqb_iff, eq_iff, arith,
}
use map_data_aggregation_enh.Base.Numbers.{num_eq-eq}
use map_data_aggregation_enh.Core.Types.{
  ArtifactPolicy, required, derived_only, restricted, forbidden, policy_tag, PortDeclaration,
  Cardinality, one, many, Partitioning, global, by_partition, PortOrdering, canonical, irrelevant,
}
use map_data_aggregation_enh.Core.Validation.Formats.{
  same_cardinality, same_partitioning, same_ordering, same_port,
}

-- Two ports that agree in everything but whether the input is required.
pub record IsCompatible (l r : PortDeclaration) : Type 0 where
  pub same_name : l.schema.name ≡ r.schema.name
  pub same_version : l.schema.version ≡ r.schema.version
  pub as_many : l.cardinality ≡ r.cardinality
  pub as_partitioned : l.partitioning ≡ r.partitioning
  pub as_ordered : l.ordering ≡ r.ordering
  pub same_policy : l.artifact_policy ≡ r.artifact_policy

same_cardinality-eq : (a b : Cardinality) → same_cardinality a b ≡ true → a ≡ b
same_cardinality-eq one one h = refl
same_cardinality-eq one many h = cc
same_cardinality-eq many one h = cc
same_cardinality-eq many many h = refl

same_partitioning-eq : (a b : Partitioning) → same_partitioning a b ≡ true → a ≡ b
same_partitioning-eq global global h = refl
same_partitioning-eq global by_partition h = cc
same_partitioning-eq by_partition global h = cc
same_partitioning-eq by_partition by_partition h = refl

same_ordering-eq : (a b : PortOrdering) → same_ordering a b ≡ true → a ≡ b
same_ordering-eq canonical canonical h = refl
same_ordering-eq canonical irrelevant h = cc
same_ordering-eq irrelevant canonical h = cc
same_ordering-eq irrelevant irrelevant h = refl

policy_at : ℕ → ArtifactPolicy
policy_at zero = required
policy_at (suc zero) = derived_only
policy_at (suc (suc zero)) = restricted
policy_at (suc (suc (suc n))) = forbidden

policy_at-policy_tag : (a : ArtifactPolicy) → policy_at (policy_tag a) ≡ a
unfolding policy_at
policy_at-policy_tag required = refl
policy_at-policy_tag derived_only = refl
policy_at-policy_tag restricted = refl
policy_at-policy_tag forbidden = refl

policy-eq : (a b : ArtifactPolicy) → eqb (policy_tag a) (policy_tag b) ≡ true → a ≡ b
policy-eq a b h =
    sym (policy_at-policy_tag a)
    ∙ (ap policy_at ((eqb_iff (policy_tag a) (policy_tag b)).0 h) ∙ policy_at-policy_tag b)

pub same_port-IsCompatible : (l r : PortDeclaration) → same_port l r ≡ true → IsCompatible l r
unfolding same_port
same_port-IsCompatible l r h = record {
  same_name = (eq_iff l.schema.name r.schema.name).0 (ground arith);
  same_version = num_eq-eq l.schema.version r.schema.version (ground arith);
  as_many = same_cardinality-eq l.cardinality r.cardinality (ground arith);
  as_partitioned = same_partitioning-eq l.partitioning r.partitioning (ground arith);
  as_ordered = same_ordering-eq l.ordering r.ordering (ground arith);
  same_policy = policy-eq l.artifact_policy r.artifact_policy (ground arith);
}
