-- ===== src/Core/Validation/Formats.antt =====
-- The formats that the checks test (packages/core/src/validation.ts).
use Prim.Native.Char.{Char, code}
use text.Mathlib.Text.{starts_with}
use map_data_aggregation_enh.Base.{
  ℕ, zero, suc, String, Bool, true, false, not, ◌&&◌, ◌||◌, none, some, List, [], ◌∷◌, eqb, leb,
  ◌==◌,
}
use map_data_aggregation_enh.Base.Numbers.{num_eq}
use map_data_aggregation_enh.Core.Types.{
  PortDeclaration, Cardinality, one, many, Partitioning, global, by_partition, PortOrdering,
  canonical, irrelevant, policy_tag,
}
use map_data_aggregation_enh.Core.Platform.{Platform, has_forbidden}

abbrev pub between : ℕ → ℕ → Char → Bool
between low high c = leb low (code c) && leb (code c) high

abbrev pub every_char : (Char → Bool) → String → Bool
every_char p String.[] = true
every_char p (String.◌∷◌ c s) = p c && every_char p s

abbrev pub is_lower : Char → Bool
is_lower c = between 97 122 c

abbrev pub is_digit : Char → Bool
is_digit c = between 48 57 c

-- `STAGE_ID`: /^[a-z][a-z0-9-]*$/
abbrev pub is_stage_id : String → Bool
is_stage_id String.[] = false
is_stage_id (String.◌∷◌ c s) =
    is_lower c && every_char (λ d. is_lower d || is_digit d || eqb (code d) 45) s

abbrev pub text_length : String → ℕ
text_length String.[] = 0
text_length (String.◌∷◌ c s) = suc (text_length s)

abbrev pub is_hex : Char → Bool
is_hex c = between 97 102 c || is_digit c

abbrev pub drop_text : ℕ → String → String
drop_text zero s = s
drop_text (suc n) String.[] = String.[]
drop_text (suc n) (String.◌∷◌ c s) = drop_text n s

-- `SHA256_DIGEST`: /^sha256:[a-f0-9]{64}$/
unfoldable pub is_sha256 : String → Bool
is_sha256 s =
    starts_with s "sha256:"
    && every_char is_hex (drop_text 7 s)
    && eqb (text_length (drop_text 7 s)) 64

abbrev pub push_char : Char → List String → List String
push_char c [] = String.◌∷◌ c String.[] ∷ []
push_char c (s ∷ rest) = String.◌∷◌ c s ∷ rest

-- `text.split(".")`
unfoldable pub split_dots : String → List String
split_dots String.[] = "" ∷ []
split_dots (String.◌∷◌ c s) =
    let rest = split_dots s in
    elim (eqb (code c) 46) [ true ↦ "" ∷ rest | false ↦ push_char c rest ]

abbrev pub same_cardinality : Cardinality → Cardinality → Bool
same_cardinality one one = true
same_cardinality many many = true
same_cardinality _ _ = false

abbrev pub same_partitioning : Partitioning → Partitioning → Bool
same_partitioning global global = true
same_partitioning by_partition by_partition = true
same_partitioning _ _ = false

abbrev pub same_ordering : PortOrdering → PortOrdering → Bool
same_ordering canonical canonical = true
same_ordering irrelevant irrelevant = true
same_ordering _ _ = false

unfoldable pub same_port : PortDeclaration → PortDeclaration → Bool
same_port l r =
    l.schema.name == r.schema.name
    && num_eq l.schema.version r.schema.version
    && same_cardinality l.cardinality r.cardinality
    && same_partitioning l.partitioning r.partitioning
    && same_ordering l.ordering r.ordering
    && eqb (policy_tag l.artifact_policy) (policy_tag r.artifact_policy)

unfoldable pub is_canonical_resource_uri : Platform → String → Bool
is_canonical_resource_uri p uri = elim (p.parse_url uri) [
  | none ↦ false
  | some u ↦ u.href == uri && not (has_forbidden u)
]
