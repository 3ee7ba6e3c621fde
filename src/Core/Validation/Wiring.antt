-- ===== src/Core/Validation/Wiring.antt =====
-- What the checks of the inputs let pass (packages/core/src/validation.ts).
use map_data_aggregation_enh.Base.{
  ℕ, suc, ◌≡◌, refl, sym, ◌∙◌, String, true, false, Option, none, some, List, [], ◌∷◌, Dict, lookup,
  All, append-eq-nil, failing, failing-nil, not-false, arith,
}
use map_data_aggregation_enh.Core.Types.{PortDeclaration, StagePluginManifest}
use map_data_aggregation_enh.Core.Validation.Formats.{split_dots}
use map_data_aggregation_enh.Core.Validation.Ports.{IsCompatible, same_port-IsCompatible}
use map_data_aggregation_enh.Core.Validation.Issues.{Segment, ValidationIssue, concat, each_from}
use map_data_aggregation_enh.Core.Validation.Inputs.{
  Source, source_of, resolve, resolve_parts, given, port_issues, source_issues, reference_issues,
  input_issues,
}

-- A loop that pushes nothing has a body that pushes nothing for any item, at its index.
pub each_from-nil :
    {A : Type 0} (check : ℕ → A → List ValidationIssue) (i : ℕ) (xs : List A)
    → each_from check i xs ≡ []
    → All (λ x. (j : ℕ) × (check j x ≡ [])) xs
unfolding each_from
each_from-nil check i [] h = tt
each_from-nil check i (x ∷ xs) h =
    let (a, b) = append-eq-nil (check i x) _ h in ((i, a), each_from-nil check (suc i) xs b)

pub concat-nil :
    (checks : List (List ValidationIssue)) → concat checks ≡ [] → All (λ c. c ≡ []) checks
concat-nil [] h = tt
concat-nil (c ∷ rest) h = let (a, b) = append-eq-nil c (concat rest) h in (a, concat-nil rest b)

-- The reference `producer.output` to an output port of a stage that is seen.
abbrev pub Names : Dict StagePluginManifest → String → Source → PortDeclaration → Type 0
Names seen reference s output =
    (split_dots reference ≡ s.producer_id ∷ s.output_name ∷ [])
    × (lookup s.producer_id seen ≡ some s.producer)
    × (lookup s.output_name s.producer.outputs ≡ some output)

-- An input port without a reference is optional, and one with a reference gets a compatible port.
abbrev pub IsWired : Dict StagePluginManifest → PortDeclaration → Option String → Type 0
IsWired seen port none = port.is_required ≡ false
IsWired seen port (some reference) =
    (s : Source) × (output : PortDeclaration) × Names seen reference s output
    × IsCompatible port output

source_of-some :
    (id output : String) (o : Option StagePluginManifest) (s : Source)
    → source_of id output o ≡ some s
    → (id ≡ s.producer_id) × (output ≡ s.output_name) × (o ≡ some s.producer)
source_of-some id output none s h = cc
source_of-some id output (some m) s h = (ground arith, ground arith, ground arith)

resolve_parts-some :
    (seen : Dict StagePluginManifest) (parts : List String) (s : Source)
    → resolve_parts seen parts ≡ some s
    → (parts ≡ s.producer_id ∷ s.output_name ∷ []) × (lookup s.producer_id seen ≡ some s.producer)
resolve_parts-some seen [] s h = cc
resolve_parts-some seen (id ∷ []) s h = cc
resolve_parts-some seen (id ∷ output ∷ []) s h =
    let (a, b, c) = source_of-some id output (lookup id seen) s h in
    (λ i. a i ∷ b i ∷ [], (λ i. lookup (sym a i) seen) ∙ c)
resolve_parts-some seen (id ∷ output ∷ x ∷ rest) s h = cc

pub row-nil : (x : ValidationIssue) → failing ((true, x) ∷ []) ≡ [] → ⊥
unfolding failing
row-nil x h = cc

port_issues-nil :
    (place : List Segment) (port : PortDeclaration) (o : Option PortDeclaration)
    → port_issues place port o ≡ []
    → (output : PortDeclaration) × (o ≡ some output) × IsCompatible port output
port_issues-nil place port none h = absurd (row-nil _ h)
port_issues-nil place port (some output) h =
    let (a, _) = failing-nil _ h in
    (output, refl, same_port-IsCompatible port output (not-false _ a))

source_issues-nil :
    (seen : Dict StagePluginManifest) (place : List Segment) (port : PortDeclaration)
    (reference : String) (o : Option Source)
    → resolve seen reference ≡ o
    → source_issues place port o ≡ []
    → IsWired seen port (some reference)
unfolding resolve
source_issues-nil seen place port reference none e h = absurd (row-nil _ h)
source_issues-nil seen place port reference (some s) e h =
    let (parts, there) = resolve_parts-some seen (split_dots reference) s e in
    let (output, found, fits) =
      port_issues-nil place port (lookup s.output_name s.producer.outputs) h in
    (s, output, (parts, there, found), fits)

reference_issues-nil :
    (seen : Dict StagePluginManifest) (place : List Segment) (port : PortDeclaration)
    (o : Option String)
    → reference_issues seen place port o ≡ []
    → IsWired seen port o
reference_issues-nil seen place port none h = (failing-nil _ h).0
reference_issues-nil seen place port (some reference) h =
    source_issues-nil seen place port reference (resolve seen reference) refl h

pub input_issues-nil :
    (seen : Dict StagePluginManifest) (stage : List Segment) (inputs : Dict String)
    (ports : Dict PortDeclaration)
    → input_issues seen stage inputs ports ≡ []
    → All (λ x. IsWired seen x.1 (given (lookup x.0 inputs))) ports
unfolding input_issues
input_issues-nil seen stage inputs [] h = tt
input_issues-nil seen stage inputs ((name, port) ∷ ports) h =
    let (a, b) = append-eq-nil _ _ h in
    (
      reference_issues-nil seen _ port (given (lookup name inputs)) a,
      input_issues-nil seen stage inputs ports b,
    )
