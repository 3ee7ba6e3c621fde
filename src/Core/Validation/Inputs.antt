-- ===== src/Core/Validation/Inputs.antt =====
-- The checks of the inputs of a stage (packages/core/src/validation.ts).
use map_data_aggregation_enh.Base.{
  String, true, not, ◌||◌, Option, none, some, List, [], ◌∷◌, ◌++◌, Dict, lookup, keys, is_some,
  is_empty, failing, if◌then◌else◌,
}
use map_data_aggregation_enh.Core.Types.{PortDeclaration, StagePluginManifest}
use map_data_aggregation_enh.Core.Validation.Formats.{split_dots, same_port}
use map_data_aggregation_enh.Core.Validation.Issues.{
  Segment, key, ValidationIssue, row, each, is_required, not_earlier_output, unknown_output,
  incompatible_port, undeclared_input,
}

-- The producer that a reference names, if it is of the form `stage.output` and the stage is there.
pub record Source : Type 0 where
  pub producer_id : String
  pub output_name : String
  pub producer : StagePluginManifest

abbrev pub source_of : String → String → Option StagePluginManifest → Option Source
source_of id output none = none
source_of id output (some m) =
    if is_empty id || is_empty output
    then none
    else some (record { producer_id = id; output_name = output; producer = m })

abbrev pub resolve_parts : Dict StagePluginManifest → List String → Option Source
resolve_parts seen (id ∷ output ∷ []) = source_of id output (lookup id seen)
resolve_parts seen _ = none

unfoldable pub resolve : Dict StagePluginManifest → String → Option Source
resolve seen reference = resolve_parts seen (split_dots reference)

-- `inputs[inputName]`, where an empty reference counts as none.
abbrev pub given : Option String → Option String
given none = none
given (some r) = if is_empty r then none else some r

abbrev pub port_issues :
    List Segment → PortDeclaration → Option PortDeclaration → List ValidationIssue
port_issues place port none = failing (row true place unknown_output ∷ [])
port_issues place port (some output) =
    failing (row (not (same_port port output)) place incompatible_port ∷ [])

abbrev pub source_issues : List Segment → PortDeclaration → Option Source → List ValidationIssue
source_issues place port none = failing (row true place not_earlier_output ∷ [])
source_issues place port (some s) = port_issues place port (lookup s.output_name s.producer.outputs)

abbrev pub reference_issues :
    Dict StagePluginManifest → List Segment → PortDeclaration → Option String → List ValidationIssue
reference_issues seen place port none = failing (row port.is_required place is_required ∷ [])
reference_issues seen place port (some reference) =
    source_issues place port (resolve seen reference)

-- The loop over the ports that the plugin declares.
unfoldable pub input_issues :
    Dict StagePluginManifest
    → List Segment
    → Dict String
    → Dict PortDeclaration
    → List ValidationIssue
input_issues seen stage inputs [] = []
input_issues seen stage inputs ((name, port) ∷ ports) =
    reference_issues seen (stage ++ key "inputs" ∷ key name ∷ []) port (given (lookup name inputs))
    ++ input_issues seen stage inputs ports

abbrev pub consumed_by_source : Option Source → List String
consumed_by_source none = []
consumed_by_source (some s) = s.producer_id ∷ []

abbrev pub consumed_by : Dict StagePluginManifest → Option String → List String
consumed_by seen none = []
consumed_by seen (some reference) = consumed_by_source (resolve seen reference)

-- What the same loop adds to `consumedStages`.
unfoldable pub consumed_stages :
    Dict StagePluginManifest → Dict String → Dict PortDeclaration → List String
consumed_stages seen inputs [] = []
consumed_stages seen inputs ((name, port) ∷ ports) =
    consumed_by seen (given (lookup name inputs)) ++ consumed_stages seen inputs ports

-- The loop over the inputs that the stage gives.
unfoldable pub undeclared_issues :
    List Segment → Dict PortDeclaration → Dict String → List ValidationIssue
undeclared_issues stage ports inputs =
    each
      (λ _ name. failing (
        row (not (is_some (lookup name ports))) (stage ++ key "inputs" ∷ key name ∷ [])
          undeclared_input
        ∷ []))
      (keys inputs)
