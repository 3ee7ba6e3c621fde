-- ===== src/Core/Validation/Valid/Binding.antt =====
-- Source bindings without issues are valid (packages/core/src/validation.ts).
use map_data_aggregation_enh.Base.{
  ℕ, suc, ◌≡◌, String, List, [], ◌∷◌, ◌++◌, Dict, All, length, filter, append-eq-nil, failing-nil,
  not-false, eqb_iff,
}
use map_data_aggregation_enh.Core.Types.{
  SourceBinding, EffectRequestDeclaration, PortDeclaration, StagePluginManifest,
}
use map_data_aggregation_enh.Core.Platform.{Platform}
use map_data_aggregation_enh.Core.Validation.Issues.{Segment, key, at}
use map_data_aggregation_enh.Core.Validation.Bindings.{
  matches_binding, binding_issues, ports_issues, bound_after, bindings_issues, source_stage_issues,
  source_coverage_issues,
}
use map_data_aggregation_enh.Core.Validation.Valid.{IsBindingValid}

binding_issues-nil :
    (p : Platform) (requests : List EffectRequestDeclaration) (place : List Segment)
    (b : SourceBinding)
    → binding_issues p requests place b ≡ []
    → IsBindingValid requests b
unfolding binding_issues
binding_issues-nil p requests place b h =
    let rows = failing-nil _ h in
    record {
      reads = not-false _ rows.1.0;
      classed = not-false _ rows.1.1.1.0;
      requested_once =
          (eqb_iff (length (filter (matches_binding b) requests)) 1).0
            (not-false _ rows.1.1.1.1.1.1.1.1.0);
    }

bindings_issues-nil :
    (p : Platform) (requests : List EffectRequestDeclaration) (outputs : Dict PortDeclaration)
    (stage : List Segment) (i : ℕ) (bound : List String) (bs : List SourceBinding)
    → bindings_issues p requests outputs stage i bound bs ≡ []
    → All (IsBindingValid requests) bs
unfolding bindings_issues
bindings_issues-nil p requests outputs stage i bound [] h = tt
bindings_issues-nil p requests outputs stage i bound (b ∷ bs) h =
    let place = stage ++ key "sourceBindings" ∷ at i ∷ [] in
    let (x, h1) = append-eq-nil _ _ h in
    let (_, y) = append-eq-nil (ports_issues outputs place b bound b.output_ports) _ h1 in
    (
      binding_issues-nil p requests place b x,
      bindings_issues-nil p requests outputs stage (suc i)
          (bound_after outputs bound b.output_ports) bs y,
    )

pub source_stage_issues-nil :
    (p : Platform) (m : StagePluginManifest) (requests : List EffectRequestDeclaration)
    (bs : List SourceBinding) (stage : List Segment)
    → source_stage_issues p m requests bs stage ≡ []
    → All (IsBindingValid requests) bs
unfolding source_stage_issues
source_stage_issues-nil p m requests bs stage h =
    let (_, h1) = append-eq-nil _ _ h in
    let (x, _) = append-eq-nil _ (source_coverage_issues m.source_adapter m requests bs stage) h1 in
    bindings_issues-nil p requests m.outputs stage 0 [] bs x
