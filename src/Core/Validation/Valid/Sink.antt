-- ===== src/Core/Validation/Valid/Sink.antt =====
-- What the checks of the sinks let pass (packages/core/src/validation.ts).
use map_data_aggregation_enh.Base.{
  ℕ, ◌≡◌, refl, String, Bool, true, false, not, ◌&&◌, ◌⊎◌, Option, none, some, List, [], lookup,
  includes, any, All, All-map, failing-nil, not-false, inl, inr, arith,
}
use map_data_aggregation_enh.Core.Types.{
  Delivery, no_delivery, verified_receipt, StagePluginManifest, PipelineDefinition,
}
use map_data_aggregation_enh.Core.Authorization.{declares}
use map_data_aggregation_enh.Core.Validation.Stages.{Seen}
use map_data_aggregation_enh.Core.Validation.Sinks.{
  is_verified, sink_issues, sinks_issues, writer_issues, writers_issues, write_effects,
}
use map_data_aggregation_enh.Core.Validation.Wiring.{each_from-nil, row-nil}
use map_data_aggregation_enh.Core.Validation.Valid.{IsRequiredSink, IsDelivered}

verified_of : (v : Delivery) → is_verified v ≡ true → v ≡ verified_receipt
verified_of verified_receipt h = refl
verified_of no_delivery h = cc

sink_issues-nil :
    (name : String) (seen : Seen) (i : ℕ) (sink : String) (o : Option StagePluginManifest)
    → sink_issues true name seen i sink o ≡ []
    → (m : StagePluginManifest) × (o ≡ some m)
      × (includes seen.consumed sink ≡ false)
      × (m.delivery ≡ verified_receipt)
sink_issues-nil name seen i sink none h = absurd (row-nil _ h)
sink_issues-nil name seen i sink (some m) h =
    let rows = failing-nil _ h in (m, refl, rows.0, verified_of m.delivery (not-false _ rows.1.0))

pub sinks_issues-nil :
    (name : String) (seen : Seen) (sinks : List String)
    → sinks_issues true name seen sinks ≡ []
    → All (IsRequiredSink seen) sinks
unfolding sinks_issues
sinks_issues-nil name seen sinks h =
    All-map (λ sink x. sink_issues-nil name seen x.0 sink (lookup sink seen.plugins) x.1) sinks
      (each_from-nil _ 0 sinks h)

delivered :
    (consumed writes a b : Bool)
    → ((not consumed && writes) && (not a && not b)) ≡ false
    → consumed ≡ false
    → writes ≡ true
    → (a ≡ true) ⊎ (b ≡ true)
delivered consumed writes true b h c w = inl refl
delivered consumed writes false true h c w = inr refl
delivered consumed writes false false h c w = absurd (ground arith)

writer_issues-nil :
    (d : PipelineDefinition) (seen : Seen) (entry : String × StagePluginManifest)
    → writer_issues d seen entry ≡ []
    → IsDelivered d seen entry
writer_issues-nil d seen (id, m) h consumed writes =
    delivered (includes seen.consumed id) (any (declares write_effects) m.effects)
      (includes d.required_sinks id) (includes d.optional_sinks id) (failing-nil _ h).0 consumed
      writes

pub writers_issues-nil :
    (d : PipelineDefinition) (seen : Seen)
    → writers_issues d seen ≡ []
    → All (IsDelivered d seen) seen.plugins
unfolding writers_issues
writers_issues-nil d seen h =
    All-map (λ entry x. writer_issues-nil d seen entry x.1) seen.plugins
      (each_from-nil _ 0 seen.plugins h)
