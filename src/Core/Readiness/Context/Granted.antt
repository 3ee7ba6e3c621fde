-- ===== src/Core/Readiness/Context/Granted.antt =====
-- What is behind an effect that a context authorizes (packages/core/src/readiness.ts).
use mathlib.Core.List.{Permᴰ}
use map_data_aggregation_enh.Base.{
  ℕ, ◌≡◌, sym, ap, subst, ◌∙◌, String, true, false, some, List, All, Any, All-Any, Any-item,
  includes, Result, ok, err, bind-ok, ok_inj, ◌==◌, arith,
}
use map_data_aggregation_enh.Base.Numbers.{Num, gt}
use map_data_aggregation_enh.Core.Types.{
  StageDefinition, EffectRequestDeclaration, public_write, post_read, apply,
}
use map_data_aggregation_enh.Core.Authorization.Preview.{authorized-Covers}
use map_data_aggregation_enh.Core.Readiness.{
  Runtime, Registry, NotReady, ApplyReadinessInput, compute_host_policy_digest,
}
use map_data_aggregation_enh.Core.Readiness.Terms.{Allows, Grants}
use map_data_aggregation_enh.Core.Readiness.Apply.{assert_apply_ready}
use map_data_aggregation_enh.Core.Readiness.Ready.{
  IsRequested, IsReady, IsPermitted, assert_apply_ready-IsReady,
}
use map_data_aggregation_enh.Core.Readiness.Context.{
  StageInvocationSnapshot, World, Context, readiness, context_of, create,
}
use map_data_aggregation_enh.Core.Readiness.Context.Effects.{
  AuthorizedEffectAttempt, class_of, record_count_of, effect_input, authorize_effect,
}
use map_data_aggregation_enh.Core.Readiness.Context.Steps.{IsGranted, authorize_effect-IsGranted}

-- Rearranged operations include the same.
includes-Permᴰ :
    {xs ys : List String} (a : String) → Permᴰ xs ys → includes xs a ≡ true → includes ys a ≡ true
includes-Permᴰ a Permᴰ.nil h = h
includes-Permᴰ a (Permᴰ.cons {a = x} {b = y} {l₁} {l₂} e p) h =
    let same : (x == a) ≡ (y == a) = λ i. e i == a in ground (arith, includes-Permᴰ a p)
includes-Permᴰ a (Permᴰ.swap {a = x} {b = y} {a' = x'} {b' = y'} e f) h =
    let first : (x == a) ≡ (y' == a) = λ i. e i == a in
    let second : (y == a) ≡ (x' == a) = λ i. f i == a in ground arith
includes-Permᴰ a (Permᴰ.trans p q) h = includes-Permᴰ a q (includes-Permᴰ a p h)

readiness-ok : {A : Type 0} (m : Result NotReady A) {a : A} → readiness m ≡ ok a → m ≡ ok a
readiness-ok (ok a) h = ap ok (ok_inj h)
readiness-ok (err e) h = cc

pub create-ok :
    (r : Runtime) (k : ℕ) (i : ApplyReadinessInput) {c : Context}
    → create r k i ≡ ok c
    → (digest : String) × (assert_apply_ready r i ≡ ok tt)
      × (compute_host_policy_digest r i.host_policy ≡ ok digest)
      × (c ≡ context_of k i digest)
unfolding create
create-ok r k i h =
    let (_, a, h1) = bind-ok (readiness (assert_apply_ready r i)) _ h in
    let (d, b, h2) = bind-ok (readiness (compute_host_policy_digest r i.host_policy)) _ h1 in
    (
      d,
      readiness-ok (assert_apply_ready r i) a,
      readiness-ok (compute_host_policy_digest r i.host_policy) b,
      sym (ok_inj h2),
    )

-- A request of a stage of the definition is for the effect, and a policy of the profile allows it.
pub record IsJustified (i : ApplyReadinessInput) (a : AuthorizedEffectAttempt) (count : Num)
    : Type 0 where
  pub stage : StageDefinition
  pub request : EffectRequestDeclaration
  pub in_definition : Any (λ x. x ≡ stage) i.definition.stages
  pub of_stage : stage.id ≡ a.stage_id
  pub requested : Any (λ x. x ≡ request) stage.requested_effects
  pub same_effect : request.effect_class ≡ class_of a.subject
  pub same_resource : request.resource_uri ≡ a.resource_uri
  pub has_operation : includes request.operations a.operation ≡ true
  pub within_limit : gt count request.max_records ≡ false
  pub read_after : class_of a.subject ≡ public_write → request.verification ≡ some post_read
  pub allowed_by_profile : Any (λ policy. Allows policy stage.id request) i.profile.effect_policy

-- Every effect that a context authorizes is behind a request of the stage with the attempt's ID in
-- the definition it was made for.
justified :
    (r : Runtime) (k : ℕ) (i : ApplyReadinessInput) (digest : String) (now : Num)
    (registry : Registry) (a : AuthorizedEffectAttempt) (w : World) {w' : World}
    → IsReady r i
    → (g : IsGranted r now registry (context_of k i digest) a w w') → IsJustified i a g.count
justified r k i digest now registry a w ready g =
    let c = context_of k i digest in
    let (grant, there, covers, permits) =
      authorized-Covers r.platform (effect_input c g.snapshot a g.count) apply g.allowed in
    let (stage, in_definition, id, granted) =
      All-Any (IsRequested i) i.deployment.effect_authorizations ready.requested there in
    let (request, asked, same) =
      Any-item (λ q. Grants grant i.profile.id i.deployment.deployment_identity stage.id q)
        stage.requested_effects granted in
    let permitted =
      All-Any (IsPermitted i stage) stage.requested_effects
        (All-Any (λ s. All (IsPermitted i s) s.requested_effects) i.definition.stages
          ready.permitted in_definition)
        asked in
    record {
      stage = stage;
      request = request;
      in_definition = in_definition;
      of_stage = id ∙ (covers.same_stage ∙ g.of_stage);
      requested = asked;
      same_effect = sym same.same_effect ∙ covers.same_effect;
      same_resource = sym same.same_resource ∙ covers.same_resource;
      has_operation = includes-Permᴰ a.operation same.same_operations covers.has_operation;
      within_limit = subst (λ n. gt g.count n ≡ false) same.same_limit permits.0;
      read_after = λ e. sym same.same_check ∙ permits.1 e;
      allowed_by_profile = permitted.0;
    }

-- Whenever a context that was created for an input authorizes an effect, a stage of the definition
-- with the attempt's ID requests it: the request has the effect class, the resource and the
-- operation, its limit is not exceeded by the record count, a public write is read back, and the
-- profile allows exactly this request.
pub authorize_effect-IsJustified :
    (r : Runtime) (k : ℕ) (i : ApplyReadinessInput) (c : Context) (now : Num) (registry : Registry)
    (a : AuthorizedEffectAttempt) (w : World) {w' : World}
    → create r k i ≡ ok c
    → authorize_effect r now registry c a w ≡ ok w'
    → (snapshot : StageInvocationSnapshot) × (count : Num) × (record_count_of r now registry c w
          snapshot a.invocation a.subject
        ≡ ok count)
      × IsJustified i a count
authorize_effect-IsJustified r k i c now registry a w {w'} made h =
    let (digest, ready, _, same) = create-ok r k i made in
    let g =
      authorize_effect-IsGranted r now registry (context_of k i digest) a w
        (subst (λ x. authorize_effect r now registry x a w ≡ ok w') same h) in
    (
      g.snapshot,
      g.count,
      subst (λ x. record_count_of r now registry x w g.snapshot a.invocation a.subject ≡ ok g.count)
          (sym same) g.counted,
      justified r k i digest now registry a w (assert_apply_ready-IsReady r i ready) g,
    )
