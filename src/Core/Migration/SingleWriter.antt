-- ===== src/Core/Migration/SingleWriter.antt =====
-- A topology without issues has one writer for each scope (packages/core/src/migration.ts).
use map_data_aggregation_enh.Base.{
  ◌≡◌, refl, sym, ◌∙◌, String, true, false, not, ◌&&◌, List, [], ◌∷◌, Dict, lookup, lookup-insert,
  includes, is_empty, All, All-map, append-eq-nil, failing-nil, not-false, or_false, Bool-cases,
  inl, inr, eq_iff, ◌==◌, arith,
}
use map_data_aggregation_enh.Core.Platform.{Platform}
use map_data_aggregation_enh.Core.Migration.Topology.{
  Problem, ServiceTopologyEntry, TopologyCutoverEvidence, held, set_writer, scope_problems,
  writers_after, is_loaded_writer, claimed, about, service_issues, services_issues,
  topology_cutover_issues, writer_name, empty_scope, also_written, schedule_problems,
  command_problems, queue_problems, binding_problems,
}

about-nil : (id : String) (qs : List Problem) → about id qs ≡ [] → qs ≡ []
about-nil id [] h = refl
about-nil id (q ∷ rest) h = cc

-- Setting a writer keeps the scopes that are held, and holds the scope.
held-set_writer :
    (id : String) (writers : Dict String) (scope s : String)
    → is_empty id ≡ false
    → held writers s ≡ true
    → held (set_writer id writers scope) s ≡ true
held-set_writer id writers scope s named h =
    ground (arith, lookup-insert scope s id writers, eq_iff scope s)

set_writer-held :
    (id : String) (writers : Dict String) (scope : String)
    → is_empty id ≡ false
    → is_empty scope ≡ false
    → held (set_writer id writers scope) scope ≡ true
set_writer-held id writers scope named full =
    ground (arith, lookup-insert scope scope id writers, eq_iff scope scope)

held-writers_after :
    (id : String) (writers : Dict String) (scopes : List String) (s : String)
    → is_empty id ≡ false
    → held writers s ≡ true
    → held (writers_after id writers scopes) s ≡ true
held-writers_after id writers [] s named h = h
held-writers_after id writers (scope ∷ scopes) s named h =
    held-writers_after id (set_writer id writers scope) scopes s named
      (held-set_writer id writers scope s named h)

-- Scopes without problems are free before and held after.
scopes_free :
    (id : String) (writers : Dict String) (scopes : List String) (s : String)
    → is_empty id ≡ false
    → scope_problems id writers scopes ≡ []
    → includes scopes s ≡ true
    → (held writers s ≡ false) × (held (writers_after id writers scopes) s ≡ true)
unfolding scope_problems
scopes_free id writers [] s named h k = cc
scopes_free id writers (scope ∷ scopes) s named h k =
    let (a, b) = append-eq-nil _ _ h in
    let rows =
      failing-nil
        ((is_empty scope, empty_scope)
          ∷ (
            not (is_empty scope) && held writers scope,
            also_written (writer_name (lookup scope writers)) scope,
          )
          ∷ [])
        a in
    let next = set_writer id writers scope in
    elim (Bool-cases (scope == s)) [
      | inl t ↦
          let e : scope ≡ s = (eq_iff scope s).0 t in
          let free : held writers scope ≡ false = ground (arith, rows.0, rows.1.0) in
          let now : held next scope ≡ true = set_writer-held id writers scope named rows.0 in
          (
            (λ i. held writers (sym e i)) ∙ free,
            held-writers_after id next scopes s named ((λ i. held next (sym e i)) ∙ now),
          )
      | inr f ↦
          let (free, later) = scopes_free id next scopes s named b (ground arith) in
          (
            elim (Bool-cases (held writers s)) [
              | inl t ↦ absurd (ground (arith, held-set_writer id writers scope s named t))
              | inr g ↦ g
            ],
            later,
          )
    ]

-- Two services that both are loaded and apply changes write to no common scope.
abbrev pub IsApart : ServiceTopologyEntry → ServiceTopologyEntry → Type 0
IsApart a b =
    is_loaded_writer a ≡ true
    → is_loaded_writer b ≡ true
    → (scope : String) → includes a.target_write_scopes scope ≡ true
    → includes b.target_write_scopes scope ≡ false

abbrev pub AreApart : List ServiceTopologyEntry → Type 0
AreApart [] = Unit
AreApart (s ∷ rest) = All (IsApart s) rest × AreApart rest

-- What a service without issues is.
service_clear :
    (p : Platform) (seen : List String) (writers : Dict String) (s : ServiceTopologyEntry)
    → service_issues p seen writers s ≡ []
    → ((is_empty s.id ≡ false) × (includes seen s.id ≡ false))
      × (scope_problems s.id writers (claimed s) ≡ [])
unfolding service_issues
service_clear p seen writers s h =
    let (a, h1) = append-eq-nil _ _ h in
    let (_, h2) = append-eq-nil (about s.id (schedule_problems p s)) _ h1 in
    let (_, h3) = append-eq-nil (about s.id (command_problems p s)) _ h2 in
    let (_, h4) = append-eq-nil (about s.id (queue_problems p s)) _ h3 in
    let (scopes, _) = append-eq-nil _ (about s.id (binding_problems s.queue_bindings)) h4 in
    (or_false _ _ (failing-nil _ a).0, about-nil s.id _ scopes)

-- No later service claims a scope that is held.
held_unclaimed :
    (p : Platform) (seen : List String) (writers : Dict String) (scope : String)
    (services : List ServiceTopologyEntry)
    → services_issues p seen writers services ≡ []
    → held writers scope ≡ true
    → All (λ s. includes (claimed s) scope ≡ false) services
unfolding services_issues
held_unclaimed p seen writers scope [] h k = tt
held_unclaimed p seen writers scope (s ∷ rest) h k =
    let (a, b) = append-eq-nil _ _ h in
    let ((named, _), clear) = service_clear p seen writers s a in
    (
      elim (Bool-cases (includes (claimed s) scope)) [
        | inl t ↦
            absurd (ground (arith, (scopes_free s.id writers (claimed s) scope named clear t).0))
        | inr f ↦ f
      ],
      held_unclaimed p (s.id ∷ seen) (writers_after s.id writers (claimed s)) scope rest b
          (held-writers_after s.id writers (claimed s) scope named k),
    )

claimed-writer :
    (s : ServiceTopologyEntry) → is_loaded_writer s ≡ true → claimed s ≡ s.target_write_scopes
claimed-writer s h = rw h

module _ {A B : Type 0} (P : A → B → Type 0) where
  All-swap : (xs : List A) → ((b : B) → All (λ a. P a b) xs) → All (λ a. (b : B) → P a b) xs
  All-swap [] f = tt
  All-swap (x ∷ xs) f = (λ b. (f b).0, All-swap xs (λ b. (f b).1))

-- A scope that a service claims.
abbrev ClaimedScope : ServiceTopologyEntry → Type 0
ClaimedScope s = (scope : String) × (includes (claimed s) scope ≡ true)

services_apart :
    (p : Platform) (seen : List String) (writers : Dict String)
    (services : List ServiceTopologyEntry)
    → services_issues p seen writers services ≡ []
    → AreApart services
unfolding services_issues
services_apart p seen writers [] h = tt
services_apart p seen writers (s ∷ rest) h =
    let (a, b) = append-eq-nil _ _ h in
    let ((named, _), clear) = service_clear p seen writers s a in
    let after_s = writers_after s.id writers (claimed s) in
    (
      All-map {Q = IsApart s}
          (λ t (f : (x : ClaimedScope s) → includes (claimed t) x.0 ≡ false) ws wt scope k.
            let here : includes (claimed s) scope ≡ true =
              (λ i. includes (claimed-writer s ws i) scope) ∙ k in
            (λ i. includes (sym (claimed-writer t wt) i) scope) ∙ f (scope, here))
          rest
          (All-swap (λ t (x : ClaimedScope s). includes (claimed t) x.0 ≡ false) rest
            (λ x.
              held_unclaimed p (s.id ∷ seen) after_s x.0 rest b
                (scopes_free s.id writers (claimed s) x.0 named clear x.1).1)),
      services_apart p (s.id ∷ seen) after_s rest b,
    )

-- A topology that may be cut over: no scope has two loaded writers, and the queues' claims, the
-- routing and the legacy writers are settled.
pub record IsSettled (services : List ServiceTopologyEntry) (e : TopologyCutoverEvidence)
    : Type 0 where
  pub apart : AreApart services
  pub reconciled : e.claims_reconciled ≡ true
  pub switched : e.enqueue_routing_switched ≡ true
  pub disabled : e.legacy_writers_disabled ≡ true

-- If a topology has no issue, any two of its services that are loaded and apply changes write to no
-- common scope, and all the evidence of the cutover is there.
pub topology-IsSettled :
    (p : Platform) (services : List ServiceTopologyEntry) (e : TopologyCutoverEvidence)
    → topology_cutover_issues p services e ≡ []
    → IsSettled services e
unfolding topology_cutover_issues
topology-IsSettled p services e h =
    let (a, b) = append-eq-nil _ _ h in
    let rows = failing-nil _ b in
    record {
      apart = services_apart p [] [] services a;
      reconciled = not-false _ rows.0;
      switched = not-false _ rows.1.0;
      disabled = not-false _ rows.1.1.0;
    }
