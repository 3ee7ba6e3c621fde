-- ===== src/Core/Migration/Topology.antt =====
-- The services, their queues and the checks of the cutover (packages/core/src/migration.ts).
use map_data_aggregation_enh.Base.{
  ℕ, String, Bool, true, false, not, ◌&&◌, ◌||◌, Option, none, some, List, [], ◌∷◌, ◌++◌, Dict,
  lookup, insert, any, filter, length, includes, is_nil, is_some, is_truthy, is_empty, failing, eqb,
  ◌==◌, if◌then◌else◌,
}
use map_data_aggregation_enh.Base.Numbers.{Num, bad_positive}
use map_data_aggregation_enh.Core.Platform.{Platform}
use map_data_aggregation_enh.Core.Validation.Formats.{is_sha256}
use map_data_aggregation_enh.Core.Migration.{same_value_zero}

pub data QueueRole : Type 0 where
  producer consumer reconciler retry_feeder manual_writer observer : QueueRole

abbrev pub role_tag : QueueRole → ℕ
role_tag producer = 0
role_tag consumer = 1
role_tag reconciler = 2
role_tag retry_feeder = 3
role_tag manual_writer = 4
role_tag observer = 5

abbrev pub has_role : List QueueRole → QueueRole → Bool
has_role roles r = any (λ q. eqb (role_tag q) (role_tag r)) roles

pub data ServiceSchedule : Type 0 where
  persistent manual : ServiceSchedule
  interval : Num → ServiceSchedule
  calendar : String → ServiceSchedule

pub data ServiceMode : Type 0 where
  observe preview_only apply_changes : ServiceMode

pub data LiveState : Type 0 where
  loaded unloaded unknown : LiveState

pub record QueueBinding : Type 0 where
  pub queue_id : String
  pub store_uri : String
  pub lock_identity : String
  pub produces_tasks : List String
  pub consumes_tasks : List String

-- `desiredState` is `present` where `is_desired` is true, and `absent` elsewhere.
pub record ServiceTopologyEntry : Type 0 where
  pub id : String
  pub profile : String
  pub mode : ServiceMode
  pub desired_schedule : Option ServiceSchedule
  pub live_schedule : Option ServiceSchedule
  pub is_desired : Bool
  pub live_state : LiveState
  pub definition_present : Bool
  pub desired_command_digest : Option String
  pub live_command_digest : Option String
  pub queue_roles : List QueueRole
  pub queue_bindings : List QueueBinding
  pub target_write_scopes : List String
  pub state_refs : List String
  pub admission_groups : List String
  pub credential_refs : List String

abbrev pub mutating_roles : List QueueRole
mutating_roles = producer ∷ consumer ∷ reconciler ∷ retry_feeder ∷ manual_writer ∷ []

abbrev pub is_mutator : ServiceTopologyEntry → Bool
is_mutator s = any (has_role mutating_roles) s.queue_roles

unfoldable pub queue_mutators : List ServiceTopologyEntry → List ServiceTopologyEntry
queue_mutators services = filter is_mutator services

pub record TopologyCutoverEvidence : Type 0 where
  pub claims_reconciled : Bool
  pub enqueue_routing_switched : Bool
  pub legacy_writers_disabled : Bool

pub data Origin : Type 0 where
  desired live : Origin

pub data Problem : Type 0 where
  bad_interval empty_calendar bad_command_digest : Origin → Problem
  schedules_differ not_loaded no_desired_schedule no_live_schedule : Problem
  no_desired_digest no_live_digest not_desired no_definition digests_differ : Problem
  no_queue_binding produces_nothing consumes_nothing no_target_scope : Problem
  empty_scope incomplete_binding : Problem
  also_written : (other scope : String) → Problem

pub data TopologyIssue : Type 0 where
  bad_service_id : String → TopologyIssue
  of_service : String → Problem → TopologyIssue
  claims_not_reconciled routing_not_switched writers_not_disabled : TopologyIssue

abbrev pub is_loaded : LiveState → Bool
is_loaded loaded = true
is_loaded _ = false

abbrev pub is_applying : ServiceMode → Bool
is_applying apply_changes = true
is_applying _ = false

abbrev pub is_bad_interval : Option ServiceSchedule → Bool
is_bad_interval (some (interval every)) = bad_positive every
is_bad_interval _ = false

abbrev pub is_empty_calendar : Platform → Option ServiceSchedule → Bool
is_empty_calendar p (some (calendar expression)) = is_empty (p.trim expression)
is_empty_calendar p _ = false

-- Both are there, and their JSON texts differ, where their entries stand in the same order. (The text
-- of NaN is `null`. The source also finds two equal schedules different whose entries do not.)
abbrev pub differ : Option ServiceSchedule → Option ServiceSchedule → Bool
differ (some persistent) (some persistent) = false
differ (some manual) (some manual) = false
differ (some (interval a)) (some (interval b)) = not (same_value_zero a b)
differ (some (calendar a)) (some (calendar b)) = not (a == b)
differ none _ = false
differ (some a) none = false
differ (some a) (some b) = true

abbrev pub is_bad_digest_of : Option String → Bool
is_bad_digest_of none = false
is_bad_digest_of (some d) = not (is_empty d) && not (is_sha256 d)

abbrev pub digests_clash : Option String → Option String → Bool
digests_clash (some a) (some b) = not (is_empty a) && not (is_empty b) && not (a == b)
digests_clash _ _ = false

abbrev pub consuming_roles : List QueueRole
consuming_roles = consumer ∷ reconciler ∷ retry_feeder ∷ []

module _ (p : Platform) (s : ServiceTopologyEntry) where
  unfoldable pub schedule_problems : List Problem
  schedule_problems = failing (
      (is_bad_interval s.desired_schedule, bad_interval desired)
      ∷ (is_empty_calendar p s.desired_schedule, empty_calendar desired)
      ∷ (is_bad_interval s.live_schedule, bad_interval live)
      ∷ (is_empty_calendar p s.live_schedule, empty_calendar live)
      ∷ (differ s.desired_schedule s.live_schedule, schedules_differ)
      ∷ (s.is_desired && not (is_loaded s.live_state), not_loaded)
      ∷ (s.is_desired && not (is_some s.desired_schedule), no_desired_schedule)
      ∷ (is_loaded s.live_state && not (is_some s.live_schedule), no_live_schedule)
      ∷ [])

  unfoldable pub command_problems : List Problem
  command_problems = failing (
      (s.is_desired && not (is_truthy s.desired_command_digest), no_desired_digest)
      ∷ (is_loaded s.live_state && not (is_truthy s.live_command_digest), no_live_digest)
      ∷ (is_bad_digest_of s.desired_command_digest, bad_command_digest desired)
      ∷ (is_bad_digest_of s.live_command_digest, bad_command_digest live)
      ∷ (not s.is_desired && is_loaded s.live_state, not_desired)
      ∷ (is_loaded s.live_state && not s.definition_present, no_definition)
      ∷ (digests_clash s.desired_command_digest s.live_command_digest, digests_differ)
      ∷ [])

  unfoldable pub queue_problems : List Problem
  unfolding queue_mutators
  queue_problems = failing (
      (eqb (length (queue_mutators (s ∷ []))) 1 && is_nil s.queue_bindings, no_queue_binding)
      ∷ (
        has_role s.queue_roles producer
            && not (any (λ b. not (is_nil b.produces_tasks)) s.queue_bindings),
        produces_nothing,
      )
      ∷ (
        any (has_role consuming_roles) s.queue_roles
            && not (any (λ b. not (is_nil b.consumes_tasks)) s.queue_bindings),
        consumes_nothing,
      )
      ∷ (has_role s.queue_roles manual_writer && is_nil s.target_write_scopes, no_target_scope)
      ∷ [])

-- `loadedWriters` has a writer for the scope. (An empty ID counts as none.)
abbrev pub held : Dict String → String → Bool
held writers scope = is_truthy (lookup scope writers)

abbrev pub writer_name : Option String → String
writer_name none = ""
writer_name (some id) = id

abbrev pub set_writer : String → Dict String → String → Dict String
set_writer id writers scope =
    if is_empty scope || held writers scope then writers else insert scope id writers

unfoldable pub scope_problems : String → Dict String → List String → List Problem
scope_problems id writers [] = []
scope_problems id writers (scope ∷ scopes) =
    failing (
      (is_empty scope, empty_scope)
      ∷ (
        not (is_empty scope) && held writers scope,
        also_written (writer_name (lookup scope writers)) scope,
      )
      ∷ [])
    ++ scope_problems id (set_writer id writers scope) scopes

abbrev pub writers_after : String → Dict String → List String → Dict String
writers_after id writers [] = writers
writers_after id writers (scope ∷ scopes) = writers_after id (set_writer id writers scope) scopes

abbrev pub is_loaded_writer : ServiceTopologyEntry → Bool
is_loaded_writer s = is_loaded s.live_state && is_applying s.mode

abbrev pub claimed : ServiceTopologyEntry → List String
claimed s = if is_loaded_writer s then s.target_write_scopes else []

abbrev pub is_incomplete : QueueBinding → Bool
is_incomplete b = is_empty b.queue_id || is_empty b.store_uri || is_empty b.lock_identity

unfoldable pub binding_problems : List QueueBinding → List Problem
binding_problems [] = []
binding_problems (b ∷ rest) =
    failing ((is_incomplete b, incomplete_binding) ∷ []) ++ binding_problems rest

abbrev pub about : String → List Problem → List TopologyIssue
about id [] = []
about id (q ∷ rest) = of_service id q ∷ about id rest

unfoldable pub service_issues :
    Platform → List String → Dict String → ServiceTopologyEntry → List TopologyIssue
unfolding schedule_problems command_problems queue_problems binding_problems
service_issues p seen writers s =
    failing ((is_empty s.id || includes seen s.id, bad_service_id s.id) ∷ [])
    ++ (about s.id (schedule_problems p s)
        ++ (about s.id (command_problems p s)
            ++ (about s.id (queue_problems p s)
                ++ (about s.id (scope_problems s.id writers (claimed s))
                    ++ about s.id (binding_problems s.queue_bindings)))))

unfoldable pub services_issues :
    Platform → List String → Dict String → List ServiceTopologyEntry → List TopologyIssue
services_issues p seen writers [] = []
services_issues p seen writers (s ∷ rest) =
    service_issues p seen writers s
    ++ services_issues p (s.id ∷ seen) (writers_after s.id writers (claimed s)) rest

abbrev pub evidence_issues : TopologyCutoverEvidence → List TopologyIssue
evidence_issues e = failing (
    (not e.claims_reconciled, claims_not_reconciled)
    ∷ (not e.enqueue_routing_switched, routing_not_switched)
    ∷ (not e.legacy_writers_disabled, writers_not_disabled)
    ∷ [])

unfoldable pub topology_cutover_issues :
    Platform → List ServiceTopologyEntry → TopologyCutoverEvidence → List TopologyIssue
topology_cutover_issues p services e = services_issues p [] [] services ++ evidence_issues e
