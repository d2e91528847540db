-- ===== src/TaskRoutes.antt =====
-- src/broker/TaskRouteCatalog.ts: which device, node or peer a task is routed to, and for whom.
pub mod Records
pub mod State
pub mod Marks
pub mod Settled
pub mod Remaining
pub mod Attempts
pub mod Retention
pub mod Reserving
pub mod Release
pub mod Calls
pub mod Repetition
pub mod NewRoutes
pub mod Reservations
pub mod Capacity
use copilot_agent_mesh.Prelude.{
  ℕ, Bool, true, false, not, ◌&&◌, ◌||◌, String, Option, none, some, List, [], ◌∷◌, ◌++◌, ◌==◌, any,
  select, find, map, is_some, text_option_eq, if◌then◌else◌, Dict, lookup, insert, remove,
}
use copilot_agent_mesh.Protocol.{
  Platform, Result, ok, err, type_error, MeshErrorReason, mesh, TaskStatus, require, ◌>>=◌,
  is_terminal,
}
use copilot_agent_mesh.Protocol.Schema.{uuid, timestamp}
use copilot_agent_mesh.Storage.Effects.{DiskOutcome}
use copilot_agent_mesh.TaskRoutes.Records.{
  Route, RouteKind, local, RouteState, reported, ambiguous, Source, RoutedTaskStart, kind_eq,
  state_eq, same_target, same_route, route_schema, local_route, remote_route,
  routed_task_start_schema, canonical_route_request_hash,
}
use copilot_agent_mesh.TaskRoutes.State.{
  AttemptGroup, Catalog, Reservation, Reserved, Outcome, on_ok, after_ok, read_stored,
  write_catalog, TextOrder, make_capacity, without_attempt, reservation_result,
  require_attempt_group,
}

-- The test of `find` in `reserveCore` and `assertCompatible`.
abbrev pub names_route : RoutedTaskStart → Route → Bool
names_route q r =
    r.task_id == q.task_id
    || (r.delegation_request_id == q.delegation_request_id
        && text_option_eq r.source_workspace_identity q.source_workspace_identity)

-- The condition of `IDEMPOTENCY_CONFLICT`.
abbrev pub conflicts : RoutedTaskStart → Source → String → Route → Bool
conflicts q source request_hash r =
    not (r.task_id == q.task_id)
    || not (r.delegation_request_id == q.delegation_request_id)
    || not (r.request_hash == request_hash)
    || not (kind_eq r.route_kind source.source_kind)
    || not (text_option_eq r.peer_id source.remote_peer)
    || not (text_option_eq r.source_node_id source.local_node)
    || not (text_option_eq r.source_peer_id source.local_peer)
    || not (text_option_eq r.source_workspace_identity q.source_workspace_identity)
    || not (same_target r.target q.target)

-- `assertContinuationRoute`, from the route of the task that is continued.
abbrev other_source : RoutedTaskStart → Source → Route → Bool
other_source q source r =
    not (kind_eq r.route_kind source.source_kind)
    || not (text_option_eq r.peer_id source.remote_peer)
    || not (text_option_eq r.source_node_id source.local_node)
    || not (text_option_eq r.source_peer_id source.local_peer)
    || not (text_option_eq r.source_workspace_identity q.source_workspace_identity)

abbrev continues : RoutedTaskStart → Source → Option Route → Result (Unit {0})
continues q source none = err (mesh MeshErrorReason.task_not_found false)
continues q source (some r) =
    if other_source q source r
    then err (mesh MeshErrorReason.task_not_found false)
    else require (same_target r.target q.target)
        (mesh MeshErrorReason.task_recovery_unavailable false)

abbrev continued_from : RoutedTaskStart → Source → Dict Route → Option String → Result (Unit {0})
continued_from q source routes none = ok tt
continued_from q source routes (some id) = continues q source (lookup id routes)

abbrev pub assert_continuation_route : RoutedTaskStart → Source → Catalog → Result (Unit {0})
assert_continuation_route q source c = continued_from q source c.routes q.continue_from_task_id

-- The routes in memory after the write, which drops those that were not retained.
abbrev pub drop_unretained : List Route → List Route → Dict Route → Dict Route
drop_unretained retained [] routes = routes
drop_unretained retained (r ∷ rest) routes =
    drop_unretained retained rest
      (if any (λ kept. kept.task_id == r.task_id) retained then routes else remove r.task_id routes)

module _ ⦃p : Platform⦄ (locale_compare : String → String → TextOrder) where
  -- The literal that `reserveCore` parses.
  abbrev pub candidate_of : RoutedTaskStart → Source → String → String → Route
  candidate_of q source request_hash now = record {
    task_id = q.task_id;
    delegation_request_id = q.delegation_request_id;
    continue_from_task_id = q.continue_from_task_id;
    request_hash = request_hash;
    target = q.target;
    route_kind = source.source_kind;
    peer_id = source.remote_peer;
    source_node_id = source.local_node;
    source_peer_id = source.local_peer;
    source_workspace_identity = q.source_workspace_identity;
    created_at = now;
    state = ambiguous;
    terminal_at = none;
  }

  -- What `reserveCore` does with a route that it finds, and with none.
  pub reserve_existing : RoutedTaskStart → Source → Bool → Route → Catalog → Outcome Reserved
  reserve_existing q source as_attempt r c =
      if conflicts q source (canonical_route_request_hash q source) r
      then (err (mesh MeshErrorReason.idempotency_conflict false), c)
      else reservation_result r false as_attempt (record c { routes = insert r.task_id r c.routes })

  pub reserve_new :
      DiskOutcome
      → String
      → RoutedTaskStart
      → Source
      → Bool
      → List Route
      → Catalog
      → Outcome Reserved
  reserve_new disk now q source as_attempt routes c =
      on_ok (assert_continuation_route q source c) c λ continuing.
        on_ok (make_capacity locale_compare routes) c λ retained.
          on_ok (route_schema (candidate_of q source (canonical_route_request_hash q source) now)) c
            λ candidate. after_ok (write_catalog disk (retained ++ candidate ∷ []) c) λ written c'.
              reservation_result candidate true as_attempt (record c' {
                routes =
                    insert candidate.task_id candidate (drop_unretained retained routes c'.routes);
              })

  pub reserve_found :
      DiskOutcome
      → String
      → RoutedTaskStart
      → Source
      → Bool
      → List Route
      → Option Route
      → Catalog
      → Outcome Reserved
  reserve_found disk now q source as_attempt routes (some r) c =
      reserve_existing q source as_attempt r c
  reserve_found disk now q source as_attempt routes none c =
      reserve_new disk now q source as_attempt routes c

  -- `reserveCore`.
  unfoldable pub reserve_core :
      DiskOutcome → String → RoutedTaskStart → Source → Bool → Catalog → Outcome Reserved
  unfolding reserve_found reserve_existing reserve_new
  reserve_core disk now input source as_attempt c = on_ok (routed_task_start_schema input) c λ q.
      on_ok (read_stored c.stored) c
        λ routes. reserve_found disk now q source as_attempt routes (find (names_route q) routes) c

  -- `reserveLocal`, `reserveLocalAttempt`, `reserveRemote` and `reserveRemoteAttempt`.
  unfoldable pub reserve_local :
      DiskOutcome
      → String
      → RoutedTaskStart
      → (node_id peer_id : Option String) → Bool
      → Catalog
      → Outcome Reserved
  reserve_local disk now input node_id peer_id as_attempt c =
      on_ok (local_route node_id peer_id) c
        λ source. reserve_core disk now input source as_attempt c

  unfoldable pub reserve_remote :
      DiskOutcome
      → String
      → RoutedTaskStart
      → (peer_id source_node_id : String) → Bool
      → Catalog
      → Outcome Reserved
  reserve_remote disk now input peer_id source_node_id as_attempt c =
      on_ok (remote_route peer_id source_node_id) c
        λ source. reserve_core disk now input source as_attempt c

  -- `assertCompatible`.
  abbrev compatible : RoutedTaskStart → Source → Option Route → Catalog → Result (Unit {0})
  compatible q source none c = assert_continuation_route q source c
  compatible q source (some r) c =
      if conflicts q source (canonical_route_request_hash q source) r
      then err (mesh MeshErrorReason.idempotency_conflict false)
      else ok tt

  unfoldable pub assert_compatible : RoutedTaskStart → Source → Catalog → Result (Unit {0})
  assert_compatible input source c = routed_task_start_schema input >>= λ q.
      compatible q source (find (names_route q) (map (λ entry. entry.1) c.routes)) c
