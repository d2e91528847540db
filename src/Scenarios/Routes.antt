-- ===== src/Scenarios/Routes.antt =====
-- src/broker/TaskRouteCatalog.ts: a catalog with one route.
use copilot_agent_mesh.Prelude.{
  true, false, String, none, some, [], ◌∷◌, List, ◌≡◌, refl, arith, subst, Bool-cases, inl, inr,
  ◌==◌, is_some, if◌then◌else◌, lookup, insert, length, ◌<◌,
}
use copilot_agent_mesh.Protocol.{Platform, ok}
use copilot_agent_mesh.Protocol.Schema.{each}
use copilot_agent_mesh.Storage.Effects.{DiskOutcome}
use copilot_agent_mesh.Task.Request.{task_target_schema}
use copilot_agent_mesh.TaskRoutes.Records.{
  Route, RoutedTaskStart, RouteKind, Source, ambiguous, route_schema, catalog_schema,
  has_unique_routes, routed_task_start_schema, local_route, canonical_route_request_hash,
  task_route_catalog_limit,
}
use copilot_agent_mesh.TaskRoutes.State.{
  Catalog, TextOrder, same, Reservation, Reserved, reserved_attempt, read_stored, write_catalog,
  make_capacity, reservation_result,
}
use copilot_agent_mesh.TaskRoutes.Attempts.{retain_ambiguous}
use copilot_agent_mesh.TaskRoutes.{reserve_core, reserve_local}
use copilot_agent_mesh.TaskRoutes.Remaining.{IsRemaining, has_task}
use copilot_agent_mesh.TaskRoutes.Calls.{
  RouteCall, reserve, release, apply_calls, retained_route_stays,
}
use copilot_agent_mesh.TaskRoutes.Repetition.{route_of}
use copilot_agent_mesh.TaskRoutes.Reservations.{Requester, run_here, reserve_for, reserve_again}
use copilot_agent_mesh.TaskRoutes.Capacity.{make_capacity_room}
use copilot_agent_mesh.Scenarios.Samples.{time_of}

instance abbrev hex_platform : Platform
hex_platform = record {
  parse_uuid = λ text. if text == "" then none else some text;
  is_timestamp = λ text. is_some (time_of text);
  date_parse = time_of;
  sha256_hex = λ text. "aaaaaaaaaaaaaaaaaaaaaaaaaaaaaaaaaaaaaaaaaaaaaaaaaaaaaaaaaaaaaaaa";
}

uuid_settled :
    (s t : String) → hex_platform.parse_uuid s ≡ some t → hex_platform.parse_uuid t ≡ some t
uuid_settled s t h = elim (Bool-cases (s == "")) [
  | inl empty ↦ cc (rw empty at h)
  | inr full ↦
      let unchanged : s ≡ t = ground (arith, rw full at h) in
      subst (λ u. hex_platform.parse_uuid u ≡ some u) unchanged (rw full refl)
]

abbrev compare_texts : String → String → TextOrder
compare_texts s t = same

abbrev start : RoutedTaskStart
start = record {
  delegation_request_id = "d1";
  task_id = "t1";
  continue_from_task_id = none;
  target = record {
    device_id = "v1";
    node_id = "n1";
    node_instance_id = "x1";
    workspace_id = "w1";
  };
  source_node_id = none;
  source_workspace_identity = none;
  timeout_minutes = some 5;
  title = "title";
  prompt = "prompt";
  acceptance_criteria = "builds" ∷ [];
  worker_deadline = "10:00";
}

abbrev route : Route
route = record {
  task_id = "t1";
  delegation_request_id = "d1";
  continue_from_task_id = none;
  request_hash = "aaaaaaaaaaaaaaaaaaaaaaaaaaaaaaaaaaaaaaaaaaaaaaaaaaaaaaaaaaaaaaaa";
  target = start.target;
  route_kind = RouteKind.local;
  peer_id = none;
  source_node_id = some "n0";
  source_peer_id = none;
  source_workspace_identity = none;
  created_at = "08:00";
  state = ambiguous;
  terminal_at = none;
}

abbrev empty_catalog : Catalog
empty_catalog = record { stored = none; routes = []; attempt_groups = []; next_attempt_id = 1 }

abbrev requester : Requester
requester = run_here (some "n0") none

abbrev source : Source
source = record {
  source_kind = RouteKind.local;
  remote_peer = none;
  local_node = some "n0";
  local_peer = none;
}

abbrev attempt : Reservation
attempt = record { route = route; attempt_id = 1 }

abbrev reserved_catalog : Catalog
reserved_catalog =
    (reserve_for compare_texts DiskOutcome.done "08:00" start requester true empty_catalog).1

reserved :
    (reserve_for compare_texts DiskOutcome.done "08:00" start requester true empty_catalog).0
    ≡ ok (reserved_attempt attempt)
unfolding reserve_local reserve_core local_route routed_task_start_schema task_target_schema
    make_capacity route_schema canonical_route_request_hash write_catalog catalog_schema each
    has_unique_routes reservation_result
reserved = refl

reserve_again_example :
    (y : Reserved) × ((reserve_for compare_texts DiskOutcome.failed_before "09:00" start requester
        false reserved_catalog).0
      ≡ ok y)
    × (route_of y ≡ route)
    × ((reserve_for compare_texts DiskOutcome.failed_before "09:00" start requester false
          reserved_catalog).1.stored
        ≡ reserved_catalog.stored)
reserve_again_example =
    reserve_again compare_texts uuid_settled DiskOutcome.done DiskOutcome.failed_before "08:00"
      "09:00" start requester true false empty_catalog (reserved_attempt attempt) reserved

reserved_read : read_stored reserved_catalog.stored ≡ ok (route ∷ [])
unfolding reserve_local reserve_core local_route routed_task_start_schema task_target_schema
    make_capacity route_schema canonical_route_request_hash write_catalog catalog_schema each
    has_unique_routes reservation_result
reserved_read = refl

route_remains : IsRemaining "t1" (route ∷ [])
route_remains = record { present = refl; fixed = (refl, tt) }

retained : (retain_ambiguous attempt reserved_catalog).0 ≡ ok tt
unfolding retain_ambiguous lookup insert reserve_local reserve_core local_route
    routed_task_start_schema task_target_schema make_capacity route_schema
    canonical_route_request_hash write_catalog catalog_schema each has_unique_routes
    reservation_result
retained = refl

abbrev later_calls : List (DiskOutcome × RouteCall)
later_calls =
    (DiskOutcome.done, release attempt false false)
    ∷ (DiskOutcome.failed_after, reserve "09:00" start source true)
    ∷ (DiskOutcome.done, release (record { route = route; attempt_id = 2 }) false false)
    ∷ []

retained_route_stays_example :
    (later : List Route) × (read_stored
        (apply_calls compare_texts later_calls (retain_ambiguous attempt reserved_catalog).1).stored
      ≡ ok later)
    × (has_task "t1" later ≡ true)
retained_route_stays_example =
    retained_route_stays compare_texts uuid_settled attempt reserved_catalog (route ∷ [])
      later_calls reserved_read route_remains retained

capacity_made : make_capacity compare_texts (route ∷ []) ≡ ok (route ∷ [])
unfolding make_capacity
capacity_made = refl

make_capacity_room_example :
    (length (route ∷ []) < task_route_catalog_limit)
    × ((id : String) → IsRemaining id (route ∷ []) → IsRemaining id (route ∷ []))
make_capacity_room_example =
    make_capacity_room compare_texts (route ∷ []) (route ∷ []) (omega arith) capacity_made
