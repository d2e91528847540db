-- ===== src/TaskRoutes/Marks.antt =====
-- src/broker/TaskRouteCatalog.ts: the constructor, the lookups and the reports of a task's state.
use copilot_agent_mesh.Prelude.{
  Bool, false, ◌&&◌, String, Option, none, some, List, [], ◌∷◌, ◌==◌, map, text_option_eq,
  if◌then◌else◌, Dict, lookup, insert,
}
use copilot_agent_mesh.Protocol.{
  Platform, Result, ok, err, ◌>>=◌, MeshErrorReason, mesh, TaskStatus, is_terminal,
}
use copilot_agent_mesh.Protocol.Schema.{uuid, timestamp}
use copilot_agent_mesh.Storage.Effects.{DiskOutcome}
use copilot_agent_mesh.TaskRoutes.Records.{Route, local, reported, kind_eq, state_eq, route_schema}
use copilot_agent_mesh.TaskRoutes.State.{
  StoredRoutes, Catalog, Outcome, on_ok, after_ok, read_stored, write_catalog,
}

-- What a snapshot tells of its task.
pub record ReportedTask : Type 0 where
  pub reported_task : String
  pub reported_request : String
  pub reported_device : String
  pub reported_workspace : String
  pub reported_state : TaskStatus
  pub updated_at : String

abbrev by_task : List Route → Dict Route → Dict Route
by_task [] routes = routes
by_task (r ∷ rest) routes = by_task rest (insert r.task_id r routes)

abbrev terminal_time : TaskStatus → String → Option String
terminal_time state at = if is_terminal state then some at else none

abbrev replaced : Route → List Route → List Route
replaced updated routes = map (λ r. if r.task_id == updated.task_id then updated else r) routes

abbrev not_found : MeshErrorReason
not_found = MeshErrorReason.task_not_found

module _ ⦃p : Platform⦄ where
  -- The constructor.
  unfoldable pub opened : Option StoredRoutes → Result Catalog
  opened stored = read_stored stored >>= λ routes. ok (record {
    stored = stored;
    routes = by_task routes [];
    attempt_groups = [];
    next_attempt_id = 1;
  })

  -- `get` and `list`.
  abbrev pub get_route : String → Catalog → Result (Option Route)
  get_route task_id c = uuid task_id >>= λ id. ok (lookup id c.routes)

  abbrev pub list_routes : Catalog → List Route
  list_routes c = map (λ entry. entry.1) c.routes

  abbrev owned_by_node : String → Option Route → Result Route
  owned_by_node source none = err (mesh not_found false)
  owned_by_node source (some r) =
      if text_option_eq r.source_node_id (some source) then ok r else err (mesh not_found false)

  -- `requireForNode` and `requireInbound`.
  unfoldable pub require_for_node : String → String → Catalog → Result Route
  require_for_node task_id source_node_id c = do
    found ← get_route task_id c
    source ← uuid source_node_id
    owned_by_node source found

  abbrev inbound_from : String → Option Route → Result Route
  inbound_from source none = err (mesh not_found false)
  inbound_from source (some r) =
      if kind_eq r.route_kind local && text_option_eq r.source_peer_id (some source)
      then ok r
      else err (mesh not_found false)

  unfoldable pub require_inbound : String → String → Catalog → Result Route
  require_inbound task_id source_peer_id c = do
    found ← get_route task_id c
    source ← uuid source_peer_id
    inbound_from source found

  -- The common end of `markSnapshot` and `markState`.
  write_state : DiskOutcome → Route → TaskStatus → Option String → Catalog → Outcome Route
  write_state disk r state terminal_at c =
      if state_eq r.state (reported state) && text_option_eq r.terminal_at terminal_at
      then (ok r, c)
      else on_ok (route_schema (record r { state = reported state; terminal_at = terminal_at })) c
          λ updated. on_ok (read_stored c.stored) c λ routes.
            after_ok (write_catalog disk (replaced updated routes) c) λ written c'.
              (ok updated, record c' { routes = insert updated.task_id updated c'.routes })

  abbrev is_report_of : ReportedTask → Route → Bool
  is_report_of t r =
      r.delegation_request_id == t.reported_request
      && r.target.device_id == t.reported_device
      && r.target.workspace_id == t.reported_workspace

  mark_found : DiskOutcome → ReportedTask → Option Route → Catalog → Outcome Route
  mark_found disk t none c = (err (mesh MeshErrorReason.protocol_incompatible false), c)
  mark_found disk t (some r) c =
      if is_report_of t r
      then write_state disk r t.reported_state (terminal_time t.reported_state t.updated_at) c
      else (err (mesh MeshErrorReason.protocol_incompatible false), c)

  -- `markSnapshot`.
  unfoldable pub mark_snapshot : DiskOutcome → ReportedTask → Catalog → Outcome Route
  unfolding mark_found write_state
  mark_snapshot disk t c = mark_found disk t (lookup t.reported_task c.routes) c

  mark_known : DiskOutcome → TaskStatus → String → Option Route → Catalog → Outcome Route
  mark_known disk state at none c = (err (mesh not_found false), c)
  mark_known disk state at (some r) c = write_state disk r state (terminal_time state at) c

  -- `markState`.
  unfoldable pub mark_state : DiskOutcome → String → TaskStatus → String → Catalog → Outcome Route
  unfolding mark_known write_state
  mark_state disk task_id state updated_at c =
      on_ok (uuid task_id) c
        λ id. on_ok (timestamp updated_at) c λ at. mark_known disk state at (lookup id c.routes) c
