-- ===== src/TaskRoutes/Records.antt =====
-- src/broker/TaskRouteCatalog.ts: the record of a route, its schema, the source of a request, and the
-- hash of a request.
use copilot_agent_mesh.Prelude.{
  ℕ, Bool, true, false, not, ◌&&◌, ◌||◌, String, Option, none, some, List, [], ◌∷◌, ◌++◌, ◌==◌, any,
  length, leb, is_some, bool_eq, text_option_eq, if◌then◌else◌,
}
use copilot_agent_mesh.Protocol.{
  Platform, Result, ok, err, type_error, ◌>>=◌, ◌>>◌, require, number_text, TaskStatus, status_eq,
  is_terminal, ◌^◌,
}
use copilot_agent_mesh.Protocol.Schema.{
  uuid, optional, each, tested, timestamp, is_workspace_identity, is_sha256_hex,
}
use copilot_agent_mesh.Task.Request.{
  TaskTarget, task_target_schema, valid_texts, or_empty, number_or_empty, continued,
}
use copilot_agent_mesh.Task.Request.Framing.{framed}

pub data RouteKind : Type 0 where
  local remote : RouteKind

pub data RouteState : Type 0 where
  reported : TaskStatus → RouteState
  ambiguous : RouteState

-- `TaskRouteRecord`.
pub record Route : Type 0 where
  pub task_id : String
  pub delegation_request_id : String
  pub continue_from_task_id : Option String
  pub request_hash : String
  pub target : TaskTarget
  pub route_kind : RouteKind
  pub peer_id : Option String
  pub source_node_id : Option String
  pub source_peer_id : Option String
  pub source_workspace_identity : Option String
  pub created_at : String
  pub state : RouteState
  pub terminal_at : Option String

-- The part of a route that names the source of a request: what `localRoute` and `remoteRoute` give.
pub record Source : Type 0 where
  pub source_kind : RouteKind
  pub remote_peer : Option String
  pub local_node : Option String
  pub local_peer : Option String

-- `RoutedTaskStartParams`.
pub record RoutedTaskStart : Type 0 where
  pub delegation_request_id : String
  pub task_id : String
  pub continue_from_task_id : Option String
  pub target : TaskTarget
  pub source_node_id : Option String
  pub source_workspace_identity : Option String
  pub timeout_minutes : Option ℕ
  pub title : String
  pub prompt : String
  pub acceptance_criteria : List String
  pub worker_deadline : String

abbrev pub kind_eq : RouteKind → RouteKind → Bool
kind_eq local local = true
kind_eq remote remote = true
kind_eq _ _ = false

abbrev pub state_eq : RouteState → RouteState → Bool
state_eq (reported s) (reported t) = status_eq s t
state_eq ambiguous ambiguous = true
state_eq _ _ = false

-- `isTerminal`.
abbrev pub is_terminal_route : RouteState → Bool
is_terminal_route (reported s) = is_terminal s
is_terminal_route ambiguous = false

-- `sameTarget` and `sameRouteRecord`.
abbrev pub same_target : TaskTarget → TaskTarget → Bool
same_target left right =
    left.device_id == right.device_id
    && left.node_id == right.node_id
    && left.node_instance_id == right.node_instance_id
    && left.workspace_id == right.workspace_id

abbrev pub same_route : Route → Route → Bool
same_route left right =
    left.task_id == right.task_id
    && left.delegation_request_id == right.delegation_request_id
    && left.request_hash == right.request_hash
    && kind_eq left.route_kind right.route_kind
    && text_option_eq left.peer_id right.peer_id
    && text_option_eq left.source_node_id right.source_node_id
    && text_option_eq left.source_peer_id right.source_peer_id
    && text_option_eq left.source_workspace_identity right.source_workspace_identity
    && left.created_at == right.created_at
    && state_eq left.state right.state
    && text_option_eq left.terminal_at right.terminal_at
    && same_target left.target right.target

-- The refinements of `taskRouteRecordSchema`.
abbrev has_one_source : RouteKind → Option String → Option String → Option String → Bool
has_one_source remote peer_id source_node_id source_peer_id =
    is_some peer_id && is_some source_node_id && not (is_some source_peer_id)
has_one_source local peer_id source_node_id source_peer_id =
    not (is_some peer_id) && not (bool_eq (is_some source_node_id) (is_some source_peer_id))

abbrev pub is_valid_route : Route → Bool
is_valid_route r =
    has_one_source r.route_kind r.peer_id r.source_node_id r.source_peer_id
    && bool_eq (is_terminal_route r.state) (is_some r.terminal_at)

abbrev identity_text : Option String → String
identity_text none = "legacy"
identity_text (some identity) = identity

-- `delegationKey`.
abbrev pub delegation_key : Route → String
delegation_key r = identity_text r.source_workspace_identity ^ ":" ^ r.delegation_request_id

-- The refinement of `taskRouteCatalogSchema`, against the routes before.
abbrev pub repeats : Route → Route → Bool
repeats r earlier = earlier.task_id == r.task_id || delegation_key earlier == delegation_key r

unfoldable pub has_unique_routes : List Route → List Route → Bool
has_unique_routes earlier [] = true
has_unique_routes earlier (r ∷ routes) =
    let rest = has_unique_routes (r ∷ earlier) routes in not (any (repeats r) earlier) && rest

abbrev pub task_route_catalog_limit : ℕ
task_route_catalog_limit = 1_000

module _ ⦃p : Platform⦄ where
  -- `taskRouteRecordSchema`.
  unfoldable pub route_schema : Route → Result Route
  route_schema r = do
    task_id ← uuid r.task_id
    delegation_request_id ← uuid r.delegation_request_id
    continue_from_task_id ← optional uuid r.continue_from_task_id
    require (is_sha256_hex r.request_hash) type_error
    target ← task_target_schema r.target
    peer_id ← optional uuid r.peer_id
    source_node_id ← optional uuid r.source_node_id
    source_peer_id ← optional uuid r.source_peer_id
    identity ← optional (tested is_workspace_identity) r.source_workspace_identity
    require (p.is_timestamp r.created_at) type_error
    terminal_at ← optional timestamp r.terminal_at
    let route = record r {
      task_id = task_id;
      delegation_request_id = delegation_request_id;
      continue_from_task_id = continue_from_task_id;
      target = target;
      peer_id = peer_id;
      source_node_id = source_node_id;
      source_peer_id = source_peer_id;
      source_workspace_identity = identity;
      terminal_at = terminal_at;
    }
    require (is_valid_route route) type_error
    ok route

  -- `taskRouteCatalogSchema`, of the routes.
  unfoldable pub catalog_schema : List Route → Result (List Route)
  catalog_schema routes = do
    require (leb (length routes) task_route_catalog_limit) type_error
    parsed ← each route_schema routes
    require (has_unique_routes [] parsed) type_error
    ok parsed

  -- `routedTaskStartParamsSchema`.
  unfoldable pub routed_task_start_schema : RoutedTaskStart → Result RoutedTaskStart
  routed_task_start_schema q = do
    delegation_request_id ← uuid q.delegation_request_id
    task_id ← uuid q.task_id
    continue_from_task_id ← optional uuid q.continue_from_task_id
    target ← task_target_schema q.target
    source_node_id ← optional uuid q.source_node_id
    identity ← optional (tested is_workspace_identity) q.source_workspace_identity
    require (valid_texts q.title q.prompt q.acceptance_criteria) type_error
    timeout_minutes ←
        optional (λ n. if leb 1 n && leb n 60 then ok n else err type_error) q.timeout_minutes
    require (p.is_timestamp q.worker_deadline) type_error
    ok (record q {
      delegation_request_id = delegation_request_id;
      task_id = task_id;
      continue_from_task_id = continue_from_task_id;
      target = target;
      source_node_id = source_node_id;
      source_workspace_identity = identity;
      timeout_minutes = timeout_minutes;
    })

  -- `localRoute` and `remoteRoute`.
  unfoldable pub local_route : Option String → Option String → Result Source
  local_route node_id peer_id = do
    node ← optional uuid node_id
    peer ← optional uuid peer_id
    require (not (bool_eq (is_some node) (is_some peer))) type_error
    ok (record { source_kind = local; remote_peer = none; local_node = node; local_peer = peer })

  unfoldable pub remote_route : String → String → Result Source
  remote_route peer_id source_node_id = do
    peer ← uuid peer_id
    node ← uuid source_node_id
    ok (record {
      source_kind = remote;
      remote_peer = some peer;
      local_node = some node;
      local_peer = none;
    })

abbrev kind_text : RouteKind → String
kind_text local = "local"
kind_text remote = "remote"

-- `canonicalRouteRequestHash`.
abbrev pub route_request_fields : RoutedTaskStart → Source → List String
route_request_fields q source =
    "copilot-agent-mesh/task-route/v1"
    ∷ kind_text source.source_kind
    ∷ or_empty source.remote_peer
    ∷ or_empty source.local_node
    ∷ or_empty source.local_peer
    ∷ or_empty q.source_workspace_identity
    ∷ q.delegation_request_id
    ∷ q.task_id
    ∷ q.target.device_id
    ∷ q.target.node_id
    ∷ q.target.node_instance_id
    ∷ q.target.workspace_id
    ∷ or_empty q.source_node_id
    ∷ number_or_empty q.timeout_minutes
    ∷ q.title
    ∷ q.prompt
    ∷ number_text (length q.acceptance_criteria)
    ∷ (q.acceptance_criteria ++ (q.worker_deadline ∷ continued q.continue_from_task_id))

unfoldable pub canonical_route_request_hash : ⦃p : Platform⦄ → RoutedTaskStart → Source → String
canonical_route_request_hash ⦃p = p⦄ q source =
    p.sha256_hex (framed (route_request_fields q source))
