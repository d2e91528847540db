-- ===== src/Task/Idempotency.antt =====
-- src/domain/task.ts: finding the record of a request that was sent before, the migration of version 1,
-- and the owner of a record.
pub mod Matching
pub mod Routing
use copilot_agent_mesh.Prelude.{
  Bool, true, false, not, ◌&&◌, ◌||◌, String, Option, none, some, List, [], ◌∷◌, ◌==◌, select, find,
  text_option_eq, if◌then◌else◌,
}
use copilot_agent_mesh.Protocol.{
  Platform, Result, ok, err, MeshErrorReason, mesh, type_error, ◌>>=◌, ◌>>◌, require, TaskRecord,
  RoutingTarget, RoutedFields, SchemaVersion, version_1, version_2,
}
use copilot_agent_mesh.Protocol.Schema.{uuid, persisted_task_record_schema}
use copilot_agent_mesh.Task.Request.{
  OwnedTaskStart, OwnedRoutedTaskStart, TaskTarget, normalize_owned_task_start,
  canonical_task_request_hash, normalize_owned_routed_task_start,
  canonical_routed_task_request_hash,
}

-- The record has one of the two identifiers.
abbrev pub has_identifier : String → String → TaskRecord → Bool
has_identifier delegation_request_id task_id r =
    r.delegation_request_id == delegation_request_id || r.task_id == task_id

-- `normalized.sourceWorkspaceIdentity === undefined || (schemaVersion === 2 && …)`.
abbrev pub in_source_scope : Option String → SchemaVersion → Bool
in_source_scope none _ = true
in_source_scope (some identity) version_1 = false
in_source_scope (some identity) (version_2 v) =
    text_option_eq v.source_workspace_identity (some identity)

-- `match.target.nodeId === undefined || …` and the tests before it.
abbrev pub target_matches : SchemaVersion → OwnedRoutedTaskStart → Bool
target_matches version_1 n = true
target_matches (version_2 v) n =
    v.target.device_id == n.target.device_id
    && v.target.workspace_id == n.target.workspace_id
    && (text_option_eq v.target.node_id none
        || (text_option_eq v.target.node_id (some n.target.node_id)
            && text_option_eq v.target.node_instance_id (some n.target.node_instance_id)
            && text_option_eq v.source_node_id n.source_node_id))

-- A record that is hashed as a request of version 1: it has that version, or no live node.
abbrev pub hashed_as_v1 : SchemaVersion → Bool
hashed_as_v1 version_1 = true
hashed_as_v1 (version_2 v) = text_option_eq v.target.node_id none

abbrev pub continuation_of : SchemaVersion → Option String
continuation_of version_1 = none
continuation_of (version_2 v) = v.continue_from_task_id

-- The request of version 1 with the fields of a routed one.
abbrev pub unrouted : OwnedRoutedTaskStart → OwnedTaskStart
unrouted n = record {
  delegation_request_id = n.delegation_request_id;
  task_id = n.task_id;
  workspace_id = n.target.workspace_id;
  title = n.title;
  prompt = n.prompt;
  acceptance_criteria = n.acceptance_criteria;
  worker_deadline = n.worker_deadline;
  peer_id = n.peer_id;
  workspace_lease_key = n.workspace_lease_key;
}

-- The condition of `IDEMPOTENCY_CONFLICT`.
abbrev pub is_conflict : OwnedRoutedTaskStart → TaskRecord → String → Bool
is_conflict n r expected_hash =
    not (r.delegation_request_id == n.delegation_request_id)
    || not (r.task_id == n.task_id)
    || not (r.request_hash == expected_hash)
    || not (r.workspace_id == n.target.workspace_id)
    || not (text_option_eq (continuation_of r.version) n.continue_from_task_id)
    || not (target_matches r.version n)

abbrev decide_match : Bool → TaskRecord → Result (Option TaskRecord)
decide_match conflict r =
    if conflict then err (mesh MeshErrorReason.idempotency_conflict false) else ok (some r)

-- The condition of `TASK_ID_CONFLICT`.
abbrev pub is_start_conflict : OwnedTaskStart → TaskRecord → String → Bool
is_start_conflict n r request_hash =
    not (r.delegation_request_id == n.delegation_request_id)
    || not (r.task_id == n.task_id)
    || not (r.request_hash == request_hash)

unfoldable pub confirm_start :
    OwnedTaskStart → String → Option TaskRecord → Result (Option TaskRecord)
confirm_start n request_hash none = ok none
confirm_start n request_hash (some r) =
    if is_start_conflict n r request_hash
    then err (mesh MeshErrorReason.task_id_conflict false)
    else ok (some r)

module _ ⦃p : Platform⦄ where
  -- `matchIdempotentStart`.
  unfoldable pub match_idempotent_start :
      List TaskRecord → OwnedTaskStart → Result (Option TaskRecord)
  match_idempotent_start records q = do
    n ← normalize_owned_task_start q
    request_hash ← canonical_task_request_hash n
    confirm_start n request_hash (
        find (has_identifier n.delegation_request_id n.task_id)
          (select (λ r. r.peer_id == n.peer_id) records))

  -- `matchIdempotentRoutedStart`, from the match that `find` gives.
  unfoldable pub confirm_routed_start :
      OwnedRoutedTaskStart → Option TaskRecord → Result (Option TaskRecord)
  confirm_routed_start n none = ok none
  confirm_routed_start n (some r) = do
    expected_hash ←
        (if hashed_as_v1 r.version
          then canonical_task_request_hash (unrouted n)
          else canonical_routed_task_request_hash n)
    decide_match (is_conflict n r expected_hash) r

  unfoldable pub match_idempotent_routed_start :
      List TaskRecord → OwnedRoutedTaskStart → Result (Option TaskRecord)
  unfolding confirm_routed_start
  match_idempotent_routed_start records q = do
    n ← normalize_owned_routed_task_start q
    confirm_routed_start n (
        find (has_identifier n.delegation_request_id n.task_id) (
          select
            (λ r. r.peer_id == n.peer_id && in_source_scope n.source_workspace_identity r.version)
            records))

  migrate_version : TaskRecord → String → SchemaVersion → Result TaskRecord
  migrate_version r device_id (version_2 v) = ok r
  migrate_version r device_id version_1 = do
    device ← uuid device_id
    persisted_task_record_schema (record r {
      version = version_2 (record {
        continue_from_task_id = none;
        target = record {
          device_id = device;
          workspace_id = r.workspace_id;
          node_id = none;
          node_instance_id = none;
        };
        source_node_id = none;
        source_workspace_identity = none;
        timeout_minutes = none;
      });
    })

  -- `migrateTaskRecordV1`.
  unfoldable pub migrate_task_record_v1 : TaskRecord → String → Result TaskRecord
  unfolding migrate_version
  migrate_task_record_v1 r device_id = migrate_version r device_id r.version

  owned_by : TaskRecord → Option String → Result TaskRecord
  owned_by r none = err (mesh MeshErrorReason.task_not_found false)
  owned_by r (some peer_id) =
      if r.peer_id == peer_id then ok r else err (mesh MeshErrorReason.task_not_found false)

  -- `getOwnedTask`.
  unfoldable pub get_owned_task : Option TaskRecord → String → Result TaskRecord
  unfolding owned_by
  get_owned_task none authenticated = err (mesh MeshErrorReason.task_not_found false)
  get_owned_task (some r) authenticated = owned_by r (p.parse_uuid authenticated)
