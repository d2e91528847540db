-- ===== src/Task/Request.antt =====
-- src/domain/task.ts: a request to start a task, its canonical text, and the record that accepts it; with
-- the request schemas of shared/protocol/methods.ts and nodes.ts.
pub mod Framing
pub mod Decoding
pub mod Identity
use copilot_agent_mesh.Prelude.{
  ℕ, Bool, false, ◌&&◌, String, Option, none, some, List, [], ◌∷◌, ◌++◌, map, all, leb, length,
  if◌then◌else◌,
}
use copilot_agent_mesh.Protocol.{
  Platform, Result, ok, err, type_error, MeshError, ◌>>=◌, ◌>>◌, require, utf8_string, number_text,
  ◌^◌, utf8_byte_length, task_title_bytes, task_prompt_bytes, acceptance_criteria_count,
  acceptance_criterion_bytes, TaskRecord, RoutingTarget, RoutedFields, version_1, version_2,
  TaskStatus,
}
use copilot_agent_mesh.Protocol.Schema.{
  uuid, optional, tested, is_workspace_identity, persisted_task_record_schema,
}
use Framing.{framed}

pub record OwnedTaskStart : Type 0 where
  pub delegation_request_id : String
  pub task_id : String
  pub workspace_id : String
  pub title : String
  pub prompt : String
  pub acceptance_criteria : List String
  pub worker_deadline : String
  pub peer_id : String
  pub workspace_lease_key : String

-- `taskTargetSchema`: the target of a routed request names a node and its instance.
pub record TaskTarget : Type 0 where
  pub device_id : String
  pub node_id : String
  pub node_instance_id : String
  pub workspace_id : String

pub record OwnedRoutedTaskStart : Type 0 where
  pub delegation_request_id : String
  pub task_id : String
  pub continue_from_task_id : Option String
  pub target : TaskTarget
  pub source_node_id : Option String
  pub source_workspace_identity : Option String
  pub title : String
  pub prompt : String
  pub acceptance_criteria : List String
  pub timeout_minutes : Option ℕ
  pub worker_deadline : String
  pub peer_id : String
  pub workspace_lease_key : String

-- The fields of both schemas that are tested and not changed.
abbrev pub valid_texts : String → String → List String → Bool
valid_texts title prompt criteria =
    utf8_string task_title_bytes 1 title
    && utf8_string task_prompt_bytes 1 prompt
    && leb (length criteria) acceptance_criteria_count
    && all (utf8_string acceptance_criterion_bytes 1) criteria

-- `value ?? ''`.
abbrev pub or_empty : Option String → String
or_empty none = ""
or_empty (some s) = s

abbrev pub number_or_empty : Option ℕ → String
number_or_empty none = ""
number_or_empty (some n) = number_text n

abbrev pub continued : Option String → List String
continued none = []
continued (some id) = "continueFromTaskId" ∷ id ∷ []

-- The fields of `canonicalTaskRequest` and of `canonicalRoutedTaskRequest`.
abbrev pub request_fields : OwnedTaskStart → List String
request_fields q =
    q.peer_id
    ∷ q.delegation_request_id
    ∷ q.task_id
    ∷ q.workspace_id
    ∷ q.title
    ∷ q.prompt
    ∷ number_text (length q.acceptance_criteria)
    ∷ (q.acceptance_criteria ++ q.worker_deadline ∷ [])

abbrev pub routed_request_fields : OwnedRoutedTaskStart → List String
routed_request_fields q =
    q.peer_id
    ∷ q.delegation_request_id
    ∷ q.task_id
    ∷ q.target.device_id
    ∷ q.target.node_id
    ∷ q.target.node_instance_id
    ∷ q.target.workspace_id
    ∷ or_empty q.source_node_id
    ∷ or_empty q.source_workspace_identity
    ∷ number_or_empty q.timeout_minutes
    ∷ q.title
    ∷ q.prompt
    ∷ number_text (length q.acceptance_criteria)
    ∷ (q.acceptance_criteria ++ (q.worker_deadline ∷ continued q.continue_from_task_id))

module _ ⦃p : Platform⦄ where
  -- `normalizeOwnedTaskStart`. A part that does not parse throws a `TypeError`.
  unfoldable pub normalize_owned_task_start : OwnedTaskStart → Result OwnedTaskStart
  normalize_owned_task_start q = do
    delegation_request_id ← uuid q.delegation_request_id
    task_id ← uuid q.task_id
    workspace_id ← uuid q.workspace_id
    require (valid_texts q.title q.prompt q.acceptance_criteria) type_error
    require (p.is_timestamp q.worker_deadline) type_error
    peer_id ← uuid q.peer_id
    require (utf8_string 1_024 1 q.workspace_lease_key) type_error
    ok (record q {
      delegation_request_id = delegation_request_id;
      task_id = task_id;
      workspace_id = workspace_id;
      peer_id = peer_id;
    })

  unfoldable pub task_target_schema : TaskTarget → Result TaskTarget
  task_target_schema t = do
    device_id ← uuid t.device_id
    node_id ← uuid t.node_id
    node_instance_id ← uuid t.node_instance_id
    workspace_id ← uuid t.workspace_id
    ok (record {
      device_id = device_id;
      node_id = node_id;
      node_instance_id = node_instance_id;
      workspace_id = workspace_id;
    })

  -- `normalizeOwnedRoutedTaskStart`.
  unfoldable pub normalize_owned_routed_task_start :
      OwnedRoutedTaskStart → Result OwnedRoutedTaskStart
  unfolding task_target_schema
  normalize_owned_routed_task_start q = do
    delegation_request_id ← uuid q.delegation_request_id
    task_id ← uuid q.task_id
    continue_from_task_id ← optional uuid q.continue_from_task_id
    target ← task_target_schema q.target
    source_node_id ← optional uuid q.source_node_id
    source_workspace_identity ← optional (tested is_workspace_identity) q.source_workspace_identity
    require (valid_texts q.title q.prompt q.acceptance_criteria) type_error
    timeout_minutes ←
        optional (λ n. if leb 1 n && leb n 60 then ok n else err type_error) q.timeout_minutes
    require (p.is_timestamp q.worker_deadline) type_error
    peer_id ← uuid q.peer_id
    require (utf8_string 1_024 1 q.workspace_lease_key) type_error
    ok (record q {
      delegation_request_id = delegation_request_id;
      task_id = task_id;
      continue_from_task_id = continue_from_task_id;
      target = target;
      source_node_id = source_node_id;
      source_workspace_identity = source_workspace_identity;
      timeout_minutes = timeout_minutes;
      peer_id = peer_id;
    })

  -- `canonicalTaskRequest`, `canonicalRoutedTaskRequest` and their hashes.
  unfoldable pub canonical_task_request : OwnedTaskStart → Result String
  canonical_task_request q = normalize_owned_task_start q >>= λ n. ok (framed (request_fields n))

  unfoldable pub canonical_task_request_hash : OwnedTaskStart → Result String
  canonical_task_request_hash q = canonical_task_request q >>= λ text. ok (p.sha256_hex text)

  unfoldable pub canonical_routed_task_request : OwnedRoutedTaskStart → Result String
  canonical_routed_task_request q =
      normalize_owned_routed_task_start q >>= λ n. ok (framed (routed_request_fields n))

  unfoldable pub canonical_routed_task_request_hash : OwnedRoutedTaskStart → Result String
  canonical_routed_task_request_hash q =
      canonical_routed_task_request q >>= λ text. ok (p.sha256_hex text)

  -- `createAcceptedTask`.
  unfoldable pub create_accepted_task : OwnedTaskStart → String → Result TaskRecord
  create_accepted_task q at = do
    n ← normalize_owned_task_start q
    request_hash ← canonical_task_request_hash n
    ok (record {
      version = version_1;
      task_id = n.task_id;
      delegation_request_id = n.delegation_request_id;
      request_hash = request_hash;
      peer_id = n.peer_id;
      workspace_id = n.workspace_id;
      workspace_lease_key = n.workspace_lease_key;
      title = n.title;
      state = TaskStatus.accepted;
      created_at = at;
      updated_at = at;
      event_seq = 0;
      worker_deadline = n.worker_deadline;
      cancellation_deadline = none;
      pending_input = none;
      answered_inputs = [];
      recovery_descriptor = none;
      summary = none;
      failure = none;
      events = [];
      earliest_available_event_seq = none;
      events_truncated = false;
    })

  -- `createAcceptedRoutedTask`: the literal is parsed by the record's schema.
  unfoldable pub create_accepted_routed_task : OwnedRoutedTaskStart → String → Result TaskRecord
  create_accepted_routed_task q at = do
    n ← normalize_owned_routed_task_start q
    request_hash ← canonical_routed_task_request_hash n
    persisted_task_record_schema (record {
      version = version_2 (record {
        continue_from_task_id = n.continue_from_task_id;
        target = record {
          device_id = n.target.device_id;
          workspace_id = n.target.workspace_id;
          node_id = some n.target.node_id;
          node_instance_id = some n.target.node_instance_id;
        };
        source_node_id = n.source_node_id;
        source_workspace_identity = n.source_workspace_identity;
        timeout_minutes = n.timeout_minutes;
      });
      task_id = n.task_id;
      delegation_request_id = n.delegation_request_id;
      request_hash = request_hash;
      peer_id = n.peer_id;
      workspace_id = n.target.workspace_id;
      workspace_lease_key = n.workspace_lease_key;
      title = n.title;
      state = TaskStatus.accepted;
      created_at = at;
      updated_at = at;
      event_seq = 0;
      worker_deadline = n.worker_deadline;
      cancellation_deadline = none;
      pending_input = none;
      answered_inputs = [];
      recovery_descriptor = none;
      summary = none;
      failure = none;
      events = [];
      earliest_available_event_seq = none;
      events_truncated = false;
    })
