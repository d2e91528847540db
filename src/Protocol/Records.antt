-- ===== src/Protocol/Records.antt =====
-- shared/protocol/models.ts: the persisted task record. A record of version 1 or 2 is one record
-- whose field `version` holds what version 2 adds. `undefined` is `none`.
use copilot_agent_mesh.Prelude.{ℕ, Bool, String, Option, List, Dict}
use copilot_agent_mesh.Protocol.Status.{TaskStatus}

pub record TaskFailure : Type 0 where
  pub code : String
  pub message : String
  pub retryable : Bool

pub record PendingInput : Type 0 where
  pub input_id : String
  pub prompt : String

pub record TaskEventRecord : Type 0 where
  pub event_seq : ℕ
  pub at : String
  pub type : String
  pub summary : Option String

pub record RecoveryDescriptor : Type 0 where
  pub adapter : String
  pub session_id : String
  pub conversation_id : Option String

pub record RoutingTarget : Type 0 where
  pub device_id : String
  pub workspace_id : String
  pub node_id : Option String
  pub node_instance_id : Option String

pub record RoutedFields : Type 0 where
  pub continue_from_task_id : Option String
  pub target : RoutingTarget
  pub source_node_id : Option String
  pub source_workspace_identity : Option String
  pub timeout_minutes : Option ℕ

pub data SchemaVersion : Type 0 where
  version_1 : SchemaVersion
  version_2 : RoutedFields → SchemaVersion

pub record TaskRecord : Type 0 where
  pub version : SchemaVersion
  pub task_id : String
  pub delegation_request_id : String
  pub request_hash : String
  pub peer_id : String
  pub workspace_id : String
  pub workspace_lease_key : String
  pub title : String
  pub state : TaskStatus
  pub created_at : String
  pub updated_at : String
  pub event_seq : ℕ
  pub worker_deadline : String
  pub cancellation_deadline : Option String
  pub pending_input : Option PendingInput
  pub answered_inputs : Dict String
  pub recovery_descriptor : Option RecoveryDescriptor
  pub summary : Option String
  pub failure : Option TaskFailure
  pub events : List TaskEventRecord
  pub earliest_available_event_seq : Option ℕ
  pub events_truncated : Bool
