-- ===== src/Outbox/State.antt =====
-- The state of the outbox of src/gateway/RpcPeer.ts, and its constants.
use copilot_agent_mesh.Prelude.{
  ℕ, ◌+◌, ◌*◌, Bool, true, false, String, Option, none, some, List, if◌then◌else◌, Dict, get_or,
  min, ◌==◌,
}
use copilot_agent_mesh.Protocol.{frame_bytes}

abbrev pub pressure_marker_max_events : ℕ
pressure_marker_max_events = 16

abbrev pub total_outbox_max_bytes : ℕ
total_outbox_max_bytes = frame_bytes + 256 * 1_024

abbrev pub total_outbox_max_events : ℕ
total_outbox_max_events = 128 + pressure_marker_max_events

pub data MessageKind : Type 0 where
  critical progress output output_marker : MessageKind

-- `QueuedMessage`. The number stands for the object's identity; a waiter is named by a number too.
pub record QueuedMessage : Type 0 where
  pub number : ℕ
  pub bytes : ℕ
  pub kind : MessageKind
  pub task_id : Option String
  pub waiters : List ℕ

-- `outboxMaxBytes` and `outboxMaxEvents`.
pub record OutboxLimits : Type 0 where
  pub max_bytes : ℕ
  pub max_events : ℕ

-- The fields of `RpcPeer` that `send` reads and writes. `in_flight` is the message that the socket was
-- given last, while `sending` is true; `is_open` is `readyState === OPEN`.
pub record Outbox : Type 0 where
  pub queue : List QueuedMessage
  pub in_flight : Option QueuedMessage
  pub markers : Dict ℕ
  pub episodes : List String
  pub queue_bytes : ℕ
  pub outbox_events : ℕ
  pub ordinary_queue_bytes : ℕ
  pub ordinary_outbox_events : ℕ
  pub is_open : Bool
  pub disposed : Bool
  pub next_number : ℕ

-- A value to send: the length of its JSON text and of its pressure marker's, and `ordinaryNotification`.
pub data Notification : Type 0 where
  no_notification : Notification
  progress_of output_of : (task_id : String) → Notification

pub record Outbound : Type 0 where
  pub bytes : ℕ
  pub marker_bytes : ℕ
  pub notification : Notification

-- What becomes of the promises of `send`: a waiter is resolved or rejected.
pub data Settled : Type 0 where
  resolved rejected : ℕ → Settled

abbrev pub is_ordinary : MessageKind → Bool
is_ordinary progress = true
is_ordinary output = true
is_ordinary _ = false

abbrev pub is_progress : MessageKind → Bool
is_progress progress = true
is_progress _ = false

abbrev pub ordinary_bytes : QueuedMessage → ℕ
ordinary_bytes m = if is_ordinary m.kind then m.bytes else 0

abbrev pub ordinary_event : QueuedMessage → ℕ
ordinary_event m = if is_ordinary m.kind then 1 else 0

-- The constructor's limits: options above the constants are cut to them.
abbrev pub outbox_limits : Option ℕ → Option ℕ → OutboxLimits
outbox_limits max_bytes max_events = record {
  max_bytes = min (get_or max_bytes (256 * 1_024)) (256 * 1_024);
  max_events = min (get_or max_events 128) 128;
}

-- `ordinaryNotification`, of the method and of `params.taskId` where that is a text.
abbrev pub ordinary_notification : String → Option String → Notification
ordinary_notification method none = no_notification
ordinary_notification method (some task_id) =
    if method == "task.progress"
    then progress_of task_id
    else if method == "task.output"
    then output_of task_id
    else no_notification
