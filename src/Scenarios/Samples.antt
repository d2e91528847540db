-- ===== src/Scenarios/Samples.antt =====
-- A platform, and requests and records of src/domain for the examples.
use copilot_agent_mesh.Prelude.{
  ℕ, true, false, String, Option, none, some, [], ◌∷◌, if◌then◌else◌, ◌==◌, is_some,
}
use copilot_agent_mesh.Protocol.{Platform, TaskRecord, TaskStatus, version_1, ◌^◌}
use copilot_agent_mesh.Task.Reducer.{TaskDomainEvent, progress}
use copilot_agent_mesh.Task.Request.{OwnedTaskStart, OwnedRoutedTaskStart}

abbrev pub time_of : String → Option ℕ
time_of text =
    if text == "08:00"
    then some 28_800_000
    else if text == "09:00"
    then some 32_400_000
    else if text == "10:00"
    then some 36_000_000
    else if text == "next day"
    then some 118_800_000
    else none

instance abbrev pub sample_platform : Platform
sample_platform = record {
  parse_uuid = λ text. if text == "" then none else some text;
  is_timestamp = λ text. is_some (time_of text);
  date_parse = time_of;
  sha256_hex = λ text. "digest of " ^ text;
}

abbrev pub running_task : TaskRecord
running_task = record {
  version = version_1;
  task_id = "t1";
  delegation_request_id = "d1";
  request_hash = "h1";
  peer_id = "p1";
  workspace_id = "w1";
  workspace_lease_key = "lease";
  title = "title";
  state = TaskStatus.running;
  created_at = "08:00";
  updated_at = "09:00";
  event_seq = 1;
  worker_deadline = "10:00";
  cancellation_deadline = none;
  pending_input = none;
  answered_inputs = [];
  recovery_descriptor = none;
  summary = none;
  failure = none;
  events = record { event_seq = 1; at = "09:00"; type = "agentStarted"; summary = none } ∷ [];
  earliest_available_event_seq = none;
  events_truncated = false;
}

abbrev pub reported_task : TaskRecord
reported_task = record running_task {
  updated_at = "10:00";
  event_seq = 2;
  events =
      record { event_seq = 1; at = "09:00"; type = "agentStarted"; summary = none }
      ∷ record { event_seq = 2; at = "10:00"; type = "progress"; summary = some "half" }
      ∷ [];
}

abbrev pub asking_task : TaskRecord
asking_task = record running_task {
  state = TaskStatus.needs_input;
  pending_input = some (record { input_id = "i1"; prompt = "which?" });
}

abbrev pub answered_task : TaskRecord
answered_task = record running_task {
  updated_at = "10:00";
  event_seq = 2;
  answered_inputs = ("i1", "a1") ∷ [];
  events =
      record { event_seq = 1; at = "09:00"; type = "agentStarted"; summary = none }
      ∷ record { event_seq = 2; at = "10:00"; type = "inputAnswered"; summary = none }
      ∷ [];
}

-- Two events, the older of which is more than a day before "next day".
abbrev pub long_task : TaskRecord
long_task = record reported_task {
  events =
      record { event_seq = 1; at = "08:00"; type = "agentStarted"; summary = none }
      ∷ record { event_seq = 2; at = "10:00"; type = "progress"; summary = some "half" }
      ∷ [];
}

abbrev pub cut_task : TaskRecord
cut_task = record long_task {
  events = record { event_seq = 2; at = "10:00"; type = "progress"; summary = some "half" } ∷ [];
  events_truncated = true;
  earliest_available_event_seq = some 2;
}

abbrev pub request : OwnedTaskStart
request = record {
  delegation_request_id = "d1";
  task_id = "t1";
  workspace_id = "w1";
  title = "title";
  prompt = "prompt";
  acceptance_criteria = "builds" ∷ "passes" ∷ [];
  worker_deadline = "10:00";
  peer_id = "p1";
  workspace_lease_key = "lease";
}

abbrev pub canonical_text : String
canonical_text = "2:p12:d12:t12:w15:title6:prompt1:26:builds6:passes5:10:00"

abbrev pub accepted_task : TaskRecord
accepted_task = record running_task {
  request_hash = "digest of 2:p12:d12:t12:w15:title6:prompt1:26:builds6:passes5:10:00";
  state = TaskStatus.accepted;
  updated_at = "08:00";
  event_seq = 0;
  events = [];
}

abbrev pub other_task : TaskRecord
other_task = record running_task { task_id = "t2"; delegation_request_id = "d2" }

abbrev pub routed_request : OwnedRoutedTaskStart
routed_request = record {
  delegation_request_id = "d1";
  task_id = "t1";
  continue_from_task_id = some "t0";
  target = record {
    device_id = "v1";
    node_id = "n1";
    node_instance_id = "x1";
    workspace_id = "w1";
  };
  source_node_id = none;
  source_workspace_identity = none;
  title = "title";
  prompt = "prompt";
  acceptance_criteria = "builds" ∷ [];
  timeout_minutes = some 30;
  worker_deadline = "10:00";
  peer_id = "p1";
  workspace_lease_key = "lease";
}

abbrev pub progress_event : TaskDomainEvent
progress_event = record { at = "10:00"; body = progress "half" }
