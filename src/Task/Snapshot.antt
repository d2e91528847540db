-- ===== src/Task/Snapshot.antt =====
-- What a peer reads of a task: src/application/RemoteTaskRunner.ts, `snapshot`, and the refinements of
-- `taskSnapshotSchema` and `taskSnapshotAfterEventSeqSchema` of shared/protocol/models.ts.
pub mod Slices
use copilot_agent_mesh.Prelude.{
  ℕ, ◌+◌, Bool, true, false, not, ◌&&◌, String, Option, none, some, List, max, ltb, leb, eqb,
  bool_eq, is_some, get_or, select, if◌then◌else◌,
}
use copilot_agent_mesh.Protocol.{
  TaskRecord, TaskEventRecord, TaskFailure, PendingInput, TaskStatus, SchemaVersion, Result, ok,
  gateway_validation, require, ◌>>=◌, ◌>>◌, task_event_journal_bytes, events_json_bytes,
}
use copilot_agent_mesh.Protocol.Schema.{max_safe_integer}
use copilot_agent_mesh.Protocol.Validation.{
  state_checks, contiguous_from, first_sequence, ends_at, expected_first,
}

-- `taskSnapshotObjectSchema`, with `afterEventSeq` where the snapshot is a slice.
pub record TaskSnapshot : Type 0 where
  pub version : SchemaVersion
  pub task_id : String
  pub delegation_request_id : String
  pub request_hash : String
  pub peer_id : String
  pub workspace_id : String
  pub title : String
  pub state : TaskStatus
  pub created_at : String
  pub updated_at : String
  pub event_seq : ℕ
  pub worker_deadline : String
  pub cancellation_deadline : Option String
  pub pending_input : Option PendingInput
  pub summary : Option String
  pub failure : Option TaskFailure
  pub events : List TaskEventRecord
  pub earliest_available_event_seq : Option ℕ
  pub events_truncated : Bool
  pub device_id : String
  pub after_event_seq : Option ℕ

-- `{ ...wire, deviceId }`: the record without its descriptor, its answers and its lease.
abbrev pub whole_snapshot : String → TaskRecord → TaskSnapshot
whole_snapshot device_id r = record {
  version = r.version;
  task_id = r.task_id;
  delegation_request_id = r.delegation_request_id;
  request_hash = r.request_hash;
  peer_id = r.peer_id;
  workspace_id = r.workspace_id;
  title = r.title;
  state = r.state;
  created_at = r.created_at;
  updated_at = r.updated_at;
  event_seq = r.event_seq;
  worker_deadline = r.worker_deadline;
  cancellation_deadline = r.cancellation_deadline;
  pending_input = r.pending_input;
  summary = r.summary;
  failure = r.failure;
  events = r.events;
  earliest_available_event_seq = r.earliest_available_event_seq;
  events_truncated = r.events_truncated;
  device_id = device_id;
  after_event_seq = none;
}

-- `record.events.filter((event) => event.eventSeq > afterEventSeq)`.
abbrev pub events_after : ℕ → List TaskEventRecord → List TaskEventRecord
events_after after events = select (λ event. ltb after event.event_seq) events

abbrev pub sliced_snapshot : String → TaskRecord → ℕ → TaskSnapshot
sliced_snapshot device_id r after =
    let earliest = get_or r.earliest_available_event_seq 1 in
    record (whole_snapshot device_id r) {
      events = events_after after r.events;
      earliest_available_event_seq =
          if r.events_truncated then some earliest else r.earliest_available_event_seq;
      events_truncated = ltb (after + 1) earliest;
      after_event_seq = some after;
    }

-- `snapshot`.
unfoldable pub snapshot : String → TaskRecord → Option ℕ → Result TaskSnapshot
snapshot device_id r none = ok (whole_snapshot device_id r)
snapshot device_id r (some after) = do
  require (leb after max_safe_integer && leb after r.event_seq) gateway_validation
  ok (sliced_snapshot device_id r after)

-- `validateTaskState` on a snapshot.
abbrev pub validate_snapshot_state : TaskSnapshot → Bool
validate_snapshot_state s =
    state_checks s.state s.pending_input s.cancellation_deadline s.failure s.summary

-- `validateWireJournalBudget`.
abbrev pub validate_wire_journal_budget : TaskSnapshot → Bool
validate_wire_journal_budget s = leb (events_json_bytes s.events) task_event_journal_bytes

-- The checks on a slice after its first test.
abbrev pub slice_checks : ℕ → TaskSnapshot → Bool
slice_checks after s =
    let earliest = get_or s.earliest_available_event_seq 1 in
    let actual_first = first_sequence s.events (s.event_seq + 1) in
    bool_eq s.events_truncated (ltb (after + 1) earliest)
    && not (is_some s.earliest_available_event_seq && ltb (s.event_seq + 1) earliest)
    && eqb actual_first (max (after + 1) earliest)
    && contiguous_from actual_first s.events
    && ends_at s.events s.event_seq

-- The `superRefine` of `taskSnapshotAfterEventSeqSchema`.
unfoldable pub validate_slice : ℕ → TaskSnapshot → Bool
validate_slice after s = not (ltb s.event_seq after) && slice_checks after s
