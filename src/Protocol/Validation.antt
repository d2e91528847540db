-- ===== src/Protocol/Validation.antt =====
-- shared/protocol/models.ts: the checks that `superRefine` adds to the record's schema. Each test is
-- true when its check adds no issue.
use copilot_agent_mesh.Prelude.{
  ℕ, suc, ◌+◌, Bool, true, false, String, not, ◌&&◌, ◌||◌, Option, some, List, [], ◌∷◌, leb, eqb,
  is_some, get_or, nat_option_eq, bool_eq,
}
use copilot_agent_mesh.Protocol.Limits.{task_event_journal_bytes}
use copilot_agent_mesh.Protocol.Status.{
  needs_input, recovering, cancelling, cancelled, failed, timed_out, completed, status_eq,
  TaskStatus,
}
use copilot_agent_mesh.Protocol.Records.{TaskRecord, TaskEventRecord, TaskFailure, PendingInput}
use copilot_agent_mesh.Protocol.Json.{events_json_bytes}

-- `validateTaskState`, on the fields that it reads.
abbrev pub state_checks :
    TaskStatus → Option PendingInput → Option String → Option TaskFailure → Option String → Bool
state_checks state pending_input cancellation_deadline failure summary =
    not (status_eq state needs_input && not (is_some pending_input))
    && not (
        is_some pending_input
        && (not (status_eq state needs_input) && not (status_eq state recovering)))
    && bool_eq (status_eq state cancelling || status_eq state cancelled)
        (is_some cancellation_deadline)
    && bool_eq (status_eq state failed || status_eq state timed_out) (is_some failure)
    && not (status_eq state completed && not (is_some summary))
    && not (is_some summary && (not (status_eq state completed) && not (status_eq state cancelled)))

unfoldable pub validate_task_state : TaskRecord → Bool
validate_task_state r =
    state_checks r.state r.pending_input r.cancellation_deadline r.failure r.summary

-- The loop over `events`: `events[index].eventSeq === first + index`.
abbrev pub contiguous_from : ℕ → List TaskEventRecord → Bool
contiguous_from first [] = true
contiguous_from first (e ∷ es) = eqb e.event_seq first && contiguous_from (suc first) es

-- `record.events[0]?.eventSeq ?? record.eventSeq + 1`.
abbrev pub first_sequence : List TaskEventRecord → ℕ → ℕ
first_sequence [] next = next
first_sequence (e ∷ es) next = e.event_seq

-- `events[events.length - 1].eventSeq === eventSeq`, when there is a last event.
abbrev pub ends_at : List TaskEventRecord → ℕ → Bool
ends_at [] seq = true
ends_at (e ∷ []) seq = eqb e.event_seq seq
ends_at (e ∷ f ∷ es) seq = ends_at (f ∷ es) seq

-- `record.eventsTruncated ? record.earliestAvailableEventSeq : 1`.
abbrev pub expected_first : Bool → Option ℕ → Option ℕ
expected_first true earliest = earliest
expected_first false earliest = some 1

-- `validateFullJournal`.
unfoldable pub validate_full_journal : TaskRecord → Bool
validate_full_journal r =
    nat_option_eq (expected_first events_truncated earliest_available_event_seq) (some actual)
    && not (not events_truncated && is_some earliest_available_event_seq)
    && not (events_truncated && leb (get_or earliest_available_event_seq 0) 1)
    && contiguous_from actual events
    && ends_at events event_seq
    && leb (events_json_bytes events) task_event_journal_bytes
  where
    open r use {events, event_seq, earliest_available_event_seq, events_truncated}

    actual : ℕ
    actual = first_sequence events (event_seq + 1)
