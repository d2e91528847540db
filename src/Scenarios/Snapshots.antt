-- ===== src/Scenarios/Snapshots.antt =====
-- Examples for the snapshots that a peer reads.
use copilot_agent_mesh.Prelude.{
  ◌+◌, ◌-◌, drop, true, some, ltb, get_or, max, length, ◌≡◌, refl, arith,
}
use copilot_agent_mesh.Protocol.{ok, event_json_bytes}
use copilot_agent_mesh.Protocol.Validation.{validate_task_state, validate_full_journal}
use copilot_agent_mesh.Task.Snapshot.{
  TaskSnapshot, snapshot, validate_snapshot_state, validate_slice, validate_wire_journal_budget,
}
use copilot_agent_mesh.Task.Snapshot.Slices.{snapshot-slice}
use copilot_agent_mesh.Scenarios.Samples.{cut_task}

snapshot-slice_example :
    (s : TaskSnapshot) × (snapshot "device" cut_task (some 0) ≡ ok s)
    × (validate_snapshot_state s ≡ true)
    × (validate_slice 0 s ≡ true)
    × (validate_wire_journal_budget s ≡ true)
    × (s.events ≡ drop ((0 + 1) - get_or cut_task.earliest_available_event_seq 1) cut_task.events)
    × (length s.events + max (0 + 1) (get_or cut_task.earliest_available_event_seq 1)
        ≡ cut_task.event_seq + 1)
    × (s.events_truncated ≡ ltb (0 + 1) (get_or cut_task.earliest_available_event_seq 1))
unfolding validate_task_state validate_full_journal event_json_bytes
snapshot-slice_example = snapshot-slice "device" cut_task 0 refl refl (omega arith) (omega arith)
