-- ===== src/Task/Reducer/Edges.antt =====
-- src/domain/taskReducer.ts: every edge of the state diagram is taken by an event.
use copilot_agent_mesh.Prelude.{◌+◌, Bool, true, not, String, ◌≡◌, is_some}
use copilot_agent_mesh.Protocol.{TaskRecord, TaskStatus, Platform, ok}
use copilot_agent_mesh.Task.Reducer.{EventBody, task_reducer}

-- A task that recovers goes on with its question, if it has one.
abbrev pub resumes_as : TaskRecord → TaskStatus → Bool
resumes_as r TaskStatus.running = not (is_some r.pending_input)
resumes_as r TaskStatus.needs_input = is_some r.pending_input
resumes_as r _ = true

module _ ⦃p : Platform⦄ where
  -- Some event at the time leads to the state, with the next number.
  abbrev pub IsTaken : TaskRecord → String → TaskStatus → Type 0
  IsTaken r at s' =
      (body : EventBody) × (r' : TaskRecord) × (task_reducer r (record { at = at; body = body })
        ≡ ok r')
      × (r'.state ≡ s')
      × (r'.event_seq ≡ r.event_seq + 1)
