-- ===== src/Scenarios/Reducer.antt =====
-- Examples for src/domain/taskReducer.ts.
use copilot_agent_mesh.Prelude.{◌+◌, true, String, none, some, ◌≡◌, ◌≢◌, ◌⊎◌, refl, lookup, insert}
use copilot_agent_mesh.Protocol.{ok, TaskRecord, TaskStatus, event_json_bytes}
use copilot_agent_mesh.Protocol.Validation.{validate_task_state, validate_full_journal}
use copilot_agent_mesh.Task.Journal.{compact_task_event_journal}
use copilot_agent_mesh.Task.Reducer.{cancel_requested, cancel_confirmed, task_reducer}
use copilot_agent_mesh.Task.Reducer.Answers.{answer_recorded, answer_again, answered}
use copilot_agent_mesh.Task.Reducer.Cancellation.{cancel_completes}
use copilot_agent_mesh.Task.Reducer.Diagram.{task_reducer-⟶, ◌⟶◌, IsSameTask}
use copilot_agent_mesh.Task.Reducer.Transition.{transition}
use copilot_agent_mesh.Task.Reducer.Validity.{task_reducer-valid}
use copilot_agent_mesh.Scenarios.Samples.{
  running_task, reported_task, asking_task, answered_task, progress_event, sample_platform,
}

task_reducer-valid_example :
    (validate_task_state reported_task ≡ true) × (validate_full_journal reported_task ≡ true)
unfolding task_reducer validate_task_state validate_full_journal event_json_bytes transition
    compact_task_event_journal
task_reducer-valid_example =
    task_reducer-valid running_task progress_event reported_task refl refl refl

-- A question to a task that recovers: the agent that has started takes it up again.
abbrev recovering_task : TaskRecord
recovering_task = record asking_task { state = TaskStatus.recovering }

task_reducer-⟶_example :
    (reported_task ≡ running_task)
    ⊎ ((running_task.state ⟶ reported_task.state)
        × (reported_task.event_seq ≡ running_task.event_seq + 1)
        × (reported_task.updated_at ≡ "10:00")
        × IsSameTask running_task reported_task)
unfolding task_reducer event_json_bytes transition compact_task_event_journal
task_reducer-⟶_example = task_reducer-⟶ running_task progress_event reported_task refl

cancel_completes_example :
    (r' : TaskRecord) × (r'' : TaskRecord) × (task_reducer asking_task
        (record { at = "09:00"; body = cancel_requested "10:00" })
      ≡ ok r')
    × (r'.state ≡ TaskStatus.cancelling)
    × (r'.pending_input ≡ none)
    × (task_reducer r' (record { at = "10:00"; body = cancel_confirmed (some "gone") }) ≡ ok r'')
    × (r''.state ≡ TaskStatus.cancelled)
    × (r''.cancellation_deadline ≡ some "10:00")
    × (r''.summary ≡ some "gone")
cancel_completes_example =
    cancel_completes asking_task "10:00" "09:00" "10:00" (some "gone") 32_400_000 36_000_000 refl
      refl refl refl refl

answer_recorded_example :
    (lookup "i1" answered_task.answered_inputs ≡ some "a1")
    × ((j : String)
        → "i1" ≢ j
        → lookup j answered_task.answered_inputs ≡ lookup j asking_task.answered_inputs)
    × ((answered_task ≡ asking_task)
        ⊎ ((asking_task.state ≡ TaskStatus.needs_input)
            × (answered_task.pending_input ≡ none)
            × (answered_task.state ≡ TaskStatus.running)))
unfolding task_reducer event_json_bytes transition compact_task_event_journal lookup insert
answer_recorded_example = answer_recorded asking_task "i1" "a1" "10:00" answered_task refl refl

answer_again_example : task_reducer answered_task (answered "i1" "a1" "next day") ≡ ok answered_task
unfolding task_reducer event_json_bytes transition compact_task_event_journal lookup insert
answer_again_example = answer_again asking_task "i1" "a1" "10:00" "next day" answered_task refl
