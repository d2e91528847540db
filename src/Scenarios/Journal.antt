-- ===== src/Scenarios/Journal.antt =====
-- Examples for src/domain/taskEvents.ts.
use copilot_agent_mesh.Prelude.{◌<◌, ◌≤◌, true, false, [], ◌≡◌, ◌⊎◌, refl, length}
use copilot_agent_mesh.Protocol.{
  ok, err, type_error, TaskRecord, task_event_journal_bytes, events_json_bytes, event_json_bytes,
}
use copilot_agent_mesh.Protocol.Validation.{validate_full_journal}
use copilot_agent_mesh.Task.Journal.{compact_task_event_journal}
use copilot_agent_mesh.Task.Journal.Compaction.{compact-longest, compact-valid, with_journal_of}
use copilot_agent_mesh.Task.Journal.Cut.{is_keepable}
use copilot_agent_mesh.Task.Journal.Suffix.{longest}
use copilot_agent_mesh.Task.Journal.Repetition.{compact_outcome, compact_twice, is_readable}
use copilot_agent_mesh.Scenarios.Samples.{long_task, cut_task, sample_platform}

compact-longest_example :
    (cut_task.events ≡ longest (is_keepable 118_800_000) long_task.events)
    × (events_json_bytes cut_task.events ≤ task_event_journal_bytes)
    × (cut_task ≡ with_journal_of cut_task long_task)
unfolding event_json_bytes compact_task_event_journal
compact-longest_example = compact-longest long_task "next day" cut_task 118_800_000 refl refl

compact-valid_example : validate_full_journal cut_task ≡ true
unfolding event_json_bytes compact_task_event_journal
compact-valid_example =
    compact-valid long_task "next day" cut_task
      (record { contiguous = refl; counted = refl; whole = λ _. (refl, refl); gap = λ e. cc }) refl

compact_outcome_example :
    ((0 < length long_task.events)
      × (is_readable long_task "no time" ≡ false)
      × (compact_task_event_journal long_task "no time" ≡ err type_error))
    ⊎ (((long_task.events ≡ []) ⊎ (is_readable long_task "no time" ≡ true))
        × ((r' : TaskRecord) × (compact_task_event_journal long_task "no time" ≡ ok r')))
compact_outcome_example = compact_outcome long_task "no time"

compact_twice_example : compact_task_event_journal cut_task "next day" ≡ ok cut_task
unfolding event_json_bytes compact_task_event_journal
compact_twice_example = compact_twice long_task "next day" cut_task refl
