-- ===== src/Task/Reducer/Transition.antt =====
-- src/domain/taskReducer.ts: `transition`, which numbers an event, appends it and compacts the journal.
use copilot_agent_mesh.Prelude.{◌+◌, String, Option, [], ◌∷◌, ◌++◌}
use copilot_agent_mesh.Protocol.{TaskRecord, Platform, Result}
use copilot_agent_mesh.Task.Journal.{compact_task_event_journal}

-- The object literal `transitioned`; `r` has the changes already.
abbrev pub transitioned : TaskRecord → String → String → Option String → TaskRecord
transitioned r at type summary = record r {
  updated_at = at;
  event_seq = r.event_seq + 1;
  events =
      r.events
      ++ record { event_seq = r.event_seq + 1; at = at; type = type; summary = summary } ∷ [];
}

module _ ⦃p : Platform⦄ where
  unfoldable pub transition : TaskRecord → String → String → Option String → Result TaskRecord
  transition r at type summary = compact_task_event_journal (transitioned r at type summary) at
