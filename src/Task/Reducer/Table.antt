-- ===== src/Task/Reducer/Table.antt =====
-- The reducer as a table: when an event is ignored, when it is allowed, what it changes.
use copilot_agent_mesh.Prelude.{
  Bool, true, false, not, ◌&&◌, ◌||◌, String, Option, none, some, List, [], ◌∷◌, ◌≡◌, ◌∙◌, arith,
  if◌then◌else◌, is_some, or_else, text_option_eq, lookup, insert, Bool-cases, ◌⊎◌, inl, inr, refl,
  sym,
}
use copilot_agent_mesh.Protocol.{
  TaskRecord, TaskStatus, MeshErrorReason, Platform, Result, ok, err, status_eq, status_in,
  is_terminal, active_task_statuses, mesh, invalid_transition,
}
use copilot_agent_mesh.Task.Reducer.Transition.{transition}
use copilot_agent_mesh.Task.Reducer.{
  EventBody, TaskDomainEvent, agent_start_requested, agent_started, progress, output,
  output_truncated, tool, terminal, input_required, input_answered, recovery_started,
  cancel_requested, cancel_confirmed, completed, failed, timed_out, event_type, pending_id, reduce,
  task_reducer,
}

-- The states in which an event is allowed.
abbrev pub allowed_in : EventBody → List TaskStatus
allowed_in agent_start_requested = TaskStatus.accepted ∷ []
allowed_in (agent_started _) = TaskStatus.starting_agent ∷ TaskStatus.recovering ∷ []
allowed_in (input_required _ _) = TaskStatus.running ∷ TaskStatus.needs_input ∷ []
allowed_in (input_answered _ _) = TaskStatus.needs_input ∷ []
allowed_in recovery_started = TaskStatus.running ∷ TaskStatus.needs_input ∷ []
allowed_in (cancel_requested _) = active_task_statuses
allowed_in (cancel_confirmed _) = TaskStatus.cancelling ∷ []
allowed_in (completed _) = TaskStatus.running ∷ TaskStatus.needs_input ∷ []
allowed_in (failed _ _ _) = active_task_statuses
allowed_in (timed_out _) = active_task_statuses
allowed_in _ =
    TaskStatus.running ∷ TaskStatus.needs_input ∷ TaskStatus.recovering ∷ TaskStatus.cancelling ∷ []

-- Any event after the end, an answer that was given before, and a second request to cancel.
abbrev pub is_repeated : TaskRecord → EventBody → Bool
is_repeated r (input_answered input_id answer_id) =
    text_option_eq (lookup input_id r.answered_inputs) (some answer_id)
is_repeated r (cancel_requested _) = status_eq r.state TaskStatus.cancelling
is_repeated r _ = false

-- An answer also needs a question, the one that it names or another.
abbrev pub lacks_question : TaskRecord → EventBody → Bool
lacks_question r (input_answered input_id _) =
    not (text_option_eq (pending_id r.pending_input) (some input_id))
    && not (status_eq r.state TaskStatus.needs_input && is_some r.pending_input)
lacks_question r _ = false

-- The changes of an event, before it is numbered and appended.
abbrev pub changed : TaskRecord → EventBody → TaskRecord
changed r agent_start_requested = record r { state = TaskStatus.starting_agent }
changed r (agent_started descriptor) = record r {
  state =
      if status_eq r.state TaskStatus.recovering && is_some r.pending_input
      then TaskStatus.needs_input
      else TaskStatus.running;
  recovery_descriptor = or_else descriptor r.recovery_descriptor;
}
changed r (input_required input_id prompt) = record r {
  state = TaskStatus.needs_input;
  pending_input = some (record { input_id = input_id; prompt = prompt });
}
changed r (input_answered input_id answer_id) =
    if text_option_eq (pending_id r.pending_input) (some input_id)
    then record r {
      state = TaskStatus.running;
      pending_input = none;
      answered_inputs = insert input_id answer_id r.answered_inputs;
    }
    else record r { answered_inputs = insert input_id answer_id r.answered_inputs }
changed r recovery_started = record r { state = TaskStatus.recovering }
changed r (cancel_requested deadline) = record r {
  state = TaskStatus.cancelling;
  cancellation_deadline = some deadline;
  pending_input = none;
}
changed r (cancel_confirmed summary) = record r { state = TaskStatus.cancelled; summary = summary }
changed r (completed summary) = record r {
  state = TaskStatus.completed;
  pending_input = none;
  summary = some summary;
}
changed r (failed code message retryable) = record r {
  state = TaskStatus.failed;
  cancellation_deadline = none;
  pending_input = none;
  summary = none;
  failure = some (record { code = code; message = message; retryable = retryable });
}
changed r (timed_out message) = record r {
  state = TaskStatus.timed_out;
  cancellation_deadline = none;
  pending_input = none;
  summary = none;
  failure = some (record { code = "TASK_TIMED_OUT"; message = message; retryable = true });
}
changed r _ = r

-- The text that an event leaves in the journal.
abbrev pub reported : EventBody → Option String
reported (progress text) = some text
reported (output text) = some text
reported (output_truncated text) = some text
reported (tool text) = some text
reported (terminal text) = some text
reported _ = none

module _ ⦃p : Platform⦄ where
  abbrev pub by_table : TaskRecord → TaskDomainEvent → Result TaskRecord
  by_table r event =
      if is_terminal r.state || is_repeated r event.body
      then ok r
      else if lacks_question r event.body
      then err (mesh MeshErrorReason.input_not_pending false)
      else if status_in r.state (allowed_in event.body)
      then transition (changed r event.body) event.at (event_type event.body) (reported event.body)
      else err (invalid_transition r.state (event_type event.body))

  reduce-table :
      (r : TaskRecord) (at : String) (b : EventBody)
      → is_terminal r.state ≡ false
      → reduce r at b ≡ by_table r (record { at = at; body = b })
  unfolding reduce
  reduce-table r at agent_start_requested h = ground arith
  reduce-table r at (agent_started d) h = ground arith
  reduce-table r at (input_required i q) h = ground arith
  reduce-table r at (input_answered i a) h = ground arith
  reduce-table r at (cancel_requested d) h = ground arith
  reduce-table r at _ h = ground arith

  -- The reducer does what the table says: it ignores what comes after the end or is repeated,
  -- refuses an answer without a question and an event outside its states, and otherwise appends the
  -- event to the changed record.
  pub task_reducer-table :
      (r : TaskRecord) (event : TaskDomainEvent) → task_reducer r event ≡ by_table r event
  unfolding task_reducer
  task_reducer-table r event = elim (Bool-cases (is_terminal r.state)) [
    | inl ended ↦ rw ended
    | inr open_task ↦ rw open_task (reduce-table r event.at event.body open_task ∙ (rw open_task))
  ]

  -- How an event that is accepted has gone.
  pub record Applied (r : TaskRecord) (event : TaskDomainEvent) (r' : TaskRecord) : Type 0 where
    pub open_task : is_terminal r.state ≡ false
    pub fresh : is_repeated r event.body ≡ false
    pub asked : lacks_question r event.body ≡ false
    pub allowed : status_in r.state (allowed_in event.body) ≡ true
    pub moved :
        transition (changed r event.body) event.at (event_type event.body) (reported event.body)
        ≡ ok r'

  pub task_reducer-Applied :
      (r : TaskRecord) (event : TaskDomainEvent) (r' : TaskRecord)
      → task_reducer r event ≡ ok r'
      → ((r' ≡ r) × ((is_terminal r.state || is_repeated r event.body) ≡ true)) ⊎ Applied r event r'
  task_reducer-Applied r event r' h =
      by_table-Applied (is_terminal r.state) (is_repeated r event.body)
        (lacks_question r event.body) (status_in r.state (allowed_in event.body)) refl refl refl
        refl (sym (task_reducer-table r event) ∙ h)
    where
      by_table-Applied :
          (ended repeated unasked allowed : Bool)
          → is_terminal r.state ≡ ended
          → is_repeated r event.body ≡ repeated
          → lacks_question r event.body ≡ unasked
          → status_in r.state (allowed_in event.body) ≡ allowed
          → by_table r event ≡ ok r'
          → ((r' ≡ r) × ((is_terminal r.state || is_repeated r event.body) ≡ true))
            ⊎ Applied r event r'
      by_table-Applied true repeated unasked allowed t i q a k = inl (ground arith, rw t)
      by_table-Applied false true unasked allowed t i q a k = inl (ground arith, rw (t, i))
      by_table-Applied false false true allowed t i q a k = absurd (ground arith)
      by_table-Applied false false false false t i q a k = absurd (ground arith)
      by_table-Applied false false false true t i q a k =
          inr (record { open_task = t; fresh = i; asked = q; allowed = a; moved = ground arith })
