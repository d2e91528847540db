-- ===== src/Task/Reducer.antt =====
-- src/domain/taskReducer.ts: what each event does to a task record.
pub mod Transition
pub mod Table
pub mod Validity
pub mod Diagram
pub mod Edges
pub mod Answers
pub mod Cancellation
use copilot_agent_mesh.Prelude.{
  ℕ, ◌+◌, Bool, true, false, not, ◌&&◌, ◌||◌, String, Option, none, some, List, [], ◌∷◌, ◌++◌, ◌==◌,
  if◌then◌else◌, is_some, or_else, text_option_eq, Dict, lookup, insert,
}
use copilot_agent_mesh.Protocol.{
  TaskRecord, TaskEventRecord, TaskStatus, PendingInput, RecoveryDescriptor, Platform,
  MeshErrorReason, MeshError, Result, ok, err, require, ◌>>=◌, ◌>>◌, status_eq, status_in,
  is_active, is_terminal, mesh, invalid_transition,
}
use Transition.{transition}

-- `TaskDomainEvent` without the field `at`, which every event has.
pub data EventBody : Type 0 where
  agent_start_requested : EventBody
  agent_started : Option RecoveryDescriptor → EventBody
  progress output output_truncated tool terminal : String → EventBody
  input_required : (input_id prompt : String) → EventBody
  input_answered : (input_id answer_id : String) → EventBody
  recovery_started : EventBody
  cancel_requested : (cancellation_deadline : String) → EventBody
  cancel_confirmed : Option String → EventBody
  completed : String → EventBody
  failed : (code message : String) → Bool → EventBody
  timed_out : String → EventBody

pub record TaskDomainEvent : Type 0 where
  pub at : String
  pub body : EventBody

-- `event.type`.
abbrev pub event_type : EventBody → String
event_type agent_start_requested = "agentStartRequested"
event_type (agent_started _) = "agentStarted"
event_type (progress _) = "progress"
event_type (output _) = "output"
event_type (output_truncated _) = "outputTruncated"
event_type (tool _) = "tool"
event_type (terminal _) = "terminal"
event_type (input_required _ _) = "inputRequired"
event_type (input_answered _ _) = "inputAnswered"
event_type recovery_started = "recoveryStarted"
event_type (cancel_requested _) = "cancelRequested"
event_type (cancel_confirmed _) = "cancelConfirmed"
event_type (completed _) = "completed"
event_type (failed _ _ _) = "failed"
event_type (timed_out _) = "timedOut"

-- `record.pendingInput?.inputId`.
abbrev pub pending_id : Option PendingInput → Option String
pending_id none = none
pending_id (some i) = some i.input_id

abbrev running_states : List TaskStatus
running_states = TaskStatus.running ∷ TaskStatus.needs_input ∷ []

abbrev reporting_states : List TaskStatus
reporting_states =
    TaskStatus.running ∷ TaskStatus.needs_input ∷ TaskStatus.recovering ∷ TaskStatus.cancelling ∷ []

-- `requireState` and `assertActive`.
abbrev require_state : TaskRecord → EventBody → List TaskStatus → Result (Unit {0})
require_state r b allowed =
    require (status_in r.state allowed) (invalid_transition r.state (event_type b))

abbrev assert_active : TaskRecord → EventBody → Result (Unit {0})
assert_active r b = require (is_active r.state) (invalid_transition r.state (event_type b))

module _ ⦃p : Platform⦄ where
  -- The shared case of the five kinds of report.
  report : TaskRecord → String → EventBody → String → Result TaskRecord
  report r at b text = do
    require_state r b reporting_states
    transition r at (event_type b) (some text)

  -- The case `inputAnswered`, after the test for an answer given before.
  answer : TaskRecord → String → String → String → Result TaskRecord
  answer r at input_id answer_id = do
    require
        (not (
          not (text_option_eq (pending_id r.pending_input) (some input_id))
          && (not (status_eq r.state TaskStatus.needs_input) || not (is_some r.pending_input))))
        (mesh MeshErrorReason.input_not_pending false)
    require_state r (input_answered input_id answer_id) (TaskStatus.needs_input ∷ [])
    let answered_inputs = insert input_id answer_id r.answered_inputs
    transition
        (if text_option_eq (pending_id r.pending_input) (some input_id)
          then record r {
            state = TaskStatus.running;
            pending_input = none;
            answered_inputs = answered_inputs;
          }
          else record r { answered_inputs = answered_inputs })
        at "inputAnswered" none

  -- The `switch` of `taskReducer`.
  pub reduce : TaskRecord → String → EventBody → Result TaskRecord
  unfolding report answer
  reduce r at agent_start_requested = do
    require_state r agent_start_requested (TaskStatus.accepted ∷ [])
    transition (record r { state = TaskStatus.starting_agent }) at "agentStartRequested" none
  reduce r at (agent_started descriptor) = do
    require_state r (agent_started descriptor)
        (TaskStatus.starting_agent ∷ TaskStatus.recovering ∷ [])
    transition
        (record r {
          state =
              if status_eq r.state TaskStatus.recovering && is_some r.pending_input
              then TaskStatus.needs_input
              else TaskStatus.running;
          recovery_descriptor = or_else descriptor r.recovery_descriptor;
        })
        at "agentStarted" none
  reduce r at (progress text) = report r at (progress text) text
  reduce r at (output text) = report r at (output text) text
  reduce r at (output_truncated text) = report r at (output_truncated text) text
  reduce r at (tool text) = report r at (tool text) text
  reduce r at (terminal text) = report r at (terminal text) text
  reduce r at (input_required input_id prompt) = do
    require_state r (input_required input_id prompt) running_states
    transition
        (record r {
          state = TaskStatus.needs_input;
          pending_input = some (record { input_id = input_id; prompt = prompt });
        })
        at "inputRequired" none
  reduce r at (input_answered input_id answer_id) =
      if text_option_eq (lookup input_id r.answered_inputs) (some answer_id)
      then ok r
      else answer r at input_id answer_id
  reduce r at recovery_started = do
    require_state r recovery_started running_states
    transition (record r { state = TaskStatus.recovering }) at "recoveryStarted" none
  reduce r at (cancel_requested deadline) =
      if status_eq r.state TaskStatus.cancelling
      then ok r
      else transition
          (record r {
            state = TaskStatus.cancelling;
            cancellation_deadline = some deadline;
            pending_input = none;
          })
          at "cancelRequested" none
  reduce r at (cancel_confirmed summary) = do
    require_state r (cancel_confirmed summary) (TaskStatus.cancelling ∷ [])
    transition (record r { state = TaskStatus.cancelled; summary = summary }) at "cancelConfirmed"
        none
  reduce r at (completed summary) = do
    require_state r (completed summary) running_states
    transition
        (record r { state = TaskStatus.completed; pending_input = none; summary = some summary }) at
        "completed" none
  reduce r at (failed code message retryable) = do
    assert_active r (failed code message retryable)
    transition
        (record r {
          state = TaskStatus.failed;
          cancellation_deadline = none;
          pending_input = none;
          summary = none;
          failure = some (record { code = code; message = message; retryable = retryable });
        })
        at "failed" none
  reduce r at (timed_out message) = do
    assert_active r (timed_out message)
    transition
        (record r {
          state = TaskStatus.timed_out;
          cancellation_deadline = none;
          pending_input = none;
          summary = none;
          failure = some (record { code = "TASK_TIMED_OUT"; message = message; retryable = true });
        })
        at "timedOut" none

  -- `taskReducer`.
  unfoldable pub task_reducer : TaskRecord → TaskDomainEvent → Result TaskRecord
  unfolding reduce
  task_reducer r event = if is_terminal r.state then ok r else reduce r event.at event.body
