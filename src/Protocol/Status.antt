-- ===== src/Protocol/Status.antt =====
-- shared/protocol/constants.ts: the states of a task.
use copilot_agent_mesh.Prelude.{Bool, true, false, List, [], ◌∷◌, any}

pub data TaskStatus : Type 0 where
  accepted starting_agent running needs_input recovering cancelling : TaskStatus
  completed failed cancelled timed_out : TaskStatus

-- `left === right` on states, by their position in `TASK_STATUSES`.
abbrev pub status_eq : TaskStatus → TaskStatus → Bool
status_eq accepted accepted = true
status_eq starting_agent starting_agent = true
status_eq running running = true
status_eq needs_input needs_input = true
status_eq recovering recovering = true
status_eq cancelling cancelling = true
status_eq completed completed = true
status_eq failed failed = true
status_eq cancelled cancelled = true
status_eq timed_out timed_out = true
status_eq _ _ = false

abbrev pub active_task_statuses : List TaskStatus
active_task_statuses =
    accepted ∷ starting_agent ∷ running ∷ needs_input ∷ recovering ∷ cancelling ∷ []

abbrev pub terminal_task_statuses : List TaskStatus
terminal_task_statuses = completed ∷ failed ∷ cancelled ∷ timed_out ∷ []

-- `allowed.includes(state)` and the sets `activeStatuses`, `terminalStatuses`.
abbrev pub status_in : TaskStatus → List TaskStatus → Bool
status_in s allowed = any (status_eq s) allowed

abbrev pub is_active : TaskStatus → Bool
is_active s = status_in s active_task_statuses

abbrev pub is_terminal : TaskStatus → Bool
is_terminal s = status_in s terminal_task_statuses
