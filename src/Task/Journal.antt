-- ===== src/Task/Journal.antt =====
-- src/domain/taskEvents.ts: how a task's event journal is cut to a day and to its byte budget.
pub mod Suffix
pub mod Budget
pub mod Cut
pub mod Shape
pub mod Compaction
pub mod Repetition
use copilot_agent_mesh.Prelude.{
  ℕ, suc, ◌+◌, ◌-◌, ◌*◌, Bool, true, not, ◌&&◌, ◌||◌, String, some, List, [], ◌∷◌, reverse, max,
  ltb, eqb, if◌then◌else◌, nat_option_eq, length, drop,
}
use copilot_agent_mesh.Protocol.{
  TaskRecord, TaskEventRecord, Platform, Result, ok, type_error, or_throw, ◌>>=◌,
  task_event_journal_bytes, event_json_bytes,
}
use copilot_agent_mesh.Protocol.Validation.{first_sequence}

abbrev pub task_event_retention_ms : ℕ
task_event_retention_ms = 24 * 60 * 60 * 1_000

-- The record that is returned when the journal is cut at `start`.
pub cut_at : TaskRecord → ℕ → TaskRecord
cut_at r start =
    let events = drop start r.events in
    let truncated = r.events_truncated || ltb 0 start in
    let earliest = first_sequence events (r.event_seq + 1) in
    if eqb start 0
      && (not truncated || nat_option_eq r.earliest_available_event_seq (some earliest))
    then r
    else record r {
      events = events;
      events_truncated = true;
      earliest_available_event_seq = some earliest;
    }

-- The branch for a record with no events.
pub compact_empty : TaskRecord → TaskRecord
compact_empty r =
    if r.events_truncated
    then if nat_option_eq r.earliest_available_event_seq (some (r.event_seq + 1))
      then r
      else record r { earliest_available_event_seq = some (r.event_seq + 1) }
    else r

-- The second loop, over the events from the newest back to `retainedStart`. `total` is
-- `record.events.length`; the index of the event at hand is `start - 1`.
pub byte_limited_start : ℕ → ℕ → ℕ → List TaskEventRecord → ℕ
byte_limited_start total retained_bytes start [] = start
byte_limited_start total retained_bytes start (event ∷ older) =
    let separator_bytes : ℕ = if eqb start total then 0 else 1 in
    let next_bytes : ℕ = retained_bytes + separator_bytes + event_json_bytes event in
    let rest = byte_limited_start total next_bytes (start - 1) older in
    if ltb task_event_journal_bytes next_bytes then start else rest

module _ ⦃p : Platform⦄ where
  -- `eventTime < cutoff || eventBytes + 2 > TASK_EVENT_JOURNAL_BYTES`, where the cutoff is the
  -- reference time less the retention: the retention is added on the other side.
  abbrev pub is_unusable : ℕ → ℕ → TaskEventRecord → Bool
  is_unusable reference_time event_time event =
      ltb (event_time + task_event_retention_ms) reference_time
      || ltb task_event_journal_bytes (event_json_bytes event + 2)

  -- The first loop: `index` counts up, and `retainedStart` moves behind each unusable event.
  retained_start : ℕ → ℕ → ℕ → List TaskEventRecord → Result ℕ
  retained_start reference_time index start [] = ok start
  retained_start reference_time index start (event ∷ events) =
      or_throw (p.date_parse event.at) type_error >>= λ event_time.
      retained_start reference_time (suc index)
        (if is_unusable reference_time event_time event then suc index else start) events

  -- Where the retained events begin: the later of the two starts.
  pub cut_index : ℕ → List TaskEventRecord → Result ℕ
  unfolding retained_start byte_limited_start
  cut_index reference_time events = retained_start reference_time 0 0 events >>= λ start. ok (
      max start
        (byte_limited_start (length events) 2 (length events) (reverse (drop start events))))

  pub compact_events : TaskRecord → String → List TaskEventRecord → Result TaskRecord
  unfolding compact_empty cut_index cut_at
  compact_events r reference_at [] = ok (compact_empty r)
  compact_events r reference_at (event ∷ events) = do
    reference_time ← or_throw (p.date_parse reference_at) type_error
    start ← cut_index reference_time (event ∷ events)
    ok (cut_at r start)

  -- `compactTaskEventJournal`.
  unfoldable pub compact_task_event_journal : TaskRecord → String → Result TaskRecord
  unfolding compact_events
  compact_task_event_journal r reference_at = compact_events r reference_at r.events
