-- ===== src/Scenarios/Stored.antt =====
-- src/tasks/FileTaskStore.ts: the task store on a folder of one task.
use copilot_agent_mesh.Prelude.{
  true, String, none, some, [], ◌∷◌, List, ◌≡◌, ◌≢◌, refl, arith, Bool-cases, inl, inr, eq_iff,
  lookup, subst, ◌==◌,
}
use copilot_agent_mesh.Protocol.{TaskRecord, ok}
use copilot_agent_mesh.Storage.Effects.{
  tick, Surroundings, World, DiskOutcome, OwnershipView, json, read_file, write_file,
  assert_writable,
}
use copilot_agent_mesh.Task.Reducer.{TaskDomainEvent, progress, task_reducer}
use copilot_agent_mesh.TaskStore.Access.{
  TaskValue, record_value, create, get_owned, compact_on_read, save, write_record,
}
use copilot_agent_mesh.TaskStore.{transition_owned, transition_record}
use copilot_agent_mesh.TaskStore.Calls.{
  Call, get, change, create_task, list_all, transition, migrate, apply_change, perform_all,
}
use copilot_agent_mesh.TaskStore.Changes.{Stores}
use copilot_agent_mesh.TaskStore.Novelty.{create_new}
use copilot_agent_mesh.TaskStore.Existing.{create_existing}
use copilot_agent_mesh.TaskStore.Safety.{
  IsCanonical, perform_all-IsCanonical, perform_all-unconfirmed, apply_change-elsewhere,
  apply_change_stored, get_owned_stored,
}
use copilot_agent_mesh.Protocol.{event_json_bytes}
use copilot_agent_mesh.Protocol.Validation.{validate_task_state, validate_full_journal}
use copilot_agent_mesh.Task.Journal.{compact_task_event_journal}
use copilot_agent_mesh.Task.Idempotency.{get_owned_task}
use copilot_agent_mesh.Task.Reducer.Transition
use copilot_agent_mesh.Protocol.Schema.{persisted_task_record_schema}
use copilot_agent_mesh.Scenarios.Samples.{sample_platform, running_task}

abbrev owned_view : OwnershipView
owned_view = record {
  is_owner = true;
  generation = some "g1";
  assertion = none;
  generation_after = some "g1";
}

abbrev surroundings : Surroundings
surroundings = record {
  now = λ n. "10:00";
  disk = λ n. DiskOutcome.done;
  ownership = some (λ n. owned_view);
  generation = some "g1";
}

abbrev stored_task : TaskRecord
stored_task = record running_task {
  request_hash = "aaaaaaaaaaaaaaaaaaaaaaaaaaaaaaaaaaaaaaaaaaaaaaaaaaaaaaaaaaaaaaaa";
}

abbrev world : World TaskValue
world = record { files = ("tasks/p1--t1.json", json (record_value stored_task)) ∷ []; moment = 0 }

abbrev event : TaskDomainEvent
event = record { at = "10:00"; body = progress "half done" }

abbrev updated_task : TaskRecord
updated_task = record stored_task {
  updated_at = "10:00";
  event_seq = 2;
  events =
      record { event_seq = 1; at = "09:00"; type = "agentStarted"; summary = none }
      ∷ record { event_seq = 2; at = "10:00"; type = "progress"; summary = some "half done" }
      ∷ [];
}

-- The ownership has moved on to another generation.
abbrev drained : Surroundings
drained = record surroundings { generation = some "g0" }

abbrev calls : List Call
calls =
    change "p1" "t1" (transition event)
    ∷ create_task stored_task
    ∷ get "p1" "t1"
    ∷ list_all
    ∷ change "p1" "t1" (migrate "v1")
    ∷ []

uuid_settled :
    (s t : String) → sample_platform.parse_uuid s ≡ some t → sample_platform.parse_uuid t ≡ some t
uuid_settled s t h = elim (Bool-cases (s == "")) [
  | inl empty ↦ cc (rw empty at h)
  | inr full ↦
      let same : s ≡ t = ground (arith, rw full at h) in
      subst (λ u. sample_platform.parse_uuid u ≡ some u) same (rw full refl)
]

stored_schema : persisted_task_record_schema stored_task ≡ ok stored_task
unfolding persisted_task_record_schema validate_task_state validate_full_journal event_json_bytes
stored_schema = refl

world-IsCanonical : IsCanonical world.files
unfolding lookup
world-IsCanonical = record {
  holds = λ path x found. elim (Bool-cases ("tasks/p1--t1.json" == path)) [
    | inl same ↦ (
      stored_task,
      ground (arith, rw same at found),
      stored_schema,
      ground (arith, same, eq_iff "tasks/p1--t1.json" path),
    )
    | inr apart ↦ cc (rw apart at found)
  ];
}

perform_all-IsCanonical_example : IsCanonical (perform_all surroundings none calls world).files
perform_all-IsCanonical_example =
    perform_all-IsCanonical surroundings none uuid_settled calls world world-IsCanonical

perform_all-unconfirmed_example : (perform_all drained none calls world).files ≡ world.files
perform_all-unconfirmed_example =
    perform_all-unconfirmed drained none uuid_settled calls world (λ n. refl)

apply_change-elsewhere_example :
    lookup "tasks/p1--t2.json"
      (apply_change surroundings none "p1" "t1" (transition event) world).1.files
    ≡ lookup "tasks/p1--t2.json" world.files
apply_change-elsewhere_example =
    apply_change-elsewhere surroundings none uuid_settled "p1" "t1" "p1" "t1" "tasks/p1--t2.json"
      (transition event) world refl refl refl

changed_result :
    (apply_change surroundings none "p1" "t1" (transition event) world).0 ≡ ok updated_task
unfolding transition_owned get_owned read_file lookup persisted_task_record_schema
    validate_task_state validate_full_journal event_json_bytes compact_on_read
    compact_task_event_journal get_owned_task transition_record task_reducer Transition.transition
    save write_record assert_writable write_file
changed_result = refl

apply_change_stored_example :
    (sample_platform.parse_uuid "p1" ≡ some "p1")
    × (sample_platform.parse_uuid "t1" ≡ some "t1")
    × Stores "tasks/p1--t1.json" updated_task
        (apply_change surroundings none "p1" "t1" (transition event) world).1.files
apply_change_stored_example =
    apply_change_stored surroundings none uuid_settled "p1" "t1" (transition event) world
      updated_task changed_result

read_result : (get_owned surroundings none "p1" "t1" world).0 ≡ ok (some stored_task)
unfolding get_owned read_file lookup persisted_task_record_schema validate_task_state
    validate_full_journal event_json_bytes compact_on_read compact_task_event_journal
read_result = refl

get_owned_stored_example :
    (sample_platform.parse_uuid "p1" ≡ some "p1")
    × (sample_platform.parse_uuid "t1" ≡ some "t1")
    × Stores "tasks/p1--t1.json" stored_task (get_owned surroundings none "p1" "t1" world).1.files
get_owned_stored_example =
    get_owned_stored surroundings none uuid_settled "p1" "t1" world stored_task read_result

abbrev empty_world : World TaskValue
empty_world = record { files = []; moment = 0 }

create_result : (create surroundings none stored_task empty_world).0 ≡ ok stored_task
unfolding create get_owned read_file lookup persisted_task_record_schema validate_task_state
    validate_full_journal event_json_bytes compact_task_event_journal write_record assert_writable
    write_file
create_result = refl

create_new_example :
    (lookup "tasks/p1--t1.json" empty_world.files ≡ none)
    × Stores "tasks/p1--t1.json" stored_task
        (create surroundings none stored_task empty_world).1.files
create_new_example =
    create_new surroundings none uuid_settled stored_task stored_task empty_world create_result

-- The task has a file.
create_existing_example :
    ((create surroundings none stored_task world).1.files
      ≡ (get_owned surroundings none "p1" "t1" (tick world)).1.files)
    × ((a : TaskRecord) → (create surroundings none stored_task world).0 ≢ ok a)
unfolding compact_task_event_journal event_json_bytes lookup
create_existing_example =
    create_existing surroundings none uuid_settled stored_task stored_task stored_task world _ refl
      stored_schema refl
