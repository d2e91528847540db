-- ===== src/TaskStore.antt =====
-- src/tasks/FileTaskStore.ts: one file for each task, read and written as a whole. Each method runs
-- alone (`runExclusive`), so it is one action.
pub mod Names
pub mod Access
pub mod Changes
pub mod Identity
pub mod Reads
pub mod Methods
pub mod Listing
pub mod Creating
pub mod Calls
pub mod Safety
pub mod Novelty
pub mod Existing
use copilot_agent_mesh.Prelude.{
  ℕ, Bool, true, false, not, ◌&&◌, ◌||◌, String, Option, none, some, List, [], ◌∷◌, ◌==◌, select,
  length, eqb, if◌then◌else◌, text_option_eq, nat_option_eq, bool_eq, is_some, or_else,
}
use copilot_agent_mesh.Protocol.{
  Platform, Result, ok, err, MeshError, MeshErrorReason, mesh, type_error, plain_error, corruption,
  TaskRecord, RecoveryDescriptor, SchemaVersion, version_1, version_2, is_terminal,
}
use copilot_agent_mesh.Protocol.Schema.{
  uuid, persisted_task_record_schema, recovery_descriptor_schema,
}
use copilot_agent_mesh.Task.Journal.{compact_task_event_journal}
use copilot_agent_mesh.Task.Reducer.{TaskDomainEvent, task_reducer}
use copilot_agent_mesh.Task.Request.{OwnedTaskStart, OwnedRoutedTaskStart}
use copilot_agent_mesh.Task.Idempotency.{
  match_idempotent_start, match_idempotent_routed_start, migrate_task_record_v1, get_owned_task,
}
use copilot_agent_mesh.Storage.Effects.{
  Surroundings, World, Action, pure, throw, lift, ◌>>=◌, ◌>>◌, require_that, current_time,
  read_file, write_file, list_files, assert_writable,
}
use copilot_agent_mesh.TaskStore.Names.{
  task_path, file_name, path_of, parse_task_file_name, TaskIdentity, sorted_names, json_stem,
  task_names,
}
use copilot_agent_mesh.TaskStore.Access.{
  TaskValue, record_value, other_value, or_else_throw, is_same_journal, needs_migration,
  parse_record, migrated, write_record, finish_read, compact_on_read, read_value, read_task,
  get_parsed, get_owned, save, create,
}

-- The result of `createIdempotent`.
pub record Creation : Type 0 where
  pub record_ : TaskRecord
  pub created : Bool

-- `updated !== current` of `transitionUnlocked`: the reducer returns the record that it was given, or
-- one with the next event number.
abbrev pub is_updated : TaskRecord → TaskRecord → Bool
is_updated updated current = not (eqb updated.event_seq current.event_seq)

module _ ⦃p : Platform⦄ where
  module _ (s : Surroundings) (migration_device_id : Option String) where
    -- The body of the loop of `listUnlocked` for a name that ends with '.json'.
    pub list_file : String → String → Action TaskValue (Option TaskRecord)
    list_file name stem = do
      identity ← lift (parse_task_file_name (path_of name) name stem)
      read_task s migration_device_id (path_of name) identity.identity_peer identity.identity_task

    pub list_named : String → Option String → Action TaskValue (Option TaskRecord)
    list_named name none = pure none
    list_named name (some stem) = list_file name stem

    abbrev listed : Option TaskRecord → List TaskRecord → List TaskRecord
    listed none records = records
    listed (some r) records = r ∷ records

    pub list_each : List String → Action TaskValue (List TaskRecord)
    unfolding list_named list_file
    list_each [] = pure []
    list_each (name ∷ names) = do
      found ← list_named name (json_stem name)
      records ← list_each names
      pure (listed found records)

    -- `listUnlocked`, which `list` runs alone.
    unfoldable pub list_tasks : Action TaskValue (List TaskRecord)
    unfolding list_each
    list_tasks = do names ← list_files s; list_each (sorted_names (task_names names))

    -- `listForRecovery`.
    unfoldable pub list_for_recovery : Action TaskValue (List TaskRecord)
    list_for_recovery = do
      records ← list_tasks
      pure (select (λ r. not (is_terminal r.state)) records)

    pub create_unless : TaskRecord → Option TaskRecord → Action TaskValue Creation
    create_unless r (some existing) = pure (record { record_ = existing; created = false })
    create_unless r none = do
      made ← create s migration_device_id r
      pure (record { record_ = made; created = true })

    -- `createIdempotent`, `createRoutedIdempotent` and `findIdempotentStart`.
    unfoldable pub create_idempotent : OwnedTaskStart → TaskRecord → Action TaskValue Creation
    unfolding create_unless
    create_idempotent q r = do
      records ← list_tasks
      existing ← lift (match_idempotent_start records q)
      create_unless r existing

    unfoldable pub create_routed_idempotent :
        OwnedRoutedTaskStart → TaskRecord → Action TaskValue Creation
    unfolding create_unless
    create_routed_idempotent q r = do
      records ← list_tasks
      existing ← lift (match_idempotent_routed_start records q)
      create_unless r existing

    unfoldable pub find_idempotent_start : OwnedTaskStart → Action TaskValue (Option TaskRecord)
    find_idempotent_start q = do records ← list_tasks; lift (match_idempotent_start records q)

    -- `transitionUnlocked`.
    unfoldable pub transition_record : TaskRecord → TaskDomainEvent → Action TaskValue TaskRecord
    transition_record current event = do
      updated ← lift (task_reducer current event)
      if is_updated updated current then save s migration_device_id updated else pure updated

    -- `transitionOwned`.
    unfoldable pub transition_owned :
        String → String → TaskDomainEvent → Action TaskValue TaskRecord
    transition_owned peer_id task_id event = do
      found ← get_owned s migration_device_id peer_id task_id
      current ← lift (get_owned_task found peer_id)
      transition_record current event

    -- `recordRecoveryDescriptorOwned`, from the record on.
    abbrev is_same_session : RecoveryDescriptor → RecoveryDescriptor → Bool
    is_same_session existing valid =
        existing.adapter == valid.adapter
        && existing.session_id == valid.session_id
        && text_option_eq existing.conversation_id valid.conversation_id

    pub record_session :
        TaskRecord → RecoveryDescriptor → Option RecoveryDescriptor → Action TaskValue TaskRecord
    record_session current valid (some existing) = do
      require_that (is_same_session existing valid) (mesh MeshErrorReason.task_id_conflict false)
      pure current
    record_session current valid none =
        save s migration_device_id (record current { recovery_descriptor = some valid })

    unfoldable pub record_recovery_descriptor :
        String → String → RecoveryDescriptor → Action TaskValue TaskRecord
    unfolding record_session
    record_recovery_descriptor peer_id task_id descriptor = do
      found ← get_owned s migration_device_id peer_id task_id
      current ← lift (get_owned_task found peer_id)
      valid ← lift (recovery_descriptor_schema descriptor)
      record_session current valid current.recovery_descriptor

    pub migrate_current : TaskRecord → String → SchemaVersion → Action TaskValue TaskRecord
    migrate_current current device_id (version_2 v) = pure current
    migrate_current current device_id version_1 =
        lift (migrate_task_record_v1 current device_id) >>= save s migration_device_id

    -- `migrateOwnedV1`.
    unfoldable pub migrate_owned : String → String → String → Action TaskValue TaskRecord
    unfolding migrate_current
    migrate_owned peer_id task_id device_id = do
      found ← get_owned s migration_device_id peer_id task_id
      current ← lift (get_owned_task found peer_id)
      migrate_current current device_id current.version

  -- `enableV2RoutingMigration`: the device that version 1 is bound to from now on.
  abbrev bind_device : Option String → String → Result (Option String)
  bind_device none parsed = ok (some parsed)
  bind_device (some bound) parsed = if bound == parsed then ok (some parsed) else err plain_error

  unfoldable pub enable_v2_routing_migration : Option String → String → Result (Option String)
  enable_v2_routing_migration bound device_id = elim (p.parse_uuid device_id) [
    | none ↦ err type_error
    | some parsed ↦ bind_device bound parsed
  ]

-- The constructor: a store with ownership has a generation, given or the owner's own.
abbrev pub generation_of : Option String → Option String → Bool → Result (Option String)
generation_of given current_generation has_ownership =
    let generation = or_else given (if has_ownership then current_generation else none) in
    if has_ownership && not (is_some generation) then err plain_error else ok generation
