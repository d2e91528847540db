-- ===== src/TaskStore/Access.antt =====
-- src/tasks/FileTaskStore.ts: how the file of one task is read and written.
use copilot_agent_mesh.Prelude.{
  Bool, true, false, not, ◌&&◌, String, Option, none, some, ◌==◌, length, eqb, if◌then◌else◌,
  nat_option_eq, bool_eq, is_some,
}
use copilot_agent_mesh.Protocol.{
  Platform, Result, ok, err, MeshError, MeshErrorReason, mesh, type_error, corruption, TaskRecord,
  SchemaVersion, version_1,
}
use copilot_agent_mesh.Protocol.Schema.{persisted_task_record_schema}
use copilot_agent_mesh.Task.Journal.{compact_task_event_journal}
use copilot_agent_mesh.Task.Idempotency.{migrate_task_record_v1}
use copilot_agent_mesh.Storage.Effects.{
  Surroundings, Action, pure, lift, ◌>>=◌, ◌>>◌, require_that, current_time, read_file, write_file,
  assert_writable,
}
use copilot_agent_mesh.TaskStore.Names.{task_path}

-- The JSON value of a file: an object with the fields of a record, or something else.
pub data TaskValue : Type 0 where
  record_value : TaskRecord → TaskValue
  other_value : TaskValue

-- A schema's error, replaced by another.
abbrev pub or_else_throw : Result TaskRecord → MeshError → Result TaskRecord
or_else_throw (ok r) e = ok r
or_else_throw (err _) e = err e

-- `compacted === record`, for a record that was not migrated: compaction returns the record that it
-- was given, or one that differs in its journal.
abbrev pub is_same_journal : TaskRecord → TaskRecord → Bool
is_same_journal compacted r =
    eqb (length compacted.events) (length r.events)
    && nat_option_eq compacted.earliest_available_event_seq r.earliest_available_event_seq
    && bool_eq compacted.events_truncated r.events_truncated

abbrev pub needs_migration : Option String → SchemaVersion → Bool
needs_migration (some device_id) version_1 = true
needs_migration _ _ = false

module _ ⦃p : Platform⦄ where
  -- `parseRecord`.
  abbrev pub parse_record : String → TaskValue → Result TaskRecord
  parse_record path other_value = err (corruption path)
  parse_record path (record_value r) =
      or_else_throw (persisted_task_record_schema r) (corruption path)

  abbrev pub migrated : Option String → SchemaVersion → TaskRecord → Result TaskRecord
  migrated (some device_id) version_1 r = migrate_task_record_v1 r device_id
  migrated _ _ r = ok r

  module _ (s : Surroundings) (migration_device_id : Option String) where
    -- `assertWritable('before')`, `writeJson` and `assertWritable('during')`.
    unfoldable pub write_record : String → TaskRecord → Action TaskValue TaskRecord
    write_record path r = do
      assert_writable s
      write_file s path (record_value r)
      assert_writable s
      pure r

    unfoldable pub finish_read : String → TaskRecord → TaskRecord → Action TaskValue TaskRecord
    finish_read path r compacted =
        if not (needs_migration migration_device_id r.version) && is_same_journal compacted r
        then pure r
        else lift (or_else_throw (persisted_task_record_schema compacted) (corruption path))
          >>= write_record path

    -- `compactOnRead`.
    unfoldable pub compact_on_read : String → TaskRecord → Action TaskValue TaskRecord
    unfolding finish_read
    compact_on_read path r = do
      base ← lift (migrated migration_device_id r.version r)
      at ← current_time s
      compacted ← lift (compact_task_event_journal base at)
      finish_read path r compacted

    -- What is done with a value that was read.
    unfoldable pub read_value :
        String → String → String → Option TaskValue → Action TaskValue (Option TaskRecord)
    read_value path peer_id task_id none = pure none
    read_value path peer_id task_id (some value) = do
      r ← lift (parse_record path value)
      require_that (r.peer_id == peer_id && r.task_id == task_id) (corruption path)
      kept ← compact_on_read path r
      pure (some kept)

    unfoldable pub read_task : String → String → String → Action TaskValue (Option TaskRecord)
    unfolding read_value
    read_task path peer_id task_id = do
      value ← read_file s path
      read_value path peer_id task_id value

    pub get_parsed : Option String → Option String → Action TaskValue (Option TaskRecord)
    get_parsed (some peer_id) (some task_id) = read_task (task_path peer_id task_id) peer_id task_id
    get_parsed _ _ = pure none

    -- `getOwnedUnlocked`, which `getOwned` runs alone.
    unfoldable pub get_owned : String → String → Action TaskValue (Option TaskRecord)
    unfolding read_task get_parsed
    get_owned peer_id task_id = get_parsed (p.parse_uuid peer_id) (p.parse_uuid task_id)

    -- `saveUnlocked`.
    unfoldable pub save : TaskRecord → Action TaskValue TaskRecord
    save r = do
      at ← current_time s
      compacted ← lift (compact_task_event_journal r at)
      valid ← lift (or_else_throw (persisted_task_record_schema compacted) type_error)
      write_record (task_path valid.peer_id valid.task_id) valid

    -- `createUnlocked`, which `create` runs alone.
    unfoldable pub create : TaskRecord → Action TaskValue TaskRecord
    create r = do
      at ← current_time s
      compacted ← lift (compact_task_event_journal r at)
      valid ← lift (or_else_throw (persisted_task_record_schema compacted) type_error)
      existing ← get_owned valid.peer_id valid.task_id
      require_that (not (is_some existing)) (mesh MeshErrorReason.task_id_conflict false)
      write_record (task_path valid.peer_id valid.task_id) valid
