-- ===== src/TaskStore/Reads.antt =====
-- src/tasks/FileTaskStore.ts: what `getOwned` and the save of a record do to the file of a task.
use copilot_agent_mesh.Prelude.{
  not, ◌&&◌, String, Option, some, none, ◌≡◌, refl, sym, subst, arith, lookup, Bool-cases, inl, inr,
  eq_iff, and_split, ◌==◌,
}
use copilot_agent_mesh.Protocol.{Platform, TaskRecord, ok, MeshError, type_error, corruption}
use copilot_agent_mesh.Protocol.Schema.{persisted_task_record_schema}
use copilot_agent_mesh.Task.Journal.{compact_task_event_journal}
use copilot_agent_mesh.Storage.Effects.{Surroundings, json, lift, ◌>>=◌}
use copilot_agent_mesh.Storage.Rules.{
  Files, IsOrder, Runs, runs_then, runs_pure, runs_lift, runs_require, runs_time, runs_read,
  runs_reading, runs_post, runs_along, runs_given,
}
use copilot_agent_mesh.TaskStore.Names.{task_path}
use copilot_agent_mesh.TaskStore.Access.{
  TaskValue, record_value, other_value, or_else_throw, migrated, needs_migration, is_same_journal,
  write_record, finish_read, compact_on_read, read_value, read_task, save,
}
use copilot_agent_mesh.TaskStore.Changes.{
  IsRecordOf, IsSaved, IsFound, Changes, Changes-IsOrder, Stores, write_record-runs,
}
use copilot_agent_mesh.TaskStore.Identity.{
  IsNormal, or_else_throw-ok, compacted-IsRecordOf, parsed-IsRecordOf, migrated-IsRecordOf,
}

module _ ⦃p : Platform⦄ where
  module _ (settled : (s t : String) → p.parse_uuid s ≡ some t → p.parse_uuid t ≡ some t)
      (s : Surroundings) (device_id : Option String) (peer_id task_id : String)
      (normal : IsNormal peer_id task_id) where
    abbrev order : IsOrder (Changes s (IsRecordOf peer_id task_id))
    order = Changes-IsOrder s (IsRecordOf peer_id task_id)

    task_path-of :
        (r : TaskRecord)
        → IsRecordOf peer_id task_id r
        → task_path peer_id task_id ≡ task_path r.peer_id r.task_id
    task_path-of r (peer, task) = rw (peer, task)

    pub write-runs :
        {P : Files TaskValue → Type 0} (r : TaskRecord)
        → persisted_task_record_schema r ≡ ok r
        → IsRecordOf peer_id task_id r
        → Runs
            (Changes s (IsRecordOf peer_id task_id))
            P
            (write_record s device_id (task_path peer_id task_id) r)
            (IsSaved peer_id task_id)
    write-runs r good (peer, task) =
        let named = task_path-of r (peer, task) in
        runs_post
          (write_record-runs s device_id (IsRecordOf peer_id task_id) (task_path peer_id task_id) r
            good named (peer, task))
          (λ v f wrote.
            subst (λ q. IsSaved peer_id task_id q f) (sym wrote.0) ((peer, task), wrote.1))

    parsed-runs :
        {P : Files TaskValue → Type 0} (r : TaskRecord) (e : MeshError)
        → IsRecordOf peer_id task_id r
        → Runs
            (Changes s (IsRecordOf peer_id task_id))
            P
            (lift (or_else_throw (persisted_task_record_schema r) e))
            (λ v f. ((persisted_task_record_schema v ≡ ok v) × IsRecordOf peer_id task_id v) × P f)
    parsed-runs r e named = runs_lift order _ (λ f v before h. (
      parsed-IsRecordOf settled peer_id task_id normal r v (or_else_throw-ok _ _ v h) named,
      before,
    ))

    -- What is parsed from a compacted record, written.
    pub written_parsed-runs :
        {P : Files TaskValue → Type 0} (r : TaskRecord) (e : MeshError)
        → IsRecordOf peer_id task_id r
        → Runs
            (Changes s (IsRecordOf peer_id task_id))
            P
            (lift (or_else_throw (persisted_task_record_schema r) e)
              >>= write_record s device_id (task_path peer_id task_id))
            (IsSaved peer_id task_id)
    written_parsed-runs {P = P} r e named =
        runs_then order (parsed-runs {P = P} r e named)
          (λ v. runs_given (λ known. write-runs v known.0 known.1))

    finish_read-runs :
        (r c : TaskRecord)
        → IsRecordOf peer_id task_id r
        → IsRecordOf peer_id task_id c
        → Runs
            (Changes s (IsRecordOf peer_id task_id))
            (λ f. Stores (task_path peer_id task_id) r f)
            (finish_read s device_id (task_path peer_id task_id) r c)
            (IsSaved peer_id task_id)
    unfolding finish_read
    finish_read-runs r c named named' =
        elim (Bool-cases (not (needs_migration device_id r.version) && is_same_journal c r)) [
          | inl same ↦ rw same (runs_pure order r (λ f stored. (named, stored)))
          | inr other ↦
              rw other (written_parsed-runs c (corruption (task_path peer_id task_id)) named')
        ]

    compact_on_read-runs :
        (r : TaskRecord)
        → IsRecordOf peer_id task_id r
        → Runs
            (Changes s (IsRecordOf peer_id task_id))
            (λ f. Stores (task_path peer_id task_id) r f)
            (compact_on_read s device_id (task_path peer_id task_id) r)
            (IsSaved peer_id task_id)
    unfolding compact_on_read
    compact_on_read-runs r named =
        let path = task_path peer_id task_id in
        let P : Files TaskValue → Type 0 = λ f. Stores path r f in
        runs_then order
          (runs_lift order {P = P} {Q = λ m f. IsRecordOf peer_id task_id m × P f}
            (migrated device_id r.version r)
            (λ f m before h. (
              migrated-IsRecordOf settled peer_id task_id normal device_id r.version r m h named,
              before,
            )))
          (λ m. runs_given (λ named_m. runs_then order (runs_time order {P = P} s) (λ at.
            runs_then order
              (runs_lift order {P = P} {Q = λ c f. IsRecordOf peer_id task_id c × P f}
                (compact_task_event_journal m at)
                (λ f c before h. (compacted-IsRecordOf peer_id task_id at m c h named_m, before)))
              (λ c. runs_given (λ named_c. finish_read-runs r c named named_c)))))

    read_value-runs :
        (o : Option TaskValue)
        → Runs
            (Changes s (IsRecordOf peer_id task_id))
            (λ f.
              (v : TaskValue) → o ≡ some v → lookup (task_path peer_id task_id) f ≡ some (json v))
            (read_value s device_id (task_path peer_id task_id) peer_id task_id o)
            (IsFound peer_id task_id)
    unfolding read_value
    read_value-runs none = runs_pure order none (λ f before v h. cc)
    read_value-runs (some other_value) = runs_reading order (λ w. refl) (λ w a before h. cc)
    read_value-runs (some (record_value value)) =
        runs_then order
          (runs_lift order {Q = λ r f. Stores (task_path peer_id task_id) r f} _ (λ f r before h.
            record {
              value = value;
              stored = before (record_value value) refl;
              parsed = or_else_throw-ok _ _ r h;
            }))
          (λ r.
            runs_then order (runs_require order (r.peer_id == peer_id && r.task_id == task_id) _)
              (λ _. runs_given (λ same.
                let (peer, task) = and_split (r.peer_id == peer_id) (r.task_id == task_id) same in
                let named : IsRecordOf peer_id task_id r =
                  ((eq_iff r.peer_id peer_id).0 peer, (eq_iff r.task_id task_id).0 task) in
                runs_then order (compact_on_read-runs r named) (λ v.
                  runs_pure order (some v) (λ f saved u h.
                    let same_v : v ≡ u = ground (arith, h) in
                    subst (λ q. IsSaved peer_id task_id q f) same_v saved)))))

    -- `getOwned`, from the path on.
    pub read_task-runs :
        {P : Files TaskValue → Type 0}
        → Runs
            (Changes s (IsRecordOf peer_id task_id))
            P
            (read_task s device_id (task_path peer_id task_id) peer_id task_id)
            (IsFound peer_id task_id)
    unfolding read_task
    read_task-runs {P = P} =
        runs_then order (runs_read order s {P = P} (task_path peer_id task_id))
          (λ o. runs_along (read_value-runs o) (λ f g h. h) (λ f before. before.1))

    -- What is parsed from a compacted record, written under its own name.
    pub parsed_save-runs :
        {P : Files TaskValue → Type 0} (r : TaskRecord) (e : MeshError)
        → IsRecordOf peer_id task_id r
        → Runs
            (Changes s (IsRecordOf peer_id task_id))
            P
            (lift (or_else_throw (persisted_task_record_schema r) e) >>= λ v.
              write_record s device_id (task_path v.peer_id v.task_id) v)
            (IsSaved peer_id task_id)
    parsed_save-runs {P = P} r e named = runs_then order (parsed-runs r e named) (λ v.
        runs_given (λ known.
          subst
            (λ path.
              Runs (Changes s (IsRecordOf peer_id task_id)) P (write_record s device_id path v)
                (IsSaved peer_id task_id))
            (task_path-of v known.1) (write-runs v known.0 known.1)))

    -- A save of a record of the task.
    pub save-runs :
        {P : Files TaskValue → Type 0} (r : TaskRecord)
        → IsRecordOf peer_id task_id r
        → Runs
            (Changes s (IsRecordOf peer_id task_id))
            P
            (save s device_id r)
            (IsSaved peer_id task_id)
    unfolding save
    save-runs {P = P} r named = runs_then order (runs_time order {P = P} s) (λ at.
        runs_then order
          (runs_lift order {P = P} {Q = λ c f. IsRecordOf peer_id task_id c × P f}
            (compact_task_event_journal r at)
            (λ f c before h. (compacted-IsRecordOf peer_id task_id at r c h named, before)))
          (λ c. runs_given (λ named_c. parsed_save-runs c type_error named_c)))
