-- ===== src/TaskStore/Changes.antt =====
-- src/tasks/FileTaskStore.ts: which writes its methods make.
use copilot_agent_mesh.Prelude.{ℕ, true, String, Option, some, ◌≡◌, refl, lookup, insert}
use copilot_agent_mesh.Protocol.{Platform, TaskRecord, ok}
use copilot_agent_mesh.Protocol.Schema.{persisted_task_record_schema}
use copilot_agent_mesh.Storage.Effects.{Surroundings, json}
use copilot_agent_mesh.Storage.Rules.{
  Files, IsOrder, Runs, is_confirmed, runs_then, runs_pure, runs_fence, runs_write,
}
use copilot_agent_mesh.TaskStore.Names.{task_path}
use copilot_agent_mesh.TaskStore.Access.{TaskValue, record_value, write_record}

-- The record of the task `task_id` of the peer `peer_id`.
abbrev pub IsRecordOf : String → String → TaskRecord → Type 0
IsRecordOf peer_id task_id r = (r.peer_id ≡ peer_id) × (r.task_id ≡ task_id)

module _ ⦃p : Platform⦄ where
  -- A file that the store may write: a record that the schema gives, under the name of its task, after
  -- the ownership was confirmed.
  pub record IsWritable (s : Surroundings) (path : String) (r : TaskRecord) : Type 0 where
    pub parsed : persisted_task_record_schema r ≡ ok r
    pub named : path ≡ task_path r.peer_id r.task_id
    pub at : ℕ
    pub confirmed : is_confirmed s at ≡ true

  -- How the files change by writes of records with `W`.
  pub data Changes (s : Surroundings) (W : TaskRecord → Type 0)
      : Files TaskValue → Files TaskValue → Type 0 where
    unchanged : {f : Files TaskValue} → Changes s W f f
    and_written :
        {f g : Files TaskValue} (path : String) (r : TaskRecord)
        → Changes s W f g
        → IsWritable s path r
        → W r
        → Changes s W f (insert path (json (record_value r)) g)

  pub Changes-join :
      (s : Surroundings) (W : TaskRecord → Type 0) (f g h : Files TaskValue)
      → Changes s W f g
      → Changes s W g h
      → Changes s W f h
  Changes-join s W f g h first unchanged = first
  Changes-join s W f g h first (and_written path r later ready w) =
      and_written path r (Changes-join s W f g _ first later) ready w

  pub Changes-IsOrder : (s : Surroundings) (W : TaskRecord → Type 0) → IsOrder (Changes s W)
  Changes-IsOrder s W = record { same = λ f. unchanged; joined = Changes-join s W }

  pub Changes-weaken :
      (s : Surroundings) (W W' : TaskRecord → Type 0) (f g : Files TaskValue)
      → ((r : TaskRecord) → W r → W' r)
      → Changes s W f g
      → Changes s W' f g
  Changes-weaken s W W' f g weaker unchanged = unchanged
  Changes-weaken s W W' f g weaker (and_written path r later ready w) =
      and_written path r (Changes-weaken s W W' f _ weaker later) ready (weaker r w)

  -- The file at the path parses to the record.
  pub record Stores (path : String) (r : TaskRecord) (f : Files TaskValue) : Type 0 where
    pub value : TaskRecord
    pub stored : lookup path f ≡ some (json (record_value value))
    pub parsed : persisted_task_record_schema value ≡ ok r

  -- The file of the task parses to the record, which is one of the task.
  abbrev pub IsSaved : String → String → TaskRecord → Files TaskValue → Type 0
  IsSaved peer_id task_id v f =
      IsRecordOf peer_id task_id v × Stores (task_path peer_id task_id) v f

  -- What `getOwned` gives is what the file of the task parses to.
  abbrev pub IsFound : String → String → Option TaskRecord → Files TaskValue → Type 0
  IsFound peer_id task_id o f = (v : TaskRecord) → o ≡ some v → IsSaved peer_id task_id v f

  module _ (s : Surroundings) (device_id : Option String) (W : TaskRecord → Type 0) where
    pub write_record-runs :
        {P : Files TaskValue → Type 0} (path : String) (r : TaskRecord)
        → persisted_task_record_schema r ≡ ok r
        → path ≡ task_path r.peer_id r.task_id
        → W r
        → Runs (Changes s W) P (write_record s device_id path r) (λ v f. (v ≡ r) × Stores path r f)
    unfolding write_record
    write_record-runs path r good named allowed =
        let order = Changes-IsOrder s W in
        runs_then order (runs_fence order s) λ _.
          runs_then order
            (runs_write order s path (record_value r) (λ f ready.
              let ((n, confirmed), before) = ready in
              and_written path r unchanged
                (record { parsed = good; named = named; at = n; confirmed = confirmed }) allowed))
            λ _. runs_then order (runs_fence order s) λ _.
              runs_pure order r
                (λ f ready. (refl, record { value = r; stored = ready.1; parsed = good }))
