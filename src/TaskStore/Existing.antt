-- ===== src/TaskStore/Existing.antt =====
-- src/tasks/FileTaskStore.ts: `createUnlocked` on a task that has a file.
use copilot_agent_mesh.Prelude.{
  false, not, String, Option, some, none, ◌≡◌, ◌≢◌, refl, sym, ap, ◌∙◌, is_some, lookup,
}
use copilot_agent_mesh.Protocol.{Platform, TaskRecord, Result, ok, err, mesh, MeshErrorReason}
use copilot_agent_mesh.Protocol.Schema.{persisted_task_record_schema}
use copilot_agent_mesh.Task.Journal.{compact_task_event_journal}
use copilot_agent_mesh.Storage.Effects.{
  Surroundings, World, Stored, continue, tick, require_that, ◌>>◌,
}
use copilot_agent_mesh.TaskStore.Names.{task_path}
use copilot_agent_mesh.TaskStore.Access.{TaskValue, get_owned, write_record, create}
use copilot_agent_mesh.TaskStore.Creating.{schema-IsParsed}
use copilot_agent_mesh.TaskStore.Novelty.{get_owned-none}

-- Two actions' outcomes: the same files and count of calls, and no value.
abbrev pub IsRefused : {V A B : Type 0} → Result A × World V → Result B × World V → Type 0
IsRefused {B = B} x y = (y.1 ≡ x.1) × ((b : B) → y.0 ≢ ok b)

module _ ⦃p : Platform⦄ (s : Surroundings) (device_id : Option String) where
  -- After a read that has not found the task missing, the test refuses the creation.
  IsRefused-after :
      (path : String) (v : TaskRecord) (x : Result (Option TaskRecord) × World TaskValue)
      → (x.0 ≡ ok none → ⊥)
      → IsRefused x (
          continue
            (λ existing.
              require_that (not (is_some existing)) (mesh MeshErrorReason.task_id_conflict false)
              >> write_record s device_id path v)
            x)
  IsRefused-after path v (ok none, w) found = absurd (found refl)
  IsRefused-after path v (ok (some existing), w) found = (refl, λ b h. cc)
  IsRefused-after path v (err e, w) found = (refl, λ b h. cc)

  -- Take a record whose compaction at the time of the call passes the schema. When there is a file under the
  -- name of its task, whatever the file holds and whatever the disk and the ownership do, a creation of the
  -- record throws, and it leaves the files as `getOwned` of the task leaves them, which may compact the
  -- record that it reads. The schema for UUIDs leaves what it gives.
  pub create_existing :
      (settled : (s t : String) → p.parse_uuid s ≡ some t → p.parse_uuid t ≡ some t)
      (r c v : TaskRecord) (w : World TaskValue) (file : Stored TaskValue)
      → compact_task_event_journal r (s.now w.moment) ≡ ok c
      → persisted_task_record_schema c ≡ ok v
      → lookup (task_path v.peer_id v.task_id) w.files ≡ some file
      → ((create s device_id r w).1.files
          ≡ (get_owned s device_id v.peer_id v.task_id (tick w)).1.files)
        × ((a : TaskRecord) → (create s device_id r w).0 ≢ ok a)
  unfolding create
  create_existing settled r c v w file compacted parsed present =
      let (good, normal) = schema-IsParsed settled c v parsed in
      let found : (get_owned s device_id v.peer_id v.task_id (tick w)).0 ≡ ok none → ⊥ = λ h. cc (
        sym present
        ∙ get_owned-none s device_id v.peer_id v.task_id (tick w) normal.peer normal.task h) in
      let (same, never) =
        IsRefused-after (task_path v.peer_id v.task_id) v
          (get_owned s device_id v.peer_id v.task_id (tick w)) found in
      rw (compacted, parsed) (ap (λ (u : World TaskValue). u.files) same, never)
