-- ===== src/TaskStore/Identity.antt =====
-- src/tasks/FileTaskStore.ts and the domain functions that it calls: of which task the records are.
use copilot_agent_mesh.Prelude.{
  String, Option, some, none, ◌≡◌, refl, ap, ◌∙◌, subst, arith, inl, inr, ◌⊎◌,
}
use copilot_agent_mesh.Protocol.{
  Platform, TaskRecord, Result, ok, err, MeshError, SchemaVersion, version_1, version_2, >>=-eq-ok,
  RoutedFields,
}
use copilot_agent_mesh.Protocol.Schema.{uuid, persisted_task_record_schema}
use copilot_agent_mesh.Protocol.Schema.Settled.{schema-Settles}
use copilot_agent_mesh.Protocol.Schema.Fields.{gives}
use copilot_agent_mesh.Task.Journal.{compact_task_event_journal}
use copilot_agent_mesh.Task.Journal.Compaction.{compact-fields}
use copilot_agent_mesh.Task.Idempotency.{migrate_task_record_v1}
use copilot_agent_mesh.TaskStore.Access.{or_else_throw, migrated}
use copilot_agent_mesh.TaskStore.Changes.{IsRecordOf}

module _ ⦃p : Platform⦄ where
  pub or_else_throw-ok :
      (r : Result TaskRecord) (e : MeshError) (v : TaskRecord) → or_else_throw r e ≡ ok v → r ≡ ok v
  or_else_throw-ok (ok r) e v h = h
  or_else_throw-ok (err e') e v h = cc

  pub uuid-ok : (s t : String) → p.parse_uuid s ≡ some t → uuid s ≡ ok t
  uuid-ok s t h = rw h

  -- A normal UUID is what the schema gives.
  pub record IsNormal (peer_id task_id : String) : Type 0 where
    pub peer : p.parse_uuid peer_id ≡ some peer_id
    pub task : p.parse_uuid task_id ≡ some task_id

  pub compacted-IsRecordOf :
      (peer_id task_id at : String) (r c : TaskRecord)
      → compact_task_event_journal r at ≡ ok c
      → IsRecordOf peer_id task_id r
      → IsRecordOf peer_id task_id c
  compacted-IsRecordOf peer_id task_id at r c h (peer, task) =
      let e = compact-fields r at c h in
      (ap (λ (q : TaskRecord). q.peer_id) e ∙ peer, ap (λ (q : TaskRecord). q.task_id) e ∙ task)

  version-cases : (v : SchemaVersion) → (v ≡ version_1) ⊎ ((f : RoutedFields) × (v ≡ version_2 f))
  version-cases version_1 = inl refl
  version-cases (version_2 f) = inr (f, refl)

  -- A migration gives the record, or what the schema makes of a record of the same task.
  migrate-parsed :
      (r m : TaskRecord) (device_id : String)
      → migrate_task_record_v1 r device_id ≡ ok m
      → (r ≡ m)
        ⊎ ((q : TaskRecord) × IsRecordOf r.peer_id r.task_id q
            × (persisted_task_record_schema q ≡ ok m))
  unfolding migrate_task_record_v1
  migrate-parsed r m device_id h = elim (version-cases r.version) [
    | inl v1 ↦
        let (device, e, parsed) = >>=-eq-ok (uuid device_id) _ (rw v1 at h) in
        inr (_, (refl, refl), parsed)
    | inr (f, v2) ↦ inl (gives (λ q. r ≡ q) (rw v2 at h) (ap (λ v. record r { version = v }) v2))
  ]

  module _ (settled : (s t : String) → p.parse_uuid s ≡ some t → p.parse_uuid t ≡ some t) where
    pub parsed-IsRecordOf :
        (peer_id task_id : String)
        → IsNormal peer_id task_id
        → (r v : TaskRecord) → persisted_task_record_schema r ≡ ok v
        → IsRecordOf peer_id task_id r
        → (persisted_task_record_schema v ≡ ok v) × IsRecordOf peer_id task_id v
    parsed-IsRecordOf peer_id task_id normal r v h (peer, task) =
        let (again, (same_peer, same_task)) = schema-Settles settled r v h in
        let peer' = ap uuid peer ∙ uuid-ok peer_id peer_id normal.peer in
        let task' = ap uuid task ∙ uuid-ok task_id task_id normal.task in
        (again, (ground (arith, same_peer, peer'), ground (arith, same_task, task')))

    pub migrate-IsRecordOf :
        (peer_id task_id : String)
        → IsNormal peer_id task_id
        → (r m : TaskRecord) (device_id : String) → migrate_task_record_v1 r device_id ≡ ok m
        → IsRecordOf peer_id task_id r
        → IsRecordOf peer_id task_id m
    migrate-IsRecordOf peer_id task_id normal r m device_id h (peer, task) =
        elim (migrate-parsed r m device_id h) [
          | inl same ↦ subst (λ q. IsRecordOf peer_id task_id q) same (peer, task)
          | inr (q, (peer', task'), parsed) ↦
              (parsed-IsRecordOf peer_id task_id normal q m parsed (peer' ∙ peer, task' ∙ task)).1
        ]

    pub migrated-IsRecordOf :
        (peer_id task_id : String)
        → IsNormal peer_id task_id
        → (device_id : Option String) (v : SchemaVersion) (r m : TaskRecord)
        → migrated device_id v r ≡ ok m
        → IsRecordOf peer_id task_id r
        → IsRecordOf peer_id task_id m
    migrated-IsRecordOf peer_id task_id normal (some d) version_1 r m h named =
        migrate-IsRecordOf peer_id task_id normal r m d h named
    migrated-IsRecordOf peer_id task_id normal (some d) (version_2 f) r m h named =
        gives (λ q. IsRecordOf peer_id task_id q) h named
    migrated-IsRecordOf peer_id task_id normal none v r m h named =
        gives (λ q. IsRecordOf peer_id task_id q) h named
