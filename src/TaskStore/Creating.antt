-- ===== src/TaskStore/Creating.antt =====
-- src/tasks/FileTaskStore.ts: `createUnlocked` and the idempotent creations.
use copilot_agent_mesh.Prelude.{
  false, not, String, Option, some, none, ◌≡◌, refl, sym, subst, arith, Option-cases, inl, inr,
  is_some,
}
use copilot_agent_mesh.Protocol.{Platform, TaskRecord, ok, type_error, mesh, MeshErrorReason}
use copilot_agent_mesh.Protocol.Schema.{uuid, persisted_task_record_schema}
use copilot_agent_mesh.Protocol.Schema.Settled.{schema-Settles}
use copilot_agent_mesh.Task.Journal.{compact_task_event_journal}
use copilot_agent_mesh.Task.Request.{OwnedTaskStart, OwnedRoutedTaskStart}
use copilot_agent_mesh.Task.Idempotency.{match_idempotent_start, match_idempotent_routed_start}
use copilot_agent_mesh.Storage.Effects.{Surroundings, ◌>>=◌, ◌>>◌, require_that}
use copilot_agent_mesh.Storage.Rules.{
  Files, IsOrder, Runs, runs_then, runs_pure, runs_lift, runs_given, runs_require, runs_time,
  runs_post, runs_along,
}
use copilot_agent_mesh.TaskStore.Names.{task_path}
use copilot_agent_mesh.TaskStore.Access.{TaskValue, or_else_throw, write_record, get_owned, create}
use copilot_agent_mesh.TaskStore.{
  create_unless, create_idempotent, create_routed_idempotent, find_idempotent_start,
}
use copilot_agent_mesh.TaskStore.Changes.{
  IsRecordOf, IsSaved, Stores, Changes, Changes-IsOrder, Changes-weaken,
}
use copilot_agent_mesh.TaskStore.Identity.{IsNormal, or_else_throw-ok}
use copilot_agent_mesh.TaskStore.Reads.{write-runs}
use copilot_agent_mesh.TaskStore.Methods.{get_owned-runs}
use copilot_agent_mesh.TaskStore.Listing.{Any, list_tasks-runs}

module _ ⦃p : Platform⦄
    (settled : (s t : String) → p.parse_uuid s ≡ some t → p.parse_uuid t ≡ some t) where
  parsed_by-uuid : (s t : String) → uuid s ≡ ok t → p.parse_uuid s ≡ some t
  parsed_by-uuid s t h = elim (Option-cases (p.parse_uuid s)) [
    | inl bad ↦ cc (rw bad at h)
    | inr (u, good) ↦ ground (arith, h, good)
  ]

  -- What the schema gives is unchanged by it, and has normal identifiers.
  abbrev pub IsParsed : TaskRecord → Type 0
  IsParsed v = (persisted_task_record_schema v ≡ ok v) × IsNormal v.peer_id v.task_id

  pub schema-IsParsed : (r v : TaskRecord) → persisted_task_record_schema r ≡ ok v → IsParsed v
  schema-IsParsed r v h =
      let again = (schema-Settles settled r v h).0 in
      let identity = (schema-Settles settled v v again).1 in
      (again, record { peer = parsed_by-uuid _ _ identity.0; task = parsed_by-uuid _ _ identity.1 })

  module _ (s : Surroundings) (device_id : Option String) where
    abbrev order : IsOrder (Changes s Any)
    order = Changes-IsOrder s Any

    abbrev StoredAnywhere : TaskRecord → Files TaskValue → Type 0
    StoredAnywhere v f = IsSaved v.peer_id v.task_id v f

    moved_name :
        {peer_id task_id : String} (v : TaskRecord) (f : Files TaskValue)
        → IsSaved peer_id task_id v f
        → StoredAnywhere v f
    moved_name {task_id = task_id} v f ((peer, task), stored) = (
      (refl, refl),
      subst (λ t. Stores (task_path v.peer_id t) v f) (sym task)
          (subst (λ q. Stores (task_path q task_id) v f) (sym peer) stored),
    )

    -- The tail of `createUnlocked`, from the parsed record on.
    create_parsed-runs :
        (v : TaskRecord)
        → IsParsed v
        → Runs
            (Changes s Any)
            (λ f. Unit {0})
            (get_owned s device_id v.peer_id v.task_id >>= λ existing.
              require_that (not (is_some existing)) (mesh MeshErrorReason.task_id_conflict false)
              >> write_record s device_id (task_path v.peer_id v.task_id) v)
            StoredAnywhere
    create_parsed-runs v (good, normal) =
        let here = Changes-IsOrder s (IsRecordOf v.peer_id v.task_id) in
        runs_along
          (runs_then here
            (get_owned-runs settled s device_id v.peer_id v.task_id v.peer_id v.task_id normal.peer
              normal.task {P = λ f. Unit {0}})
            (λ existing. runs_then here (runs_require here _ _) (λ u.
              runs_post
                (write-runs settled s device_id v.peer_id v.task_id normal v good (refl, refl))
                moved_name)))
          (λ f g changes. Changes-weaken s _ Any f g (λ r w. tt) changes) (λ f u. u)

    pub create-runs :
        (r : TaskRecord)
        → Runs (Changes s Any) (λ f. Unit {0}) (create s device_id r) StoredAnywhere
    unfolding create
    create-runs r = runs_then order (runs_time order {P = λ f. Unit {0}} s) (λ at.
        runs_then order
          (runs_lift order {Q = λ c f. Unit {0}} (compact_task_event_journal r at) (λ f c u h. u))
          (λ c.
            runs_then order
              (runs_lift order {Q = λ v f. IsParsed v × Unit {0}}
                (or_else_throw (persisted_task_record_schema c) type_error)
                (λ f v u h. (schema-IsParsed c v (or_else_throw-ok _ _ v h), u)))
              (λ v. runs_given (λ parsed. create_parsed-runs v parsed))))

    create_unless-runs :
        (r : TaskRecord) (o : Option TaskRecord)
        → Runs (Changes s Any) (λ f. Unit {0}) (create_unless s device_id r o) (λ made f. Unit {0})
    unfolding create_unless
    create_unless-runs r (some existing) = runs_pure order _ (λ f u. u)
    create_unless-runs r none =
        runs_then order (create-runs r) (λ made. runs_pure order _ (λ f stored. tt))

    pub create_idempotent-runs :
        (q : OwnedTaskStart) (r : TaskRecord)
        → Runs
            (Changes s Any)
            (λ f. Unit {0})
            (create_idempotent s device_id q r)
            (λ made f. Unit {0})
    unfolding create_idempotent
    create_idempotent-runs q r = runs_then order (list_tasks-runs settled s device_id) (λ records.
        runs_then order
          (runs_lift order {Q = λ o f. Unit {0}} (match_idempotent_start records q) (λ f o u h. u))
          (λ o. create_unless-runs r o))

    pub create_routed_idempotent-runs :
        (q : OwnedRoutedTaskStart) (r : TaskRecord)
        → Runs
            (Changes s Any)
            (λ f. Unit {0})
            (create_routed_idempotent s device_id q r)
            (λ made f. Unit {0})
    unfolding create_routed_idempotent
    create_routed_idempotent-runs q r =
        runs_then order (list_tasks-runs settled s device_id) (λ records.
          runs_then order
            (runs_lift order {Q = λ o f. Unit {0}} (match_idempotent_routed_start records q)
              (λ f o u h. u))
            (λ o. create_unless-runs r o))

    pub find_idempotent_start-runs :
        (q : OwnedTaskStart)
        → Runs
            (Changes s Any)
            (λ f. Unit {0})
            (find_idempotent_start s device_id q)
            (λ o f. Unit {0})
    unfolding find_idempotent_start
    find_idempotent_start-runs q =
        runs_then order (list_tasks-runs settled s device_id)
          (λ records. runs_lift order (match_idempotent_start records q) (λ f o u h. u))
