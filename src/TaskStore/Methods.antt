-- ===== src/TaskStore/Methods.antt =====
-- src/tasks/FileTaskStore.ts: what its public methods do to the files.
use copilot_agent_mesh.Prelude.{
  true, false, String, Option, some, none, ◌≡◌, sym, ◌∙◌, subst, arith, inl, inr, ◌⊎◌,
  if◌then◌else◌,
}
use copilot_agent_mesh.Protocol.{
  Platform, TaskRecord, ok, SchemaVersion, version_1, version_2, RecoveryDescriptor,
}
use copilot_agent_mesh.Protocol.Schema.{recovery_descriptor_schema}
use copilot_agent_mesh.Task.Reducer.{TaskDomainEvent, task_reducer}
use copilot_agent_mesh.Task.Reducer.Diagram.{task_reducer-⟶}
use copilot_agent_mesh.Task.Idempotency.{migrate_task_record_v1, get_owned_task}
use copilot_agent_mesh.Task.Idempotency.Routing.{get_owned_task_iff}
use copilot_agent_mesh.Storage.Effects.{Action, Surroundings, pure, lift, ◌>>=◌}
use copilot_agent_mesh.Storage.Rules.{
  Files, IsOrder, Runs, runs_then, runs_pure, runs_lift, runs_require, runs_given,
}
use copilot_agent_mesh.TaskStore.Access.{TaskValue, get_owned, save}
use copilot_agent_mesh.TaskStore.{
  is_updated, transition_record, transition_owned, record_session, record_recovery_descriptor,
  migrate_current, migrate_owned,
}
use copilot_agent_mesh.TaskStore.Changes.{IsRecordOf, IsSaved, IsFound, Changes, Changes-IsOrder}
use copilot_agent_mesh.TaskStore.Identity.{IsNormal, migrate-IsRecordOf}
use copilot_agent_mesh.TaskStore.Reads.{read_task-runs, save-runs}

not_updated : (r : TaskRecord) → is_updated r r ≡ false
not_updated r = ground arith

module _ ⦃p : Platform⦄
    (settled : (s t : String) → p.parse_uuid s ≡ some t → p.parse_uuid t ≡ some t)
    (s : Surroundings) (device_id : Option String) where
  module _ (peer_id task_id peer task : String) (parsed_peer : p.parse_uuid peer_id ≡ some peer)
      (parsed_task : p.parse_uuid task_id ≡ some task) where
    abbrev pub W : TaskRecord → Type 0
    W = IsRecordOf peer task

    normal : IsNormal peer task
    normal = record {
      peer = settled peer_id peer parsed_peer;
      task = settled task_id task parsed_task;
    }

    abbrev order : IsOrder (Changes s W)
    order = Changes-IsOrder s W

    pub get_owned-runs :
        {P : Files TaskValue → Type 0}
        → Runs (Changes s W) P (get_owned s device_id peer_id task_id) (IsFound peer task)
    unfolding get_owned
    get_owned-runs =
        rw (parsed_peer, parsed_task) (read_task-runs settled s device_id peer task normal)

    owned-runs :
        (o : Option TaskRecord)
        → Runs
            (Changes s W)
            (IsFound peer task o)
            (lift (get_owned_task o peer_id))
            (λ r f. W r × IsSaved peer task r f)
    owned-runs o = runs_lift order (get_owned_task o peer_id) (λ f r found h.
        let saved = found r ((get_owned_task_iff o peer_id r).0 h).0 in (saved.0, saved))

    -- The record of the task, as each method below reads it first.
    found-runs :
        {P : Files TaskValue → Type 0} {next : TaskRecord → Action TaskValue TaskRecord}
        → ((r : TaskRecord)
            → W r
            → Runs (Changes s W) (λ f. IsSaved peer task r f) (next r) (IsSaved peer task))
        → Runs
            (Changes s W)
            P
            (get_owned s device_id peer_id task_id >>= λ found.
              lift (get_owned_task found peer_id) >>= next)
            (IsSaved peer task)
    found-runs {P = P} {next = next} later =
        runs_then order (get_owned-runs {P = P})
          (λ o. runs_then order (owned-runs o) (λ r. runs_given (λ named. later r named)))

    -- What the reducer returns: the record itself, or an updated one of the task.
    IsReduced : TaskRecord → TaskRecord → Type 0
    IsReduced r u = (r ≡ u) ⊎ (W u × (is_updated u r ≡ true))

    reducer-IsReduced :
        (r u : TaskRecord) (event : TaskDomainEvent)
        → W r
        → task_reducer r event ≡ ok u
        → IsReduced r u
    unfolding IsReduced
    reducer-IsReduced r u event (same_peer, same_task) h = elim (task_reducer-⟶ r event u h) [
      | inl same ↦ inl (sym same)
      | inr (edge, number, time, identity) ↦ inr (
        (identity.same_peer ∙ same_peer, identity.same_task ∙ same_task),
        rw number (ground arith),
      )
    ]

    reduced-runs :
        (r u : TaskRecord)
        → IsReduced r u
        → Runs
            (Changes s W)
            (λ f. IsSaved peer task r f)
            (if is_updated u r then save s device_id u else pure u)
            (IsSaved peer task)
    unfolding IsReduced
    reduced-runs r u (inl same) =
        subst
          (λ q.
            Runs (Changes s W) (λ f. IsSaved peer task r f)
              (if is_updated q r then save s device_id q else pure q) (IsSaved peer task))
          same (rw (not_updated r) (runs_pure order r (λ f saved. saved)))
    reduced-runs r u (inr (named, updated)) =
        rw updated (save-runs settled s device_id peer task normal u named)

    transition_record-runs :
        (r : TaskRecord) (event : TaskDomainEvent)
        → W r
        → Runs
            (Changes s W)
            (λ f. IsSaved peer task r f)
            (transition_record s device_id r event)
            (IsSaved peer task)
    unfolding transition_record
    transition_record-runs r event named =
        runs_then order
          (runs_lift order {Q = λ u f. IsReduced r u × IsSaved peer task r f} (task_reducer r event)
            (λ f u saved h. (reducer-IsReduced r u event named h, saved)))
          (λ u. runs_given (λ reduced. reduced-runs r u reduced))

    pub transition_owned-runs :
        {P : Files TaskValue → Type 0} (event : TaskDomainEvent)
        → Runs
            (Changes s W)
            P
            (transition_owned s device_id peer_id task_id event)
            (IsSaved peer task)
    unfolding transition_owned
    transition_owned-runs {P = P} event =
        found-runs (λ r named. transition_record-runs r event named)

    record_session-runs :
        (r : TaskRecord) (d : RecoveryDescriptor) (o : Option RecoveryDescriptor)
        → W r
        → Runs
            (Changes s W)
            (λ f. IsSaved peer task r f)
            (record_session s device_id r d o)
            (IsSaved peer task)
    unfolding record_session
    record_session-runs r d (some e) named =
        runs_then order (runs_require order _ _) (λ _. runs_pure order r (λ f ready. ready.1))
    record_session-runs r d none named = save-runs settled s device_id peer task normal _ named

    pub record_recovery_descriptor-runs :
        {P : Files TaskValue → Type 0} (d : RecoveryDescriptor)
        → Runs
            (Changes s W)
            P
            (record_recovery_descriptor s device_id peer_id task_id d)
            (IsSaved peer task)
    unfolding record_recovery_descriptor
    record_recovery_descriptor-runs d = found-runs (λ r named.
        runs_then order
          (runs_lift order {Q = λ v f. IsSaved peer task r f} (recovery_descriptor_schema d)
            (λ f v saved h. saved))
          (λ v. record_session-runs r v r.recovery_descriptor named))

    migrate_current-runs :
        (r : TaskRecord) (d : String) (v : SchemaVersion)
        → W r
        → Runs
            (Changes s W)
            (λ f. IsSaved peer task r f)
            (migrate_current s device_id r d v)
            (IsSaved peer task)
    unfolding migrate_current
    migrate_current-runs r d (version_2 v) named = runs_pure order r (λ f saved. saved)
    migrate_current-runs r d version_1 named =
        runs_then order
          (runs_lift order {P = λ f. IsSaved peer task r f} {Q = λ m f. W m × IsSaved peer task r f}
            (migrate_task_record_v1 r d)
            (λ f m saved h. (migrate-IsRecordOf settled peer task normal r m d h named, saved)))
          (λ m. runs_given (λ named_m. save-runs settled s device_id peer task normal m named_m))

    pub migrate_owned-runs :
        {P : Files TaskValue → Type 0} (d : String)
        → Runs (Changes s W) P (migrate_owned s device_id peer_id task_id d) (IsSaved peer task)
    unfolding migrate_owned
    migrate_owned-runs d = found-runs (λ r named. migrate_current-runs r d r.version named)
