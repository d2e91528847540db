-- ===== src/TaskStore/Calls.antt =====
-- src/tasks/FileTaskStore.ts: the calls of its public methods, in any order.
use copilot_agent_mesh.Prelude.{
  String, Option, some, none, List, [], ◌∷◌, ◌≡◌, refl, ap, Option-cases, inl, inr, ◌⊎◌,
}
use copilot_agent_mesh.Protocol.{Platform, TaskRecord, ok, RecoveryDescriptor}
use copilot_agent_mesh.Task.Reducer.{TaskDomainEvent}
use copilot_agent_mesh.Task.Request.{OwnedTaskStart, OwnedRoutedTaskStart}
use copilot_agent_mesh.Task.Idempotency.{get_owned_task}
use copilot_agent_mesh.Storage.Effects.{Surroundings, World, Action, pure, ◌>>=◌}
use copilot_agent_mesh.Storage.Rules.{
  Files, IsOrder, Runs, runs_then, runs_pure, runs_post, runs_along, runs_reading,
}
use copilot_agent_mesh.TaskStore.Access.{TaskValue, get_owned, create}
use copilot_agent_mesh.TaskStore.{
  list_for_recovery, list_tasks, create_idempotent, create_routed_idempotent, find_idempotent_start,
  transition_owned, record_recovery_descriptor, migrate_owned,
}
use copilot_agent_mesh.TaskStore.Changes.{
  IsRecordOf, IsSaved, Changes, unchanged, Changes-IsOrder, Changes-weaken,
}
use copilot_agent_mesh.TaskStore.Methods.{
  get_owned-runs, transition_owned-runs, record_recovery_descriptor-runs, migrate_owned-runs,
}
use copilot_agent_mesh.TaskStore.Listing.{Any, list_tasks-runs}
use copilot_agent_mesh.TaskStore.Creating.{
  create-runs, create_idempotent-runs, create_routed_idempotent-runs, find_idempotent_start-runs,
}

-- The methods that change one task of a peer.
pub data TaskChange : Type 0 where
  transition : TaskDomainEvent → TaskChange
  record_recovery : RecoveryDescriptor → TaskChange
  migrate : String → TaskChange

-- The public methods.
pub data Call : Type 0 where
  get : (peer_id task_id : String) → Call
  change : (peer_id task_id : String) → TaskChange → Call
  create_task : TaskRecord → Call
  create_once : OwnedTaskStart → TaskRecord → Call
  create_routed_once : OwnedRoutedTaskStart → TaskRecord → Call
  find_start : OwnedTaskStart → Call
  list_all recover_all : Call

module _ ⦃p : Platform⦄ (s : Surroundings) (device_id : Option String) where
  abbrev pub apply_change : String → String → TaskChange → Action TaskValue TaskRecord
  apply_change peer_id task_id (transition event) =
      transition_owned s device_id peer_id task_id event
  apply_change peer_id task_id (record_recovery d) =
      record_recovery_descriptor s device_id peer_id task_id d
  apply_change peer_id task_id (migrate d) = migrate_owned s device_id peer_id task_id d

  abbrev discard : {A : Type 0} → Action TaskValue A → Action TaskValue (Unit {0})
  discard m = m >>= λ a. pure tt

  abbrev pub perform : Call → Action TaskValue (Unit {0})
  perform (get peer_id task_id) = discard (get_owned s device_id peer_id task_id)
  perform (change peer_id task_id c) = discard (apply_change peer_id task_id c)
  perform (create_task r) = discard (create s device_id r)
  perform (create_once q r) = discard (create_idempotent s device_id q r)
  perform (create_routed_once q r) = discard (create_routed_idempotent s device_id q r)
  perform (find_start q) = discard (find_idempotent_start s device_id q)
  perform list_all = discard (list_tasks s device_id)
  perform recover_all = discard (list_for_recovery s device_id)

  -- The calls one after the other, whether they throw or not.
  unfoldable pub perform_all : List Call → World TaskValue → World TaskValue
  perform_all [] w = w
  perform_all (c ∷ cs) w = perform_all cs (perform c w).1

  module _ (settled : (s t : String) → p.parse_uuid s ≡ some t → p.parse_uuid t ≡ some t) where
    abbrev order : IsOrder (Changes s Any)
    order = Changes-IsOrder s Any

    pub apply_change-runs :
        {P : Files TaskValue → Type 0} (peer_id task_id peer task : String) (c : TaskChange)
        → p.parse_uuid peer_id ≡ some peer
        → p.parse_uuid task_id ≡ some task
        → Runs
            (Changes s (IsRecordOf peer task))
            P
            (apply_change peer_id task_id c)
            (IsSaved peer task)
    apply_change-runs peer_id task_id peer task (transition event) h k =
        transition_owned-runs settled s device_id peer_id task_id peer task h k event
    apply_change-runs peer_id task_id peer task (record_recovery d) h k =
        record_recovery_descriptor-runs settled s device_id peer_id task_id peer task h k d
    apply_change-runs peer_id task_id peer task (migrate d) h k =
        migrate_owned-runs settled s device_id peer_id task_id peer task h k d

    discard-runs :
        {A : Type 0} {m : Action TaskValue A} {Q : A → Files TaskValue → Type 0}
        → Runs (Changes s Any) (λ f. Unit {0}) m Q
        → Runs (Changes s Any) (λ f. Unit {0}) (discard m) (λ u f. Unit {0})
    discard-runs reached = runs_then order reached (λ a. runs_pure order tt (λ f q. tt))

    anywhere-runs :
        {A : Type 0} {W : TaskRecord → Type 0} {m : Action TaskValue A}
        {Q : A → Files TaskValue → Type 0}
        → Runs (Changes s W) (λ f. Unit {0}) m Q
        → Runs (Changes s Any) (λ f. Unit {0}) m Q
    anywhere-runs {W = W} reached =
        runs_along reached (λ f g changes. Changes-weaken s W Any f g (λ r w. tt) changes)
          (λ f u. u)

    -- A task that no UUIDs name is not looked for.
    pub unnamed_get :
        (peer_id task_id : String) (w : World TaskValue)
        → (p.parse_uuid peer_id ≡ none) ⊎ (p.parse_uuid task_id ≡ none)
        → get_owned s device_id peer_id task_id w ≡ pure none w
    unfolding get_owned
    unnamed_get peer_id task_id w (inl bad) = rw bad refl
    unnamed_get peer_id task_id w (inr bad) = elim (Option-cases (p.parse_uuid peer_id)) [
      | inl none_peer ↦ rw none_peer refl
      | inr (peer, good) ↦ rw (good, bad) refl
    ]

    pub unnamed_change :
        (peer_id task_id : String) (c : TaskChange) (w : World TaskValue)
        → (p.parse_uuid peer_id ≡ none) ⊎ (p.parse_uuid task_id ≡ none)
        → ((apply_change peer_id task_id c w).1 ≡ w)
          × ((r : TaskRecord) → ¬ ((apply_change peer_id task_id c w).0 ≡ ok r))
    unfolding transition_owned record_recovery_descriptor migrate_owned get_owned_task
    unnamed_change peer_id task_id (transition event) w unnamed =
        rw (unnamed_get peer_id task_id w unnamed) (refl, λ r h. cc)
    unnamed_change peer_id task_id (record_recovery d) w unnamed =
        rw (unnamed_get peer_id task_id w unnamed) (refl, λ r h. cc)
    unnamed_change peer_id task_id (migrate d) w unnamed =
        rw (unnamed_get peer_id task_id w unnamed) (refl, λ r h. cc)

    -- Two texts are UUIDs, or one of them is none.
    pub named-cases :
        (peer_id task_id : String)
        → ((p.parse_uuid peer_id ≡ none) ⊎ (p.parse_uuid task_id ≡ none))
          ⊎ ((peer task : String) × (p.parse_uuid peer_id ≡ some peer)
              × (p.parse_uuid task_id ≡ some task))
    named-cases peer_id task_id = elim (Option-cases (p.parse_uuid peer_id)) [
      | inl bad ↦ inl (inl bad)
      | inr (peer, good) ↦ elim (Option-cases (p.parse_uuid task_id)) [
        | inl bad ↦ inl (inr bad)
        | inr (task, good') ↦ inr (peer, task, good, good')
      ]
    ]

    get-runs :
        (peer_id task_id : String)
        → Runs
            (Changes s Any)
            (λ f. Unit {0})
            (get_owned s device_id peer_id task_id)
            (λ o f. Unit {0})
    get-runs peer_id task_id = elim (named-cases peer_id task_id) [
      | inl unnamed ↦
          runs_reading order (λ w. rw (unnamed_get peer_id task_id w unnamed) refl) (λ w a u h. tt)
      | inr (peer, task, good, good') ↦
          runs_post
            (anywhere-runs (
              get_owned-runs settled s device_id peer_id task_id peer task good good'
                {P = λ f. Unit {0}}))
            (λ o f found. tt)
    ]

    change-runs :
        (peer_id task_id : String) (c : TaskChange)
        → Runs (Changes s Any) (λ f. Unit {0}) (apply_change peer_id task_id c) (λ r f. Unit {0})
    change-runs peer_id task_id c = elim (named-cases peer_id task_id) [
      | inl unnamed ↦
          runs_reading order
            (λ w.
              ap (λ (x : World TaskValue). x.files) (unnamed_change peer_id task_id c w unnamed).0)
            (λ w a u h. tt)
      | inr (peer, task, good, good') ↦
          runs_post (anywhere-runs (apply_change-runs peer_id task_id peer task c good good'))
            (λ r f saved. tt)
    ]

    recover_all-runs :
        Runs (Changes s Any) (λ f. Unit {0}) (list_for_recovery s device_id) (λ rs f. Unit {0})
    unfolding list_for_recovery
    recover_all-runs =
        runs_then order (list_tasks-runs settled s device_id) (λ rs. runs_pure order _ (λ f u. u))

    perform-runs : (c : Call) → Runs (Changes s Any) (λ f. Unit {0}) (perform c) (λ u f. Unit {0})
    perform-runs (get peer_id task_id) = discard-runs (get-runs peer_id task_id)
    perform-runs (change peer_id task_id c) = discard-runs (change-runs peer_id task_id c)
    perform-runs (create_task r) =
        discard-runs (runs_post (create-runs settled s device_id r) (λ v f stored. tt))
    perform-runs (create_once q r) = discard-runs (create_idempotent-runs settled s device_id q r)
    perform-runs (create_routed_once q r) =
        discard-runs (create_routed_idempotent-runs settled s device_id q r)
    perform-runs (find_start q) = discard-runs (find_idempotent_start-runs settled s device_id q)
    perform-runs list_all = discard-runs (list_tasks-runs settled s device_id)
    perform-runs recover_all = discard-runs recover_all-runs

    pub perform_all-Changes :
        (cs : List Call) (w : World TaskValue) → Changes s Any w.files (perform_all cs w).files
    unfolding perform_all
    perform_all-Changes [] w = unchanged
    perform_all-Changes (c ∷ cs) w =
        order.joined _ _ _ ((perform-runs c).runs w tt).0 (perform_all-Changes cs (perform c w).1)
