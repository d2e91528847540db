-- ===== src/Scenarios/Workspaces.antt =====
-- Examples for src/tasks/WorkspaceLeaseManager.ts.
use copilot_agent_mesh.Prelude.{
  ◌&&◌, String, none, some, [], ◌∷◌, ◌≡◌, refl, if◌then◌else◌, ◌==◌, lookup, insert, remove, first,
  later,
}
use copilot_agent_mesh.Protocol.{ok, TaskStatus, TaskRecord}
use copilot_agent_mesh.Leases.{
  LeaseOwner, Leases, owner, owned_by, normalize_lease_identity, release, restore_record,
  restore_records, restore_from_task_records,
}
use copilot_agent_mesh.Leases.Ownership.{AcquireOutcome, acquire_outcome, release-owner}
use copilot_agent_mesh.Leases.Interleaving.{
  acquire_call, release_call, release_terminal_call, restore_call, run, lease_held,
}
use copilot_agent_mesh.Leases.Recovery.{HoldsLease, IsClaimed, restored_lease, restored_claim}
use copilot_agent_mesh.Scenarios.Samples.{running_task, sample_platform}

abbrev first_owner : LeaseOwner
first_owner = record { peer_id = "p1"; task_id = "t1" }

abbrev one_lease : Leases
one_lease = ("lease", first_owner) ∷ []

-- A second workspace, and a task in it that has ended.
abbrev ended_task : TaskRecord
ended_task = record running_task {
  task_id = "t2";
  workspace_lease_key = "other";
  state = TaskStatus.failed;
}

acquire_outcome_example : AcquireOutcome "lease" "p1" "t2" one_lease
acquire_outcome_example = acquire_outcome "lease" "p1" "t2" one_lease

release-owner_example :
    (o : LeaseOwner) × (normalize_lease_identity "lease" "p1" "t1" ≡ ok o)
    × ((v : String)
        → owner v [] ≡ (
            if "lease" == v && owned_by (owner "lease" one_lease) o
            then none
            else owner v one_lease))
unfolding release normalize_lease_identity lookup remove
release-owner_example = release-owner "lease" "p1" "t1" one_lease [] refl

lease_held_example :
    owner "lease" (
      run
        (acquire_call "lease" "p2" "t2"
          ∷ release_call "lease" "p2" "t2"
          ∷ release_call "other" "p1" "t1"
          ∷ release_terminal_call ended_task
          ∷ restore_call (ended_task ∷ running_task ∷ [])
          ∷ [])
        one_lease)
    ≡ some first_owner
unfolding normalize_lease_identity lookup
lease_held_example =
    lease_held "lease" first_owner
      (acquire_call "lease" "p2" "t2"
        ∷ release_call "lease" "p2" "t2"
        ∷ release_call "other" "p1" "t1"
        ∷ release_terminal_call ended_task
        ∷ restore_call (ended_task ∷ running_task ∷ [])
        ∷ [])
      one_lease refl refl

restored_lease_example : HoldsLease one_lease running_task
unfolding restore_from_task_records restore_records restore_record normalize_lease_identity lookup
    insert
restored_lease_example =
    restored_lease (ended_task ∷ running_task ∷ []) [] one_lease running_task refl (later first)
      refl

restored_claim_example : IsClaimed "lease" first_owner (ended_task ∷ running_task ∷ [])
unfolding restore_from_task_records restore_records restore_record normalize_lease_identity lookup
    insert
restored_claim_example =
    restored_claim (ended_task ∷ running_task ∷ []) (("gone", first_owner) ∷ []) one_lease "lease"
      first_owner refl refl
