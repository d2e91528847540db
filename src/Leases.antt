-- ===== src/Leases.antt =====
-- src/tasks/WorkspaceLeaseManager.ts: which task of which peer uses a workspace.
pub mod Ownership
pub mod Interleaving
pub mod Recovery
use copilot_agent_mesh.Prelude.{
  Bool, true, false, not, ◌&&◌, ◌||◌, String, Option, none, some, List, [], ◌∷◌, ◌==◌, ltb,
  if◌then◌else◌, Dict, lookup, insert, remove, is_some,
}
use copilot_agent_mesh.Protocol.{
  Platform, Result, ok, err, MeshErrorReason, mesh, type_error, plain_error, ◌>>=◌, ◌>>◌, require,
  utf8_byte_length, TaskRecord, is_active,
}

pub record LeaseOwner : Type 0 where
  pub peer_id : String
  pub task_id : String

-- The map `leases`, by the key of the workspace's lease.
abbrev pub Leases : Type 0
Leases = Dict LeaseOwner

abbrev pub same_owner : LeaseOwner → LeaseOwner → Bool
same_owner left right = left.peer_id == right.peer_id && left.task_id == right.task_id

-- `owner !== undefined && sameOwner(owner, requested)`.
abbrev pub owned_by : Option LeaseOwner → LeaseOwner → Bool
owned_by none requested = false
owned_by (some owner) requested = same_owner owner requested

-- `owner !== undefined && !sameOwner(owner, requested)`.
abbrev pub is_taken : Option LeaseOwner → LeaseOwner → Bool
is_taken none requested = false
is_taken (some owner) requested = not (same_owner owner requested)

-- `isLeased` and `owner`.
abbrev pub is_leased : String → Leases → Bool
is_leased workspace_id leases = is_some (lookup workspace_id leases)

abbrev pub owner : String → Leases → Option LeaseOwner
owner workspace_id leases = lookup workspace_id leases

abbrev pub identity_of : Bool → Option String → Option String → Result LeaseOwner
identity_of true (some peer_id) (some task_id) =
    ok (record { peer_id = peer_id; task_id = task_id })
identity_of _ _ _ = err type_error

module _ ⦃p : Platform⦄ where
  -- `normalizeLeaseIdentity`.
  unfoldable pub normalize_lease_identity : String → String → String → Result LeaseOwner
  normalize_lease_identity workspace_id peer_id task_id =
      identity_of (not (workspace_id == "" || ltb 1_024 (utf8_byte_length workspace_id)))
        (p.parse_uuid peer_id) (p.parse_uuid task_id)

  -- `acquire`.
  unfoldable pub acquire : String → String → String → Leases → Result Leases
  acquire workspace_id peer_id task_id leases = do
    requested ← normalize_lease_identity workspace_id peer_id task_id
    require (not (is_taken (lookup workspace_id leases) requested))
        (mesh MeshErrorReason.workspace_busy false)
    ok (insert workspace_id requested leases)

  -- `release`.
  unfoldable pub release : String → String → String → Leases → Result Leases
  release workspace_id peer_id task_id leases = do
    identity ← normalize_lease_identity workspace_id peer_id task_id
    ok (
        if owned_by (lookup workspace_id leases) identity
        then remove workspace_id leases
        else leases)

  -- `releaseForPersistedTerminal`.
  unfoldable pub release_for_persisted_terminal : TaskRecord → Leases → Result Leases
  release_for_persisted_terminal r leases = do
    require (not (is_active r.state)) plain_error
    release r.workspace_lease_key r.peer_id r.task_id leases

  -- The body of the loop of `restoreFromTaskRecords`.
  unfoldable pub restore_record : TaskRecord → Leases → Result Leases
  restore_record r restored =
      if not (is_active r.state)
      then ok restored
      else normalize_lease_identity r.workspace_lease_key r.peer_id r.task_id >>= λ identity.
          require (not (is_taken (lookup r.workspace_lease_key restored) identity)) plain_error
          >> ok (insert r.workspace_lease_key identity restored)

  unfoldable pub restore_records : List TaskRecord → Leases → Result Leases
  restore_records [] restored = ok restored
  restore_records (r ∷ records) restored = restore_record r restored >>= restore_records records

  -- `restoreFromTaskRecords`: the entries of `restored` replace those of `leases`, in their order.
  unfoldable pub restore_from_task_records : List TaskRecord → Leases → Result Leases
  restore_from_task_records records leases = restore_records records []
