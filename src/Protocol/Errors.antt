-- ===== src/Protocol/Errors.antt =====
-- shared/protocol/errors.ts and src/domain/errors.ts: the reasons of a Mesh error with their wire
-- codes, and the errors that the modelled code throws. Message texts are left out.
use copilot_agent_mesh.Prelude.{
  ℕ, Bool, String, Option, none, some, ◌≡◌, refl, ◌⊎◌, inl, inr, if◌then◌else◌,
}
use copilot_agent_mesh.Protocol.Status.{TaskStatus}

pub data MeshErrorReason : Type 0 where
  auth_required auth_failed protocol_incompatible rate_limited workspace_not_found
        workspace_disabled workspace_busy task_not_found task_id_conflict task_not_cancellable
        input_not_pending agent_unavailable agent_auth_required task_execution_failed
        task_recovery_unavailable worker_draining remote_workspace_unsupported cli_unsupported
        tunnel_unavailable workspace_untrusted local_file_workspace_required port_conflict
        tunnel_access_expired task_cancellation_unconfirmed delegation_not_found peer_not_allowed
        peer_not_accepting peer_offline peer_multi_workspace artifact_not_found artifact_forbidden
        artifact_invalid artifact_corrupt artifact_limit_exceeded window_name_conflict
        policy_forbidden delegation_recursion window_name_invalid idempotency_conflict :
      MeshErrorReason

-- `MESH_ERROR_CODES`.
abbrev pub mesh_error_code : MeshErrorReason → ℕ
mesh_error_code auth_required = 1000
mesh_error_code auth_failed = 1001
mesh_error_code protocol_incompatible = 1002
mesh_error_code rate_limited = 1003
mesh_error_code workspace_not_found = 1004
mesh_error_code workspace_disabled = 1005
mesh_error_code workspace_busy = 1006
mesh_error_code task_not_found = 1007
mesh_error_code task_id_conflict = 1008
mesh_error_code task_not_cancellable = 1009
mesh_error_code input_not_pending = 1010
mesh_error_code agent_unavailable = 1011
mesh_error_code agent_auth_required = 1012
mesh_error_code task_execution_failed = 1013
mesh_error_code task_recovery_unavailable = 1014
mesh_error_code worker_draining = 1015
mesh_error_code remote_workspace_unsupported = 1016
mesh_error_code cli_unsupported = 1017
mesh_error_code tunnel_unavailable = 1018
mesh_error_code workspace_untrusted = 1019
mesh_error_code local_file_workspace_required = 1020
mesh_error_code port_conflict = 1021
mesh_error_code tunnel_access_expired = 1022
mesh_error_code task_cancellation_unconfirmed = 1023
mesh_error_code delegation_not_found = 1024
mesh_error_code peer_not_allowed = 1025
mesh_error_code peer_not_accepting = 1026
mesh_error_code peer_offline = 1027
mesh_error_code peer_multi_workspace = 1028
mesh_error_code artifact_not_found = 1029
mesh_error_code artifact_forbidden = 1030
mesh_error_code artifact_invalid = 1031
mesh_error_code artifact_corrupt = 1032
mesh_error_code artifact_limit_exceeded = 1033
mesh_error_code window_name_conflict = 1034
mesh_error_code policy_forbidden = 1035
mesh_error_code delegation_recursion = 1036
mesh_error_code window_name_invalid = 1037
mesh_error_code idempotency_conflict = 1038

-- `MeshDomainError` with its reason and `retryable`, `InvalidTaskTransitionError` with the state and
-- the event's type, `StorageCorruptionError` with its path, `TypeError`, a
-- plain `Error`, and `GatewayValidationError`.
pub data MeshError : Type 0 where
  mesh : MeshErrorReason → Bool → MeshError
  invalid_transition : TaskStatus → String → MeshError
  corruption : String → MeshError
  type_error plain_error gateway_validation : MeshError

pub data Result {ℓ} (A : Type ℓ) : Type ℓ where
  ok : A → Result A
  err : MeshError → Result A

-- What follows a call runs on its value; an error passes through.
infixl 5 ◌>>=◌ ◌>>◌
abbrev pub ◌>>=◌ {ℓ κ} : {In : Type ℓ} {Out : Type κ} → Result In → (In → Result Out) → Result Out
err thrown >>= next = err thrown
ok value >>= next = next value

abbrev pub ◌>>◌ {κ} : {Out : Type κ} → Result (Unit {0}) → Result Out → Result Out
checked >> next = checked >>= λ done. next

-- `if (!test) throw e`.
abbrev pub require : Bool → MeshError → Result (Unit {0})
require b e = if b then ok tt else err e

abbrev pub or_throw {ℓ} : {A : Type ℓ} → Option A → MeshError → Result A
or_throw none e = err e
or_throw (some a) e = ok a

pub Result-cases {ℓ} :
    {A : Type ℓ} (r : Result A) → ((e : MeshError) × (r ≡ err e)) ⊎ ((a : A) × (r ≡ ok a))
Result-cases (ok a) = inr (a, refl)
Result-cases (err e) = inl (e, refl)

-- A chain that gives a value went through its first call.
pub >>=-eq-ok {ℓ κ} :
    {In : Type ℓ} {Out : Type κ} (called : Result In) (next : In → Result Out) {out : Out}
    → (called >>= next) ≡ ok out
    → (value : In) × (called ≡ ok value) × (next value ≡ ok out)
>>=-eq-ok (err thrown) next gave = cc
>>=-eq-ok (ok value) next gave = (value, refl, gave)
