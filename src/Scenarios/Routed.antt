-- ===== src/Scenarios/Routed.antt =====
-- Examples for the routed requests and the owners of src/domain/task.ts.
use copilot_agent_mesh.Prelude.{none, some, [], ◌∷◌, ◌≡◌, ◌↔◌, refl, Listed}
use copilot_agent_mesh.Protocol.{ok, TaskRecord, version_2, number_text}
use copilot_agent_mesh.Task.Request.Framing.{joined, length_prefix}
use copilot_agent_mesh.Task.Request.{
  OwnedRoutedTaskStart, normalize_owned_routed_task_start, canonical_routed_task_request,
  canonical_routed_task_request_hash,
}
use copilot_agent_mesh.Task.Idempotency.{
  get_owned_task, match_idempotent_routed_start, confirm_routed_start,
}
use copilot_agent_mesh.Task.Idempotency.Routing.{
  IsKeptFor, match_idempotent_routed_start_sound, get_owned_task_iff,
}
use copilot_agent_mesh.Scenarios.Samples.{running_task, other_task, routed_request, sample_platform}

abbrev routed_task : TaskRecord
routed_task = record running_task {
  version = version_2 (record {
    continue_from_task_id = some "t0";
    target = record {
      device_id = "v1";
      workspace_id = "w1";
      node_id = some "n1";
      node_instance_id = some "x1";
    };
    source_node_id = none;
    source_workspace_identity = none;
    timeout_minutes = some 30;
  });
  request_hash =
      "digest of 2:p12:d12:t12:v12:n12:x12:w10:0:2:305:title6:prompt1:16:builds5:10:0018:continueFromTaskId2:t0";
}

match_idempotent_routed_start_sound_example :
    (n : OwnedRoutedTaskStart) × (normalize_owned_routed_task_start routed_request ≡ ok n)
    × Listed routed_task (other_task ∷ routed_task ∷ [])
    × IsKeptFor routed_task n
unfolding match_idempotent_routed_start confirm_routed_start canonical_routed_task_request_hash
    canonical_routed_task_request normalize_owned_routed_task_start joined length_prefix number_text
match_idempotent_routed_start_sound_example =
    match_idempotent_routed_start_sound (other_task ∷ routed_task ∷ []) routed_request routed_task
      refl

get_owned_task_iff_example :
    (get_owned_task (some running_task) "p1" ≡ ok running_task)
    ↔ ((some running_task ≡ some running_task) × (sample_platform.parse_uuid "p1" ≡ some "p1"))
get_owned_task_iff_example = get_owned_task_iff (some running_task) "p1" running_task
