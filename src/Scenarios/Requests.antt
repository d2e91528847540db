-- ===== src/Scenarios/Requests.antt =====
-- Examples for src/domain/task.ts.
use copilot_agent_mesh.Prelude.{Listed, first, later, String, some, [], ◌∷◌, ◌≡◌, refl}
use copilot_agent_mesh.Protocol.{ok, number_text}
use copilot_agent_mesh.Task.Request.{
  OwnedTaskStart, OwnedRoutedTaskStart, normalize_owned_task_start,
  normalize_owned_routed_task_start, canonical_task_request, canonical_routed_task_request,
  canonical_task_request_hash, create_accepted_task,
}
use copilot_agent_mesh.Task.Request.Framing.{joined, length_prefix}
use copilot_agent_mesh.Task.Request.Identity.{
  IsSameRequest, IsSameRoutedRequest, canonical_task_request_injective,
  canonical_routed_task_request_injective,
}
use copilot_agent_mesh.Task.Idempotency.{match_idempotent_start, confirm_start}
use copilot_agent_mesh.Task.Idempotency.Matching.{
  Answers, accepted_start_found, match_idempotent_start_sound,
}
use copilot_agent_mesh.Scenarios.Samples.{
  request, canonical_text, accepted_task, other_task, routed_request, sample_platform,
}

canonical_task_request_injective_example :
    (n : OwnedTaskStart) × (n' : OwnedTaskStart) × (normalize_owned_task_start request ≡ ok n)
    × (normalize_owned_task_start (record request { workspace_lease_key = "another" }) ≡ ok n')
    × IsSameRequest n n'
unfolding canonical_task_request normalize_owned_task_start joined length_prefix number_text
canonical_task_request_injective_example =
    canonical_task_request_injective request (record request { workspace_lease_key = "another" })
      canonical_text refl refl

canonical_routed_task_request_injective_example :
    (n : OwnedRoutedTaskStart) × (n' : OwnedRoutedTaskStart) × (normalize_owned_routed_task_start
        routed_request
      ≡ ok n)
    × (normalize_owned_routed_task_start (record routed_request { workspace_lease_key = "another" })
        ≡ ok n')
    × IsSameRoutedRequest n n'
unfolding canonical_routed_task_request normalize_owned_routed_task_start joined length_prefix
    number_text
canonical_routed_task_request_injective_example =
    canonical_routed_task_request_injective routed_request
      (record routed_request { workspace_lease_key = "another" })
      "2:p12:d12:t12:v12:n12:x12:w10:0:2:305:title6:prompt1:16:builds5:10:0018:continueFromTaskId2:t0"
      refl refl

accepted_start_found_example :
    match_idempotent_start (other_task ∷ accepted_task ∷ []) request ≡ ok (some accepted_task)
unfolding create_accepted_task canonical_task_request_hash canonical_task_request
    normalize_owned_task_start joined length_prefix number_text
accepted_start_found_example =
    accepted_start_found request "08:00" accepted_task (other_task ∷ accepted_task ∷ []) refl
      (later first) ((λ _ named. cc), ((λ _ _. refl), tt))

match_idempotent_start_sound_example :
    (n : OwnedTaskStart) × (request_hash : String) × (normalize_owned_task_start request ≡ ok n)
    × (canonical_task_request_hash n ≡ ok request_hash)
    × Listed accepted_task (other_task ∷ accepted_task ∷ [])
    × Answers accepted_task n request_hash
unfolding match_idempotent_start confirm_start canonical_task_request_hash canonical_task_request
    normalize_owned_task_start joined length_prefix number_text
match_idempotent_start_sound_example =
    match_idempotent_start_sound (other_task ∷ accepted_task ∷ []) request accepted_task refl
