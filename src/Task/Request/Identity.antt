-- ===== src/Task/Request/Identity.antt =====
-- src/domain/task.ts: requests with one canonical text.
use copilot_agent_mesh.Prelude.{
  ℕ, String, Option, none, some, List, [], ◌∷◌, ◌++◌, ◌≡◌, refl, sym, ap, arith, length,
}
use copilot_agent_mesh.Protocol.{Platform, ok, number_text, >>=-eq-ok}
use copilot_agent_mesh.Task.Request.Decoding.{
  framed_injective, number_text_injective, number_text-ne-empty,
}
use copilot_agent_mesh.Task.Request.Framing.{framed}
use copilot_agent_mesh.Task.Request.{
  OwnedTaskStart, OwnedRoutedTaskStart, request_fields, routed_request_fields, number_or_empty,
  or_empty, continued, normalize_owned_task_start, canonical_task_request,
  normalize_owned_routed_task_start, canonical_routed_task_request,
}

append_same :
    (xs ys us vs : List String)
    → length xs ≡ length ys
    → xs ++ us ≡ ys ++ vs
    → (xs ≡ ys) × (us ≡ vs)
append_same [] [] us vs n e = (refl, e)
append_same [] (y ∷ ys) us vs n e = absurd (omega arith)
append_same (x ∷ xs) [] us vs n e = absurd (omega arith)
append_same (x ∷ xs) (y ∷ ys) us vs n e = ground (arith, append_same xs ys us vs)

pub record IsSameRequest (q q' : OwnedTaskStart) : Type 0 where
  pub same_peer : q.peer_id ≡ q'.peer_id
  pub same_delegation : q.delegation_request_id ≡ q'.delegation_request_id
  pub same_task : q.task_id ≡ q'.task_id
  pub same_workspace : q.workspace_id ≡ q'.workspace_id
  pub same_title : q.title ≡ q'.title
  pub same_prompt : q.prompt ≡ q'.prompt
  pub same_criteria : q.acceptance_criteria ≡ q'.acceptance_criteria
  pub same_deadline : q.worker_deadline ≡ q'.worker_deadline

fields-IsSameRequest :
    (q q' : OwnedTaskStart) → request_fields q ≡ request_fields q' → IsSameRequest q q'
fields-IsSameRequest q q' e =
    let count : number_text (length q.acceptance_criteria)
        ≡ number_text (length q'.acceptance_criteria) =
      cc in
    let ends : q.acceptance_criteria ++ q.worker_deadline ∷ []
        ≡ q'.acceptance_criteria ++ q'.worker_deadline ∷ [] =
      cc in
    let (criteria, last) =
      append_same q.acceptance_criteria q'.acceptance_criteria _ _ (number_text_injective _ _ count)
        ends in
    record {
      same_peer = cc;
      same_delegation = cc;
      same_task = cc;
      same_workspace = cc;
      same_title = cc;
      same_prompt = cc;
      same_criteria = criteria;
      same_deadline = cc;
    }

pub record IsSameRoutedRequest (q q' : OwnedRoutedTaskStart) : Type 0 where
  pub same_peer : q.peer_id ≡ q'.peer_id
  pub same_delegation : q.delegation_request_id ≡ q'.delegation_request_id
  pub same_task : q.task_id ≡ q'.task_id
  pub same_device : q.target.device_id ≡ q'.target.device_id
  pub same_node : q.target.node_id ≡ q'.target.node_id
  pub same_instance : q.target.node_instance_id ≡ q'.target.node_instance_id
  pub same_workspace : q.target.workspace_id ≡ q'.target.workspace_id
  pub same_source : or_empty q.source_node_id ≡ or_empty q'.source_node_id
  pub same_identity : or_empty q.source_workspace_identity ≡ or_empty q'.source_workspace_identity
  pub same_timeout : q.timeout_minutes ≡ q'.timeout_minutes
  pub same_title : q.title ≡ q'.title
  pub same_prompt : q.prompt ≡ q'.prompt
  pub same_criteria : q.acceptance_criteria ≡ q'.acceptance_criteria
  pub same_deadline : q.worker_deadline ≡ q'.worker_deadline
  pub same_continuation : q.continue_from_task_id ≡ q'.continue_from_task_id

number_or_empty_injective : (m n : Option ℕ) → number_or_empty m ≡ number_or_empty n → m ≡ n
number_or_empty_injective none none e = refl
number_or_empty_injective none (some n) e = absurd (number_text-ne-empty n (sym e))
number_or_empty_injective (some m) none e = absurd (number_text-ne-empty m e)
number_or_empty_injective (some m) (some n) e = ap some (number_text_injective m n e)

continued_injective : (s t : Option String) → continued s ≡ continued t → s ≡ t
continued_injective none none e = refl
continued_injective none (some t) e = cc
continued_injective (some s) none e = cc
continued_injective (some s) (some t) e = cc

fields-IsSameRoutedRequest :
    (q q' : OwnedRoutedTaskStart)
    → routed_request_fields q ≡ routed_request_fields q'
    → IsSameRoutedRequest q q'
fields-IsSameRoutedRequest q q' e =
    let count : number_text (length q.acceptance_criteria)
        ≡ number_text (length q'.acceptance_criteria) =
      cc in
    let ends : q.acceptance_criteria ++ (q.worker_deadline ∷ continued q.continue_from_task_id)
        ≡ q'.acceptance_criteria ++ (q'.worker_deadline ∷ continued q'.continue_from_task_id) =
      cc in
    let (criteria, last) =
      append_same q.acceptance_criteria q'.acceptance_criteria _ _ (number_text_injective _ _ count)
        ends in
    record {
      same_peer = cc;
      same_delegation = cc;
      same_task = cc;
      same_device = cc;
      same_node = cc;
      same_instance = cc;
      same_workspace = cc;
      same_source = cc;
      same_identity = cc;
      same_timeout = number_or_empty_injective _ _ (cc);
      same_title = cc;
      same_prompt = cc;
      same_criteria = criteria;
      same_deadline = cc;
      same_continuation = continued_injective _ _ (cc);
    }

module _ ⦃p : Platform⦄ where
  -- Two requests with the same canonical text are the same request once they are normalized: every
  -- field agrees but the key of the workspace's lease, which the text leaves out.
  pub canonical_task_request_injective :
      (q q' : OwnedTaskStart) (text : String)
      → canonical_task_request q ≡ ok text
      → canonical_task_request q' ≡ ok text
      → (n : OwnedTaskStart) × (n' : OwnedTaskStart) × (normalize_owned_task_start q ≡ ok n)
        × (normalize_owned_task_start q' ≡ ok n')
        × IsSameRequest n n'
  unfolding canonical_task_request
  canonical_task_request_injective q q' text h h' =
      let (n, made, here) = >>=-eq-ok (normalize_owned_task_start q) _ h in
      let (n', made', there) = >>=-eq-ok (normalize_owned_task_start q') _ h' in
      let same : framed (request_fields n) ≡ framed (request_fields n') = cc in
      (n, n', made, made', fields-IsSameRequest n n' (framed_injective _ _ same))

  -- Two routed requests with the same canonical text are the same request once they are normalized:
  -- every field agrees but the key of the workspace's lease, which the text leaves out, and an absent
  -- source, which the text does not tell from an empty one.
  pub canonical_routed_task_request_injective :
      (q q' : OwnedRoutedTaskStart) (text : String)
      → canonical_routed_task_request q ≡ ok text
      → canonical_routed_task_request q' ≡ ok text
      → (n : OwnedRoutedTaskStart) × (n' : OwnedRoutedTaskStart)
        × (normalize_owned_routed_task_start q ≡ ok n)
        × (normalize_owned_routed_task_start q' ≡ ok n')
        × IsSameRoutedRequest n n'
  unfolding canonical_routed_task_request
  canonical_routed_task_request_injective q q' text h h' =
      let (n, made, here) = >>=-eq-ok (normalize_owned_routed_task_start q) _ h in
      let (n', made', there) = >>=-eq-ok (normalize_owned_routed_task_start q') _ h' in
      let same : framed (routed_request_fields n) ≡ framed (routed_request_fields n') = cc in
      (n, n', made, made', fields-IsSameRoutedRequest n n' (framed_injective _ _ same))
