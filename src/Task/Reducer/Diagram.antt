-- ===== src/Task/Reducer/Diagram.antt =====
-- The states of a task as a diagram, and what an event leaves alone.
use copilot_agent_mesh.Prelude.{
  ◌+◌, true, false, String, Option, ◌≡◌, ◌⊎◌, refl, sym, ap, ◌∙◌, subst, arith, inl, inr,
}
use copilot_agent_mesh.Protocol.{TaskRecord, TaskStatus, Platform, ok, status_in, is_terminal}
use copilot_agent_mesh.Task.Journal.Compaction.{with_journal_of, compact-fields}
use copilot_agent_mesh.Task.Reducer.Transition.{transition, transitioned}
use copilot_agent_mesh.Task.Reducer.Table.{allowed_in, changed, reported, task_reducer-Applied}
use copilot_agent_mesh.Task.Reducer.{
  EventBody, TaskDomainEvent, agent_start_requested, agent_started, input_required, input_answered,
  recovery_started, cancel_requested, cancel_confirmed, completed, failed, timed_out, event_type,
  task_reducer,
}

-- The states that have a live agent, and those that have not ended.
pub data IsLive : TaskStatus → Type 0 where
  running_live : IsLive TaskStatus.running
  asking_live : IsLive TaskStatus.needs_input

pub data IsOpen : TaskStatus → Type 0 where
  accepted_open : IsOpen TaskStatus.accepted
  starting_open : IsOpen TaskStatus.starting_agent
  live_open : {s : TaskStatus} → IsLive s → IsOpen s
  recovering_open : IsOpen TaskStatus.recovering
  cancelling_open : IsOpen TaskStatus.cancelling

infix 40 ◌⟶◌
pub data ◌⟶◌ : TaskStatus → TaskStatus → Type 0 where
  launch : TaskStatus.accepted ⟶ TaskStatus.starting_agent
  start : TaskStatus.starting_agent ⟶ TaskStatus.running
  resume : TaskStatus.recovering ⟶ TaskStatus.running
  resume_asking : TaskStatus.recovering ⟶ TaskStatus.needs_input
  report_live : {s : TaskStatus} → IsLive s → s ⟶ s
  report_recovering : TaskStatus.recovering ⟶ TaskStatus.recovering
  report_cancelling : TaskStatus.cancelling ⟶ TaskStatus.cancelling
  ask : {s : TaskStatus} → IsLive s → s ⟶ TaskStatus.needs_input
  answered : TaskStatus.needs_input ⟶ TaskStatus.running
  recover : {s : TaskStatus} → IsLive s → s ⟶ TaskStatus.recovering
  cancel : {s : TaskStatus} → IsOpen s → s ⟶ TaskStatus.cancelling
  confirm : TaskStatus.cancelling ⟶ TaskStatus.cancelled
  complete : {s : TaskStatus} → IsLive s → s ⟶ TaskStatus.completed
  fail : {s : TaskStatus} → IsOpen s → s ⟶ TaskStatus.failed
  time_out : {s : TaskStatus} → IsOpen s → s ⟶ TaskStatus.timed_out

ruleset edges = (
  launch, start, resume, resume_asking, report_live, report_recovering, report_cancelling, ask,
  answered, recover, cancel, confirm, complete, fail, time_out,
)

ruleset kinds = (
  running_live, asking_live, accepted_open, starting_open, live_open, recovering_open,
  cancelling_open,
)

-- What identifies a task and its request, and when it was made and must end.
pub record IsSameTask (r r' : TaskRecord) : Type 0 where
  pub same_version : r'.version ≡ r.version
  pub same_task : r'.task_id ≡ r.task_id
  pub same_request : r'.delegation_request_id ≡ r.delegation_request_id
  pub same_hash : r'.request_hash ≡ r.request_hash
  pub same_peer : r'.peer_id ≡ r.peer_id
  pub same_workspace : r'.workspace_id ≡ r.workspace_id
  pub same_lease : r'.workspace_lease_key ≡ r.workspace_lease_key
  pub same_title : r'.title ≡ r.title
  pub same_creation : r'.created_at ≡ r.created_at
  pub same_deadline : r'.worker_deadline ≡ r.worker_deadline

unended : (s : TaskStatus) → is_terminal s ≡ false → IsOpen s
unended TaskStatus.running h = live_open running_live
unended TaskStatus.needs_input h = live_open asking_live
unended TaskStatus.accepted h = accepted_open
unended TaskStatus.starting_agent h = starting_open
unended TaskStatus.recovering h = recovering_open
unended TaskStatus.cancelling h = cancelling_open
unended _ h = cc

changed-⟶ :
    (r : TaskRecord) (b : EventBody)
    → is_terminal r.state ≡ false
    → status_in r.state (allowed_in b) ≡ true
    → r.state ⟶ (changed r b).state
changed-⟶ r agent_start_requested h a = grind (arith, launch)
changed-⟶ r (agent_started d) h a = grind (arith, start, resume, resume_asking)
changed-⟶ r (input_required x y) h a = grind (arith, ask, kinds)
changed-⟶ r (input_answered x y) h a = grind (arith, answered, report_live, kinds)
changed-⟶ r recovery_started h a = grind (arith, recover, kinds)
changed-⟶ r (cancel_requested d) h a = cancel (unended r.state h)
changed-⟶ r (cancel_confirmed s) h a = grind (arith, confirm)
changed-⟶ r (completed s) h a = grind (arith, complete, kinds)
changed-⟶ r (failed c m t) h a = fail (unended r.state h)
changed-⟶ r (timed_out m) h a = time_out (unended r.state h)
changed-⟶ r _ h a = grind (arith, report_live, report_recovering, report_cancelling, kinds)

changed-IsSameTask : (r : TaskRecord) (b : EventBody) → IsSameTask r (changed r b)
changed-IsSameTask r (input_answered x y) = ground arith
changed-IsSameTask r agent_start_requested = ground arith
changed-IsSameTask r _ = ground arith

pub changed-event_seq : (r : TaskRecord) (b : EventBody) → (changed r b).event_seq ≡ r.event_seq
changed-event_seq r (input_answered x y) = ground arith
changed-event_seq r agent_start_requested = refl
changed-event_seq r _ = refl

IsSameTask-transitioned :
    (r c r' : TaskRecord)
    → IsSameTask r c
    → (at type : String) (summary : Option String)
    → r' ≡ with_journal_of r' (transitioned c at type summary)
    → IsSameTask r r'
IsSameTask-transitioned r c r' h at type summary e = subst (IsSameTask r) (sym e) (record {
  same_version = h.same_version;
  same_task = h.same_task;
  same_request = h.same_request;
  same_hash = h.same_hash;
  same_peer = h.same_peer;
  same_workspace = h.same_workspace;
  same_lease = h.same_lease;
  same_title = h.same_title;
  same_creation = h.same_creation;
  same_deadline = h.same_deadline;
})

module _ ⦃p : Platform⦄ where
  pub transition-fields :
      (r : TaskRecord) (at type : String) (summary : Option String) (r' : TaskRecord)
      → transition r at type summary ≡ ok r'
      → r' ≡ with_journal_of r' (transitioned r at type summary)
  unfolding transition
  transition-fields r at type summary r' h = compact-fields (transitioned r at type summary) at r' h

  -- An event that is accepted either leaves the record as it was, or follows an edge of the diagram,
  -- takes the next number, sets the time of the update, and leaves the task's identity alone.
  pub task_reducer-⟶ :
      (r : TaskRecord) (event : TaskDomainEvent) (r' : TaskRecord)
      → task_reducer r event ≡ ok r'
      → (r' ≡ r)
        ⊎ ((r.state ⟶ r'.state)
            × (r'.event_seq ≡ r.event_seq + 1)
            × (r'.updated_at ≡ event.at)
            × IsSameTask r r')
  task_reducer-⟶ r event r' h = elim (task_reducer-Applied r event r' h) [
    | inl (same, _) ↦ inl same
    | inr done ↦
        let e =
          transition-fields (changed r event.body) event.at (event_type event.body)
            (reported event.body) r' done.moved in
        inr (
          subst (λ s. r.state ⟶ s) (sym (ap (λ (q : TaskRecord). q.state) e))
              (changed-⟶ r event.body done.open_task done.allowed),
          ap (λ (q : TaskRecord). q.event_seq) e ∙ ap (λ n. n + 1) (changed-event_seq r event.body),
          ap (λ (q : TaskRecord). q.updated_at) e,
          IsSameTask-transitioned r (changed r event.body) r' (changed-IsSameTask r event.body)
              event.at (event_type event.body) (reported event.body) e,
        )
  ]
