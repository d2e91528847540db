-- ===== src/Task/Reducer/Cancellation.antt =====
-- src/domain/taskReducer.ts: the request to cancel a task and its confirmation.
use copilot_agent_mesh.Prelude.{
  ℕ, Bool, true, false, String, Option, none, some, List, [], ◌∷◌, ◌++◌, ◌≡◌, refl, sym, ap, ◌∙◌,
  subst, arith, inl, inr, Bool-cases, is_some, and_join, and_split,
}
use copilot_agent_mesh.Protocol.{
  TaskRecord, TaskEventRecord, TaskStatus, Platform, ok, is_terminal, status_eq,
}
use copilot_agent_mesh.Task.Journal.Suffix.{longest}
use copilot_agent_mesh.Task.Journal.Compaction.{compact-longest}
use copilot_agent_mesh.Task.Journal.Repetition.{all_dated, is_readable, compact_outcome}
use copilot_agent_mesh.Task.Reducer.Transition.{transition, transitioned}
use copilot_agent_mesh.Task.Reducer.Table.{changed, task_reducer-table}
use copilot_agent_mesh.Task.Reducer.Diagram.{transition-fields}
use copilot_agent_mesh.Task.Reducer.{cancel_requested, cancel_confirmed, task_reducer}

module _ ⦃p : Platform⦄ where
  all_dated-append :
      (es : List TaskEventRecord) (x : TaskEventRecord)
      → all_dated es ≡ true
      → is_some (p.date_parse x.at) ≡ true
      → all_dated (es ++ x ∷ []) ≡ true
  all_dated-append [] x h d = rw d
  all_dated-append (e ∷ es) x h d =
      and_join _ _ (and_split _ _ h).0 (all_dated-append es x (and_split _ _ h).1 d)

  all_dated-longest :
      (test : List TaskEventRecord → Bool) (es : List TaskEventRecord)
      → all_dated es ≡ true
      → all_dated (longest test es) ≡ true
  unfolding longest
  all_dated-longest test [] h = refl
  all_dated-longest test (e ∷ es) h = elim (Bool-cases (test (e ∷ es))) [
    | inl t ↦ rw (t, longest) h
    | inr f ↦ rw (f, longest) (all_dated-longest test es (and_split _ _ h).1)
  ]

  -- An event whose time can be read is appended to a journal whose times can be read.
  pub transition_total :
      (r : TaskRecord) (at type : String) (summary : Option String) (t : ℕ)
      → p.date_parse at ≡ some t
      → all_dated r.events ≡ true
      → (r' : TaskRecord) × (transition r at type summary ≡ ok r') × (all_dated r'.events ≡ true)
  unfolding transition
  transition_total r at type summary t parsed dated = elim (compact_outcome next at) [
    | inl (_, unreadable, _) ↦ cc (readable)
    | inr (_, (r', done)) ↦ (
      r',
      done,
      subst (λ es. all_dated es ≡ true) (sym (compact-longest next at r' t parsed done).0)
          (all_dated-longest _ next.events dated'),
    )
  ]
    where
      next : TaskRecord
      next = transitioned r at type summary

      dated' : all_dated next.events ≡ true
      dated' = all_dated-append r.events _ dated (rw parsed)

      readable : is_readable next at ≡ true
      readable = rw parsed dated'

  request_accepted :
      (r r' : TaskRecord) (deadline at : String)
      → is_terminal r.state ≡ false
      → status_eq r.state TaskStatus.cancelling ≡ false
      → transition (changed r (cancel_requested deadline)) at "cancelRequested" none ≡ ok r'
      → task_reducer r (record { at = at; body = cancel_requested deadline }) ≡ ok r'
  request_accepted r r' deadline at live calm moved =
      task_reducer-table r (record { at = at; body = cancel_requested deadline }) ∙ (ground arith)

  confirmation_accepted :
      (r r' : TaskRecord) (summary : Option String) (at : String)
      → r.state ≡ TaskStatus.cancelling
      → transition (changed r (cancel_confirmed summary)) at "cancelConfirmed" none ≡ ok r'
      → task_reducer r (record { at = at; body = cancel_confirmed summary }) ≡ ok r'
  confirmation_accepted r r' summary at state moved =
      task_reducer-table r (record { at = at; body = cancel_confirmed summary }) ∙ (ground arith)

  -- A task that has not ended and is not being cancelled accepts a request to cancel and then its
  -- confirmation, and ends as cancelled, if the times of the two events and of its journal can be read.
  pub cancel_completes :
      (r : TaskRecord) (deadline at later : String) (summary : Option String) (t u : ℕ)
      → is_terminal r.state ≡ false
      → status_eq r.state TaskStatus.cancelling ≡ false
      → p.date_parse at ≡ some t
      → p.date_parse later ≡ some u
      → all_dated r.events ≡ true
      → (r' : TaskRecord) × (r'' : TaskRecord) × (task_reducer r
            (record { at = at; body = cancel_requested deadline })
          ≡ ok r')
        × (r'.state ≡ TaskStatus.cancelling)
        × (r'.pending_input ≡ none)
        × (task_reducer r' (record { at = later; body = cancel_confirmed summary }) ≡ ok r'')
        × (r''.state ≡ TaskStatus.cancelled)
        × (r''.cancellation_deadline ≡ some deadline)
        × (r''.summary ≡ summary)
  cancel_completes r deadline at later summary t u live calm parsed parsed' dated =
      let (r', moved, dated') =
        transition_total (changed r (cancel_requested deadline)) at "cancelRequested" none t parsed
          dated in
      let (r'', moved', _) =
        transition_total (changed r' (cancel_confirmed summary)) later "cancelConfirmed" none u
          parsed' dated' in
      let e =
        transition-fields (changed r (cancel_requested deadline)) at "cancelRequested" none r'
          moved in
      let e' =
        transition-fields (changed r' (cancel_confirmed summary)) later "cancelConfirmed" none r''
          moved' in
      let cancelling : r'.state ≡ TaskStatus.cancelling = ap (λ (q : TaskRecord). q.state) e in
      (
        r',
        r'',
        request_accepted r r' deadline at live calm moved,
        cancelling,
        ap (λ (q : TaskRecord). q.pending_input) e,
        confirmation_accepted r' r'' summary later cancelling moved',
        ap (λ (q : TaskRecord). q.state) e',
        ap (λ (q : TaskRecord). q.cancellation_deadline) e'
            ∙ ap (λ (q : TaskRecord). q.cancellation_deadline) e,
        ap (λ (q : TaskRecord). q.summary) e',
      )
