-- ===== src/Task/Reducer/Validity.antt =====
-- src/domain/taskReducer.ts against the checks of the record's schema.
use copilot_agent_mesh.Prelude.{
  ℕ, suc, ◌+◌, Bool, true, false, String, Option, List, [], ◌∷◌, ◌++◌, ◌≡◌, refl, ap, ◌∙◌, arith,
  length, length-append, inl, inr,
}
use copilot_agent_mesh.Protocol.{TaskRecord, TaskEventRecord, Platform, ok, status_in, is_terminal}
use copilot_agent_mesh.Protocol.Validation.{
  validate_task_state, validate_full_journal, contiguous_from, first_sequence,
}
use copilot_agent_mesh.Task.Journal.Shape.{IsNumbered, HasNumberedJournal, valid-HasNumberedJournal}
use copilot_agent_mesh.Task.Journal.Compaction.{with_journal_of, compact-valid, compact-fields}
use copilot_agent_mesh.Task.Reducer.Transition.{transition, transitioned}
use copilot_agent_mesh.Task.Reducer.Table.{
  allowed_in, is_repeated, lacks_question, changed, reported, task_reducer-Applied,
}
use copilot_agent_mesh.Task.Reducer.{
  EventBody, TaskDomainEvent, agent_start_requested, agent_started, input_required, input_answered,
  cancel_requested, event_type, task_reducer,
}

contiguous-append :
    (f : ℕ) (es : List TaskEventRecord) (x : TaskEventRecord)
    → contiguous_from f es ≡ true
    → x.event_seq ≡ f + length es
    → contiguous_from f (es ++ x ∷ []) ≡ true
contiguous-append f [] x h e = ground arith
contiguous-append f (y ∷ es) x h e = ground (arith, contiguous-append (suc f) es x)

first-append :
    (es : List TaskEventRecord) (x : TaskEventRecord) (seq : ℕ)
    → x.event_seq ≡ seq + 1
    → first_sequence (es ++ x ∷ []) (seq + 1 + 1) ≡ first_sequence es (seq + 1)
first-append [] x seq e = e
first-append (y ∷ es) x seq e = refl

append-IsNumbered :
    (es : List TaskEventRecord) (x : TaskEventRecord) (seq : ℕ) (earliest : Option ℕ)
    (truncated : Bool)
    → x.event_seq ≡ seq + 1
    → IsNumbered es seq earliest truncated
    → IsNumbered (es ++ x ∷ []) (seq + 1) earliest truncated
append-IsNumbered es x seq earliest truncated e h =
    let first = first-append es x seq e in
    record {
      contiguous = rw first (contiguous-append _ es x h.contiguous (omega (arith, h.counted)));
      counted = rw first (omega (arith, h.counted, length-append es (x ∷ [])));
      whole = rw first h.whole;
      gap = rw first h.gap;
    }

-- Which fields of a record go with which state, as `validateTaskState` checks it.
changed-valid :
    (r : TaskRecord) (b : EventBody)
    → validate_task_state r ≡ true
    → is_terminal r.state ≡ false
    → is_repeated r b ≡ false
    → lacks_question r b ≡ false
    → status_in r.state (allowed_in b) ≡ true
    → validate_task_state (changed r b) ≡ true
unfolding validate_task_state
changed-valid r agent_start_requested v t i q a = ground arith
changed-valid r (agent_started d) v t i q a = ground arith
changed-valid r (input_required x y) v t i q a = ground arith
changed-valid r (input_answered x y) v t i q a = ground arith
changed-valid r (cancel_requested d) v t i q a = ground arith
changed-valid r _ v t i q a = ground arith

validate_task_state-with_journal :
    (r r' : TaskRecord) (at : String) (seq : ℕ) (es : List TaskEventRecord)
    → validate_task_state
        (with_journal_of r' (record r { updated_at = at; event_seq = seq; events = es }))
      ≡ validate_task_state r
unfolding validate_task_state
validate_task_state-with_journal r r' at seq es = refl

module _ ⦃p : Platform⦄ where
  changed-journal :
      (r : TaskRecord) (b : EventBody) → HasNumberedJournal r → HasNumberedJournal (changed r b)
  changed-journal r (input_answered x y) h = ground arith
  changed-journal r agent_start_requested h = h
  changed-journal r (agent_started d) h = h
  changed-journal r (input_required x y) h = h
  changed-journal r _ h = h

  transition-valid :
      (r : TaskRecord) (at type : String) (summary : Option String) (r' : TaskRecord)
      → validate_task_state r ≡ true
      → HasNumberedJournal r
      → transition r at type summary ≡ ok r'
      → (validate_task_state r' ≡ true) × (validate_full_journal r' ≡ true)
  unfolding transition
  transition-valid r at type summary r' v h moved =
      let next = transitioned r at type summary in
      let fields = compact-fields next at r' moved in
      let numbered : HasNumberedJournal next =
        append-IsNumbered r.events _ r.event_seq _ _ refl h in
      (
        ap validate_task_state fields
            ∙ validate_task_state-with_journal r r' at next.event_seq next.events
            ∙ v,
        compact-valid next at r' numbered moved,
      )

  -- Whatever event a valid record takes, the record after it is valid: the fields that go with its
  -- state are there and no others, and the journal is numbered without a gap and within its budget.
  pub task_reducer-valid :
      (r : TaskRecord) (event : TaskDomainEvent) (r' : TaskRecord)
      → validate_task_state r ≡ true
      → validate_full_journal r ≡ true
      → task_reducer r event ≡ ok r'
      → (validate_task_state r' ≡ true) × (validate_full_journal r' ≡ true)
  task_reducer-valid r event r' v j h = elim (task_reducer-Applied r event r' h) [
    | inl (same, _) ↦ (ap validate_task_state same ∙ v, ap validate_full_journal same ∙ j)
    | inr done ↦
        transition-valid (changed r event.body) event.at (event_type event.body)
          (reported event.body) r'
          (changed-valid r event.body v done.open_task done.fresh done.asked done.allowed)
          (changed-journal r event.body (valid-HasNumberedJournal r j).0) done.moved
  ]
