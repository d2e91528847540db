-- ===== src/Task/Reducer/Answers.antt =====
-- src/domain/taskReducer.ts: answers to a task's question.
use copilot_agent_mesh.Prelude.{
  Bool, true, false, ◌||◌, String, none, some, ◌≡◌, ◌⊎◌, ◌≢◌, [], ◌∷◌, sym, ap, ◌∙◌, arith, inl,
  inr, Bool-cases, text_option_eq, text_option_eq_iff, if◌then◌else◌, ◌==◌, eq_iff, eq_refl, lookup,
  lookup-insert,
}
use copilot_agent_mesh.Protocol.{TaskRecord, TaskStatus, Platform, ok, is_terminal, status_in}
use copilot_agent_mesh.Task.Reducer.Table.{
  is_repeated, changed, task_reducer-Applied, task_reducer-table,
}
use copilot_agent_mesh.Task.Reducer.Diagram.{transition-fields}
use copilot_agent_mesh.Task.Reducer.{TaskDomainEvent, input_answered, task_reducer, pending_id}

abbrev pub answered : String → String → String → TaskDomainEvent
answered input_id answer_id at = record { at = at; body = input_answered input_id answer_id }

changed-answers :
    (r : TaskRecord) (i a j : String)
    → lookup j (changed r (input_answered i a)).answered_inputs
      ≡ (if i == j then some a else lookup j r.answered_inputs)
changed-answers r i a j = ground (arith, lookup-insert i j a r.answered_inputs)

changed-question :
    (r : TaskRecord) (i a : String)
    → (changed r (input_answered i a)).pending_input
      ≡ (if text_option_eq (pending_id r.pending_input) (some i) then none else r.pending_input)
changed-question r i a = ground arith

answer_refused_elsewhere :
    (r : TaskRecord) (i a : String)
    → status_in r.state (TaskStatus.needs_input ∷ []) ≡ true
    → (r.state ≡ TaskStatus.needs_input)
      × ((changed r (input_answered i a)).state ≡ (
          if text_option_eq (pending_id r.pending_input) (some i)
          then TaskStatus.running
          else TaskStatus.needs_input))
answer_refused_elsewhere r i a h = ground arith

or_right : (ended repeated : Bool) → repeated ≡ true → (ended || repeated) ≡ true
or_right ended repeated h = ground arith

module _ ⦃p : Platform⦄ where
  -- An answer that an open task accepts is recorded under its question and changes no other answer.
  -- Unless it was recorded already, the task was waiting for input: if the answer is to the pending
  -- question, that question is closed and the task runs on; if it is to another, the task goes on
  -- waiting.
  pub answer_recorded :
      (r : TaskRecord) (i a at : String) (r' : TaskRecord)
      → is_terminal r.state ≡ false
      → task_reducer r (answered i a at) ≡ ok r'
      → (lookup i r'.answered_inputs ≡ some a)
        × ((j : String) → i ≢ j → lookup j r'.answered_inputs ≡ lookup j r.answered_inputs)
        × ((r' ≡ r)
            ⊎ ((r.state ≡ TaskStatus.needs_input)
                × (r'.pending_input ≡ (
                    if text_option_eq (pending_id r.pending_input) (some i)
                    then none
                    else r.pending_input))
                × (r'.state ≡ (
                    if text_option_eq (pending_id r.pending_input) (some i)
                    then TaskStatus.running
                    else TaskStatus.needs_input))))
  answer_recorded r i a at r' live h = elim (task_reducer-Applied r (answered i a at) r' h) [
    | inl (same, why) ↦
        let repeated : is_repeated r (input_answered i a) ≡ true = ground arith in
        let known = (text_option_eq_iff (lookup i r.answered_inputs) (some a)).0 repeated in
        (
          ap (λ (q : TaskRecord). lookup i q.answered_inputs) same ∙ known,
          (λ j n. ap (λ (q : TaskRecord). lookup j q.answered_inputs) same),
          inl same,
        )
    | inr done ↦
        let e =
          transition-fields (changed r (input_answered i a)) at "inputAnswered" none r'
            done.moved in
        let answers = ap (λ (q : TaskRecord). q.answered_inputs) e in
        let (asking, next) = answer_refused_elsewhere r i a done.allowed in
        (
          ap (lookup i) answers ∙ changed-answers r i a i ∙ (rw (eq_refl i)),
          (λ j n. ap (lookup j) answers ∙ changed-answers r i a j ∙ (ground (arith, eq_iff i j))),
          inr (
            asking,
            ap (λ (q : TaskRecord). q.pending_input) e ∙ changed-question r i a,
            ap (λ (q : TaskRecord). q.state) e ∙ next,
          ),
        )
  ]

  -- The same answer sent again, at any time, changes nothing.
  pub answer_again :
      (r : TaskRecord) (i a at later : String) (r' : TaskRecord)
      → task_reducer r (answered i a at) ≡ ok r'
      → task_reducer r' (answered i a later) ≡ ok r'
  answer_again r i a at later r' h = elim (Bool-cases (is_terminal r.state)) [
    | inl ended ↦
        let same : ok r ≡ ok r' = sym (task_reducer-table r (answered i a at) ∙ (rw ended)) ∙ h in
        let ended' : is_terminal r'.state ≡ true = ground arith in
        task_reducer-table r' (answered i a later) ∙ (rw ended')
    | inr live ↦
        let recorded = (answer_recorded r i a at r' live h).0 in
        let repeated = (text_option_eq_iff (lookup i r'.answered_inputs) (some a)).1 recorded in
        task_reducer-table r' (answered i a later)
        ∙ (rw (or_right (is_terminal r'.state) (is_repeated r' (input_answered i a)) repeated))
  ]
