-- ===== src/Task/Journal/Repetition.antt =====
-- src/domain/taskEvents.ts: the outcomes of `compactTaskEventJournal`, and its repetition.
use copilot_agent_mesh.Prelude.{
  ℕ, zero, suc, ◌<◌, Bool, true, false, ◌&&◌, ◌⊎◌, inl, inr, some, String, List, [], ◌∷◌, ◌≡◌, refl,
  sym, ap, subst, ◌∙◌, arith, length, drop, all, is_some, max, reverse, if◌then◌else◌, Bool-cases,
  Option-cases, and_split,
}
use copilot_agent_mesh.Protocol.{
  TaskRecord, TaskEventRecord, Platform, ok, err, type_error, or_throw,
}
use copilot_agent_mesh.Task.Journal.{
  cut_index, retained_start, cut_at, compact_empty, compact_events, compact_task_event_journal,
  is_unusable, byte_limited_start,
}
use copilot_agent_mesh.Task.Journal.Suffix.{longest, longest_self, longest-passes, length-drop}
use copilot_agent_mesh.Task.Journal.Cut.{is_keepable, drop-cut_index}
use copilot_agent_mesh.Task.Journal.Shape.{cut_at-cases}
use copilot_agent_mesh.Task.Journal.Compaction.{
  Compacted, of_empty, of_events, compact-Compacted, cut_at-events, compact_empty-events,
}

module _ ⦃p : Platform⦄ where
  -- The timestamps of all events can be read.
  abbrev pub all_dated : List TaskEventRecord → Bool
  all_dated es = all (λ e. is_some (p.date_parse e.at)) es

  retained_start_dated :
      (t i s : ℕ) (es : List TaskEventRecord)
      → all_dated es ≡ true
      → (k : ℕ) × (retained_start t i s es ≡ ok k)
  unfolding retained_start
  retained_start_dated t i s [] h = (s, refl)
  retained_start_dated t i s (e ∷ es) h = elim (Option-cases (p.date_parse e.at)) [
    | inl bad ↦ absurd (ground arith)
    | inr (time, parsed) ↦
        rw (parsed, or_throw)
          (retained_start_dated t (suc i) (if is_unusable t time e then suc i else s) es
            (and_split _ _ h).1)
  ]

  retained_start_undated :
      (t i s : ℕ) (es : List TaskEventRecord)
      → all_dated es ≡ false
      → retained_start t i s es ≡ err type_error
  unfolding retained_start
  retained_start_undated t i s [] h = cc
  retained_start_undated t i s (e ∷ es) h = elim (Option-cases (p.date_parse e.at)) [
    | inl bad ↦ rw (bad, or_throw)
    | inr (time, parsed) ↦
        rw (parsed, or_throw)
          (retained_start_undated t (suc i) (if is_unusable t time e then suc i else s) es
            (ground arith))
  ]

  cut_index_dated :
      (t : ℕ) (es : List TaskEventRecord) → all_dated es ≡ true → (k : ℕ) × (cut_index t es ≡ ok k)
  unfolding cut_index
  cut_index_dated t es h =
      let (start, found) = retained_start_dated t 0 0 es h in
      (max start (byte_limited_start (length es) 2 (length es) (reverse (drop start es))), rw found)

  cut_index_undated :
      (t : ℕ) (es : List TaskEventRecord) → all_dated es ≡ false → cut_index t es ≡ err type_error
  unfolding cut_index
  cut_index_undated t es h = rw (retained_start_undated t 0 0 es h)

  dated_of_cut_index :
      (t : ℕ) (es : List TaskEventRecord) (k : ℕ) → cut_index t es ≡ ok k → all_dated es ≡ true
  dated_of_cut_index t es k h = elim (Bool-cases (all_dated es)) [
    | inl dated ↦ dated
    | inr undated ↦ cc (cut_index_undated t es undated)
  ]

  all_dated-drop :
      (k : ℕ) (es : List TaskEventRecord) → all_dated es ≡ true → all_dated (drop k es) ≡ true
  all_dated-drop zero es h = h
  all_dated-drop (suc k) [] h = refl
  all_dated-drop (suc k) (e ∷ es) h = all_dated-drop k es (and_split _ _ h).1

  -- The reference time and the timestamps of all events can be read.
  abbrev pub is_readable : TaskRecord → String → Bool
  is_readable r at = is_some (p.date_parse at) && all_dated r.events

  compact_events_outcome :
      (r : TaskRecord) (at : String) (es : List TaskEventRecord)
      → ((0 < length es)
          × ((is_some (p.date_parse at) && all_dated es) ≡ false)
          × (compact_events r at es ≡ err type_error))
        ⊎ (((es ≡ []) ⊎ ((is_some (p.date_parse at) && all_dated es) ≡ true))
            × ((r' : TaskRecord) × (compact_events r at es ≡ ok r')))
  unfolding compact_events
  compact_events_outcome r at [] = inr (inl refl, (compact_empty r, refl))
  compact_events_outcome r at (e ∷ es) = elim (Option-cases (p.date_parse at)) [
    | inl bad ↦ inl (omega arith, rw bad, rw (bad, or_throw))
    | inr (t, parsed) ↦ elim (Bool-cases (all_dated (e ∷ es))) [
      | inl dated ↦
          let (k, found) = cut_index_dated t (e ∷ es) dated in
          inr (inr (rw parsed dated), (cut_at r k, rw (parsed, or_throw) (rw found)))
      | inr undated ↦ inl (
        omega arith,
        rw parsed undated,
        rw (parsed, or_throw) (rw (cut_index_undated t (e ∷ es) undated)),
      )
    ]
  ]

  -- A compaction of a journal that is not empty throws a `TypeError` when the reference time or an
  -- event's timestamp cannot be read; in every other case it returns a record.
  pub compact_outcome :
      (r : TaskRecord) (reference_at : String)
      → ((0 < length r.events)
          × (is_readable r reference_at ≡ false)
          × (compact_task_event_journal r reference_at ≡ err type_error))
        ⊎ (((r.events ≡ []) ⊎ (is_readable r reference_at ≡ true))
            × ((r' : TaskRecord) × (compact_task_event_journal r reference_at ≡ ok r')))
  unfolding compact_task_event_journal
  compact_outcome r at = compact_events_outcome r at r.events

  compact_empty_again : (r : TaskRecord) → compact_empty (compact_empty r) ≡ compact_empty r
  unfolding compact_empty
  compact_empty_again r = ground arith

  cut_at_again : (r : TaskRecord) (k : ℕ) → cut_at (cut_at r k) 0 ≡ cut_at r k
  cut_at_again r k = elim (cut_at-cases r k) [
    | inl (same, z) ↦ rw same ((ap (cut_at r) (sym z)) ∙ same)
    | inr (written, _) ↦ rw written (unfold cut_at in ground arith)
  ]

  compact_empty_of_cut :
      (r : TaskRecord) (k : ℕ)
      → 0 < length r.events
      → drop k r.events ≡ []
      → compact_empty (cut_at r k) ≡ cut_at r k
  compact_empty_of_cut r k n e = elim (cut_at-cases r k) [
    | inl (same, z) ↦ absurd (omega (arith, ap length e, length-drop k r.events))
    | inr (written, _) ↦ rw (written, e) (unfold compact_empty in ground arith)
  ]

  uncut :
      (t : ℕ) (e : TaskEventRecord) (es : List TaskEventRecord) (k : ℕ)
      → cut_index t (e ∷ es) ≡ ok k
      → is_keepable t (e ∷ es) ≡ true
      → k ≡ 0
  uncut t e es k found kept =
      let same : drop k (e ∷ es) ≡ e ∷ es =
        drop-cut_index t (e ∷ es) k found ∙ longest_self (is_keepable t) (e ∷ es) kept in
      omega (arith, ap length same, length-drop k (e ∷ es))

  compact_events_again :
      (r' : TaskRecord) (at : String) (t : ℕ) (es : List TaskEventRecord)
      → p.date_parse at ≡ some t
      → all_dated es ≡ true
      → (es ≡ []) ⊎ (is_keepable t es ≡ true)
      → ((compact_empty r' ≡ r') ⊎ (0 < length es))
      → cut_at r' 0 ≡ r'
      → compact_events r' at es ≡ ok r'
  unfolding compact_events
  compact_events_again r' at t [] parsed dated kept (inl same) whole = ap ok same
  compact_events_again r' at t [] parsed dated kept (inr n) whole = absurd (omega arith)
  compact_events_again r' at t (e ∷ es) parsed dated (inl n) empty whole = cc
  compact_events_again r' at t (e ∷ es) parsed dated (inr kept) empty whole =
      let (k, found) = cut_index_dated t (e ∷ es) dated in
      let start = uncut t e es k found kept in
      rw (parsed, or_throw) (rw found (ap ok (ap (cut_at r') start ∙ whole)))

  empty_or_not : (es : List TaskEventRecord) → (es ≡ []) ⊎ (0 < length es)
  empty_or_not [] = inl refl
  empty_or_not (e ∷ es) = inr (omega arith)

  compaction_again :
      (r : TaskRecord) (at : String) (r' : TaskRecord)
      → Compacted r at r'
      → compact_task_event_journal r' at ≡ ok r'
  unfolding compact_task_event_journal
  compaction_again r at r' (of_empty e same) =
      let none_left : r'.events ≡ [] =
        ap (λ (q : TaskRecord). q.events) same ∙ compact_empty-events r ∙ e in
      subst (λ l. compact_events r' at l ≡ ok r') (sym none_left)
        (unfold compact_events in ap ok (ap compact_empty same ∙ compact_empty_again r ∙ sym same))
  compaction_again r at r' (of_events t k n parsed found same) =
      let events : r'.events ≡ drop k r.events =
        ap (λ (q : TaskRecord). q.events) same ∙ cut_at-events r k in
      let kept : r'.events ≡ longest (is_keepable t) r.events =
        events ∙ drop-cut_index t r.events k found in
      let dated : all_dated r'.events ≡ true =
        rw events (all_dated-drop k r.events (dated_of_cut_index t r.events k found)) in
      compact_events_again r' at t r'.events parsed dated
        (rw kept (longest-passes (is_keepable t) r.events))
        (elim (empty_or_not r'.events) [
          | inl none_left ↦ inl (rw same (compact_empty_of_cut r k n (sym events ∙ none_left)))
          | inr some_left ↦ inr some_left
        ])
        (rw same (cut_at_again r k))

  -- Compacting the result of a compaction at the same time changes nothing.
  pub compact_twice :
      (r : TaskRecord) (reference_at : String) (r' : TaskRecord)
      → compact_task_event_journal r reference_at ≡ ok r'
      → compact_task_event_journal r' reference_at ≡ ok r'
  compact_twice r at r' h = compaction_again r at r' (compact-Compacted r at r' h)
