-- ===== src/Task/Journal/Compaction.antt =====
-- src/domain/taskEvents.ts: `compactTaskEventJournal` as a whole.
use copilot_agent_mesh.Prelude.{
  ℕ, ◌≤◌, ◌<◌, true, inl, inr, some, String, List, [], ◌∷◌, ◌≡◌, refl, sym, ap, subst, ◌∙◌, arith,
  length, drop, Option-cases, and_split, leb→le,
}
use copilot_agent_mesh.Protocol.{
  TaskRecord, TaskEventRecord, Platform, events_json_bytes, Result-cases, ok,
  task_event_journal_bytes,
}
use copilot_agent_mesh.Protocol.Validation.{validate_full_journal}
use copilot_agent_mesh.Task.Journal.{
  cut_index, cut_at, compact_empty, compact_events, compact_task_event_journal,
}
use copilot_agent_mesh.Task.Journal.Suffix.{longest, longest-passes}
use copilot_agent_mesh.Task.Journal.Cut.{is_keepable, drop-cut_index}
use copilot_agent_mesh.Task.Journal.Budget.{fits}
use copilot_agent_mesh.Task.Journal.Shape.{
  HasNumberedJournal, cut_at-cases, cut_at-HasNumberedJournal, compact_empty-cases,
  HasNumberedJournal-valid,
}

-- The fields that a compaction may write.
abbrev pub with_journal_of : TaskRecord → TaskRecord → TaskRecord
with_journal_of r' r = record r {
  events = r'.events;
  events_truncated = r'.events_truncated;
  earliest_available_event_seq = r'.earliest_available_event_seq;
}

module _ ⦃p : Platform⦄ where
  -- How a compaction that returns has gone.
  pub data Compacted (r : TaskRecord) (reference_at : String) (r' : TaskRecord) : Type 0 where
    of_empty : r.events ≡ [] → r' ≡ compact_empty r → Compacted r reference_at r'
    of_events :
        (t k : ℕ)
        → 0 < length r.events
        → p.date_parse reference_at ≡ some t
        → cut_index t r.events ≡ ok k
        → r' ≡ cut_at r k
        → Compacted r reference_at r'

  compact_events-Compacted :
      (r : TaskRecord) (at : String) (es : List TaskEventRecord) (r' : TaskRecord)
      → es ≡ r.events
      → compact_events r at es ≡ ok r'
      → Compacted r at r'
  unfolding compact_events
  compact_events-Compacted r at [] r' e h = of_empty (sym e) (ground arith)
  compact_events-Compacted r at (x ∷ es) r' e h = elim (Option-cases (p.date_parse at)) [
    | inl bad ↦ cc (rw bad at h)
    | inr (t, parsed) ↦ elim (Result-cases (cut_index t (x ∷ es))) [
      | inl (_, bad) ↦ absurd (ground (arith, h, parsed, bad))
      | inr (k, found) ↦
          of_events t k (subst (λ l. 0 < length l) e (omega arith)) parsed
            (subst (λ l. cut_index t l ≡ ok k) e found) (ground arith)
    ]
  ]

  pub compact-Compacted :
      (r : TaskRecord) (at : String) (r' : TaskRecord)
      → compact_task_event_journal r at ≡ ok r'
      → Compacted r at r'
  unfolding compact_task_event_journal
  compact-Compacted r at r' h = compact_events-Compacted r at r.events r' refl h

  pub cut_at-events : (r : TaskRecord) (k : ℕ) → (cut_at r k).events ≡ drop k r.events
  cut_at-events r k = elim (cut_at-cases r k) [
    | inl (same, z) ↦ rw same (rw z)
    | inr (written, _) ↦ rw written
  ]

  pub compact_empty-events : (r : TaskRecord) → (compact_empty r).events ≡ r.events
  unfolding compact_empty
  compact_empty-events r = ground arith

  Compacted-events :
      (r : TaskRecord) (at : String) (r' : TaskRecord) (t : ℕ)
      → p.date_parse at ≡ some t
      → Compacted r at r'
      → r'.events ≡ longest (is_keepable t) r.events
  Compacted-events r at r' t parsed (of_empty e same) =
      let none_left : r'.events ≡ [] =
        ap (λ (q : TaskRecord). q.events) same ∙ compact_empty-events r ∙ e in
      rw (none_left, e) (sym (unfold longest in refl))
  Compacted-events r at r' t parsed (of_events t' k n parsed' found same) =
      let agree : t' ≡ t = ground arith in
      ap (λ (q : TaskRecord). q.events) same
      ∙ cut_at-events r k
      ∙ drop-cut_index t' r.events k found
      ∙ ap (λ u. longest (is_keepable u) r.events) agree

  Compacted-fields :
      (r : TaskRecord) (at : String) (r' : TaskRecord)
      → Compacted r at r'
      → r' ≡ with_journal_of r' r
  Compacted-fields r at r' (of_empty e same) = elim (compact_empty-cases r) [
    | inl keep ↦ rw (same ∙ keep)
    | inr (written, _) ↦ rw (same ∙ written)
  ]
  Compacted-fields r at r' (of_events t k n parsed found same) = elim (cut_at-cases r k) [
    | inl (keep, _) ↦ rw (same ∙ keep)
    | inr (written, _) ↦ rw (same ∙ written)
  ]

  pub compact-fields :
      (r : TaskRecord) (reference_at : String) (r' : TaskRecord)
      → compact_task_event_journal r reference_at ≡ ok r'
      → r' ≡ with_journal_of r' r
  compact-fields r at r' h = Compacted-fields r at r' (compact-Compacted r at r' h)

  longest-fits : (t : ℕ) (es : List TaskEventRecord) → fits (longest (is_keepable t) es) ≡ true
  longest-fits t es = elim (longest-passes (is_keepable t) es) [
    | inl none_left ↦ rw none_left
    | inr passes ↦ (and_split _ _ passes).1
  ]

  Compacted-fits :
      (r : TaskRecord) (at : String) (r' : TaskRecord) → Compacted r at r' → fits r'.events ≡ true
  Compacted-fits r at r' (of_empty e same) =
      rw (ap (λ (q : TaskRecord). q.events) same ∙ compact_empty-events r ∙ e)
  Compacted-fits r at r' (of_events t k n parsed found same) =
      rw (Compacted-events r at r' t parsed (of_events t k n parsed found same))
        (longest-fits t r.events)

  Compacted-HasNumberedJournal :
      (r : TaskRecord) (at : String) (r' : TaskRecord)
      → Compacted r at r'
      → HasNumberedJournal r
      → HasNumberedJournal r'
  Compacted-HasNumberedJournal r at r' (of_empty e same) h = elim (compact_empty-cases r) [
    | inl keep ↦ rw (same ∙ keep) h
    | inr (written, cut) ↦ rw (same ∙ written) (record {
      contiguous = h.contiguous;
      counted = h.counted;
      whole = λ whole. cc;
      gap = λ _. (rw e, (h.gap cut).1);
    })
  ]
  Compacted-HasNumberedJournal r at r' (of_events t k n parsed found same) h =
      rw same (cut_at-HasNumberedJournal k r n h)

  -- A compaction that returns leaves the longest suffix of the journal whose events are all at most a
  -- day older than the reference time and whose JSON text is within the budget; of the other fields it
  -- writes only the gap metadata.
  pub compact-longest :
      (r : TaskRecord) (reference_at : String) (r' : TaskRecord) (t : ℕ)
      → p.date_parse reference_at ≡ some t
      → compact_task_event_journal r reference_at ≡ ok r'
      → (r'.events ≡ longest (is_keepable t) r.events)
        × (events_json_bytes r'.events ≤ task_event_journal_bytes)
        × (r' ≡ with_journal_of r' r)
  compact-longest r at r' t parsed h =
      let c = compact-Compacted r at r' h in
      (
        Compacted-events r at r' t parsed c,
        leb→le _ _ (Compacted-fits r at r' c),
        Compacted-fields r at r' c,
      )

  -- Take a record whose journal is numbered without gaps up to the record's event number, and starts at the
  -- number after it if it is empty. One that is not truncated starts at 1 and the record states no earliest
  -- available number; one that is truncated starts at the number above 1 that the record states. A
  -- compaction of the record that returns gives one that passes `validateFullJournal`, the byte budget
  -- included.
  pub compact-valid :
      (r : TaskRecord) (reference_at : String) (r' : TaskRecord)
      → HasNumberedJournal r
      → compact_task_event_journal r reference_at ≡ ok r'
      → validate_full_journal r' ≡ true
  compact-valid r at r' numbered h =
      let c = compact-Compacted r at r' h in
      HasNumberedJournal-valid r' (Compacted-HasNumberedJournal r at r' c numbered)
        (Compacted-fits r at r' c)
