-- ===== src/Task/Journal/Shape.antt =====
-- `validateFullJournal` read as facts about the numbering of the journal, and what a cut does to it.
use copilot_agent_mesh.Prelude.{
  ℕ, zero, suc, ◌+◌, ◌≤◌, ◌<◌, Bool, true, false, not, ◌&&◌, ◌⊎◌, subst, sym, Option, none, some,
  List, [], ◌∷◌, ◌≡◌, refl, arith, length, drop, leb, eqb, is_some, get_or, nat_option_eq, inl, inr,
}
use copilot_agent_mesh.Protocol.{
  TaskRecord, TaskEventRecord, task_event_journal_bytes, events_json_bytes,
}
use copilot_agent_mesh.Protocol.Validation.{
  contiguous_from, first_sequence, ends_at, expected_first, validate_full_journal,
}
use copilot_agent_mesh.Task.Journal.{cut_at, compact_empty}

-- The events are numbered without a gap up to `seq`, and the gap metadata tells where they begin.
pub record IsNumbered (es : List TaskEventRecord) (seq : ℕ) (earliest : Option ℕ) (truncated : Bool)
    : Type 0 where
  pub contiguous : contiguous_from (first_sequence es (seq + 1)) es ≡ true
  pub counted : first_sequence es (seq + 1) + length es ≡ seq + 1
  pub whole : truncated ≡ false → (first_sequence es (seq + 1) ≡ 1) × (earliest ≡ none)
  pub gap :
      truncated ≡ true
      → (earliest ≡ some (first_sequence es (seq + 1))) × (1 < first_sequence es (seq + 1))

abbrev pub HasNumberedJournal : TaskRecord → Type 0
HasNumberedJournal r =
    IsNumbered r.events r.event_seq r.earliest_available_event_seq r.events_truncated

pub ends_at-count :
    (f : ℕ) (e : TaskEventRecord) (es : List TaskEventRecord) (seq : ℕ)
    → contiguous_from f (e ∷ es) ≡ true
    → ends_at (e ∷ es) seq ≡ eqb (f + length (e ∷ es)) (seq + 1)
ends_at-count f e [] seq h = ground arith
ends_at-count f e (g ∷ es) seq h = ground (arith, ends_at-count (suc f) g es seq)

pub drop_numbering :
    (k f n : ℕ) (es : List TaskEventRecord)
    → contiguous_from f es ≡ true
    → f + length es ≡ n
    → (contiguous_from (first_sequence (drop k es) n) (drop k es) ≡ true)
      × (first_sequence (drop k es) n + length (drop k es) ≡ n)
      × (f ≤ first_sequence (drop k es) n)
drop_numbering zero f n [] h c = (refl, omega arith, omega arith)
drop_numbering zero f n (e ∷ es) h c = ground arith
drop_numbering (suc k) f n [] h c = (refl, omega arith, omega arith)
drop_numbering (suc k) f n (e ∷ es) h c = ground (arith, drop_numbering k (suc f) n es)

-- The checks of `validateFullJournal` on the numbering, without the byte budget.
abbrev numbering_checks : List TaskEventRecord → ℕ → Option ℕ → Bool → Bool
numbering_checks es seq earliest truncated =
    nat_option_eq (expected_first truncated earliest) (some (first_sequence es (seq + 1)))
    && not (not truncated && is_some earliest)
    && not (truncated && leb (get_or earliest 0) 1)
    && contiguous_from (first_sequence es (seq + 1)) es
    && ends_at es seq

checks-IsNumbered :
    (es : List TaskEventRecord) (seq : ℕ) (earliest : Option ℕ) (truncated : Bool)
    → numbering_checks es seq earliest truncated ≡ true
    → IsNumbered es seq earliest truncated
checks-IsNumbered [] seq earliest truncated h = ground arith
checks-IsNumbered (x ∷ es) seq earliest truncated h =
    ground (arith, ends_at-count (first_sequence (x ∷ es) (seq + 1)) x es seq)

IsNumbered-checks :
    (es : List TaskEventRecord) (seq : ℕ) (earliest : Option ℕ) (truncated : Bool)
    → IsNumbered es seq earliest truncated
    → numbering_checks es seq earliest truncated ≡ true
IsNumbered-checks [] seq earliest truncated h = ground arith
IsNumbered-checks (x ∷ es) seq earliest truncated h =
    ground (arith, ends_at-count (first_sequence (x ∷ es) (seq + 1)) x es seq)

cut-IsNumbered :
    (k : ℕ) (x : TaskEventRecord) (es : List TaskEventRecord) (seq : ℕ) (earliest : Option ℕ)
    (truncated : Bool)
    → IsNumbered (x ∷ es) seq earliest truncated
    → (0 < k) ⊎ (truncated ≡ true)
    → IsNumbered (drop k (x ∷ es)) seq (some (first_sequence (drop k (x ∷ es)) (seq + 1))) true
cut-IsNumbered zero x es seq earliest truncated h cut = record {
  contiguous = h.contiguous;
  counted = h.counted;
  whole = λ e. cc;
  gap = λ e. (refl, ground arith);
}
cut-IsNumbered (suc k) x es seq earliest truncated h cut =
    let later = drop_numbering k (suc x.event_seq) (seq + 1) es (ground arith) (ground arith) in
    record {
      contiguous = later.0;
      counted = later.1;
      whole = λ e. cc;
      gap = λ e. (refl, ground arith);
    }

-- What `cut_at` writes.
abbrev pub cut_record : TaskRecord → ℕ → TaskRecord
cut_record r k = record r {
  events = drop k r.events;
  events_truncated = true;
  earliest_available_event_seq = some (first_sequence (drop k r.events) (r.event_seq + 1));
}

pub cut_at-cases :
    (r : TaskRecord) (k : ℕ)
    → ((cut_at r k ≡ r) × (k ≡ 0))
      ⊎ ((cut_at r k ≡ cut_record r k) × ((0 < k) ⊎ (r.events_truncated ≡ true)))
unfolding cut_at
cut_at-cases r k = ground arith

cut_record-HasNumberedJournal :
    (k : ℕ) (r : TaskRecord) (es : List TaskEventRecord)
    → es ≡ r.events
    → HasNumberedJournal r
    → (0 < length es)
    → (0 < k) ⊎ (r.events_truncated ≡ true)
    → HasNumberedJournal (cut_record r k)
cut_record-HasNumberedJournal k r [] e h n cut = absurd (omega arith)
cut_record-HasNumberedJournal k r (x ∷ es) e h n cut =
    subst
      (λ l.
        IsNumbered (drop k l) r.event_seq (some (first_sequence (drop k l) (r.event_seq + 1))) true)
      e
      (cut-IsNumbered k x es r.event_seq r.earliest_available_event_seq r.events_truncated
        (subst (λ l. IsNumbered l r.event_seq r.earliest_available_event_seq r.events_truncated)
          (sym e) h)
        cut)

-- A cut keeps the numbering.
pub cut_at-HasNumberedJournal :
    (k : ℕ) (r : TaskRecord)
    → 0 < length r.events
    → HasNumberedJournal r
    → HasNumberedJournal (cut_at r k)
cut_at-HasNumberedJournal k r n h = elim (cut_at-cases r k) [
  | inl (same, _) ↦ rw same h
  | inr (written, cut) ↦ rw written (cut_record-HasNumberedJournal k r r.events refl h n cut)
]

pub compact_empty-cases :
    (r : TaskRecord)
    → (compact_empty r ≡ r)
      ⊎ ((compact_empty r ≡ record r { earliest_available_event_seq = some (r.event_seq + 1) })
          × (r.events_truncated ≡ true))
unfolding compact_empty
compact_empty-cases r = ground arith

pub valid-HasNumberedJournal :
    (r : TaskRecord)
    → validate_full_journal r ≡ true
    → HasNumberedJournal r × (leb (events_json_bytes r.events) task_event_journal_bytes ≡ true)
unfolding validate_full_journal
valid-HasNumberedJournal r h = (
  checks-IsNumbered r.events r.event_seq r.earliest_available_event_seq r.events_truncated
      (ground arith),
  ground arith,
)

pub HasNumberedJournal-valid :
    (r : TaskRecord)
    → HasNumberedJournal r
    → leb (events_json_bytes r.events) task_event_journal_bytes ≡ true
    → validate_full_journal r ≡ true
unfolding validate_full_journal
HasNumberedJournal-valid r h b =
    let checks =
      IsNumbered-checks r.events r.event_seq r.earliest_available_event_seq r.events_truncated h in
    ground arith
