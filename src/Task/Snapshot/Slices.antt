-- ===== src/Task/Snapshot/Slices.antt =====
-- src/application/RemoteTaskRunner.ts: the slices of a valid record's journal.
use copilot_agent_mesh.Prelude.{
  ℕ, zero, suc, ◌+◌, ◌-◌, ◌≤◌, ◌<◌, max, Bool, true, false, not, ◌&&◌, String, Option, some, List,
  [], ◌∷◌, ◌≡◌, refl, sym, ap, ◌∙◌, arith, ltb, eqb, bool_eq, is_some, get_or, length, drop,
  if◌then◌else◌, map, Bool-cases, inl, inr, le→leb, subst,
}
use copilot_agent_mesh.Protocol.{
  TaskRecord, TaskEventRecord, ok, events_json_bytes, event_json_bytes, joined_bytes,
}
use copilot_agent_mesh.Protocol.Validation.{
  contiguous_from, first_sequence, ends_at, validate_task_state, validate_full_journal,
}
use copilot_agent_mesh.Task.Journal.Shape.{
  IsNumbered, valid-HasNumberedJournal, drop_numbering, ends_at-count,
}
use copilot_agent_mesh.Task.Journal.Suffix.{length-drop}
use copilot_agent_mesh.Protocol.Schema.{max_safe_integer}
use copilot_agent_mesh.Task.Snapshot.{
  TaskSnapshot, snapshot, sliced_snapshot, events_after, validate_snapshot_state,
  validate_wire_journal_budget, validate_slice,
}

all_after :
    (after f : ℕ) (es : List TaskEventRecord)
    → contiguous_from f es ≡ true
    → after < f
    → events_after after es ≡ es
all_after after f [] c h = refl
all_after after f (e ∷ es) c h = ground (arith, all_after after (suc f) es)

events_after-drop :
    (k after f : ℕ) (es : List TaskEventRecord)
    → contiguous_from f es ≡ true
    → f + k ≡ after + 1
    → events_after after es ≡ drop k es
events_after-drop zero after f es c n = all_after after f es c (omega arith)
events_after-drop (suc k) after f [] c n = refl
events_after-drop (suc k) after f (e ∷ es) c n =
    ground (arith, events_after-drop k after (suc f) es)

-- The events that a reader of those up to `after` has not read.
events_after-unread :
    (after f : ℕ) (es : List TaskEventRecord)
    → contiguous_from f es ≡ true
    → events_after after es ≡ drop ((after + 1) - f) es
events_after-unread after f es c = elim (Bool-cases (ltb after f)) [
  | inl here ↦
      let none_read : (after + 1) - f ≡ 0 = ground (arith, here) in
      all_after after f es c (ground arith) ∙ sym (ap (λ k. drop k es) none_read)
  | inr before ↦ events_after-drop ((after + 1) - f) after f es c (ground arith)
]

joined-drop :
    (k : ℕ) (es : List TaskEventRecord)
    → joined_bytes (map event_json_bytes (drop k es)) ≤ joined_bytes (map event_json_bytes es)
joined-drop zero es = omega arith
joined-drop (suc k) [] = omega arith
joined-drop (suc k) (e ∷ []) = omega (arith, joined-drop k [])
joined-drop (suc k) (e ∷ g ∷ es) = omega (arith, joined-drop k (g ∷ es))

ends_at-numbered :
    (f : ℕ) (es : List TaskEventRecord) (seq : ℕ)
    → contiguous_from f es ≡ true
    → f + length es ≡ seq + 1
    → ends_at es seq ≡ true
ends_at-numbered f [] seq c n = refl
ends_at-numbered f (e ∷ es) seq c n = ends_at-count f e es seq c ∙ (ground arith)

-- The events after `after` in a journal numbered up to `seq`: they begin at the first that is kept,
-- and go on to the last without a gap.
record IsTail (after first seq : ℕ) (es : List TaskEventRecord) : Type 0 where
  pub begins : first_sequence es (seq + 1) ≡ max (after + 1) first
  pub contiguous : contiguous_from (first_sequence es (seq + 1)) es ≡ true
  pub counted : first_sequence es (seq + 1) + length es ≡ seq + 1

events_after-IsTail :
    (after first seq : ℕ) (es : List TaskEventRecord)
    → contiguous_from first es ≡ true
    → first_sequence es (seq + 1) ≡ first
    → first + length es ≡ seq + 1
    → after ≤ seq
    → IsTail after first seq (events_after after es)
events_after-IsTail after first seq es c b n a = elim (Bool-cases (ltb after first)) [
  | inl here ↦
      rw (all_after after first es c (ground arith))
        (record { begins = ground arith; contiguous = rw b c; counted = rw b n })
  | inr before ↦
      let k = (after + 1) - first in
      let same = events_after-drop k after first es c (ground arith) in
      let (contiguous, counted, _) = drop_numbering k first (seq + 1) es c n in
      rw same (record {
        begins = ground (arith, counted, length-drop k es);
        contiguous = contiguous;
        counted = counted;
      })
]

events_after-bytes :
    (after : ℕ) (es : List TaskEventRecord) (f : ℕ)
    → contiguous_from f es ≡ true
    → events_json_bytes (events_after after es) ≤ events_json_bytes es
events_after-bytes after es f c = elim (Bool-cases (ltb after f)) [
  | inl here ↦ rw (all_after after f es c (ground arith)) (omega arith)
  | inr before ↦
      rw (events_after-drop ((after + 1) - f) after f es c (ground arith))
        (omega (arith, joined-drop ((after + 1) - f) es))
]

earliest_first :
    (es : List TaskEventRecord) (seq : ℕ) (earliest : Option ℕ) (truncated : Bool)
    → IsNumbered es seq earliest truncated
    → get_or earliest 1 ≡ first_sequence es (seq + 1)
earliest_first es seq earliest truncated h = elim (Bool-cases truncated) [
  | inl cut ↦ rw (h.gap cut).0
  | inr kept ↦ rw (h.whole kept).1 (sym (h.whole kept).0)
]

-- The earliest number that a slice states is the record's.
stated :
    (truncated : Bool) (earliest : Option ℕ)
    → get_or (if truncated then some (get_or earliest 1) else earliest) 1 ≡ get_or earliest 1
stated true earliest = refl
stated false earliest = refl

bool_eq_refl : (b : Bool) → bool_eq b b ≡ true
bool_eq_refl true = refl
bool_eq_refl false = refl

tail_checks :
    (after first seq : ℕ) (earliest : Option ℕ) (es : List TaskEventRecord)
    → IsTail after first seq es
    → get_or earliest 1 ≡ first
    → first ≤ seq + 1
    → after ≤ seq
    → (not (ltb seq after)
        && (bool_eq (ltb (after + 1) first) (ltb (after + 1) (get_or earliest 1))
            && not (is_some earliest && ltb (seq + 1) (get_or earliest 1))
            && eqb (first_sequence es (seq + 1)) (max (after + 1) (get_or earliest 1))
            && contiguous_from (first_sequence es (seq + 1)) es
            && ends_at es seq))
      ≡ true
tail_checks after first seq earliest es t e below a =
    let ends = ends_at-numbered (first_sequence es (seq + 1)) es seq t.contiguous t.counted in
    rw (e, t.contiguous, ends, bool_eq_refl (ltb (after + 1) first)) (ground (arith, t.begins))

-- A peer that asks for the events of a valid record after one that the record has reached gets a
-- slice that passes the checks of the slice's schema on the state, the numbering and the size of
-- the journal. Its events are those of the record, unchanged, less as many at the front as the peer
-- has read of those that are kept; so they go from the one after it, or from the earliest that is
-- kept, to the newest. The slice says whether some in between are gone.
pub snapshot-slice :
    (device_id : String) (r : TaskRecord) (after : ℕ)
    → validate_task_state r ≡ true
    → validate_full_journal r ≡ true
    → after ≤ r.event_seq
    → after ≤ max_safe_integer
    → (s : TaskSnapshot) × (snapshot device_id r (some after) ≡ ok s)
      × (validate_snapshot_state s ≡ true)
      × (validate_slice after s ≡ true)
      × (validate_wire_journal_budget s ≡ true)
      × (s.events ≡ drop ((after + 1) - get_or r.earliest_available_event_seq 1) r.events)
      × (length s.events + max (after + 1) (get_or r.earliest_available_event_seq 1)
          ≡ r.event_seq + 1)
      × (s.events_truncated ≡ ltb (after + 1) (get_or r.earliest_available_event_seq 1))
unfolding snapshot validate_task_state validate_slice
snapshot-slice device_id r after v j reached safe =
    let (numbered, budget) = valid-HasNumberedJournal r j in
    let first = get_or r.earliest_available_event_seq 1 in
    let e =
      earliest_first r.events r.event_seq r.earliest_available_event_seq r.events_truncated
        numbered in
    let contiguous = subst (λ f. contiguous_from f r.events ≡ true) (sym e) numbered.contiguous in
    let counted = subst (λ f. f + length r.events ≡ r.event_seq + 1) (sym e) numbered.counted in
    let tail =
      events_after-IsTail after first r.event_seq r.events contiguous (sym e) counted reached in
    (
      sliced_snapshot device_id r after,
      rw (le→leb after max_safe_integer safe, le→leb after r.event_seq reached) refl,
      v,
      tail_checks after first r.event_seq
          (sliced_snapshot device_id r after).earliest_available_event_seq
          (events_after after r.events) tail
          (stated r.events_truncated r.earliest_available_event_seq) (omega (arith, counted))
          reached,
      le→leb _ _ (ground (arith, events_after-bytes after r.events first contiguous, budget)),
      events_after-unread after first r.events contiguous,
      omega (arith, tail.begins, tail.counted),
      refl,
    )
