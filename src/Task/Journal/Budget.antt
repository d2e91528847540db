-- ===== src/Task/Journal/Budget.antt =====
-- src/domain/taskEvents.ts: the second loop of `compactTaskEventJournal`.
use mathlib.Core.List.{append_assoc, reverse-cons}
use copilot_agent_mesh.Prelude.{
  ℕ, ◌+◌, ◌-◌, ◌≤◌, Bool, true, false, List, [], ◌∷◌, ◌++◌, ◌≡◌, sym, ap, subst, ◌∙◌, arith, length,
  drop, reverse, leb, eqb, if◌then◌else◌, Bool-cases, inl, inr, length-reverse,
}
use copilot_agent_mesh.Protocol.{
  TaskEventRecord, event_json_bytes, events_json_bytes, task_event_journal_bytes,
}
use copilot_agent_mesh.Task.Journal.{byte_limited_start}
use copilot_agent_mesh.Task.Journal.Suffix.{
  longest, longest_self, longest-append, drop-length-append,
}

-- The JSON text of the events is within the budget.
abbrev pub fits : List TaskEventRecord → Bool
fits es = leb (events_json_bytes es) task_event_journal_bytes

pub events_json_bytes-cons :
    (e : TaskEventRecord) (es : List TaskEventRecord)
    → events_json_bytes (e ∷ es)
      ≡ events_json_bytes es + (if eqb (length es) 0 then 0 else 1) + event_json_bytes e
events_json_bytes-cons e [] = omega arith
events_json_bytes-cons e (f ∷ es) = ground arith

pub fits-tail :
    (e : TaskEventRecord) (es : List TaskEventRecord) → fits (e ∷ es) ≡ true → fits es ≡ true
fits-tail e es h = ground (arith, events_json_bytes-cons e es)

append_step :
    (e : TaskEventRecord) (older ys : List TaskEventRecord)
    → reverse (e ∷ older) ++ ys ≡ reverse older ++ (e ∷ ys)
append_step e older ys = rw (reverse-cons e older) (append_assoc (reverse older) (e ∷ []) ys)

byte_limited_start-cons :
    (r : TaskEventRecord) (older ys : List TaskEventRecord) (total s : ℕ)
    → total ≡ s + length ys
    → byte_limited_start total (events_json_bytes ys) s (r ∷ older) ≡ (
        if fits (r ∷ ys)
        then byte_limited_start total (events_json_bytes (r ∷ ys)) (s - 1) older
        else s)
unfolding byte_limited_start
byte_limited_start-cons r older ys total s f =
    let separator : eqb s total ≡ eqb (length ys) 0 = ground arith in
    rw (events_json_bytes-cons r ys, separator) (ground arith)

abbrev pub KeptFrom : ℕ → List TaskEventRecord → ℕ → Type 0
KeptFrom a es k = (a ≤ k) × (drop (k - a) es ≡ longest fits es)

-- The loop stops at the first event that does not fit.
stop_at :
    (a s : ℕ) (r : TaskEventRecord) (older ys : List TaskEventRecord)
    → s ≡ a + length (r ∷ older)
    → fits (r ∷ ys) ≡ false
    → fits ys ≡ true
    → KeptFrom a (reverse (r ∷ older) ++ ys) s
stop_at a s r older ys e full h =
    let count : s - a ≡ length (reverse (r ∷ older)) = omega (arith, length-reverse (r ∷ older)) in
    let dropped : drop (s - a) (reverse (r ∷ older) ++ ys) ≡ ys =
      ap (λ n. drop n (reverse (r ∷ older) ++ ys)) count
      ∙ drop-length-append (reverse (r ∷ older)) ys in
    let kept : longest fits (reverse (r ∷ older) ++ ys) ≡ ys =
      ap (longest fits) (append_step r older ys)
      ∙ (longest-append fits fits-tail (reverse older) r ys full h).1 in
    (omega arith, dropped ∙ sym kept)

-- The second loop, over `rs` from the newest on, when `ys` is kept already and `a` events stand
-- before both.
pub byte_limited_start-KeptFrom :
    (a : ℕ) (rs ys : List TaskEventRecord) (total s : ℕ)
    → s ≡ a + length rs
    → total ≡ s + length ys
    → fits ys ≡ true
    → KeptFrom a (reverse rs ++ ys) (byte_limited_start total (events_json_bytes ys) s rs)
byte_limited_start-KeptFrom a [] ys total s e f h =
    let none_dropped : s - a ≡ 0 = omega arith in
    let kept : KeptFrom a ys s = (omega arith, rw none_dropped (sym (longest_self fits ys h))) in
    unfold byte_limited_start in kept
byte_limited_start-KeptFrom a (r ∷ older) ys total s e f h =
    let step = byte_limited_start-cons r older ys total s f in
    elim (Bool-cases (fits (r ∷ ys))) [
      | inl fit ↦ subst (KeptFrom a (reverse (r ∷ older) ++ ys)) (sym (step ∙ (rw fit))) (
          subst
            (λ es.
              KeptFrom a es (byte_limited_start total (events_json_bytes (r ∷ ys)) (s - 1) older))
            (sym (append_step r older ys))
            (byte_limited_start-KeptFrom a older (r ∷ ys) total (s - 1) (omega arith) (omega arith)
              fit))
      | inr full ↦
          subst (KeptFrom a (reverse (r ∷ older) ++ ys)) (sym (step ∙ (rw full)))
            (stop_at a s r older ys e full h)
    ]
