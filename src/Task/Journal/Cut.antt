-- ===== src/Task/Journal/Cut.antt =====
-- The two loops of `compactTaskEventJournal` against one description of what they keep.
use mathlib.Core.List.{append-nil, reverse-reverse}
use copilot_agent_mesh.Prelude.{
  ℕ, suc, ◌+◌, ◌-◌, ◌≤◌, max, Bool, true, false, not, ◌&&◌, none, some, List, [], ◌∷◌, ◌++◌, ◌≡◌,
  refl, sym, ap, subst, ◌∙◌, arith, length, drop, all, reverse, ltb, leb, eqb, if◌then◌else◌,
  Bool-cases, Option-cases, inl, inr, length-reverse, and_split,
}
use copilot_agent_mesh.Protocol.{
  TaskEventRecord, Platform, event_json_bytes, Result-cases, ok, task_event_journal_bytes,
}
use copilot_agent_mesh.Task.Journal.{
  task_event_retention_ms, is_unusable, retained_start, byte_limited_start, cut_index,
}
use copilot_agent_mesh.Task.Journal.Suffix.{
  longest, longest_self, longest_pass, longest_fail, drop-add, length-drop,
}
use copilot_agent_mesh.Task.Journal.Budget.{
  fits, KeptFrom, events_json_bytes-cons, byte_limited_start-KeptFrom,
}

module _ ⦃p : Platform⦄ where
  -- Not older than the retention at the reference time.
  abbrev pub is_fresh : ℕ → TaskEventRecord → Bool
  is_fresh reference_time e = elim (p.date_parse e.at) [
    | none ↦ false
    | some event_time ↦ not (ltb (event_time + task_event_retention_ms) reference_time)
  ]

  -- All events are fresh and their JSON text is within the budget.
  abbrev pub is_keepable : ℕ → List TaskEventRecord → Bool
  is_keepable reference_time es = all (is_fresh reference_time) es && fits es

  is_usable : ℕ → TaskEventRecord → Bool
  is_usable reference_time e =
      is_fresh reference_time e && leb (event_json_bytes e + 2) task_event_journal_bytes

  -- One more than the index of the last unusable event, or 0.
  unusable : ℕ → List TaskEventRecord → ℕ
  unusable t [] = 0
  unusable t (e ∷ es) =
      let rest = unusable t es in if eqb rest 0 then (if is_usable t e then 0 else 1) else suc rest

  retained_start_lem :
      (t i s : ℕ) (es : List TaskEventRecord) (k : ℕ)
      → retained_start t i s es ≡ ok k
      → k ≡ (if eqb (unusable t es) 0 then s else i + unusable t es)
  unfolding retained_start unusable is_usable
  retained_start_lem t i s [] k h = ground arith
  retained_start_lem t i s (e ∷ es) k h = elim (Option-cases (p.date_parse e.at)) [
    | inl bad ↦ cc (rw bad at h)
    | inr (time, parsed) ↦
        let ih =
          retained_start_lem t (suc i) (if is_unusable t time e then suc i else s) es k
            (rw parsed at h) in
        ground (arith, ih)
  ]

  unusable-le : (t : ℕ) (es : List TaskEventRecord) → unusable t es ≤ length es
  unfolding unusable
  unusable-le t [] = omega arith
  unusable-le t (e ∷ es) = ground (arith, unusable-le t es)

  unusable-zero : (t : ℕ) (es : List TaskEventRecord) → all (is_usable t) es ≡ eqb (unusable t es) 0
  unfolding unusable
  unusable-zero t [] = refl
  unusable-zero t (e ∷ es) = elim (Bool-cases (is_usable t e)) [
    | inl u ↦ elim (Bool-cases (eqb (unusable t es) 0)) [
      | inl z ↦ rw (u, z, unusable-zero t es) (ground (arith, z))
      | inr n ↦ rw (u, n, unusable-zero t es) (ground (arith, n))
    ]
    | inr u ↦ rw u (ground (arith, u))
  ]

  -- What follows the last unusable event is the longest suffix of usable ones.
  drop-unusable :
      (t : ℕ) (es : List TaskEventRecord) → drop (unusable t es) es ≡ longest (all (is_usable t)) es
  unfolding unusable longest
  drop-unusable t [] = refl
  drop-unusable t (e ∷ es) = elim (Bool-cases (all (is_usable t) (e ∷ es))) [
    | inl u ↦ ground (
      arith,
      longest_pass (all (is_usable t)) e es u,
      unusable-zero t (e ∷ es),
      unusable-zero t es,
    )
    | inr u ↦ ground (
      arith,
      longest_fail (all (is_usable t)) e es u,
      drop-unusable t es,
      unusable-zero t es,
      longest_self (all (is_usable t)) es,
    )
  ]

  usable_of_keepable :
      (t : ℕ) (es : List TaskEventRecord) → is_keepable t es ≡ true → all (is_usable t) es ≡ true
  unfolding is_usable
  usable_of_keepable t [] h = refl
  usable_of_keepable t (e ∷ es) h =
      ground (arith, events_json_bytes-cons e es, usable_of_keepable t es)

  fresh_of_usable :
      (t : ℕ) (es : List TaskEventRecord) → all (is_usable t) es ≡ true → all (is_fresh t) es ≡ true
  unfolding is_usable
  fresh_of_usable t [] h = refl
  fresh_of_usable t (e ∷ es) h = ground (arith, fresh_of_usable t es)

  longest_same :
      (t : ℕ) (e : TaskEventRecord) (es : List TaskEventRecord)
      → is_keepable t (e ∷ es) ≡ fits (e ∷ es)
      → longest fits es ≡ longest (is_keepable t) es
      → longest fits (e ∷ es) ≡ longest (is_keepable t) (e ∷ es)
  longest_same t e es same ih = elim (Bool-cases (fits (e ∷ es))) [
    | inl fit ↦ longest_pass fits e es fit ∙ sym (longest_pass (is_keepable t) e es (same ∙ fit))
    | inr full ↦
        longest_fail fits e es full ∙ ih ∙ sym (longest_fail (is_keepable t) e es (same ∙ full))
  ]

  longest-usable :
      (t : ℕ) (es : List TaskEventRecord)
      → longest fits (longest (all (is_usable t)) es) ≡ longest (is_keepable t) es
  longest-usable t [] = unfold longest in refl
  longest-usable t (e ∷ es) = elim (Bool-cases (all (is_usable t) (e ∷ es))) [
    | inl u ↦
        let later : all (is_usable t) es ≡ true = (and_split _ _ u).1 in
        let ih : longest fits es ≡ longest (is_keepable t) es =
          ap (longest fits) (sym (longest_self (all (is_usable t)) es later))
          ∙ longest-usable t es in
        let fresh = fresh_of_usable t (e ∷ es) u in
        ap (longest fits) (longest_pass (all (is_usable t)) e es u)
        ∙ longest_same t e es (rw fresh) ih
    | inr u ↦
        let unkept : is_keepable t (e ∷ es) ≡ false =
          ground (arith, usable_of_keepable t (e ∷ es)) in
        ap (longest fits) (longest_fail (all (is_usable t)) e es u)
        ∙ longest-usable t es
        ∙ sym (longest_fail (is_keepable t) e es unkept)
  ]

  -- Both loops together, once the first has found its start.
  drop-max :
      (t : ℕ) (es : List TaskEventRecord)
      → drop
          (max
            (unusable t es)
            (byte_limited_start (length es) 2 (length es) (reverse (drop (unusable t es) es))))
          es
        ≡ longest (is_keepable t) es
  drop-max t es =
      ap (λ n. drop n es) later
      ∙ sym (drop-add a (k - a) es)
      ∙ at_mid
      ∙ ap (longest fits) (drop-unusable t es)
      ∙ longest-usable t es
    where
      a : ℕ
      a = unusable t es

      mid : List TaskEventRecord
      mid = drop a es

      k : ℕ
      k = byte_limited_start (length es) 2 (length es) (reverse mid)

      counted : length es ≡ a + length (reverse mid)
      counted = omega (arith, length-reverse mid, length-drop a es, unusable-le t es)

      kept : KeptFrom a (reverse (reverse mid) ++ []) k
      kept =
          byte_limited_start-KeptFrom a (reverse mid) [] (length es) (length es) counted
            (omega arith) refl

      later : max a k ≡ a + (k - a)
      later = omega (arith, kept.0)

      at_mid : drop (k - a) mid ≡ longest fits mid
      at_mid =
          subst (λ l. drop (k - a) l ≡ longest fits l) (append-nil _ ∙ reverse-reverse mid) kept.1

  -- What remains behind the cut is the longest suffix of the journal that is fresh and fits.
  pub drop-cut_index :
      (t : ℕ) (es : List TaskEventRecord) (k : ℕ)
      → cut_index t es ≡ ok k
      → drop k es ≡ longest (is_keepable t) es
  unfolding cut_index
  drop-cut_index t es k h = elim (Result-cases (retained_start t 0 0 es)) [
    | inl (e, bad) ↦ cc (rw bad at h)
    | inr (start, found) ↦
        let at_start : start ≡ unusable t es =
          ground (arith, retained_start_lem t 0 0 es start found) in
        let joined : max start
              (byte_limited_start (length es) 2 (length es) (reverse (drop start es)))
            ≡ k =
          ground arith in
        ap (λ n. drop n es) (sym joined)
        ∙ ap
            (λ n.
              drop (max n (byte_limited_start (length es) 2 (length es) (reverse (drop n es)))) es)
            at_start
        ∙ drop-max t es
  ]
