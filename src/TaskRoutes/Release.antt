-- ===== src/TaskRoutes/Release.antt =====
-- src/broker/TaskRouteCatalog.ts: `retainAmbiguous` and `releaseAmbiguous` on a route that is kept.
use copilot_agent_mesh.Prelude.{
  ℕ, Bool, true, false, not, ◌||◌, String, Option, none, some, List, [], ◌∷◌, ◌==◌, find, ◌≡◌, refl,
  sym, ap, ◌∙◌, subst, arith, eq_iff, Bool-cases, inl, inr, ◌⊎◌, Dict, lookup, lookup-insert,
  remove, lookup-remove,
}
use copilot_agent_mesh.Protocol.{Platform, ok, Result-cases}
use copilot_agent_mesh.Protocol.Schema.Fields.{gives}
use copilot_agent_mesh.Storage.Effects.{DiskOutcome}
use copilot_agent_mesh.TaskRoutes.Records.{Route, ambiguous, state_eq, same_route}
use copilot_agent_mesh.TaskRoutes.State.{
  AttemptGroup, Catalog, Reservation, read_stored, has_attempt, confirmed_group,
  require_attempt_group,
}
use copilot_agent_mesh.TaskRoutes.Remaining.{IsRemaining, others-IsRemaining, select-All}
use copilot_agent_mesh.TaskRoutes.Retention.{
  IsKept, is_guarded, with_routes-IsKept, written-IsKept, read_stored-settled,
}
use copilot_agent_mesh.TaskRoutes.Attempts.{
  set_group, retain_ambiguous, release_ambiguous, release_group, release_last, release_stored,
}

same_task : (r q : Route) → same_route r q ≡ true → (r.task_id == q.task_id) ≡ true
same_task r q h = elim (Bool-cases (r.task_id == q.task_id)) [
  | inl same ↦ same
  | inr other ↦ cc (rw other at h)
]

was_same : (a b : Bool) → (not a || not b) ≡ false → b ≡ true
was_same a b h = ground (arith, h)

gives_some : (P : Route → Type 0) {r q : Route} → some r ≡ some q → P r → P q
gives_some P {r = r} {q = q} e h = let same : r ≡ q = ground (arith, e) in subst P same h

-- A reservation's group is the one of its task, and has its route.
confirmed-group :
    (o : Option AttemptGroup) (reservation : Reservation) (g : AttemptGroup)
    → confirmed_group o reservation ≡ ok g
    → (o ≡ some g) × (g.route.task_id ≡ reservation.route.task_id)
confirmed-group none reservation g h = cc
confirmed-group (some k) reservation g h =
    elim (Bool-cases (
      not (has_attempt reservation.attempt_id k.attempts)
      || not (same_route k.route reservation.route))) [
        | inl bad ↦ cc (rw bad at h)
        | inr fine ↦
            gives (λ x. (some k ≡ some x) × (x.route.task_id ≡ reservation.route.task_id))
              (rw fine at h)
              (
                refl,
                (eq_iff k.route.task_id reservation.route.task_id).0 (
                    same_task k.route reservation.route (
                      was_same (has_attempt reservation.attempt_id k.attempts)
                        (same_route k.route reservation.route) fine)),
              )
      ]

set_group-lookup :
    (key id : String) (g : AttemptGroup) (attempts : List ℕ) (groups : Dict AttemptGroup)
    → (is_guarded (some g) ≡ true)
    → ((key == id) ≡ true) ⊎ (is_guarded (lookup id groups) ≡ true)
    → is_guarded (lookup id (set_group key g attempts groups)) ≡ true
set_group-lookup key id g [] groups safe either =
    ap is_guarded (lookup-remove key id groups) ∙ elim (Bool-cases (key == id)) [
      | inl same ↦ rw same refl
      | inr other ↦
          rw other (elim either [
            | inl same ↦ absurd (ground (arith, same, other))
            | inr guarded ↦ guarded
          ])
    ]
set_group-lookup key id g (n ∷ attempts) groups safe either =
    ap is_guarded (lookup-insert key id g groups) ∙ elim (Bool-cases (key == id)) [
      | inl same ↦ rw same safe
      | inr other ↦
          rw other (elim either [
            | inl same ↦ absurd (ground (arith, same, other))
            | inr guarded ↦ guarded
          ])
    ]

module _ ⦃p : Platform⦄ where
  module _ (settled : (s t : String) → p.parse_uuid s ≡ some t → p.parse_uuid t ≡ some t)
      (id : String) where
    with_groups-IsKept :
        (c : Catalog) (groups : Dict AttemptGroup)
        → IsKept settled id c
        → is_guarded (lookup id groups) ≡ true
        → IsKept settled id (record c { attempt_groups = groups })
    with_groups-IsKept c groups h guarded = record {
      kept_routes = h.kept_routes;
      read = h.read;
      remaining = h.remaining;
      guarded = guarded;
    }

    pub retain_ambiguous-IsKept :
        (reservation : Reservation) (c : Catalog)
        → IsKept settled id c
        → IsKept settled id (retain_ambiguous reservation c).1
    unfolding retain_ambiguous
    retain_ambiguous-IsKept reservation c h =
        elim (Result-cases (require_attempt_group reservation c)) [
          | inl (e, bad) ↦ rw bad h
          | inr (g, found) ↦ rw found (
              with_groups-IsKept c _ h
                (set_group-lookup g.route.task_id id _ _ c.attempt_groups refl (inr h.guarded)))
        ]

    -- Dropping a route of another task.
    release_stored-IsKept :
        (disk : DiskOutcome) (r : Route) (o : Option Route) (c : Catalog) (h : IsKept settled id c)
        → ((q : Route) → o ≡ some q → (q.task_id == id) ≡ false)
        → IsKept settled id (release_stored disk r o h.kept_routes c).1
    unfolding release_stored
    release_stored-IsKept disk r none c h other = h
    release_stored-IsKept disk r (some current) c h other =
        elim (Bool-cases (not (state_eq current.state ambiguous) || not (same_route current r))) [
          | inl bad ↦ rw bad h
          | inr fine ↦ rw fine (
              written-IsKept settled id disk _ c _ h
                (select-All _ _ h.kept_routes
                  (read_stored-settled settled id c.stored h.kept_routes h.read))
                (others-IsRemaining id current.task_id h.kept_routes (other current refl)
                  h.remaining)
                (λ c' h' same. with_routes-IsKept settled id c' _ h'))
        ]

    find-task :
        (task_id : String) (routes : List Route) (q : Route)
        → find (λ r. r.task_id == task_id) routes ≡ some q
        → q.task_id ≡ task_id
    find-task task_id [] q h = cc
    find-task task_id (r ∷ routes) q h = elim (Bool-cases (r.task_id == task_id)) [
      | inl here ↦
          gives_some (λ x. x.task_id ≡ task_id) (rw (here, find) at h)
            ((eq_iff r.task_id task_id).0 here)
      | inr there ↦ find-task task_id routes q (rw (there, find) at h)
    ]

    -- The group of the task is guarded, or it is the group of another task.
    group_guarded :
        (g : AttemptGroup) (c : Catalog)
        → IsKept settled id c
        → lookup g.route.task_id c.attempt_groups ≡ some g
        → (is_guarded (some g) ≡ true) ⊎ ((g.route.task_id == id) ≡ false)
    group_guarded g c h found = elim (Bool-cases (g.route.task_id == id)) [
      | inl same ↦ inl (
          ap is_guarded
            (sym found ∙ ap (λ t. lookup t c.attempt_groups) ((eq_iff g.route.task_id id).0 same))
          ∙ h.guarded)
      | inr other ↦ inr other
    ]

    -- The last attempt of a task.
    release_last-IsKept :
        (disk : DiskOutcome) (g : AttemptGroup) (c : Catalog)
        → IsKept settled id c
        → (is_guarded (some g) ≡ true) ⊎ ((g.route.task_id == id) ≡ false)
        → IsKept settled id (release_last disk g c).1
    unfolding release_last
    release_last-IsKept disk g c h either = elim (Bool-cases (g.is_protected || not g.releasable)) [
      | inl kept ↦ rw kept h
      | inr free ↦ elim either [
        | inl guarded ↦ absurd (ground (arith, guarded, free))
        | inr other ↦
            rw (free, h.read)
              (release_stored-IsKept disk g.route _ c h (λ q found.
                ap (λ t. t == id) (find-task g.route.task_id h.kept_routes q found) ∙ other))
      ]
    ]

    removed_guarded :
        (key : String) (groups : Dict AttemptGroup)
        → is_guarded (lookup id groups) ≡ true
        → is_guarded (lookup id (remove key groups)) ≡ true
    removed_guarded key groups h =
        ap is_guarded (lookup-remove key id groups)
        ∙ elim (Bool-cases (key == id)) [ inl same ↦ rw same refl | inr other ↦ rw other h ]

    release_group-IsKept :
        (disk : DiskOutcome) (g : AttemptGroup) (attempts : List ℕ) (c : Catalog)
        → IsKept settled id c
        → lookup g.route.task_id c.attempt_groups ≡ some g
        → IsKept settled id (release_group disk g attempts c).1
    unfolding release_group
    release_group-IsKept disk g [] c h found =
        release_last-IsKept disk g _
          (with_groups-IsKept c _ h (removed_guarded g.route.task_id c.attempt_groups h.guarded))
          (group_guarded g c h found)
    release_group-IsKept disk g (n ∷ attempts) c h found = elim (group_guarded g c h found) [
      | inl guarded ↦ with_groups-IsKept c _ h (
          set_group-lookup g.route.task_id id _ (n ∷ attempts) c.attempt_groups guarded
            (inr h.guarded))
      | inr other ↦
          with_groups-IsKept c _ h (
            ap is_guarded (lookup-insert g.route.task_id id _ c.attempt_groups)
            ∙ rw other h.guarded)
    ]

    pub release_ambiguous-IsKept :
        (disk : DiskOutcome) (reservation : Reservation) (persisted dispatched : Bool) (c : Catalog)
        → IsKept settled id c
        → IsKept settled id (release_ambiguous disk reservation persisted dispatched c).1
    unfolding release_ambiguous
    release_ambiguous-IsKept disk reservation persisted dispatched c h =
        elim (Bool-cases (persisted || dispatched)) [
          | inl bad ↦ rw bad h
          | inr fine ↦ elim (Result-cases (require_attempt_group reservation c)) [
            | inl (e, bad) ↦ rw (fine, bad) h
            | inr (g, found) ↦
                let (there, same) =
                  confirmed-group (lookup reservation.route.task_id c.attempt_groups) reservation g
                    found in
                rw (fine, found)
                  (release_group-IsKept disk g _ c h
                    (ap (λ t. lookup t c.attempt_groups) same ∙ there))
          ]
        ]

    -- What is kept once an attempt of the task is retained.
    pub retained-IsKept :
        (reservation : Reservation) (c : Catalog) (routes : List Route)
        → reservation.route.task_id ≡ id
        → read_stored c.stored ≡ ok routes
        → IsRemaining id routes
        → (retain_ambiguous reservation c).0 ≡ ok tt
        → IsKept settled id (retain_ambiguous reservation c).1
    unfolding retain_ambiguous
    retained-IsKept reservation c routes named read remaining done =
        elim (Result-cases (require_attempt_group reservation c)) [
          | inl (e, bad) ↦ cc (rw bad at done)
          | inr (g, found) ↦
              let (there, same) =
                confirmed-group (lookup reservation.route.task_id c.attempt_groups) reservation g
                  found in
              rw found (record {
                kept_routes = routes;
                read = read;
                remaining = remaining;
                guarded =
                    set_group-lookup g.route.task_id id _ _ c.attempt_groups refl
                      (inl ((eq_iff g.route.task_id id).1 (same ∙ named)));
              })
        ]
