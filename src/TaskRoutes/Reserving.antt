-- ===== src/TaskRoutes/Reserving.antt =====
-- src/broker/TaskRouteCatalog.ts: `reserveCore` on a route that is kept.
use copilot_agent_mesh.Prelude.{
  Bool, true, false, ◌&&◌, String, none, some, List, [], ◌∷◌, ◌++◌, ◌==◌, any, find, ◌≡◌, refl, sym,
  ap, ◌∙◌, arith, eq_iff, is_some, Bool-cases, Option-cases, inl, inr, insert,
}
use copilot_agent_mesh.Protocol.{Platform, ok, Result-cases}
use copilot_agent_mesh.Protocol.Schema.{uuid}
use copilot_agent_mesh.Protocol.Schema.Fields.{gives}
use copilot_agent_mesh.Storage.Effects.{DiskOutcome}
use copilot_agent_mesh.TaskRoutes.Records.{
  Route, ambiguous, is_terminal_route, routed_task_start_schema, RoutedTaskStart, Source,
  route_schema, canonical_route_request_hash,
}
use copilot_agent_mesh.TaskRoutes.State.{
  Catalog, after_ok, write_catalog, TextOrder, make_capacity, reservation_result, is_evictable,
}
use copilot_agent_mesh.TaskRoutes.Settled.{AreSettled, start-IsNormal, route-Settles}
use copilot_agent_mesh.TaskRoutes.Remaining.{
  has_task, IsRemaining, make_capacity-IsRemaining, make_capacity-All, append-All,
  append-IsRemaining,
}
use copilot_agent_mesh.TaskRoutes.{
  drop_unretained, reserve_existing, reserve_found, reserve_core, reserve_new, conflicts,
  names_route, assert_continuation_route, candidate_of,
}
use copilot_agent_mesh.TaskRoutes.Retention.{
  IsKept, with_routes-IsKept, written-IsKept, reservation-IsKept, read_stored-settled,
}

module _ ⦃p : Platform⦄
    (settled : (s t : String) → p.parse_uuid s ≡ some t → p.parse_uuid t ≡ some t)
    (id : String) where
  -- A request that finds no route is of another task.
  other_task :
      (q : RoutedTaskStart) (routes : List Route)
      → find (names_route q) routes ≡ none
      → has_task id routes ≡ true
      → (q.task_id == id) ≡ false
  other_task q [] h present = ground arith
  other_task q (r ∷ routes) h present = elim (Bool-cases (names_route q r)) [
    | inl found ↦ cc (rw (found, find) at h)
    | inr other ↦ elim (Bool-cases (r.task_id == id)) [
      | inl here ↦
          ground (
            arith,
            other,
            here,
            eq_iff r.task_id id,
            eq_iff q.task_id id,
            eq_iff r.task_id q.task_id,
          )
      | inr there ↦ other_task q routes (rw (other, find) at h) (rw (there, any) at present)
    ]
  ]

  same_uuid : (s t u : String) → uuid s ≡ ok t → uuid s ≡ ok u → t ≡ u
  same_uuid s t u h k = gives (λ x. t ≡ x) (sym h ∙ k) refl

  never_evicted : (r : Route) → r.state ≡ ambiguous → is_evictable r ≡ false
  never_evicted r e = ap (λ s. is_some r.terminal_at && is_terminal_route s) e ∙ ground arith

  new_route-IsKept :
      (disk : DiskOutcome) (q : RoutedTaskStart) (as_attempt : Bool) (retained : List Route)
      (candidate : Route) (c : Catalog) (h : IsKept settled id c)
      → AreSettled settled (retained ++ candidate ∷ [])
      → IsRemaining id (retained ++ candidate ∷ [])
      → (candidate.task_id == id) ≡ false
      → IsKept settled id
          (after_ok (write_catalog disk (retained ++ candidate ∷ []) c) λ written c'.
            reservation_result candidate true as_attempt (record c' {
              routes =
                  insert candidate.task_id candidate
                    (drop_unretained retained h.kept_routes c'.routes);
            })).1
  new_route-IsKept disk q as_attempt retained candidate c h settled_routes remaining other =
      written-IsKept settled id disk (retained ++ candidate ∷ []) c _ h settled_routes remaining
        (λ c' h' same.
          reservation-IsKept settled id candidate true as_attempt _ (inl other)
            (with_routes-IsKept settled id c' _ h'))

  reserve_new-IsKept :
      (locale_compare : String → String → TextOrder) (disk : DiskOutcome) (now : String)
      (q : RoutedTaskStart) (source : Source) (as_attempt : Bool) (c : Catalog)
      (h : IsKept settled id c)
      → uuid q.task_id ≡ ok q.task_id
      → (q.task_id == id) ≡ false
      → IsKept settled id
          (reserve_new locale_compare disk now q source as_attempt h.kept_routes c).1
  unfolding reserve_new
  reserve_new-IsKept locale_compare disk now q source as_attempt c h normal other =
      elim (Result-cases (assert_continuation_route q source c)) [
        | inl (e, bad) ↦ rw bad h
        | inr (u, continuing) ↦ elim (Result-cases (make_capacity locale_compare h.kept_routes)) [
          | inl (e, bad) ↦ rw (continuing, bad) h
          | inr (retained, made) ↦
              elim (Result-cases (
                route_schema (
                  candidate_of locale_compare q source (canonical_route_request_hash q source)
                    now))) [
                      | inl (e, bad) ↦ rw (continuing, made, bad) h
                      | inr (candidate, parsed) ↦
                          rw (continuing, made, parsed)
                            (new_route-IsKept disk q as_attempt retained candidate c h
                              (append-All _ retained candidate
                                (make_capacity-All locale_compare _ h.kept_routes retained made
                                  (read_stored-settled settled id c.stored h.kept_routes h.read))
                                (route-Settles settled _ candidate parsed).0)
                              (append-IsRemaining id retained candidate
                                (never_evicted candidate
                                  (route-Settles settled _ candidate parsed).2)
                                (make_capacity-IsRemaining locale_compare id h.kept_routes retained
                                  made h.remaining))
                              (ap (λ t. t == id)
                                  (sym (
                                    same_uuid q.task_id q.task_id candidate.task_id normal
                                      (route-Settles settled _ candidate parsed).1))
                                ∙ other))
                    ]
        ]
      ]

  reserve_existing-IsKept :
      (locale_compare : String → String → TextOrder) (q : RoutedTaskStart) (source : Source)
      (as_attempt : Bool) (r : Route) (c : Catalog)
      → IsKept settled id c
      → IsKept settled id (reserve_existing locale_compare q source as_attempt r c).1
  unfolding reserve_existing
  reserve_existing-IsKept locale_compare q source as_attempt r c h =
      elim (Bool-cases (conflicts q source (canonical_route_request_hash q source) r)) [
        | inl bad ↦ rw bad h
        | inr fine ↦ rw fine (
            reservation-IsKept settled id r false as_attempt _ (inr refl)
              (with_routes-IsKept settled id c _ h))
      ]

  pub reserve_core-IsKept :
      (locale_compare : String → String → TextOrder) (disk : DiskOutcome) (now : String)
      (input : RoutedTaskStart) (source : Source) (as_attempt : Bool) (c : Catalog)
      → IsKept settled id c
      → IsKept settled id (reserve_core locale_compare disk now input source as_attempt c).1
  unfolding reserve_core reserve_found
  reserve_core-IsKept locale_compare disk now input source as_attempt c h =
      elim (Result-cases (routed_task_start_schema input)) [
        | inl (e, bad) ↦ rw bad h
        | inr (q, parsed) ↦ elim (Option-cases (find (names_route q) h.kept_routes)) [
          | inl absent ↦
              rw (parsed, h.read, absent)
                (reserve_new-IsKept locale_compare disk now q source as_attempt c h
                  (start-IsNormal settled input q parsed).task
                  (other_task q h.kept_routes absent h.remaining.present))
          | inr (r, found) ↦
              rw (parsed, h.read, found)
                (reserve_existing-IsKept locale_compare q source as_attempt r c h)
        ]
      ]
