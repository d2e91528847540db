-- ===== src/TaskRoutes/NewRoutes.antt =====
-- src/broker/TaskRouteCatalog.ts: what a reservation leaves in the stored catalog.
use copilot_agent_mesh.Prelude.{
  Bool, true, false, String, some, List, [], ◌∷◌, ◌++◌, All, find, ◌≡◌, refl, sym, ap, ◌∙◌, subst,
  Option-cases, inl, inr, Dict,
}
use copilot_agent_mesh.Protocol.{Platform, ok, Result-cases}
use copilot_agent_mesh.Protocol.Schema.{is_sha256_hex}
use copilot_agent_mesh.Protocol.Schema.Fields.{gives, past}
use copilot_agent_mesh.Storage.Effects.{DiskOutcome}
use copilot_agent_mesh.TaskRoutes.Records.{
  Route, RoutedTaskStart, Source, route_schema, routed_task_start_schema, catalog_schema,
  is_valid_route, canonical_route_request_hash,
}
use copilot_agent_mesh.TaskRoutes.State.{
  route_list, Catalog, Reserved, Outcome, after_ok, read_stored, write_catalog, TextOrder,
  make_capacity, reservation_result,
}
use copilot_agent_mesh.TaskRoutes.Settled.{
  AreSettled, IsNormalStart, start-IsNormal, route-Settles, catalog_settled,
}
use copilot_agent_mesh.TaskRoutes.Remaining.{make_capacity-All, append-All}
use copilot_agent_mesh.TaskRoutes.Retention.{read_stored-settled}
use copilot_agent_mesh.TaskRoutes.{
  names_route, conflicts, assert_continuation_route, reserve_new, reserve_found, reserve_core,
}
use copilot_agent_mesh.TaskRoutes.Repetition.{
  route_of, reservation-gives, no_conflict, saved, own_route, existing-HasRoute, find-append,
  find-none, route_for, IsNormalSource, HasRoute,
}

module _ ⦃p : Platform⦄ (locale_compare : String → String → TextOrder) where
  module _ (settled : (s t : String) → p.parse_uuid s ≡ some t → p.parse_uuid t ≡ some t) where
    -- The route of a normal request from a normal source passes its schema unchanged.
    candidate_same :
        (q : RoutedTaskStart) (source : Source) (now : String) (b : Route)
        → IsNormalStart settled q
        → IsNormalSource locale_compare source
        → route_schema (route_for locale_compare q source now) ≡ ok b
        → route_for locale_compare q source now ≡ b
    unfolding route_schema
    candidate_same q source now b n m h =
        past (is_sha256_hex (canonical_route_request_hash q source)) _
          (rw
            (
              n.task, n.request, n.continued_task, n.exact_target, m.peer, m.node, m.inbound,
              n.identity,
            )
            at h)
          λ t1 h1. past (p.is_timestamp now) _ h1 λ t2 h2.
            past (is_valid_route (route_for locale_compare q source now)) _ h2
              λ t3 k. gives (λ x. route_for locale_compare q source now ≡ x) k refl

    -- What a write leaves when all went well.
    written-gives :
        {A : Type 0} (disk : DiskOutcome) (routes : List Route) (c : Catalog)
        (next : Unit {0} → Catalog → Outcome A) (a : A)
        → AreSettled settled routes
        → (after_ok (write_catalog disk routes c) next).0 ≡ ok a
        → (catalog_schema routes ≡ ok routes)
          × (after_ok (write_catalog disk routes c) next
              ≡ next tt (record c { stored = some (route_list routes) }))
    unfolding write_catalog
    written-gives disk routes c next a settled_routes h =
        elim (Result-cases (catalog_schema routes)) [
          | inl (e, bad) ↦ cc (rw bad at h)
          | inr (parsed, valid) ↦
              let same = catalog_settled settled routes parsed settled_routes valid in
              let good : catalog_schema routes ≡ ok routes = valid ∙ ap ok (sym same) in
              (good, rw good (saved locale_compare disk routes c next a (rw good at h)))
        ]

    written-HasRoute :
        (disk : DiskOutcome) (now : String) (input q : RoutedTaskStart) (source : Source)
        (as_attempt : Bool) (retained : List Route) (candidate : Route) (c : Catalog)
        (kept : Catalog → Dict Route) (x : Reserved)
        → routed_task_start_schema input ≡ ok q
        → IsNormalSource locale_compare source
        → AreSettled settled (retained ++ candidate ∷ [])
        → All (λ k. names_route q k ≡ false) retained
        → route_schema (route_for locale_compare q source now) ≡ ok candidate
        → (after_ok (write_catalog disk (retained ++ candidate ∷ []) c) λ written c'.
            reservation_result candidate true as_attempt (record c' { routes = kept c' })).0
          ≡ ok x
        → HasRoute locale_compare input source
            (route_of x)
            (after_ok (write_catalog disk (retained ++ candidate ∷ []) c) λ written c'.
              reservation_result candidate true as_attempt
                (record c' { routes = kept c' })).1.stored
    written-HasRoute disk now input q source as_attempt retained candidate c kept x parsed m
          settled_routes absent valid h =
        let routes = retained ++ candidate ∷ [] in
        let (good, ends) = written-gives disk routes c _ x settled_routes h in
        let c' = record c { stored = some (route_list routes) } in
        let (y, gave, route, stored) =
          reservation-gives candidate true as_attempt (record c' { routes = kept c' }) in
        let same =
          candidate_same q source now candidate (start-IsNormal settled input q parsed) m valid in
        let result : route_of y ≡ route_of x =
          gives (λ z. route_of y ≡ route_of z)
            (sym gave ∙ ap (λ (o : Outcome Reserved). o.0) (sym ends) ∙ h) refl in
        subst (λ o. HasRoute locale_compare input source (route_of x) o)
          (sym (ap (λ (o : Outcome Reserved). o.1.stored) ends ∙ stored))
          (subst (λ r. HasRoute locale_compare input source r (some (route_list routes)))
            (sym route ∙ result)
            (record {
              request = q;
              routes = routes;
              parsed = parsed;
              read = good;
              found = find-append locale_compare q retained candidate absent (
                  subst (λ r. names_route q r ≡ true) same (own_route locale_compare q source now));
              matching =
                  subst (λ r. conflicts q source (canonical_route_request_hash q source) r ≡ false)
                    same (no_conflict locale_compare q source now);
            }))

    reserve_new-HasRoute :
        (disk : DiskOutcome) (now : String) (input q : RoutedTaskStart) (source : Source)
        (as_attempt : Bool) (routes : List Route) (c : Catalog) (x : Reserved)
        → routed_task_start_schema input ≡ ok q
        → IsNormalSource locale_compare source
        → AreSettled settled routes
        → All (λ k. names_route q k ≡ false) routes
        → (reserve_new locale_compare disk now q source as_attempt routes c).0 ≡ ok x
        → HasRoute locale_compare input source
            (route_of x)
            (reserve_new locale_compare disk now q source as_attempt routes c).1.stored
    unfolding reserve_new
    reserve_new-HasRoute disk now input q source as_attempt routes c x parsed m settled_routes
          absent h =
        elim (Result-cases (assert_continuation_route q source c)) [
          | inl (e, bad) ↦ cc (rw bad at h)
          | inr (u, continuing) ↦ elim (Result-cases (make_capacity locale_compare routes)) [
            | inl (e, bad) ↦ cc (rw (continuing, bad) at h)
            | inr (retained, made) ↦
                elim (Result-cases (route_schema (route_for locale_compare q source now))) [
                  | inl (e, bad) ↦ cc (rw (continuing, made, bad) at h)
                  | inr (candidate, valid) ↦
                      rw (continuing, made, valid)
                        (written-HasRoute disk now input q source as_attempt retained candidate c _
                          x parsed m
                          (append-All _ retained candidate
                            (make_capacity-All locale_compare _ routes retained made settled_routes)
                            (route-Settles settled _ candidate valid).0)
                          (make_capacity-All locale_compare _ routes retained made absent) valid
                          (rw (continuing, made, valid) at h))
                ]
          ]
        ]

    pub reserve_core-HasRoute :
        (disk : DiskOutcome) (now : String) (input : RoutedTaskStart) (source : Source)
        (as_attempt : Bool) (c : Catalog) (x : Reserved)
        → IsNormalSource locale_compare source
        → (reserve_core locale_compare disk now input source as_attempt c).0 ≡ ok x
        → HasRoute locale_compare input source
            (route_of x)
            (reserve_core locale_compare disk now input source as_attempt c).1.stored
    unfolding reserve_core reserve_found
    reserve_core-HasRoute disk now input source as_attempt c x m h =
        elim (Result-cases (routed_task_start_schema input)) [
          | inl (e, bad) ↦ cc (rw bad at h)
          | inr (q, parsed) ↦ elim (Result-cases (read_stored c.stored)) [
            | inl (e, bad) ↦ cc (rw (parsed, bad) at h)
            | inr (routes, read) ↦ elim (Option-cases (find (names_route q) routes)) [
              | inl absent ↦
                  rw (parsed, read, absent)
                    (reserve_new-HasRoute disk now input q source as_attempt routes c x parsed m
                      (read_stored-settled settled "" c.stored routes read)
                      (find-none locale_compare q routes absent) (rw (parsed, read, absent) at h))
              | inr (r, found) ↦
                  rw (parsed, read, found)
                    (existing-HasRoute locale_compare input q source as_attempt r routes c x parsed
                      read found (rw (parsed, read, found) at h))
            ]
          ]
        ]
