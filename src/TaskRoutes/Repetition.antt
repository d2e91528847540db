-- ===== src/TaskRoutes/Repetition.antt =====
-- src/broker/TaskRouteCatalog.ts: the same reservation a second time.
use copilot_agent_mesh.Prelude.{
  Bool, true, false, String, Option, none, some, List, [], ◌∷◌, ◌++◌, ◌==◌, All, find, ◌≡◌, refl,
  sym, ◌∙◌, subst, arith, eq_iff, Bool-cases, inl, inr, text_option_eq, text_option_eq_iff, insert,
}
use copilot_agent_mesh.Protocol.{Platform, ok}
use copilot_agent_mesh.Protocol.Schema.{uuid, optional}
use copilot_agent_mesh.Protocol.Schema.Fields.{gives}
use copilot_agent_mesh.Storage.Effects.{DiskOutcome, done, failed_before, failed_after}
use copilot_agent_mesh.Task.Request.{TaskTarget}
use copilot_agent_mesh.TaskRoutes.Records.{
  Route, RouteKind, local, remote, RoutedTaskStart, Source, routed_task_start_schema, kind_eq,
  same_target, canonical_route_request_hash,
}
use copilot_agent_mesh.TaskRoutes.State.{
  StoredRoutes, route_list, Catalog, Reserved, reserved_route, reserved_attempt, Outcome, after_ok,
  read_stored, updated, TextOrder, reservation_result,
}
use copilot_agent_mesh.TaskRoutes.{
  names_route, conflicts, candidate_of, reserve_existing, reserve_found, reserve_core,
}

-- The route that a reservation gives.
abbrev pub route_of : Reserved → Route
route_of (reserved_route r) = r
route_of (reserved_attempt reservation) = reservation.route

pub reservation-gives :
    (r : Route) (created as_attempt : Bool) (c : Catalog)
    → (x : Reserved) × ((reservation_result r created as_attempt c).0 ≡ ok x)
      × (route_of x ≡ r)
      × ((reservation_result r created as_attempt c).1.stored ≡ c.stored)
unfolding reservation_result
reservation-gives r created false c = (reserved_route r, refl, refl, refl)
reservation-gives r created true c = (_, refl, refl, refl)

kind_eq_refl : (k : RouteKind) → kind_eq k k ≡ true
kind_eq_refl local = refl
kind_eq_refl remote = refl

same_target_refl : (t : TaskTarget) → same_target t t ≡ true
same_target_refl t = ground (
  arith,
  eq_iff t.device_id t.device_id,
  eq_iff t.node_id t.node_id,
  eq_iff t.node_instance_id t.node_instance_id,
  eq_iff t.workspace_id t.workspace_id,
)

module _ ⦃p : Platform⦄ (locale_compare : String → String → TextOrder) where
  -- The route that a request gets for a source.
  abbrev pub route_for : RoutedTaskStart → Source → String → Route
  route_for q source now =
      candidate_of locale_compare q source (canonical_route_request_hash q source) now

  pub no_conflict :
      (q : RoutedTaskStart) (source : Source) (now : String)
      → conflicts q source (canonical_route_request_hash q source) (route_for q source now) ≡ false
  no_conflict q source now =
      let text-refl : (s : String) → (s == s) ≡ true = λ s. (eq_iff s s).1 refl in
      let option-refl : (s : Option String) → text_option_eq s s ≡ true =
        λ s. (text_option_eq_iff s s).1 refl in
      rw
        (
          text-refl q.task_id,
          text-refl q.delegation_request_id,
          text-refl (canonical_route_request_hash q source),
          kind_eq_refl source.source_kind,
          option-refl source.remote_peer,
          option-refl source.local_node,
          option-refl source.local_peer,
          option-refl q.source_workspace_identity,
          same_target_refl q.target,
        )
        refl

  pub saved :
      {A : Type 0} (disk : DiskOutcome) (routes : List Route) (c : Catalog)
      (next : Unit {0} → Catalog → Outcome A) (a : A)
      → (after_ok (updated disk routes c) next).0 ≡ ok a
      → after_ok (updated disk routes c) next
        ≡ next tt (record c { stored = some (route_list routes) })
  saved done routes c next a h = refl
  saved failed_before routes c next a h = cc
  saved failed_after routes c next a h = cc

  pub own_route :
      (q : RoutedTaskStart) (source : Source) (now : String)
      → names_route q (route_for q source now) ≡ true
  own_route q source now = rw ((eq_iff q.task_id q.task_id).1 refl) refl

  -- A source whose identifiers are in lower case.
  pub record IsNormalSource (source : Source) : Type 0 where
    pub peer : optional uuid source.remote_peer ≡ ok source.remote_peer
    pub node : optional uuid source.local_node ≡ ok source.local_node
    pub inbound : optional uuid source.local_peer ≡ ok source.local_peer

  -- A request has its route in the stored catalog.
  pub record HasRoute (input : RoutedTaskStart) (source : Source) (r : Route)
      (stored : Option StoredRoutes) : Type 0 where
    pub request : RoutedTaskStart
    pub routes : List Route
    pub parsed : routed_task_start_schema input ≡ ok request
    pub read : read_stored stored ≡ ok routes
    pub found : find (names_route request) routes ≡ some r
    pub matching : conflicts request source (canonical_route_request_hash request source) r ≡ false

  -- The reservation of such a request gives the route and writes nothing.
  pub reserved_again :
      (disk : DiskOutcome) (now : String) (input : RoutedTaskStart) (source : Source)
      (as_attempt : Bool) (r : Route) (c : Catalog)
      → HasRoute input source r c.stored
      → (x : Reserved) × ((reserve_core locale_compare disk now input source as_attempt c).0 ≡ ok x)
        × (route_of x ≡ r)
        × ((reserve_core locale_compare disk now input source as_attempt c).1.stored ≡ c.stored)
  unfolding reserve_core reserve_found reserve_existing
  reserved_again disk now input source as_attempt r c h =
      rw (h.parsed, h.read, h.found, h.matching)
        (reservation-gives r false as_attempt (record c { routes = insert r.task_id r c.routes }))

  pub existing-HasRoute :
      (input q : RoutedTaskStart) (source : Source) (as_attempt : Bool) (r : Route)
      (routes : List Route) (c : Catalog) (x : Reserved)
      → routed_task_start_schema input ≡ ok q
      → read_stored c.stored ≡ ok routes
      → find (names_route q) routes ≡ some r
      → (reserve_existing locale_compare q source as_attempt r c).0 ≡ ok x
      → HasRoute input source
          (route_of x)
          (reserve_existing locale_compare q source as_attempt r c).1.stored
  unfolding reserve_existing
  existing-HasRoute input q source as_attempt r routes c x parsed read found h =
      elim (Bool-cases (conflicts q source (canonical_route_request_hash q source) r)) [
        | inl bad ↦ cc (rw bad at h)
        | inr fine ↦
            let (y, gave, route, stored) =
              reservation-gives r false as_attempt
                (record c { routes = insert r.task_id r c.routes }) in
            let result : route_of y ≡ route_of x =
              gives (λ z. route_of y ≡ route_of z) (sym gave ∙ (rw fine at h)) refl in
            rw (fine, stored)
              (subst (λ k. HasRoute input source k c.stored) (sym route ∙ result)
                (record {
                  request = q;
                  routes = routes;
                  parsed = parsed;
                  read = read;
                  found = found;
                  matching = fine;
                }))
      ]

  pub find-append :
      (q : RoutedTaskStart) (routes : List Route) (r : Route)
      → All (λ k. names_route q k ≡ false) routes
      → names_route q r ≡ true
      → find (names_route q) (routes ++ r ∷ []) ≡ some r
  find-append q [] r h named = rw (named, find) refl
  find-append q (k ∷ routes) r (h, hs) named = rw (h, find) (find-append q routes r hs named)

  pub find-none :
      (q : RoutedTaskStart) (routes : List Route)
      → find (names_route q) routes ≡ none
      → All (λ k. names_route q k ≡ false) routes
  find-none q [] h = tt
  find-none q (k ∷ routes) h = elim (Bool-cases (names_route q k)) [
    | inl named ↦ cc (rw (named, find) at h)
    | inr other ↦ (other, find-none q routes (rw (other, find) at h))
  ]
