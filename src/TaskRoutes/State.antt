-- ===== src/TaskRoutes/State.antt =====
-- src/broker/TaskRouteCatalog.ts: the state of the catalog, how it is read and written, and its attempts.
use copilot_agent_mesh.Prelude.{
  ℕ, ◌+◌, Bool, true, false, not, ◌&&◌, ◌||◌, String, Option, none, some, List, [], ◌∷◌, ◌++◌, ◌==◌,
  any, select, length, ltb, eqb, is_some, if◌then◌else◌, Dict, lookup, insert,
}
use copilot_agent_mesh.Protocol.{
  Platform, Result, ok, err, type_error, plain_error, MeshErrorReason, mesh,
}
use copilot_agent_mesh.Storage.Effects.{DiskOutcome, done, failed_before, failed_after}
use copilot_agent_mesh.TaskRoutes.Records.{
  Route, same_route, is_terminal_route, catalog_schema, task_route_catalog_limit,
}

-- What the state store holds under `TASK_ROUTE_CATALOG_STATE_KEY`: an object with routes, or another value.
pub data StoredRoutes : Type 0 where
  route_list : List Route → StoredRoutes
  other_routes : StoredRoutes

-- `RouteAttemptGroup`.
pub record AttemptGroup : Type 0 where
  pub route : Route
  pub attempts : List ℕ
  pub releasable : Bool
  pub is_protected : Bool

-- `TaskRouteCatalog`, with the value of its state store.
pub record Catalog : Type 0 where
  pub stored : Option StoredRoutes
  pub routes : Dict Route
  pub attempt_groups : Dict AttemptGroup
  pub next_attempt_id : ℕ

-- `TaskRouteReservation`, and what `reserveCore` gives.
pub record Reservation : Type 0 where
  pub route : Route
  pub attempt_id : ℕ

pub data Reserved : Type 0 where
  reserved_route : Route → Reserved
  reserved_attempt : Reservation → Reserved

abbrev pub Outcome : Type 0 → Type 0
Outcome A = Result A × Catalog

-- What follows a computation that leaves the catalog.
abbrev pub on_ok : {A B : Type 0} → Result A → Catalog → (A → Outcome B) → Outcome B
on_ok (ok a) c next = next a
on_ok (err e) c next = (err e, c)

-- What follows one that may have changed it.
abbrev pub after_ok : {A B : Type 0} → Outcome A → (A → Catalog → Outcome B) → Outcome B
after_ok (ok a, c) next = next a c
after_ok (err e, c) next = (err e, c)

module _ ⦃p : Platform⦄ where
  -- `readCatalog`.
  abbrev pub read_stored : Option StoredRoutes → Result (List Route)
  read_stored none = ok []
  read_stored (some (route_list routes)) = catalog_schema routes
  read_stored (some other_routes) = err type_error

  -- `writeCatalog`, where the state store saves the value or rejects.
  abbrev pub updated : DiskOutcome → List Route → Catalog → Outcome (Unit {0})
  updated done routes c = (ok tt, record c { stored = some (route_list routes) })
  updated failed_before routes c = (err plain_error, c)
  updated failed_after routes c = (err plain_error, record c { stored = some (route_list routes) })

  unfoldable pub write_catalog : DiskOutcome → List Route → Catalog → Outcome (Unit {0})
  write_catalog disk routes c = on_ok (catalog_schema routes) c λ parsed. updated disk parsed c

-- The order that `localeCompare` tells of two texts.
pub data TextOrder : Type 0 where
  before same after : TextOrder

abbrev or_next : TextOrder → TextOrder → TextOrder
or_next same next = next
or_next first next = first

abbrev order_options : (String → String → TextOrder) → Option String → Option String → TextOrder
order_options locale_compare (some s) (some t) = locale_compare s t
order_options locale_compare _ _ = same

abbrev pub earlier_of : TextOrder → Route → Route → Route
earlier_of after left right = right
earlier_of _ left right = left

abbrev pub is_evictable : Route → Bool
is_evictable r = is_some r.terminal_at && is_terminal_route r.state

module _ (locale_compare : String → String → TextOrder) where
  -- The comparison of `makeCapacity`.
  abbrev pub order_routes : Route → Route → TextOrder
  order_routes left right =
      or_next (order_options locale_compare left.terminal_at right.terminal_at) (
        or_next (locale_compare left.created_at right.created_at)
          (locale_compare left.task_id right.task_id))

  -- `.sort(…)[0]`: sorting is stable, so the first of the least comes first.
  abbrev pub least_route : Option Route → List Route → Option Route
  least_route least [] = least
  least_route none (r ∷ routes) = least_route (some r) routes
  least_route (some l) (r ∷ routes) = least_route (some (earlier_of (order_routes l r) l r)) routes

  abbrev pub without : Option Route → List Route → Result (List Route)
  without none routes = err (mesh MeshErrorReason.rate_limited false)
  without (some oldest) routes = ok (select (λ r. not (r.task_id == oldest.task_id)) routes)

  unfoldable pub make_capacity : List Route → Result (List Route)
  make_capacity routes =
      if ltb (length routes) task_route_catalog_limit
      then ok routes
      else without (least_route none (select is_evictable routes)) routes

abbrev new_group : Route → Bool → AttemptGroup
new_group r created = record {
  route = r;
  attempts = [];
  releasable = created;
  is_protected = not created;
}

-- The group that an attempt joins: the one there is, if it is of the same route.
abbrev pub joined_group : Option AttemptGroup → Route → Bool → AttemptGroup
joined_group none r created = new_group r created
joined_group (some g) r created = if same_route g.route r then g else new_group r created

abbrev pub has_attempt : ℕ → List ℕ → Bool
has_attempt n attempts = any (eqb n) attempts

abbrev pub with_attempt : ℕ → List ℕ → List ℕ
with_attempt n attempts = if has_attempt n attempts then attempts else attempts ++ n ∷ []

abbrev pub without_attempt : ℕ → List ℕ → List ℕ
without_attempt n attempts = select (λ m. not (eqb m n)) attempts

-- `reservationResult`.
unfoldable pub reservation_result : Route → Bool → Bool → Catalog → Outcome Reserved
reservation_result r created false c = (ok (reserved_route r), c)
reservation_result r created true c =
    let attempt_id = c.next_attempt_id in
    let group = joined_group (lookup r.task_id c.attempt_groups) r created in
    (
      ok (reserved_attempt (record { route = r; attempt_id = attempt_id })),
      record c {
        next_attempt_id = attempt_id + 1;
        attempt_groups =
            insert r.task_id (record group { attempts = with_attempt attempt_id group.attempts })
              c.attempt_groups;
      },
    )

-- `requireAttemptGroup`.
abbrev pub confirmed_group : Option AttemptGroup → Reservation → Result AttemptGroup
confirmed_group none reservation = err type_error
confirmed_group (some g) reservation =
    if not (has_attempt reservation.attempt_id g.attempts)
      || not (same_route g.route reservation.route)
    then err type_error
    else ok g

abbrev pub require_attempt_group : Reservation → Catalog → Result AttemptGroup
require_attempt_group reservation c =
    confirmed_group (lookup reservation.route.task_id c.attempt_groups) reservation
