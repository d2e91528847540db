-- ===== src/TaskRoutes/Retention.antt =====
-- src/broker/TaskRouteCatalog.ts: what reservations, retentions and releases keep of a route.
use copilot_agent_mesh.Prelude.{
  Bool, true, false, not, ◌||◌, String, Option, none, some, List, ◌==◌, ◌≡◌, refl, sym, ap, ◌∙◌,
  subst, arith, eq_iff, Bool-cases, inl, inr, ◌⊎◌, Dict, lookup, lookup-insert,
}
use copilot_agent_mesh.Protocol.{Platform, ok, Result-cases}
use copilot_agent_mesh.Protocol.Schema.Fields.{gives}
use copilot_agent_mesh.Storage.Effects.{DiskOutcome, done, failed_before, failed_after}
use copilot_agent_mesh.TaskRoutes.Records.{Route, catalog_schema, same_route}
use copilot_agent_mesh.TaskRoutes.State.{
  StoredRoutes, route_list, other_routes, AttemptGroup, Catalog, Outcome, after_ok, read_stored,
  updated, write_catalog, joined_group, reservation_result,
}
use copilot_agent_mesh.TaskRoutes.Settled.{AreSettled, catalog_given, catalog_settled}
use copilot_agent_mesh.TaskRoutes.Remaining.{IsRemaining}

abbrev pub is_guarded : Option AttemptGroup → Bool
is_guarded none = true
is_guarded (some g) = g.is_protected || not g.releasable

module _ ⦃p : Platform⦄
    (settled : (s t : String) → p.parse_uuid s ≡ some t → p.parse_uuid t ≡ some t)
    (id : String) where
  -- The stored catalog can be read and has a route of the task that may not be evicted, and the attempts
  -- of the task, if any, cannot release it.
  pub record IsKept (c : Catalog) : Type 0 where
    pub kept_routes : List Route
    pub read : read_stored c.stored ≡ ok kept_routes
    pub remaining : IsRemaining id kept_routes
    pub guarded : is_guarded (lookup id c.attempt_groups) ≡ true

  pub read_stored-settled :
      (o : Option StoredRoutes) (routes : List Route)
      → read_stored o ≡ ok routes
      → AreSettled settled routes
  read_stored-settled none routes h = gives (λ x. AreSettled settled x) h tt
  read_stored-settled (some (route_list xs)) routes h = catalog_given settled xs routes h
  read_stored-settled (some other_routes) routes h = cc

  -- Settled routes that keep the task can be written.
  saved-IsKept :
      (c : Catalog) (routes parsed : List Route)
      → IsKept c
      → AreSettled settled routes
      → IsRemaining id routes
      → catalog_schema routes ≡ ok parsed
      → IsKept (record c { stored = some (route_list parsed) })
  saved-IsKept c routes parsed h settled_routes remaining valid =
      let same = catalog_settled settled routes parsed settled_routes valid in
      record {
        kept_routes = routes;
        read = ap catalog_schema (sym same) ∙ valid ∙ ap ok (sym same);
        remaining = remaining;
        guarded = h.guarded;
      }

  updated-IsKept :
      {B : Type 0} (disk : DiskOutcome) (parsed : List Route) (c : Catalog)
      (next : Unit {0} → Catalog → Outcome B)
      → IsKept c
      → IsKept (record c { stored = some (route_list parsed) })
      → ((c' : Catalog) → IsKept c' → c'.attempt_groups ≡ c.attempt_groups → IsKept (next tt c').1)
      → IsKept (after_ok (updated disk parsed c) next).1
  updated-IsKept done parsed c next h saved later =
      later (record c { stored = some (route_list parsed) }) saved refl
  updated-IsKept failed_before parsed c next h saved later = h
  updated-IsKept failed_after parsed c next h saved later = saved

  pub written-IsKept :
      {B : Type 0} (disk : DiskOutcome) (routes : List Route) (c : Catalog)
      (next : Unit {0} → Catalog → Outcome B)
      → IsKept c
      → AreSettled settled routes
      → IsRemaining id routes
      → ((c' : Catalog) → IsKept c' → c'.attempt_groups ≡ c.attempt_groups → IsKept (next tt c').1)
      → IsKept (after_ok (write_catalog disk routes c) next).1
  unfolding write_catalog
  written-IsKept disk routes c next h settled_routes remaining later =
      elim (Result-cases (catalog_schema routes)) [
        | inl (e, bad) ↦ rw bad h
        | inr (parsed, valid) ↦ rw valid (
            updated-IsKept disk parsed c next h
              (saved-IsKept c routes parsed h settled_routes remaining valid) later)
      ]

  joined_guarded :
      (o : Option AttemptGroup) (r : Route)
      → is_guarded o ≡ true
      → is_guarded (some (joined_group o r false)) ≡ true
  joined_guarded none r h = refl
  joined_guarded (some g) r h = elim (Bool-cases (same_route g.route r)) [
    | inl same ↦ rw same h
    | inr other ↦ rw other refl
  ]

  -- A reservation of a route that was there, or of another task.
  pub reservation-IsKept :
      (r : Route) (created as_attempt : Bool) (c : Catalog)
      → ((r.task_id == id) ≡ false) ⊎ (created ≡ false)
      → IsKept c
      → IsKept (reservation_result r created as_attempt c).1
  unfolding reservation_result
  reservation-IsKept r created false c safe h = h
  reservation-IsKept r created true c safe h = record {
    kept_routes = h.kept_routes;
    read = h.read;
    remaining = h.remaining;
    guarded =
        ap is_guarded (lookup-insert r.task_id id _ c.attempt_groups)
        ∙ elim (Bool-cases (r.task_id == id)) [
          | inl same ↦ elim safe [
            | inl other ↦ absurd (ground (arith, same, other))
            | inr found ↦ rw same (
                subst
                  (λ b.
                    is_guarded (some (joined_group (lookup r.task_id c.attempt_groups) r b)) ≡ true)
                  (sym found)
                  (joined_guarded (lookup r.task_id c.attempt_groups) r (
                    subst (λ t. is_guarded (lookup t c.attempt_groups) ≡ true)
                      (sym ((eq_iff r.task_id id).0 same)) h.guarded)))
          ]
          | inr other ↦ rw other h.guarded
        ];
  }

  pub with_routes-IsKept :
      (c : Catalog) (routes : Dict Route) → IsKept c → IsKept (record c { routes = routes })
  with_routes-IsKept c routes h = record {
    kept_routes = h.kept_routes;
    read = h.read;
    remaining = h.remaining;
    guarded = h.guarded;
  }
