-- ===== src/TaskRoutes/Calls.antt =====
-- src/broker/TaskRouteCatalog.ts: reservations, retentions and releases in any order.
use copilot_agent_mesh.Prelude.{Bool, true, String, some, List, [], ◌∷◌, ◌≡◌, refl}
use copilot_agent_mesh.Protocol.{Platform, ok}
use copilot_agent_mesh.Storage.Effects.{DiskOutcome}
use copilot_agent_mesh.TaskRoutes.Records.{Route, RoutedTaskStart, Source}
use copilot_agent_mesh.TaskRoutes.State.{Catalog, Reservation, read_stored, TextOrder}
use copilot_agent_mesh.TaskRoutes.Remaining.{has_task, IsRemaining}
use copilot_agent_mesh.TaskRoutes.Retention.{IsKept}
use copilot_agent_mesh.TaskRoutes.Reserving.{reserve_core-IsKept}
use copilot_agent_mesh.TaskRoutes.Attempts.{retain_ambiguous, release_ambiguous}
use copilot_agent_mesh.TaskRoutes.{reserve_core}
use copilot_agent_mesh.TaskRoutes.Release.{
  retain_ambiguous-IsKept, release_ambiguous-IsKept, retained-IsKept,
}

-- The operations on reservations.
pub data RouteCall : Type 0 where
  reserve : (now : String) → RoutedTaskStart → Source → (as_attempt : Bool) → RouteCall
  retain : Reservation → RouteCall
  release : Reservation → (task_persisted dispatch_attempted : Bool) → RouteCall

module _ ⦃p : Platform⦄ (locale_compare : String → String → TextOrder) where
  abbrev pub apply_call : DiskOutcome → RouteCall → Catalog → Catalog
  apply_call disk (reserve now q source as_attempt) c =
      (reserve_core locale_compare disk now q source as_attempt c).1
  apply_call disk (retain reservation) c = (retain_ambiguous reservation c).1
  apply_call disk (release reservation persisted dispatched) c =
      (release_ambiguous disk reservation persisted dispatched c).1

  -- Calls one after the other, each with what the state store does at it.
  unfoldable pub apply_calls : List (DiskOutcome × RouteCall) → Catalog → Catalog
  apply_calls [] c = c
  apply_calls (call ∷ calls) c = apply_calls calls (apply_call call.0 call.1 c)

  module _ (settled : (s t : String) → p.parse_uuid s ≡ some t → p.parse_uuid t ≡ some t)
      (id : String) where
    pub apply_calls-IsKept :
        (calls : List (DiskOutcome × RouteCall)) (c : Catalog)
        → IsKept settled id c
        → IsKept settled id (apply_calls calls c)
    unfolding apply_calls
    apply_calls-IsKept [] c h = h
    apply_calls-IsKept ((disk, reserve now q source as_attempt) ∷ calls) c h =
        apply_calls-IsKept calls _
          (reserve_core-IsKept settled id locale_compare disk now q source as_attempt c h)
    apply_calls-IsKept ((disk, retain reservation) ∷ calls) c h =
        apply_calls-IsKept calls _ (retain_ambiguous-IsKept settled id reservation c h)
    apply_calls-IsKept ((disk, release reservation persisted dispatched) ∷ calls) c h =
        apply_calls-IsKept calls _
          (release_ambiguous-IsKept settled id disk reservation persisted dispatched c h)

  -- Once an attempt at an ambiguous route is retained, its route stays in the stored catalog, which stays
  -- readable, through every sequence of reservations, retentions and releases, whether they throw or not and
  -- whether the state store saves or rejects, as long as no state is reported for the task: no release and no
  -- eviction takes it. At the start, the catalog can be read and has a route of the task, and none that may
  -- be evicted. The schema for UUIDs leaves what it gives.
  pub retained_route_stays :
      (settled : (s t : String) → p.parse_uuid s ≡ some t → p.parse_uuid t ≡ some t)
      (reservation : Reservation) (c : Catalog) (routes : List Route)
      (calls : List (DiskOutcome × RouteCall))
      → read_stored c.stored ≡ ok routes
      → IsRemaining reservation.route.task_id routes
      → (retain_ambiguous reservation c).0 ≡ ok tt
      → (later : List Route) × (read_stored
            (apply_calls calls (retain_ambiguous reservation c).1).stored
          ≡ ok later)
        × (has_task reservation.route.task_id later ≡ true)
  retained_route_stays settled reservation c routes calls read remaining done =
      let h = apply_calls-IsKept settled reservation.route.task_id calls _ (
        retained-IsKept settled reservation.route.task_id reservation c routes refl read remaining
          done) in
      (h.kept_routes, h.read, h.remaining.present)
