-- ===== src/TaskRoutes/Capacity.antt =====
-- src/broker/TaskRouteCatalog.ts: the room that `makeCapacity` makes.
use copilot_agent_mesh.Prelude.{
  ◌≤◌, ◌<◌, true, not, String, none, List, [], ◌∷◌, ◌==◌, All, any, select, length, ltb, ◌≡◌, arith,
  eq_iff, ltb→lt, Bool-cases, Option-cases, inl, inr, length-select,
}
use copilot_agent_mesh.Protocol.{ok}
use copilot_agent_mesh.Protocol.Schema.Fields.{gives}
use copilot_agent_mesh.TaskRoutes.Records.{Route, task_route_catalog_limit}
use copilot_agent_mesh.TaskRoutes.State.{TextOrder, is_evictable, least_route, make_capacity}
use copilot_agent_mesh.TaskRoutes.Remaining.{
  has_task, IsRemaining, select-All, least_route-All, make_capacity-IsRemaining,
}

-- Dropping a task that is there drops a route.
dropped-shorter :
    (task_id : String) (routes : List Route)
    → has_task task_id routes ≡ true
    → length (select (λ r. not (r.task_id == task_id)) routes) < length routes
dropped-shorter task_id [] h = ground arith
dropped-shorter task_id (r ∷ routes) h = elim (Bool-cases (r.task_id == task_id)) [
  | inl here ↦
      rw (here, select) (omega (arith, length-select (λ r. not (r.task_id == task_id)) routes))
  | inr there ↦
      rw (there, select) (omega (arith, dropped-shorter task_id routes (rw (there, any) at h)))
]

-- Each route of a list has its task in it.
listed-more :
    (routes : List Route) (r : Route) (all : List Route)
    → All (λ q. has_task q.task_id all ≡ true) routes
    → All (λ q. has_task q.task_id (r ∷ all) ≡ true) routes
listed-more [] r all h = tt
listed-more (q ∷ routes) r all (h, hs) = (ground (arith, h), listed-more routes r all hs)

listed : (routes : List Route) → All (λ q. has_task q.task_id routes ≡ true) routes
listed [] = tt
listed (r ∷ routes) =
    (ground (arith, eq_iff r.task_id r.task_id), listed-more routes r routes (listed routes))

module _ (locale_compare : String → String → TextOrder) where
  -- When `makeCapacity` returns, there is room for one more route in a catalog that was within its limit,
  -- and every task whose routes may not be evicted, because they are not terminal, still has its route.
  pub make_capacity_room :
      (routes retained : List Route)
      → length routes ≤ task_route_catalog_limit
      → make_capacity locale_compare routes ≡ ok retained
      → (length retained < task_route_catalog_limit)
        × ((id : String) → IsRemaining id routes → IsRemaining id retained)
  unfolding make_capacity
  make_capacity_room routes retained small made = (
    elim (Bool-cases (ltb (length routes) task_route_catalog_limit)) [
      | inl room ↦
          gives (λ x. length x < task_route_catalog_limit) (rw room at made) (ltb→lt _ _ room)
      | inr full ↦
          elim (Option-cases (least_route locale_compare none (select is_evictable routes))) [
            | inl none_left ↦ cc (rw (full, none_left) at made)
            | inr (m, found) ↦
                let there =
                  least_route-All locale_compare (λ q. has_task q.task_id routes ≡ true) none
                    (select is_evictable routes) m (λ q e. cc)
                    (select-All _ is_evictable routes (listed routes)) found in
                let shorter = dropped-shorter m.task_id routes there in
                gives (λ x. length x < task_route_catalog_limit) (rw (full, found) at made)
                  (omega (arith, shorter, small))
          ]
    ],
    λ id h. make_capacity-IsRemaining locale_compare id routes retained made h,
  )
