-- ===== src/TaskRoutes/Remaining.antt =====
-- src/broker/TaskRouteCatalog.ts: which routes a list keeps that gives room or drops a route.
use copilot_agent_mesh.Prelude.{
  Bool, true, false, not, ◌&&◌, String, Option, none, some, List, [], ◌∷◌, ◌++◌, ◌==◌, All, any,
  select, length, ltb, ◌≡◌, refl, subst, arith, eq_iff, Bool-cases, Option-cases, inl, inr,
}
use copilot_agent_mesh.Protocol.{ok}
use copilot_agent_mesh.Protocol.Schema.Fields.{gives}
use copilot_agent_mesh.TaskRoutes.Records.{Route, task_route_catalog_limit}
use copilot_agent_mesh.TaskRoutes.State.{
  TextOrder, before, same, after, is_evictable, least_route, order_routes, earlier_of,
  make_capacity,
}

-- A route of the task is in the list.
abbrev pub has_task : String → List Route → Bool
has_task id routes = any (λ r. r.task_id == id) routes

-- A route of the task is in the list, and none of them may be evicted.
abbrev IsFixed : String → Route → Type 0
IsFixed id r = (r.task_id == id && is_evictable r) ≡ false

pub record IsRemaining (id : String) (routes : List Route) : Type 0 where
  pub present : has_task id routes ≡ true
  pub fixed : All (IsFixed id) routes

abbrev others : String → List Route → List Route
others dropped routes = select (λ r. not (r.task_id == dropped)) routes

others-present :
    (id dropped : String) (routes : List Route)
    → (dropped == id) ≡ false
    → has_task id routes ≡ true
    → has_task id (others dropped routes) ≡ true
others-present id dropped [] apart h = h
others-present id dropped (r ∷ routes) apart h = ground (
  arith,
  others-present id dropped routes apart,
  eq_iff r.task_id id,
  eq_iff r.task_id dropped,
  eq_iff dropped id,
)

pub select-All :
    (P : Route → Type 0) (test : Route → Bool) (routes : List Route)
    → All P routes
    → All P (select test routes)
select-All P test [] h = tt
select-All P test (r ∷ routes) (h, hs) = elim (Bool-cases (test r)) [
  | inl kept ↦ rw (kept, All) (h, select-All P test routes hs)
  | inr left ↦ rw (left, All) (select-All P test routes hs)
]

pub others-IsRemaining :
    (id dropped : String) (routes : List Route)
    → (dropped == id) ≡ false
    → IsRemaining id routes
    → IsRemaining id (others dropped routes)
others-IsRemaining id dropped routes apart h = record {
  present = others-present id dropped routes apart h.present;
  fixed = select-All (IsFixed id) _ routes h.fixed;
}

pub append-All :
    (P : Route → Type 0) (routes : List Route) (r : Route)
    → All P routes
    → P r
    → All P (routes ++ r ∷ [])
append-All P [] r h k = (k, tt)
append-All P (q ∷ routes) r (h, hs) k = (h, append-All P routes r hs k)

append-present :
    (id : String) (routes : List Route) (r : Route)
    → has_task id routes ≡ true
    → has_task id (routes ++ r ∷ []) ≡ true
append-present id [] r h = ground arith
append-present id (q ∷ routes) r h = ground (arith, append-present id routes r)

pub append-IsRemaining :
    (id : String) (routes : List Route) (r : Route)
    → is_evictable r ≡ false
    → IsRemaining id routes
    → IsRemaining id (routes ++ r ∷ [])
append-IsRemaining id routes r kept h = record {
  present = append-present id routes r h.present;
  fixed = append-All (IsFixed id) routes r h.fixed (ground (arith, kept));
}

-- The routes that may be evicted are of other tasks.
evictable_others :
    (id : String) (routes : List Route)
    → All (IsFixed id) routes
    → All (λ r. (r.task_id == id) ≡ false) (select is_evictable routes)
evictable_others id [] h = tt
evictable_others id (r ∷ routes) (h, hs) = elim (Bool-cases (is_evictable r)) [
  | inl kept ↦ rw (kept, All) (ground (arith, h, kept), evictable_others id routes hs)
  | inr left ↦ rw (left, All) (evictable_others id routes hs)
]

some_is : (P : Route → Type 0) (r q : Route) → some r ≡ some q → P r → P q
some_is P r q e h = let same_route : r ≡ q = ground (arith, e) in subst P same_route h

earlier_of-either :
    (P : Route → Type 0) (o : TextOrder) (l r : Route) → P l → P r → P (earlier_of o l r)
earlier_of-either P before l r h k = h
earlier_of-either P same l r h k = h
earlier_of-either P after l r h k = k

module _ (locale_compare : String → String → TextOrder) where
  pub least_route-All :
      (P : Route → Type 0) (l : Option Route) (routes : List Route) (m : Route)
      → ((q : Route) → l ≡ some q → P q)
      → All P routes
      → least_route locale_compare l routes ≡ some m
      → P m
  least_route-All P l [] m first h found = first m found
  least_route-All P none (r ∷ routes) m first (h, hs) found =
      least_route-All P (some r) routes m (λ q e. some_is P r q e h) hs found
  least_route-All P (some l) (r ∷ routes) m first (h, hs) found =
      least_route-All P (some (earlier_of (order_routes locale_compare l r) l r)) routes m
        (λ q e.
          some_is P _ q e
            (earlier_of-either P (order_routes locale_compare l r) l r (first l refl) h))
        hs found

  pub make_capacity-IsRemaining :
      (id : String) (routes retained : List Route)
      → make_capacity locale_compare routes ≡ ok retained
      → IsRemaining id routes
      → IsRemaining id retained
  unfolding make_capacity
  make_capacity-IsRemaining id routes retained made h =
      elim (Bool-cases (ltb (length routes) task_route_catalog_limit)) [
        | inl room ↦ gives (λ x. IsRemaining id x) (rw room at made) h
        | inr full ↦
            elim (Option-cases (least_route locale_compare none (select is_evictable routes))) [
              | inl none_left ↦ cc (rw (full, none_left) at made)
              | inr (m, found) ↦
                  let apart =
                    least_route-All (λ r. (r.task_id == id) ≡ false) none
                      (select is_evictable routes) m (λ q e. cc)
                      (evictable_others id routes h.fixed) found in
                  gives (λ x. IsRemaining id x) (rw (full, found) at made)
                    (others-IsRemaining id m.task_id routes apart h)
            ]
      ]

  pub make_capacity-All :
      (P : Route → Type 0) (routes retained : List Route)
      → make_capacity locale_compare routes ≡ ok retained
      → All P routes
      → All P retained
  unfolding make_capacity
  make_capacity-All P routes retained made h =
      elim (Bool-cases (ltb (length routes) task_route_catalog_limit)) [
        | inl room ↦ gives (λ x. All P x) (rw room at made) h
        | inr full ↦
            elim (Option-cases (least_route locale_compare none (select is_evictable routes))) [
              | inl none_left ↦ cc (rw (full, none_left) at made)
              | inr (m, found) ↦
                  gives (λ x. All P x) (rw (full, found) at made) (select-All P _ routes h)
            ]
      ]
