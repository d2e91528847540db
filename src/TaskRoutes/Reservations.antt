-- ===== src/TaskRoutes/Reservations.antt =====
-- src/broker/TaskRouteCatalog.ts: the public reservations, made twice.
use copilot_agent_mesh.Prelude.{
  Bool, not, String, Option, some, ◌≡◌, refl, inl, inr, bool_eq, is_some,
}
use copilot_agent_mesh.Protocol.{Platform, ok, Result-cases}
use copilot_agent_mesh.Protocol.Schema.{uuid, optional}
use copilot_agent_mesh.Protocol.Schema.Fields.{gives, going_on, past, optional-uuid-Settles}
use copilot_agent_mesh.Storage.Effects.{DiskOutcome}
use copilot_agent_mesh.TaskRoutes.Records.{Source, RoutedTaskStart, local_route, remote_route}
use copilot_agent_mesh.TaskRoutes.State.{Catalog, Reserved, Outcome, TextOrder}
use copilot_agent_mesh.TaskRoutes.Repetition.{route_of, IsNormalSource, reserved_again}
use copilot_agent_mesh.TaskRoutes.NewRoutes.{reserve_core-HasRoute}
use copilot_agent_mesh.TaskRoutes.{reserve_local, reserve_remote}

-- For whom a route is reserved: a node or a peer, to run here, or a node, to run at a peer.
pub data Requester : Type 0 where
  run_here : (node_id peer_id : Option String) → Requester
  run_at : (peer_id source_node_id : String) → Requester

module _ ⦃p : Platform⦄ (locale_compare : String → String → TextOrder) where
  abbrev pub reserve_for :
      DiskOutcome → String → RoutedTaskStart → Requester → Bool → Catalog → Outcome Reserved
  reserve_for disk now input (run_here node_id peer_id) as_attempt c =
      reserve_local locale_compare disk now input node_id peer_id as_attempt c
  reserve_for disk now input (run_at peer_id source_node_id) as_attempt c =
      reserve_remote locale_compare disk now input peer_id source_node_id as_attempt c

  module _ (settled : (s t : String) → p.parse_uuid s ≡ some t → p.parse_uuid t ≡ some t) where
    local_route-IsNormalSource :
        (node_id peer_id : Option String) (source : Source)
        → local_route node_id peer_id ≡ ok source
        → IsNormalSource locale_compare source
    unfolding local_route
    local_route-IsNormalSource node_id peer_id source h =
        going_on (optional uuid node_id) _ h λ node e1 h1.
          going_on (optional uuid peer_id) _ h1 λ peer e2 h2.
            past (not (bool_eq (is_some node) (is_some peer))) _ h2 λ t1 k.
              gives (IsNormalSource locale_compare) k (record {
                peer = refl;
                node = optional-uuid-Settles settled node_id node e1;
                inbound = optional-uuid-Settles settled peer_id peer e2;
              })

    remote_route-IsNormalSource :
        (peer_id source_node_id : String) (source : Source)
        → remote_route peer_id source_node_id ≡ ok source
        → IsNormalSource locale_compare source
    unfolding remote_route
    remote_route-IsNormalSource peer_id source_node_id source h =
        going_on (uuid peer_id) _ h λ peer e1 h1. going_on (uuid source_node_id) _ h1 λ node e2 k.
          gives (IsNormalSource locale_compare) k (record {
            peer = optional-uuid-Settles settled (some peer_id) (some peer) (rw e1 refl);
            node = optional-uuid-Settles settled (some source_node_id) (some node) (rw e2 refl);
            inbound = refl;
          })

    -- A reservation that returned, made again for the same request and source, at any time and as an attempt
    -- or not, returns the same route and leaves the stored catalog as it is, whatever the state store would do.
    -- The schema for UUIDs leaves what it gives.
    pub reserve_again :
        (disk disk' : DiskOutcome) (now now' : String) (input : RoutedTaskStart) (who : Requester)
        (as_attempt as_attempt' : Bool) (c : Catalog) (x : Reserved)
        → (reserve_for disk now input who as_attempt c).0 ≡ ok x
        → (y : Reserved) × ((reserve_for disk' now' input who as_attempt'
              (reserve_for disk now input who as_attempt c).1).0
            ≡ ok y)
          × (route_of y ≡ route_of x)
          × ((reserve_for disk' now' input who as_attempt'
                (reserve_for disk now input who as_attempt c).1).1.stored
              ≡ (reserve_for disk now input who as_attempt c).1.stored)
    unfolding reserve_local reserve_remote
    reserve_again disk disk' now now' input (run_here node_id peer_id) as_attempt as_attempt' c x
          h =
        elim (Result-cases (local_route node_id peer_id)) [
          | inl (e, bad) ↦ cc (rw bad at h)
          | inr (source, given) ↦ rw given (
              reserved_again locale_compare disk' now' input source as_attempt' _ _ (
                reserve_core-HasRoute locale_compare settled disk now input source as_attempt c x
                  (local_route-IsNormalSource node_id peer_id source given) (rw given at h)))
        ]
    reserve_again disk disk' now now' input (run_at peer_id source_node_id) as_attempt as_attempt' c
          x h =
        elim (Result-cases (remote_route peer_id source_node_id)) [
          | inl (e, bad) ↦ cc (rw bad at h)
          | inr (source, given) ↦ rw given (
              reserved_again locale_compare disk' now' input source as_attempt' _ _ (
                reserve_core-HasRoute locale_compare settled disk now input source as_attempt c x
                  (remote_route-IsNormalSource peer_id source_node_id source given)
                  (rw given at h)))
        ]
