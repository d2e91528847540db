-- ===== src/TaskRoutes/Settled.antt =====
-- src/broker/TaskRouteCatalog.ts: `taskRouteRecordSchema` and `taskRouteCatalogSchema` on what they give.
use copilot_agent_mesh.Prelude.{String, some, List, [], ◌∷◌, All, leb, length, ◌≡◌, refl, sym, ◌∙◌}
use copilot_agent_mesh.Protocol.{Platform, ok}
use copilot_agent_mesh.Protocol.Schema.{
  uuid, optional, each, tested, timestamp, is_workspace_identity, is_sha256_hex,
}
use copilot_agent_mesh.Protocol.Schema.Fields.{
  Settles, gives, settle, going_on, past, uuid-Settles, optional-uuid-Settles, optional-Settles,
  tested-Settles, timeout_schema,
}
use copilot_agent_mesh.Task.Request.{valid_texts, task_target_schema}
use copilot_agent_mesh.TaskRoutes.Records.{
  Route, RoutedTaskStart, routed_task_start_schema, route_schema, catalog_schema, is_valid_route,
  has_unique_routes, task_route_catalog_limit,
}

module _ ⦃p : Platform⦄
    (settled : (s t : String) → p.parse_uuid s ≡ some t → p.parse_uuid t ≡ some t) where
  task_target-Settles : Settles task_target_schema
  unfolding task_target_schema
  task_target-Settles a b h = going_on (uuid a.device_id) _ h λ d e1 h1.
      going_on (uuid a.node_id) _ h1 λ n e2 h2. going_on (uuid a.node_instance_id) _ h2 λ i e3 h3.
        going_on (uuid a.workspace_id) _ h3 λ w e4 k. settle task_target_schema k (
          rw (
            uuid-Settles settled a.device_id d e1,
            uuid-Settles settled a.node_id n e2,
            uuid-Settles settled a.node_instance_id i e3,
            uuid-Settles settled a.workspace_id w e4,
          ))

  -- What the schema gives passes it unchanged, and has the task, in lower case, and the state of the value.
  pub route-Settles :
      (r b : Route)
      → route_schema r ≡ ok b
      → (route_schema b ≡ ok b) × (uuid r.task_id ≡ ok b.task_id) × (b.state ≡ r.state)
  unfolding route_schema
  route-Settles r b h = going_on (uuid r.task_id) _ h λ task_id e1 h1.
      going_on (uuid r.delegation_request_id) _ h1 λ request_id e2 h2.
        going_on (optional uuid r.continue_from_task_id) _ h2 λ continued_id e3 h3.
          past (is_sha256_hex r.request_hash) _ h3 λ t1 h4.
            going_on (task_target_schema r.target) _ h4 λ target e5 h5.
              going_on (optional uuid r.peer_id) _ h5 λ peer_id e6 h6.
                going_on (optional uuid r.source_node_id) _ h6 λ node_id e7 h7.
                  going_on (optional uuid r.source_peer_id) _ h7 λ source_peer e8 h8.
                    going_on (optional (tested is_workspace_identity) r.source_workspace_identity) _
                      h8
                      λ identity e9 h9. past (p.is_timestamp r.created_at) _ h9 λ t2 h10.
                        going_on (optional timestamp r.terminal_at) _ h10 λ terminal_at e11 h11.
                          let route : Route = record r {
                            task_id = task_id;
                            delegation_request_id = request_id;
                            continue_from_task_id = continued_id;
                            target = target;
                            peer_id = peer_id;
                            source_node_id = node_id;
                            source_peer_id = source_peer;
                            source_workspace_identity = identity;
                            terminal_at = terminal_at;
                          } in
                          past (is_valid_route route) (ok route) h11 λ t3 k.
                            gives
                              (λ b.
                                (route_schema b ≡ ok b)
                                × (uuid r.task_id ≡ ok b.task_id)
                                × (b.state ≡ r.state))
                              k
                              (
                                rw
                                    (
                                      uuid-Settles settled r.task_id task_id e1,
                                      uuid-Settles settled r.delegation_request_id request_id e2,
                                      optional-uuid-Settles settled r.continue_from_task_id
                                          continued_id e3,
                                      t1,
                                      task_target-Settles r.target target e5,
                                      optional-uuid-Settles settled r.peer_id peer_id e6,
                                      optional-uuid-Settles settled r.source_node_id node_id e7,
                                      optional-uuid-Settles settled r.source_peer_id source_peer e8,
                                      optional-Settles _ (tested-Settles is_workspace_identity)
                                          r.source_workspace_identity identity e9,
                                      t2,
                                      optional-Settles _ (tested-Settles p.is_timestamp)
                                          r.terminal_at terminal_at e11,
                                      t3,
                                    )
                                    refl,
                                e1,
                                refl,
                              )

  -- The identifiers and the target of parsed parameters are in lower case.
  pub record IsNormalStart (q : RoutedTaskStart) : Type 0 where
    pub request : uuid q.delegation_request_id ≡ ok q.delegation_request_id
    pub task : uuid q.task_id ≡ ok q.task_id
    pub continued_task : optional uuid q.continue_from_task_id ≡ ok q.continue_from_task_id
    pub exact_target : task_target_schema q.target ≡ ok q.target
    pub identity :
        optional (tested is_workspace_identity) q.source_workspace_identity
        ≡ ok q.source_workspace_identity

  pub start-IsNormal : (q b : RoutedTaskStart) → routed_task_start_schema q ≡ ok b → IsNormalStart b
  unfolding routed_task_start_schema timeout_schema
  start-IsNormal q b h = going_on (uuid q.delegation_request_id) _ h λ request_id e1 h1.
      going_on (uuid q.task_id) _ h1 λ task_id e2 h2.
        going_on (optional uuid q.continue_from_task_id) _ h2 λ continued_id e3 h3.
          going_on (task_target_schema q.target) _ h3 λ target e4 h4.
            going_on (optional uuid q.source_node_id) _ h4 λ node_id e5 h5.
              going_on (optional (tested is_workspace_identity) q.source_workspace_identity) _ h5
                λ identity e6 h6.
                  past (valid_texts q.title q.prompt q.acceptance_criteria) _ h6 λ t1 h7.
                    going_on (optional timeout_schema q.timeout_minutes) _ h7 λ timeout e8 h8.
                      past (p.is_timestamp q.worker_deadline) _ h8 λ t2 k.
                        gives IsNormalStart k (record {
                          request = uuid-Settles settled q.delegation_request_id request_id e1;
                          task = uuid-Settles settled q.task_id task_id e2;
                          continued_task =
                              optional-uuid-Settles settled q.continue_from_task_id continued_id e3;
                          exact_target = task_target-Settles q.target target e4;
                          identity =
                              optional-Settles _ (tested-Settles is_workspace_identity)
                                q.source_workspace_identity identity e6;
                        })

  -- Routes that the schema leaves xs they are.
  abbrev pub AreSettled : List Route → Type 0
  AreSettled routes = All (λ r. route_schema r ≡ ok r) routes

  pub each_given : (xs bs : List Route) → each route_schema xs ≡ ok bs → AreSettled bs
  unfolding each
  each_given [] bs h = gives AreSettled h tt
  each_given (a ∷ xs) bs h = going_on (route_schema a) _ h λ b e h1.
      going_on (each route_schema xs) _ h1
        λ rest e' k. gives AreSettled k ((route-Settles a b e).0, each_given xs rest e')

  pub each_settled : (xs : List Route) → AreSettled xs → each route_schema xs ≡ ok xs
  unfolding each
  each_settled [] h = refl
  each_settled (a ∷ xs) (h, hs) = rw (h, each_settled xs hs) refl

  -- What the schema of the catalog gives is settled, and settled routes are what it gives.
  pub catalog_given : (xs bs : List Route) → catalog_schema xs ≡ ok bs → AreSettled bs
  unfolding catalog_schema
  catalog_given xs bs h = past (leb (length xs) task_route_catalog_limit) _ h λ t1 h1.
      going_on (each route_schema xs) _ h1 λ parsed e h2.
        past (has_unique_routes [] parsed) _ h2 λ t2 k. gives AreSettled k (each_given xs parsed e)

  pub catalog_settled : (xs bs : List Route) → AreSettled xs → catalog_schema xs ≡ ok bs → xs ≡ bs
  unfolding catalog_schema
  catalog_settled xs bs hs h = past (leb (length xs) task_route_catalog_limit) _ h λ t1 h1.
      going_on (each route_schema xs) _ h1 λ parsed e h2.
        past (has_unique_routes [] parsed) _ h2 λ t2 k.
          let same : parsed ≡ xs = gives (λ x. parsed ≡ x) (sym e ∙ each_settled xs hs) refl in
          sym same ∙ gives (λ x. parsed ≡ x) k refl
