-- ===== src/Task/Idempotency/Routing.antt =====
-- src/domain/task.ts: routed requests and the owner of a record.
use copilot_agent_mesh.Prelude.{
  Bool, true, false, ◌&&◌, String, Option, none, some, List, ◌==◌, ◌≡◌, ◌↔◌, refl, sym, ap, ◌∙◌,
  arith, inl, inr, eq_iff, select, find, if◌then◌else◌, text_option_eq, text_option_eq_iff,
  Bool-cases, Option-cases, Listed, and_split, subst,
}
use copilot_agent_mesh.Protocol.{
  Platform, Result, ok, >>=-eq-ok, TaskRecord, RoutedFields, SchemaVersion, version_1, version_2,
}
use copilot_agent_mesh.Task.Request.{
  OwnedRoutedTaskStart, normalize_owned_routed_task_start, canonical_task_request_hash,
  canonical_routed_task_request_hash,
}
use copilot_agent_mesh.Task.Idempotency.{
  has_identifier, in_source_scope, target_matches, hashed_as_v1, continuation_of, unrouted,
  is_conflict, decide_match, confirm_routed_start, match_idempotent_routed_start, get_owned_task,
  owned_by,
}
use copilot_agent_mesh.Task.Idempotency.Matching.{find-select-Listed}

some_ok-eq :
    {x y : TaskRecord} → ◌≡◌ {A = Result (Option TaskRecord)} (ok (some x)) (ok (some y)) → x ≡ y
some_ok-eq h = cc

some-eq : {a b : TaskRecord} → some a ≡ some b → a ≡ b
some-eq h = cc

ok-eq : {a b : TaskRecord} → ◌≡◌ {A = Result TaskRecord} (ok a) (ok b) → a ≡ b
ok-eq h = cc

text-eq : {a b : String} → some a ≡ some b → a ≡ b
text-eq h = cc

other_peer :
    (x r : TaskRecord) (peer_id : String)
    → x ≡ r
    → some peer_id ≡ some r.peer_id
    → (x.peer_id == peer_id) ≡ false
    → ⊥
other_peer x r peer_id same own other =
    let e : x.peer_id ≡ peer_id = ap (λ (q : TaskRecord). q.peer_id) same ∙ sym (text-eq own) in
    let yes : (x.peer_id == peer_id) ≡ true = (eq_iff x.peer_id peer_id).1 e in cc

agreed-false :
    (conflict : Bool) (x r : TaskRecord)
    → decide_match conflict x ≡ ok (some r)
    → (conflict ≡ false) × (x ≡ r)
agreed-false true x r h = cc
agreed-false false x r h = (refl, some_ok-eq h)

module _ ⦃p : Platform⦄ where
  -- The hash that the record of a routed request carries.
  abbrev pub hash_for : TaskRecord → OwnedRoutedTaskStart → Result String
  hash_for r n =
      if hashed_as_v1 r.version
      then canonical_task_request_hash (unrouted n)
      else canonical_routed_task_request_hash n

  -- The request names no source workspace, or the record is of version 2 and names the same.
  pub data IsInScope (n : OwnedRoutedTaskStart) : SchemaVersion → Type 0 where
    any_source : {kept : SchemaVersion} → n.source_workspace_identity ≡ none → IsInScope n kept
    same_source :
        (identity : String) (v : RoutedFields)
        → n.source_workspace_identity ≡ some identity
        → v.source_workspace_identity ≡ some identity
        → IsInScope n (version_2 v)

  -- The version, the target and the continuation of a record that is kept for a request, with the hash that
  -- it carries: of the request without its route, unless the record names a node.
  pub data HasRoute (n : OwnedRoutedTaskStart) (request_hash : String)
      : SchemaVersion → Type 0 where
    of_version_1 :
        n.continue_from_task_id ≡ none
        → canonical_task_request_hash (unrouted n) ≡ ok request_hash
        → HasRoute n request_hash version_1
    without_node :
        (v : RoutedFields)
        → v.continue_from_task_id ≡ n.continue_from_task_id
        → v.target.device_id ≡ n.target.device_id
        → v.target.workspace_id ≡ n.target.workspace_id
        → v.target.node_id ≡ none
        → canonical_task_request_hash (unrouted n) ≡ ok request_hash
        → HasRoute n request_hash (version_2 v)
    at_node :
        (v : RoutedFields)
        → v.continue_from_task_id ≡ n.continue_from_task_id
        → v.target.device_id ≡ n.target.device_id
        → v.target.workspace_id ≡ n.target.workspace_id
        → v.target.node_id ≡ some n.target.node_id
        → v.target.node_instance_id ≡ some n.target.node_instance_id
        → v.source_node_id ≡ n.source_node_id
        → canonical_routed_task_request_hash n ≡ ok request_hash
        → HasRoute n request_hash (version_2 v)

  -- A record that is kept for a normalized routed request.
  pub record IsKeptFor (r : TaskRecord) (n : OwnedRoutedTaskStart) : Type 0 where
    pub same_peer : r.peer_id ≡ n.peer_id
    pub in_scope : IsInScope n r.version
    pub same_delegation : r.delegation_request_id ≡ n.delegation_request_id
    pub same_task : r.task_id ≡ n.task_id
    pub same_workspace : r.workspace_id ≡ n.target.workspace_id
    pub route : HasRoute n r.request_hash r.version

  scope-IsInScope :
      (n : OwnedRoutedTaskStart) (source : Option String) (kept : SchemaVersion)
      → n.source_workspace_identity ≡ source
      → in_source_scope source kept ≡ true
      → IsInScope n kept
  scope-IsInScope n none _ e h = any_source e
  scope-IsInScope n (some identity) version_1 e h = cc
  scope-IsInScope n (some identity) (version_2 v) e h =
      same_source identity v e
        ((text_option_eq_iff v.source_workspace_identity (some identity)).0 h)

  matched-HasRoute :
      (n : OwnedRoutedTaskStart) (version : SchemaVersion) (hash : String)
      → text_option_eq (continuation_of version) n.continue_from_task_id ≡ true
      → target_matches version n ≡ true
      → (if hashed_as_v1 version
          then canonical_task_request_hash (unrouted n)
          else canonical_routed_task_request_hash n)
        ≡ ok hash
      → HasRoute n hash version
  matched-HasRoute n version_1 hash c m h =
      of_version_1 (sym ((text_option_eq_iff none n.continue_from_task_id).0 c)) h
  matched-HasRoute n (version_2 v) hash c m h =
      let continued = (text_option_eq_iff v.continue_from_task_id n.continue_from_task_id).0 c in
      let device : v.target.device_id ≡ n.target.device_id =
        ground (arith, m, eq_iff v.target.device_id n.target.device_id) in
      let workspace : v.target.workspace_id ≡ n.target.workspace_id =
        ground (arith, m, eq_iff v.target.workspace_id n.target.workspace_id) in
      elim (Bool-cases (text_option_eq v.target.node_id none)) [
        | inl nowhere ↦
            without_node v continued device workspace
              ((text_option_eq_iff v.target.node_id none).0 nowhere) (rw nowhere at h)
        | inr somewhere ↦
            let same_node : text_option_eq v.target.node_id (some n.target.node_id) ≡ true =
              ground (arith, m, somewhere) in
            let same_instance : text_option_eq v.target.node_instance_id
                  (some n.target.node_instance_id)
                ≡ true =
              ground (arith, m, somewhere) in
            let same_source_node : text_option_eq v.source_node_id n.source_node_id ≡ true =
              ground (arith, m, somewhere) in
            at_node v continued device workspace
              ((text_option_eq_iff v.target.node_id (some n.target.node_id)).0 same_node)
              ((text_option_eq_iff v.target.node_instance_id (some n.target.node_instance_id)).0
                same_instance)
              ((text_option_eq_iff v.source_node_id n.source_node_id).0 same_source_node)
              (rw somewhere at h)
      ]

  confirm_routed-IsKeptFor :
      (n : OwnedRoutedTaskStart) (x r : TaskRecord)
      → (x.peer_id == n.peer_id && in_source_scope n.source_workspace_identity x.version) ≡ true
      → confirm_routed_start n (some x) ≡ ok (some r)
      → (x ≡ r) × IsKeptFor x n
  unfolding confirm_routed_start
  confirm_routed-IsKeptFor n x r scope h =
      let (hash, hashed, decided) = >>=-eq-ok (hash_for x n) _ h in
      let (agreed, same) = agreed-false (is_conflict n x hash) x r decided in
      let (peer, in_scope) =
        and_split (x.peer_id == n.peer_id) (in_source_scope n.source_workspace_identity x.version)
          scope in
      let hash_same : x.request_hash ≡ hash = ground (arith, eq_iff x.request_hash hash) in
      (
        same,
        record {
          same_peer = ground (arith, eq_iff x.peer_id n.peer_id);
          in_scope = scope-IsInScope n n.source_workspace_identity x.version refl in_scope;
          same_delegation = ground (arith, eq_iff x.delegation_request_id n.delegation_request_id);
          same_task = ground (arith, eq_iff x.task_id n.task_id);
          same_workspace = ground (arith, eq_iff x.workspace_id n.target.workspace_id);
          route =
              matched-HasRoute n x.version x.request_hash (ground (arith, agreed))
                (ground (arith, agreed)) (hashed ∙ ap ok (sym hash_same));
        },
      )

  found_IsKeptFor :
      (n : OwnedRoutedTaskStart) (records : List TaskRecord) (r : TaskRecord)
      → confirm_routed_start n (
          find (has_identifier n.delegation_request_id n.task_id) (
            select
              (λ s. s.peer_id == n.peer_id && in_source_scope n.source_workspace_identity s.version)
              records))
        ≡ ok (some r)
      → Listed r records × IsKeptFor r n
  unfolding confirm_routed_start
  found_IsKeptFor n records r h =
      elim (Option-cases (
        find (has_identifier n.delegation_request_id n.task_id) (
          select
            (λ s. s.peer_id == n.peer_id && in_source_scope n.source_workspace_identity s.version)
            records))) [
              | inl missing ↦ absurd (ground arith)
              | inr (x, found) ↦
                  let (listed, scope, _) = find-select-Listed _ _ records x found in
                  let (same, kept) =
                    confirm_routed-IsKeptFor n x r scope
                      (ap (confirm_routed_start n) (sym found) ∙ h) in
                  subst (λ y. Listed y records × IsKeptFor y n) same (listed, kept)
            ]

  -- A record that is given back for a routed request is in the list and of the same peer, and has both
  -- identifiers and the workspace of the normalized request. If the request names a source workspace, the
  -- record is of version 2 and names the same. A record of version 2 has the request's continuation, device
  -- and workspace, and it names no node, or the same node, instance and source node; one of version 1 has
  -- no target, and the request continues no task. Its hash is the request's: that of the routed request
  -- if the record names a node, and otherwise that of the request without its route.
  pub match_idempotent_routed_start_sound :
      (records : List TaskRecord) (q : OwnedRoutedTaskStart) (r : TaskRecord)
      → match_idempotent_routed_start records q ≡ ok (some r)
      → (n : OwnedRoutedTaskStart) × (normalize_owned_routed_task_start q ≡ ok n)
        × Listed r records
        × IsKeptFor r n
  unfolding match_idempotent_routed_start
  match_idempotent_routed_start_sound records q r h =
      let (n, normal, confirmed) = >>=-eq-ok (normalize_owned_routed_task_start q) _ h in
      let (listed, kept) = found_IsKeptFor n records r confirmed in (n, normal, listed, kept)

  owned_by_iff :
      (x r : TaskRecord) (parsed : Option String)
      → (owned_by x parsed ≡ ok r) ↔ ((x ≡ r) × (parsed ≡ some r.peer_id))
  unfolding owned_by
  owned_by_iff x r none = ((λ h. cc), (λ h. cc))
  owned_by_iff x r (some peer_id) = elim (Bool-cases (x.peer_id == peer_id)) [
    | inl own ↦
        let e : x.peer_id ≡ peer_id = (eq_iff x.peer_id peer_id).0 own in
        rw own (
          (λ h.
              let same : x ≡ r = ok-eq h in
              (same, ap some (sym e ∙ ap (λ (q : TaskRecord). q.peer_id) same))),
          (λ h. ap ok h.0),
        )
    | inr other ↦ rw other ((λ h. cc), (λ h. absurd (other_peer x r peer_id h.0 h.1 other)))
  ]

  -- A record is given to exactly the peer that owns it.
  pub get_owned_task_iff :
      (kept : Option TaskRecord) (authenticated : String) (r : TaskRecord)
      → (get_owned_task kept authenticated ≡ ok r)
        ↔ ((kept ≡ some r) × (p.parse_uuid authenticated ≡ some r.peer_id))
  unfolding get_owned_task owned_by
  get_owned_task_iff none authenticated r = ((λ h. cc), (λ h. cc))
  get_owned_task_iff (some x) authenticated r = (
    (λ h.
        let (same, own) = (owned_by_iff x r (p.parse_uuid authenticated)).0 h in
        (ap some same, own)),
    (λ h. (owned_by_iff x r (p.parse_uuid authenticated)).1 (some-eq h.0, h.1)),
  )
