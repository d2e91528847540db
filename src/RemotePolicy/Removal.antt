-- ===== src/RemotePolicy/Removal.antt =====
-- src/broker/RemotePeerPolicyStore.ts: the removal of a peer leaves a document that its schema accepts.
use copilot_agent_mesh.Prelude.{
  suc, subst, ◌∙◌, Bool, true, not, String, List, [], ◌∷◌, map, leb, le→leb, ◌≤◌, length,
  length-select, ◌≡◌, refl, arith, ap, ◌==◌, all, select,
}
use copilot_agent_mesh.Protocol.{Platform, ok, >>=-eq-ok}
use copilot_agent_mesh.Protocol.Schema.{each, tested, uuid, is_workspace_identity, max_safe_integer}
use copilot_agent_mesh.Protocol.Schema.Fields.{going_on, past, gives}
use copilot_agent_mesh.RemotePolicy.{
  Entry, Policy, target_schema, entry_schema, entries_schema, document_schema, without_peer,
  removing_peer,
}
use copilot_agent_mesh.RemotePolicy.Lists.{
  includes, is_unique, is_unique-select, all-includes-select, each-select,
}

within-select :
    (keeps : String → Bool) (xs : List String)
    → leb (length xs) 32 ≡ true
    → leb (length (select keeps xs)) 32 ≡ true
within-select keeps xs h = grind (arith, length-select keeps xs)

module _ ⦃p : Platform⦄ where
  -- What the schema asks of an entry, and of the value that it gives.
  pub record Parses (e v : Entry) : Type 0 where
    pub identified : tested is_workspace_identity e.identity ≡ ok v.identity
    pub targets : each target_schema e.allowlist ≡ ok v.allowlist
    pub few_targets : leb (length v.allowlist) 32 ≡ true
    pub incoming : each uuid e.incoming_peer_ids ≡ ok v.incoming_peer_ids
    pub few_incoming : leb (length v.incoming_peer_ids) 32 ≡ true
    pub unique_incoming : is_unique v.incoming_peer_ids ≡ true
    pub auto : each uuid e.auto_accept_peer_ids ≡ ok v.auto_accept_peer_ids
    pub few_auto : leb (length v.auto_accept_peer_ids) 32 ≡ true
    pub unique_auto : is_unique v.auto_accept_peer_ids ≡ true
    pub granted : all (λ id. includes id v.incoming_peer_ids) v.auto_accept_peer_ids ≡ true

  settled_entry : (e : Entry) → entry_schema e ≡ ok e → Parses e e
  unfolding entry_schema
  settled_entry e h0 = going_on (tested is_workspace_identity e.identity) _ h0 λ i e1 h1.
      going_on (each target_schema e.allowlist) _ h1 λ targets e2 h2.
        past (leb (length targets) 32) _ h2 λ t3 h3.
          going_on (each uuid e.incoming_peer_ids) _ h3 λ inc e4 h4.
            past (leb (length inc) 32) _ h4 λ t5 h5. past (is_unique inc) _ h5 λ t6 h6.
              going_on (each uuid e.auto_accept_peer_ids) _ h6 λ auto e7 h7.
                past (leb (length auto) 32) _ h7 λ t8 h8. past (is_unique auto) _ h8 λ t9 h9.
                  past (all (λ id. includes id inc) auto) _ h9 λ t10 k. gives (Parses e) k (record {
                    identified = e1;
                    targets = e2;
                    few_targets = t3;
                    incoming = e4;
                    few_incoming = t5;
                    unique_incoming = t6;
                    auto = e7;
                    few_auto = t8;
                    unique_auto = t9;
                    granted = t10;
                  })

  entry_settles : (e : Entry) → Parses e e → entry_schema e ≡ ok e
  unfolding entry_schema
  entry_settles e h = rw (
    h.identified, h.targets, h.few_targets, h.incoming, h.few_incoming, h.unique_incoming, h.auto,
    h.few_auto, h.unique_auto, h.granted,
  )

  without_peer-Parses :
      (id : String) (e : Entry) → Parses e e → Parses (without_peer id e) (without_peer id e)
  without_peer-Parses id e h =
      let keeps : String → Bool = λ peer. not (peer == id) in
      record {
        identified = h.identified;
        targets = h.targets;
        few_targets = h.few_targets;
        incoming = each-select uuid keeps e.incoming_peer_ids h.incoming;
        few_incoming = within-select keeps e.incoming_peer_ids h.few_incoming;
        unique_incoming = is_unique-select keeps e.incoming_peer_ids h.unique_incoming;
        auto = each-select uuid keeps e.auto_accept_peer_ids h.auto;
        few_auto = within-select keeps e.auto_accept_peer_ids h.few_auto;
        unique_auto = is_unique-select keeps e.auto_accept_peer_ids h.unique_auto;
        granted = all-includes-select keeps e.auto_accept_peer_ids e.incoming_peer_ids h.granted;
      }

  without_peer-entries :
      (id : String) (entries : List Entry)
      → each entry_schema entries ≡ ok entries
      → each entry_schema (map (without_peer id) entries) ≡ ok (map (without_peer id) entries)
  unfolding each
  without_peer-entries id [] h = refl
  without_peer-entries id (e ∷ entries) h =
      let (b, e1, k) = >>=-eq-ok (entry_schema e) _ h in
      let (bs, e2, k') = >>=-eq-ok (each entry_schema entries) _ k in
      let first : entry_schema e ≡ ok e = grind (arith, k') in
      let rest : each entry_schema entries ≡ ok entries = grind (arith, k') in
      let less =
        entry_settles (without_peer id e) (without_peer-Parses id e (settled_entry e first)) in
      rw (less, without_peer-entries id entries rest)

  same_length :
      (id : String) (entries : List Entry) → length (map (without_peer id) entries) ≡ length entries
  same_length id [] = refl
  same_length id (e ∷ entries) = ap suc (same_length id entries)

  same_identities :
      (id : String) (entries : List Entry)
      → map (λ entry. entry.identity) (map (without_peer id) entries)
        ≡ map (λ entry. entry.identity) entries
  same_identities id [] = refl
  same_identities id (e ∷ entries) = ap (λ rest. e.identity ∷ rest) (same_identities id entries)

  -- The entries pass their schema without the peer, too.
  removing_peer-entries :
      (id : String) (d : Policy)
      → entries_schema d.entries ≡ ok d.entries
      → entries_schema (removing_peer id d).entries ≡ ok (removing_peer id d).entries
  unfolding entries_schema removing_peer
  removing_peer-entries id d h = going_on (each entry_schema d.entries) _ h λ es e1 h1.
      past (leb (length es) 256) _ h1 λ t2 h2.
        past (is_unique (map (λ entry. entry.identity) es)) _ h2 λ t3 k.
          let same : es ≡ d.entries = grind (arith, k) in
          let e1' : each entry_schema d.entries ≡ ok d.entries = e1 ∙ k in
          let few : leb (length d.entries) 256 ≡ true =
            subst (λ x. leb (length x) 256 ≡ true) same t2 in
          let unique = subst (λ x. is_unique (map (λ entry. entry.identity) x) ≡ true) same t3 in
          rw
            (
              without_peer-entries id d.entries e1',
              same_length id d.entries,
              few,
              same_identities id d.entries,
              unique,
            )
            refl

  -- When the schema leaves a document as it is, it also leaves the document as it is that the removal of a
  -- peer makes of it, under the next revision, unless that is no safe integer: the lists of each entry stay
  -- short and without repetitions, and a peer that is accepted by itself still has its grant. The limit on
  -- the size of the JSON text is not part of the schema.
  pub removing_peer_accepted :
      (id : String) (d : Policy)
      → document_schema d ≡ ok d
      → suc d.revision ≤ max_safe_integer
      → document_schema (record (removing_peer id d) { revision = suc d.revision })
        ≡ ok (record (removing_peer id d) { revision = suc d.revision })
  unfolding removing_peer
  removing_peer_accepted id d h safe = past (leb d.revision max_safe_integer) _ h λ small h1.
      going_on (entries_schema d.entries) _ h1 λ es e k.
        let same : entries_schema d.entries ≡ ok d.entries = grind (arith, e, k) in
        rw (le→leb (suc d.revision) max_safe_integer safe, removing_peer-entries id d same) refl
