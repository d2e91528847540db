-- ===== src/RemotePolicy/Grants.antt =====
-- src/broker/RemotePeerPolicyStore.ts: who may use a workspace, before and after a peer is removed.
use copilot_agent_mesh.Prelude.{
  Bool, not, ◌&&◌, String, List, [], ◌∷◌, map, ◌≡◌, refl, arith, ap, ◌∙◌, ◌==◌, Bool-cases, inl,
  inr,
}
use copilot_agent_mesh.RemotePolicy.{Entry, Policy, entry_of, without_peer, removing_peer}
use copilot_agent_mesh.RemotePolicy.Lists.{includes, includes-select}

-- `get(workspace).incomingPeerIds.includes(peer)`, and the same of the peers whose tasks need no confirmation.
abbrev pub is_granted : List Entry → String → String → Bool
is_granted entries workspace peer = includes peer (entry_of entries workspace).incoming_peer_ids

abbrev pub is_auto_accepted : List Entry → String → String → Bool
is_auto_accepted entries workspace peer =
    includes peer (entry_of entries workspace).auto_accept_peer_ids

entry_of-without_peer :
    (id workspace : String) (entries : List Entry)
    → entry_of (map (without_peer id) entries) workspace
      ≡ without_peer id (entry_of entries workspace)
entry_of-without_peer id workspace [] = refl
entry_of-without_peer id workspace (e ∷ entries) = elim (Bool-cases (e.identity == workspace)) [
  | inl found ↦ ground (arith, found)
  | inr other ↦ ground (arith, other, entry_of-without_peer id workspace entries)
]

-- After the removal of a peer, a peer may use a workspace if it is another one and it might before; and so
-- for the peers whose tasks the workspace accepts by itself.
pub removing_peer_grants :
    (id : String) (d : Policy) (workspace peer : String)
    → (is_granted (removing_peer id d).entries workspace peer
        ≡ (not (peer == id) && is_granted d.entries workspace peer))
      × (is_auto_accepted (removing_peer id d).entries workspace peer
          ≡ (not (peer == id) && is_auto_accepted d.entries workspace peer))
unfolding removing_peer
removing_peer_grants id d workspace peer =
    let keeps : String → Bool = λ p. not (p == id) in
    let same = entry_of-without_peer id workspace d.entries in
    (
      ap (λ e. includes peer e.incoming_peer_ids) same ∙ includes-select keeps peer _,
      ap (λ e. includes peer e.auto_accept_peer_ids) same ∙ includes-select keeps peer _,
    )
