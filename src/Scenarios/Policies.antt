-- ===== src/Scenarios/Policies.antt =====
-- src/broker/RemotePeerPolicyStore.ts: a workspace that two peers may use.
use copilot_agent_mesh.Prelude.{not, ◌&&◌, String, some, [], ◌∷◌, ◌≡◌, arith, ◌==◌, refl}
use copilot_agent_mesh.Protocol.{Result, ok}
use copilot_agent_mesh.RemotePolicy.{
  Entry, Policy, entry_schema, entries_schema, document_schema, removing_peer, updating_many,
}
use copilot_agent_mesh.RemotePolicy.Lists.{includes, is_unique}
use copilot_agent_mesh.Protocol.Schema.{each}
use copilot_agent_mesh.RemotePolicy.Removal.{removing_peer_accepted}
use copilot_agent_mesh.RemotePolicy.Grants.{is_granted, is_auto_accepted, removing_peer_grants}
use copilot_agent_mesh.RemotePolicy.Updating.{Updated, updating_many_lem}
use copilot_agent_mesh.Scenarios.Samples.{sample_platform}

abbrev workspace : String
workspace = "sha256:aaaaaaaaaaaaaaaaaaaaaaaaaaaaaaaaaaaaaaaaaaa"

abbrev shared_entry : Entry
shared_entry = record {
  identity = workspace;
  allowlist = [];
  incoming_peer_ids = "p1" ∷ "p2" ∷ [];
  auto_accept_peer_ids = "p2" ∷ [];
}

abbrev policy : Policy
policy = record { revision = 3; entries = shared_entry ∷ [] }

accepted : document_schema policy ≡ ok policy
unfolding entries_schema each entry_schema is_unique includes
accepted = refl

removing_peer_accepted_example :
    document_schema (record (removing_peer "p2" policy) { revision = 4 })
    ≡ ok (record (removing_peer "p2" policy) { revision = 4 })
removing_peer_accepted_example = removing_peer_accepted "p2" policy accepted (omega arith)

removing_peer_grants_example :
    (is_granted (removing_peer "p2" policy).entries workspace "p1"
      ≡ (not ("p1" == "p2") && is_granted policy.entries workspace "p1"))
    × (is_auto_accepted (removing_peer "p2" policy).entries workspace "p1"
        ≡ (not ("p1" == "p2") && is_auto_accepted policy.entries workspace "p1"))
removing_peer_grants_example = removing_peer_grants "p2" policy workspace "p1"

-- Nobody may use the workspace any more.
abbrev closing : Entry → Result Entry
closing entry = ok (record entry { incoming_peer_ids = []; auto_accept_peer_ids = [] })

updating_many_lem_example :
    Updated
      (workspace ∷ [])
      closing
      (some 3)
      policy
      (updating_many (workspace ∷ []) closing (some 3) policy)
updating_many_lem_example = updating_many_lem (workspace ∷ []) closing (some 3) policy
