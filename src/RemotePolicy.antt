-- ===== src/RemotePolicy.antt =====
-- src/broker/RemotePeerPolicyStore.ts: which remote peers may use a workspace, in one fenced document. The
-- literal `schemaVersion` is left out, and the shapes that the types already give.
pub mod Lists
pub mod Removal
pub mod Grants
pub mod Updating
use copilot_agent_mesh.Prelude.{
  ℕ, Bool, true, false, not, ◌&&◌, String, Option, none, some, List, [], ◌∷◌, ◌++◌, map, leb, eqb,
  ◌==◌, all, select, find, length, get_or, if◌then◌else◌,
}
use copilot_agent_mesh.Protocol.{
  Platform, Result, ok, err, ◌>>=◌, ◌>>◌, require, type_error, plain_error, MeshErrorReason, mesh,
}
use copilot_agent_mesh.Protocol.Schema.{each, tested, uuid, is_workspace_identity, max_safe_integer}
use copilot_agent_mesh.Storage.Effects.{Surroundings, OwnershipView}
use copilot_agent_mesh.Storage.Documents.{DocumentKind, DocumentState, update}
use copilot_agent_mesh.RemotePolicy.Lists.{includes, is_unique}

pub record AllowedTarget : Type 0 where
  pub profile_id : String
  pub profile_generation : String
  pub workspace_identity : String

pub record Entry : Type 0 where
  pub identity : String
  pub allowlist : List AllowedTarget
  pub incoming_peer_ids : List String
  pub auto_accept_peer_ids : List String

pub record Policy : Type 0 where
  pub revision : ℕ
  pub entries : List Entry

-- `get`, on the document.
abbrev pub empty_entry : String → Entry
empty_entry identity = record {
  identity = identity;
  allowlist = [];
  incoming_peer_ids = [];
  auto_accept_peer_ids = [];
}

abbrev pub entry_of : List Entry → String → Entry
entry_of entries identity =
    get_or (find (λ entry. entry.identity == identity) entries) (empty_entry identity)

-- `removePeer`, on the document.
abbrev pub without_peer : String → Entry → Entry
without_peer id entry = record entry {
  incoming_peer_ids = select (λ peer. not (peer == id)) entry.incoming_peer_ids;
  auto_accept_peer_ids = select (λ peer. not (peer == id)) entry.auto_accept_peer_ids;
}

unfoldable pub removing_peer : String → Policy → Policy
removing_peer id document = record document { entries = map (without_peer id) document.entries }

-- `removeProfiles`, on the document.
abbrev without_profiles : List String → Entry → Entry
without_profiles ids entry = record entry {
  allowlist = select (λ target. not (includes target.profile_id ids)) entry.allowlist;
}

abbrev removing_profiles : List String → Policy → Policy
removing_profiles ids document = record document {
  entries = map (without_profiles ids) document.entries;
}

module _ ⦃p : Platform⦄ where
  abbrev pub target_schema : AllowedTarget → Result AllowedTarget
  target_schema t = do
    profile_id ← uuid t.profile_id
    profile_generation ← uuid t.profile_generation
    workspace_identity ← tested is_workspace_identity t.workspace_identity
    ok (record {
      profile_id = profile_id;
      profile_generation = profile_generation;
      workspace_identity = workspace_identity;
    })

  unfoldable pub entry_schema : Entry → Result Entry
  entry_schema e = do
    identity ← tested is_workspace_identity e.identity
    allowlist ← each target_schema e.allowlist
    require (leb (length allowlist) 32) type_error
    incoming ← each uuid e.incoming_peer_ids
    require (leb (length incoming) 32) type_error
    require (is_unique incoming) type_error
    auto ← each uuid e.auto_accept_peer_ids
    require (leb (length auto) 32) type_error
    require (is_unique auto) type_error
    require (all (λ id. includes id incoming) auto) type_error
    ok (record {
      identity = identity;
      allowlist = allowlist;
      incoming_peer_ids = incoming;
      auto_accept_peer_ids = auto;
    })

  unfoldable pub entries_schema : List Entry → Result (List Entry)
  entries_schema given = do
    entries ← each entry_schema given
    require (leb (length entries) 256) type_error
    require (is_unique (map (λ entry. entry.identity) entries)) type_error
    ok entries

  abbrev pub document_schema : Policy → Result Policy
  document_schema d = do
    require (leb d.revision max_safe_integer) type_error
    entries ← entries_schema d.entries
    ok (record { revision = d.revision; entries = entries })

  -- What `updateMany` makes of the entry of one workspace.
  pub changed_entry : (Entry → Result Entry) → List Entry → String → Result Entry
  changed_entry transform entries identity = do
    changed ← transform (entry_of entries identity)
    entry ← entry_schema changed
    require (entry.identity == identity) plain_error
    ok entry

  pub changed_entries : (Entry → Result Entry) → List Entry → List String → Result (List Entry)
  changed_entries transform entries [] = ok []
  changed_entries transform entries (identity ∷ identities) =
      let later = changed_entries transform entries identities in
      changed_entry transform entries identity >>= λ entry. later >>= λ rest. ok (entry ∷ rest)

  abbrev pub is_expected : Option ℕ → ℕ → Bool
  is_expected none revision = true
  is_expected (some expected) revision = eqb revision expected

  pub updating_many : List String → (Entry → Result Entry) → Option ℕ → Policy → Result Policy
  updating_many identities transform expected document = do
    require (is_expected expected document.revision) (mesh MeshErrorReason.policy_forbidden false)
    entries ← changed_entries transform document.entries identities
    ok (record document {
      entries =
          select (λ entry. not (includes entry.identity identities)) document.entries ++ entries;
    })

  -- The store is in `peers/remote-policy.json`, with at most 256 KiB.
  abbrev policy_kind : (ℕ → OwnershipView) → String → (Policy → ℕ) → DocumentKind Policy Policy
  policy_kind ownership generation json_bytes = record {
    path = "peers/remote-policy.json";
    schema = document_schema;
    encoded = λ d. d;
    revision = λ d. d.revision;
    with_revision = λ d n. record d { revision = n };
    json_bytes = json_bytes;
    max_bytes = 262144;
    initial = record { revision = 0; entries = [] };
    ownership = ownership;
    generation = generation;
  }

  module _ (s : Surroundings) (ownership : ℕ → OwnershipView) (generation : String)
      (json_bytes : Policy → ℕ) where
    abbrev update_document :
        (Policy → Result Policy)
        → Option (ℕ → Result (Unit {0}))
        → DocumentState Policy Policy
        → Result Policy × DocumentState Policy Policy
    update_document = update s (policy_kind ownership generation json_bytes)

    -- A method whose arguments do not parse throws before the update.
    abbrev parsed_first {ℓ} :
        {A : Type ℓ}
        → Result A
        → (A → DocumentState Policy Policy → Result Policy × DocumentState Policy Policy)
        → DocumentState Policy Policy
        → Result Policy × DocumentState Policy Policy
    parsed_first (ok a) next d = next a d
    parsed_first (err e) next d = (err e, d)

    unfoldable pub update_many :
        List String
        → (Entry → Result Entry)
        → (ℕ → Result (Unit {0}))
        → Option ℕ
        → DocumentState Policy Policy
        → Result Policy × DocumentState Policy Policy
    update_many workspace_identities transform validate expected =
        parsed_first
          (do
            identities ← each (tested is_workspace_identity) workspace_identities
            require (leb 1 (length identities) && leb (length identities) 32) type_error
            require (is_unique identities) (mesh MeshErrorReason.policy_forbidden false)
            ok identities)
          (λ identities.
            update_document (updating_many identities transform expected) (some validate))

    unfoldable pub remove_peer :
        String → DocumentState Policy Policy → Result Policy × DocumentState Policy Policy
    remove_peer peer_id =
        parsed_first (uuid peer_id) λ id. update_document (λ d. ok (removing_peer id d)) none

    remove_profiles :
        List String → DocumentState Policy Policy → Result Policy × DocumentState Policy Policy
    remove_profiles profile_ids =
        parsed_first (each uuid profile_ids)
          λ ids. update_document (λ d. ok (removing_profiles ids d)) none
