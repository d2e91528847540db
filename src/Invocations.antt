-- ===== src/Invocations.antt =====
-- src/tools/DelegatedToolInvocationRegistry.ts: the tool calls that a delegated session was seen to
-- make, kept until the tool that they reach asks whose call it is.
mod Entries
unfoldable pub use Entries.*
pub mod Eviction
pub mod Bounds
pub mod Calls
pub mod Traces
use copilot_agent_mesh.Prelude.{
  ℕ, zero, suc, ◌+◌, Bool, true, false, not, ◌&&◌, ◌||◌, String, Option, none, some, List, [], ◌∷◌,
  ◌==◌, leb, if◌then◌else◌, Dict, lookup, insert, remove, is_some, select, find, length, or_else,
  eqb, all, codes, head?,
}
use copilot_agent_mesh.Protocol.{
  Platform, Result, ok, err, MeshError, type_error, ◌>>=◌, ◌>>◌, require, ◌^◌,
}
use copilot_agent_mesh.Protocol.Schema.{uuid, is_base64url}

-- How a loop that deletes the oldest unclaimed entries ends: there is room, no such entry is left, or
-- the rounds are used up.
pub data Evicted : Type 0 where
  room stuck unfinished : Dict CorrelationEntry → Evicted

-- `while (full) { … }`: each round deletes an entry.
unfoldable pub evict :
    ℕ
    → (Dict CorrelationEntry → Bool)
    → (String × CorrelationEntry → Bool)
    → Dict CorrelationEntry
    → Evicted
evict zero full pick entries = unfinished entries
evict (suc rounds) full pick entries = elim (full entries) [
  | false ↦ room entries
  | true ↦ elim (oldest_unclaimed pick entries) [
    | none ↦ stuck entries
    | some oldest ↦ evict rounds full pick (remove oldest entries)
  ]
]

-- `forget`, `clearScope`, `dispose`, `clear` and `size`.
module _ ⦃p : Platform⦄ where
  abbrev pub observation_key_of : String → String → String
  observation_key_of scope_id invocation_id = p.sha256_hex (scope_id ^ "\0" ^ invocation_id)

  unfoldable pub forget : String → String → Registry → Registry
  forget scope_id invocation_id registry =
      if not (valid_correlation_id scope_id) || not (valid_correlation_id invocation_id)
      then registry
      else record registry {
        entries = remove (observation_key_of scope_id invocation_id) registry.entries;
      }

  unfoldable pub clear_scope : String → Registry → Registry
  clear_scope scope_id registry =
      if not (valid_correlation_id scope_id) then registry else record registry {
        entries = select (λ entry. not (in_scope (p.sha256_hex scope_id) entry)) registry.entries;
      }

abbrev pub dispose : Registry → Registry
dispose registry = record { entries = []; disposed = true }

abbrev pub clear : Registry → Registry
clear registry = record registry { entries = [] }

-- `size` prunes and counts.
abbrev pub size : ℕ → Registry → ℕ × Registry
size now registry =
    let entries = prune now registry.entries in
    (length entries, record registry { entries = entries })

-- `entries.set(observationKey, …)`: a context that does not parse throws, after the evictions.
pub add_observation :
    String
    → String
    → String
    → ℕ
    → Registry
    → Dict CorrelationEntry
    → Result DelegatedExecutionContext
    → Registry × Option MeshError
add_observation key scope_key fingerprint expires_at registry entries (err e) =
    (record registry { entries = entries }, some e)
add_observation key scope_key fingerprint expires_at registry entries (ok context) = (
  record registry {
    entries =
        insert key
          (record {
            observation_key = key;
            scope_key = scope_key;
            fingerprint = fingerprint;
            context = context;
            expires_at = expires_at;
            claimed = false;
          })
          entries;
  },
  none,
)

-- The rest of `observe` after a loop: it returns when the loop found nothing to delete.
pub after_eviction :
    Registry
    → (Dict CorrelationEntry → Registry × Option MeshError)
    → Evicted
    → Registry × Option MeshError
after_eviction registry continue (room entries) = continue entries
after_eviction registry continue (stuck entries) = (record registry { entries = entries }, none)
after_eviction registry continue (unfinished entries) =
    (record registry { entries = entries }, none)

abbrev pub matches : String → Dict CorrelationEntry → List (String × CorrelationEntry)
matches fingerprint entries = select (λ entry. entry.1.fingerprint == fingerprint) entries

pub claim :
    Registry
    → Dict CorrelationEntry
    → Option (String × CorrelationEntry)
    → Registry × Option DelegatedExecutionContext
claim registry entries none = (record registry { entries = entries }, none)
claim registry entries (some (key, entry)) = (
  record registry {
    entries =
        if entry.claimed
        then entries
        else insert entry.observation_key (record entry { claimed = true }) entries;
  },
  some entry.context,
)

-- The early return of `observe`, before it parses the input.
abbrev pub is_ignored : Registry → String → Option String → String → String → Bool
is_ignored registry tool_name tool_input scope_id invocation_id =
    registry.disposed
    || not (tool_name == "mesh_delegate_task")
    || not (is_some tool_input)
    || not (valid_correlation_id scope_id)
    || not (valid_correlation_id invocation_id)

-- `matches.find((entry) => !entry.claimed) ?? matches[0]`.
abbrev pub best_match : String → Dict CorrelationEntry → Option (String × CorrelationEntry)
best_match fingerprint entries =
    or_else (find (λ entry. not entry.1.claimed) (matches fingerprint entries))
      (head? (matches fingerprint entries))

module _ ⦃p : Platform⦄ where
  -- `delegatedExecutionContextSchema.parse`.
  pub execution_context_schema : DelegatedExecutionContext → Result DelegatedExecutionContext
  execution_context_schema c = do
    task_id ← uuid c.task_id
    require (eqb (length (codes c.capability)) 43 && all is_base64url (codes c.capability))
        type_error
    ok (record { task_id = task_id; capability = c.capability })

  -- `observe`, from the fingerprint on.
  unfoldable pub observe_fingerprint :
      RegistryLimits
      → ℕ
      → String
      → String
      → String
      → DelegatedExecutionContext
      → Registry
      → Registry × Option MeshError
  observe_fingerprint limits now scope_id invocation_id fingerprint context registry =
      let entries = prune now registry.entries in
      let scope_key = p.sha256_hex scope_id in
      let key = observation_key_of scope_id invocation_id in
      if is_some (lookup key entries)
      then (record registry { entries = entries }, none)
      else after_eviction registry
          (λ scope_room.
            after_eviction registry
              (λ all_room.
                add_observation key scope_key fingerprint (now + limits.ttl_ms) registry all_room
                  (execution_context_schema context))
              (evict (suc (length scope_room)) (λ m. leb limits.entry_limit (length m))
                (λ entry. true) scope_room))
          (evict (suc (length entries))
            (λ m. leb limits.scope_entry_limit (count_scope scope_key m)) (in_scope scope_key)
            entries)

  -- `observe`. The input of a tool that is not a text is `none`.
  module _ {Raw : Type 0} (inputs : ToolInputs Raw) where
    -- `delegationFingerprint`.
    unfoldable pub delegation_fingerprint : Raw → Option String
    delegation_fingerprint raw = fingerprint_of (inputs.parse_delegate_task_input raw)
      where
        fingerprint_of : Option DelegateTaskInput → Option String
        fingerprint_of none = none
        fingerprint_of (some input) =
            some (p.sha256_hex (inputs.json_stringify (fingerprint_parts input)))

    parsed_fingerprint : Option Raw → Option String
    parsed_fingerprint none = none
    parsed_fingerprint (some raw) = delegation_fingerprint raw

    pub input_fingerprint : Option String → Option String
    input_fingerprint none = none
    input_fingerprint (some text) = parsed_fingerprint (inputs.json_parse text)

    unfoldable pub observe :
        RegistryLimits
        → ℕ
        → (scope_id invocation_id tool_name : String) → Option String
        → DelegatedExecutionContext
        → Registry
        → Registry × Option MeshError
    observe limits now scope_id invocation_id tool_name tool_input context registry =
        if is_ignored registry tool_name tool_input scope_id invocation_id
        then (registry, none)
        else elim (input_fingerprint tool_input) [
          | none ↦ (registry, none)
          | some fingerprint ↦
              observe_fingerprint limits now scope_id invocation_id fingerprint context registry
        ]

    -- `consume`.
    unfoldable pub consume : ℕ → Raw → Registry → Registry × Option DelegatedExecutionContext
    consume now raw registry =
        if registry.disposed then (registry, none) else elim (delegation_fingerprint raw) [
          | none ↦ (registry, none)
          | some fingerprint ↦
              let entries = prune now registry.entries in
              claim registry entries (best_match fingerprint entries)
        ]
