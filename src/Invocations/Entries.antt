-- ===== src/Invocations/Entries.antt =====
-- The registry's entries, its options, and the searches over its map.
use copilot_agent_mesh.Prelude.{
  ℕ, ◌+◌, Bool, not, ◌&&◌, String, Option, none, some, List, [], ◌∷◌, ◌==◌, ltb, leb, if◌then◌else◌,
  Dict, select, find, length, map, get_or, codes,
}
use copilot_agent_mesh.Protocol.{Result, ok, type_error, ◌>>=◌, ◌>>◌, require}
use copilot_agent_mesh.Protocol.Schema.{max_safe_integer}

-- `DelegatedExecutionContext`; its `kind` is always "delegatedChild".
pub record DelegatedExecutionContext : Type 0 where
  pub task_id : String
  pub capability : String

pub record CorrelationEntry : Type 0 where
  pub observation_key : String
  pub scope_key : String
  pub fingerprint : String
  pub context : DelegatedExecutionContext
  pub expires_at : ℕ
  pub claimed : Bool

pub record RegistryLimits : Type 0 where
  pub entry_limit : ℕ
  pub scope_entry_limit : ℕ
  pub ttl_ms : ℕ

pub record Registry : Type 0 where
  pub entries : Dict CorrelationEntry
  pub disposed : Bool

-- The target of a call: `targetHandle`, or the identifiers of a workspace.
pub data DelegateTarget : Type 0 where
  target_handle : String → DelegateTarget
  explicit_target :
      (device_id node_id node_instance_id workspace_id : String) → Option String → DelegateTarget

pub record DelegateTaskInput : Type 0 where
  pub delegation_request_id : Option String
  pub target : DelegateTarget
  pub title : String
  pub prompt : String
  pub acceptance_criteria : List String
  pub timeout_minutes : Option ℕ
  pub mode : Option String
  pub continue_from_task_id : Option String

-- A part of the array that `delegationFingerprint` writes as JSON; `null` is `none`.
pub data Part : Type 0 where
  text_part : Option String → Part
  number_part : Option ℕ → Part
  list_part : List (Option String) → Part

-- What is called: `JSON.parse`, `parseDelegateTaskInput` of taskToolsCore.ts, and `JSON.stringify`. A
-- call that throws is `none`.
pub record ToolInputs (Raw : Type 0) : Type 0 where
  pub json_parse : String → Option Raw
  pub parse_delegate_task_input : Raw → Option DelegateTaskInput
  pub json_stringify : List Part → String

-- `String.length`, in UTF-16 code units.
abbrev pub utf16_length : String → ℕ
utf16_length s = units (codes s)
  where
    units : List ℕ → ℕ
    units [] = 0
    units (c ∷ cs) = (if ltb c 65_536 then 1 else 2) + units cs

abbrev pub valid_correlation_id : String → Bool
valid_correlation_id value = ltb 0 (utf16_length value) && leb (utf16_length value) 2_048

-- `positiveInteger`.
abbrev pub positive_integer : ℕ → Result ℕ
positive_integer value = require (leb value max_safe_integer && ltb 0 value) type_error >> ok value

-- The constructor's options.
unfoldable pub registry_limits : Option ℕ → Option ℕ → Option ℕ → Result RegistryLimits
registry_limits entries scope_entries ttl = do
  entry_limit ← positive_integer (get_or entries 128)
  scope_entry_limit ← positive_integer (get_or scope_entries 16)
  require (not (ltb entry_limit scope_entry_limit)) type_error
  ttl_ms ← positive_integer (get_or ttl 300_000)
  ok (record { entry_limit = entry_limit; scope_entry_limit = scope_entry_limit; ttl_ms = ttl_ms })

abbrev pub target_parts : DelegateTarget → List (Option String)
target_parts (target_handle handle) = some handle ∷ []
target_parts (explicit_target device node node_instance workspace peer) =
    some device ∷ some node ∷ some node_instance ∷ some workspace ∷ peer ∷ []

abbrev pub fingerprint_parts : DelegateTaskInput → List Part
fingerprint_parts input =
    text_part input.delegation_request_id
    ∷ list_part (target_parts input.target)
    ∷ text_part (some input.title)
    ∷ text_part (some input.prompt)
    ∷ list_part (map some input.acceptance_criteria)
    ∷ number_part input.timeout_minutes
    ∷ text_part (some (get_or input.mode "wait"))
    ∷ text_part input.continue_from_task_id
    ∷ []

-- `prune`.
pub unclaimed_and_expired : ℕ → CorrelationEntry → Bool
unclaimed_and_expired now entry = not entry.claimed && leb entry.expires_at now

unfoldable pub prune : ℕ → Dict CorrelationEntry → Dict CorrelationEntry
unfolding unclaimed_and_expired
prune now entries = select (λ entry. not (unclaimed_and_expired now entry.1)) entries

-- `countScope`.
abbrev pub in_scope : String → String × CorrelationEntry → Bool
in_scope scope_key entry = entry.1.scope_key == scope_key

abbrev pub count_scope : String → Dict CorrelationEntry → ℕ
count_scope scope_key entries = length (select (in_scope scope_key) entries)

abbrev pub key_of : Option (String × CorrelationEntry) → Option String
key_of none = none
key_of (some entry) = some entry.0

-- `oldestUnclaimed`.
abbrev pub oldest_unclaimed :
    (String × CorrelationEntry → Bool) → Dict CorrelationEntry → Option String
oldest_unclaimed predicate entries =
    key_of (find (λ entry. not entry.1.claimed && predicate entry) entries)
