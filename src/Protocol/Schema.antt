-- ===== src/Protocol/Schema.antt =====
-- shared/protocol/models.ts: `persistedTaskRecordSchema.safeParse`. Parsing puts UUIDs in lower case; a
-- value that does not parse is a `type_error`, which the callers replace by the error they throw.
pub mod Fields
pub mod Objects
pub mod Settled
use copilot_agent_mesh.Prelude.{
  ℕ, Bool, true, ◌&&◌, ◌||◌, String, Option, none, some, List, [], ◌∷◌, ◌==◌, leb, ltb, eqb,
  is_some, bool_eq, length, Dict, insert, all, codes, drop, starts_with, if◌then◌else◌,
}
use copilot_agent_mesh.Protocol.Limits.{
  task_answer_bytes, output_event_bytes, identifier_bytes, terminal_summary_bytes,
  error_message_bytes, task_title_bytes, utf8_string,
}
use copilot_agent_mesh.Protocol.Errors.{type_error, Result, ok, err, ◌>>=◌, ◌>>◌, require, or_throw}
use copilot_agent_mesh.Protocol.Records.{
  TaskFailure, PendingInput, TaskEventRecord, RecoveryDescriptor, RoutingTarget, SchemaVersion,
  version_1, version_2, TaskRecord,
}
use copilot_agent_mesh.Protocol.Host.{Platform}
use copilot_agent_mesh.Protocol.Validation.{validate_task_state, validate_full_journal}

abbrev check : Bool → Result (Unit {0})
check b = require b type_error

-- `schema.optional()` and `z.array(schema)`.
abbrev pub optional {ℓ} : {A : Type ℓ} → (A → Result A) → Option A → Result (Option A)
optional schema none = ok none
optional schema (some a) = schema a >>= λ b. ok (some b)

unfoldable pub each {ℓ} : {A : Type ℓ} → (A → Result A) → List A → Result (List A)
each schema [] = ok []
each schema (a ∷ rest) =
    let later = each schema rest in schema a >>= λ b. later >>= λ bs. ok (b ∷ bs)

-- A text that passes a test, unchanged.
abbrev pub tested : (String → Bool) → String → Result String
tested test s = if test s then ok s else err type_error

abbrev is_hexadecimal : ℕ → Bool
is_hexadecimal c = (leb b'a' c && leb c b'f') || (leb b'0' c && leb c b'9')

-- `/^[a-f0-9]{64}$/`.
abbrev pub is_sha256_hex : String → Bool
is_sha256_hex s = eqb (length (codes s)) 64 && all is_hexadecimal (codes s)

abbrev pub is_base64url : ℕ → Bool
is_base64url c =
    (leb b'A' c && leb c b'Z')
    || (leb b'a' c && leb c b'z')
    || (leb b'0' c && leb c b'9')
    || eqb c b'_'
    || eqb c b'-'

-- `workspaceIdentitySchema`: `/^sha256:[A-Za-z0-9_-]{43}$/u`.
abbrev pub is_workspace_identity : String → Bool
is_workspace_identity s =
    starts_with s "sha256:" && eqb (length (codes s)) 50 && all is_base64url (drop 7 (codes s))

-- `z.number().int()` holds safe integers only.
abbrev pub max_safe_integer : ℕ
max_safe_integer = 9007199254740991

-- The entries written to an object one after the other: of two with one key, the later replaces the
-- earlier in its place.
unfoldable pub with_entries : Dict String → Dict String → Dict String
with_entries object [] = object
with_entries object (entry ∷ entries) = with_entries (insert entry.0 entry.1 object) entries

module _ ⦃p : Platform⦄ where
  -- `uuidSchema` and `timestampSchema`.
  abbrev pub uuid : String → Result String
  uuid s = or_throw (p.parse_uuid s) type_error

  abbrev pub timestamp : String → Result String
  timestamp = tested p.is_timestamp

  pub pending_input_schema : PendingInput → Result PendingInput
  pending_input_schema i = do
    input_id ← uuid i.input_id
    check (utf8_string task_answer_bytes 1 i.prompt)
    ok (record { input_id = input_id; prompt = i.prompt })

  pub event_schema : TaskEventRecord → Result TaskEventRecord
  event_schema e = do
    check (ltb 0 e.event_seq && leb e.event_seq max_safe_integer)
    check (p.is_timestamp e.at)
    check (utf8_string 64 1 e.type)
    summary ← optional (tested (utf8_string output_event_bytes 0)) e.summary
    ok (record e { summary = summary })

  pub recovery_descriptor_schema : RecoveryDescriptor → Result RecoveryDescriptor
  recovery_descriptor_schema d = do
    check (utf8_string 64 1 d.adapter)
    check (utf8_string identifier_bytes 1 d.session_id)
    conversation_id ← optional (tested (utf8_string identifier_bytes 1)) d.conversation_id
    ok (record d { conversation_id = conversation_id })

  pub failure_schema : TaskFailure → Result TaskFailure
  failure_schema f = do
    check (utf8_string 128 1 f.code)
    check (utf8_string error_message_bytes 1 f.message)
    ok f

  -- `persistedTaskRoutingTargetSchema`.
  pub routing_target_schema : RoutingTarget → Result RoutingTarget
  routing_target_schema t = do
    device_id ← uuid t.device_id
    workspace_id ← uuid t.workspace_id
    node_id ← optional uuid t.node_id
    node_instance_id ← optional uuid t.node_instance_id
    check (bool_eq (is_some node_id) (is_some node_instance_id))
    ok (record {
      device_id = device_id;
      workspace_id = workspace_id;
      node_id = node_id;
      node_instance_id = node_instance_id;
    })

  pub version_schema : SchemaVersion → Result SchemaVersion
  unfolding routing_target_schema
  version_schema version_1 = ok version_1
  version_schema (version_2 v) = do
    continue_from_task_id ← optional uuid v.continue_from_task_id
    target ← routing_target_schema v.target
    source_node_id ← optional uuid v.source_node_id
    source_workspace_identity ← optional (tested (utf8_string 1_024 1)) v.source_workspace_identity
    timeout_minutes ←
        optional (λ n. if leb 1 n && leb n 60 then ok n else err type_error) v.timeout_minutes
    ok (
        version_2 (record {
          continue_from_task_id = continue_from_task_id;
          target = target;
          source_node_id = source_node_id;
          source_workspace_identity = source_workspace_identity;
          timeout_minutes = timeout_minutes;
        }))

  pub answered_input_schema : String × String → Result (String × String)
  answered_input_schema (input_id, answer_id) = do
    input_id' ← uuid input_id
    answer_id' ← uuid answer_id
    ok (input_id', answer_id')

  -- `z.record(uuidSchema, uuidSchema)`.
  pub answered_inputs_schema : Dict String → Result (Dict String)
  unfolding each answered_input_schema with_entries
  answered_inputs_schema given =
      each answered_input_schema given >>= λ entries. ok (with_entries [] entries)

  -- The fields, each by its schema.
  pub record_fields_schema : TaskRecord → Result TaskRecord
  unfolding version_schema pending_input_schema event_schema recovery_descriptor_schema
      failure_schema answered_inputs_schema each with_entries
  record_fields_schema r = do
    version ← version_schema r.version
    task_id ← uuid r.task_id
    delegation_request_id ← uuid r.delegation_request_id
    check (is_sha256_hex r.request_hash)
    peer_id ← uuid r.peer_id
    workspace_id ← uuid r.workspace_id
    check (utf8_string 1_024 1 r.workspace_lease_key)
    check (utf8_string task_title_bytes 1 r.title)
    check (p.is_timestamp r.created_at && p.is_timestamp r.updated_at)
    check (leb r.event_seq max_safe_integer)
    check (p.is_timestamp r.worker_deadline)
    cancellation_deadline ← optional timestamp r.cancellation_deadline
    pending_input ← optional pending_input_schema r.pending_input
    answered_inputs ← answered_inputs_schema r.answered_inputs
    recovery_descriptor ← optional recovery_descriptor_schema r.recovery_descriptor
    summary ← optional (tested (utf8_string terminal_summary_bytes 0)) r.summary
    failure ← optional failure_schema r.failure
    events ← each event_schema r.events
    earliest ←
        optional (λ n. if ltb 0 n && leb n max_safe_integer then ok n else err type_error)
          r.earliest_available_event_seq
    ok (record r {
      version = version;
      task_id = task_id;
      delegation_request_id = delegation_request_id;
      peer_id = peer_id;
      workspace_id = workspace_id;
      cancellation_deadline = cancellation_deadline;
      pending_input = pending_input;
      answered_inputs = answered_inputs;
      recovery_descriptor = recovery_descriptor;
      summary = summary;
      failure = failure;
      events = events;
      earliest_available_event_seq = earliest;
    })

-- The last `superRefine`: `record.workspaceId === record.target.workspaceId` in version 2.
abbrev workspace_matches : SchemaVersion → String → Bool
workspace_matches version_1 workspace_id = true
workspace_matches (version_2 v) workspace_id = workspace_id == v.target.workspace_id

-- The three refinements, on the parsed fields.
abbrev pub refinements : TaskRecord → Bool
refinements r =
    validate_task_state r && validate_full_journal r && workspace_matches r.version r.workspace_id

module _ ⦃p : Platform⦄ where
  unfoldable pub persisted_task_record_schema : TaskRecord → Result TaskRecord
  unfolding record_fields_schema
  persisted_task_record_schema r = do
    parsed ← record_fields_schema r
    check (refinements parsed)
    ok parsed
