-- ===== src/Protocol/Schema/Fields.antt =====
-- shared/protocol/models.ts: the schemas of the fields of a record, on the values that they give.
use copilot_agent_mesh.Prelude.{
  ℕ, Bool, true, false, String, some, none, [], ◌∷◌, ◌&&◌, leb, ltb, subst, ◌≡◌, refl, arith,
  Option-cases, inl, inr, if◌then◌else◌, bool_eq, is_some,
}
use copilot_agent_mesh.Protocol.Errors.{
  Result, ok, err, >>=-eq-ok, require, type_error, ◌>>◌, ◌>>=◌,
}
use copilot_agent_mesh.Protocol.Host.{Platform}
use copilot_agent_mesh.Protocol.Records.{version_1, version_2}
use copilot_agent_mesh.Protocol.Schema.{
  uuid, tested, optional, each, version_schema, routing_target_schema, pending_input_schema,
  event_schema, recovery_descriptor_schema, max_safe_integer, failure_schema, answered_input_schema,
}
use copilot_agent_mesh.Protocol.Limits.{
  task_answer_bytes, output_event_bytes, identifier_bytes, utf8_string,
}

-- `schema` leaves what it gives.
abbrev pub Settles {ℓ} : {A : Type ℓ} → (A → Result A) → Type ℓ
Settles {A = A} schema = (a b : A) → schema a ≡ ok b → schema b ≡ ok b

-- A chain that gives a value, step by step.
pub going_on {ℓ κ μ} :
    {In : Type ℓ} {Out : Type κ} {P : Type μ} (called : Result In) (next : In → Result Out)
    {out : Out}
    → (called >>= next) ≡ ok out
    → ((value : In) → called ≡ ok value → next value ≡ ok out → P)
    → P
going_on called next h from = let (value, e, k) = >>=-eq-ok called next h in from value e k

pub past {κ μ} :
    {Out : Type κ} {P : Type μ} (b : Bool) (next : Result Out) {out : Out}
    → (require b type_error >> next) ≡ ok out
    → (b ≡ true → next ≡ ok out → P)
    → P
past true next h from = from refl h
past false next h from = cc

pub gives {ℓ} : {A : Type ℓ} (P : A → Type ℓ) {x b : A} → ok x ≡ ok b → P x → P b
gives P {x = x} {b = b} k h = let same : x ≡ b = ground (arith, k) in subst P same h

pub settle {ℓ} :
    {A : Type ℓ} (schema : A → Result A) {x b : A} → ok x ≡ ok b → schema x ≡ ok x → schema b ≡ ok b
settle schema k h = gives (λ y. schema y ≡ ok y) k h

module _ {ℓ} {A : Type ℓ} where
  pub passed :
      (b : Bool) (next : Result A) {out : A}
      → (require b type_error >> next) ≡ ok out
      → (b ≡ true) × (next ≡ ok out)
  passed true next h = (refl, h)
  passed false next h = cc

  pub optional-Settles : (schema : A → Result A) → Settles schema → Settles (optional schema)
  optional-Settles schema settles none b h = cc
  optional-Settles schema settles (some a) b h =
      let (c, e, k) = >>=-eq-ok (schema a) _ h in settle (optional schema) k (rw (settles a c e))

  pub each-Settles : (schema : A → Result A) → Settles schema → Settles (each schema)
  unfolding each
  each-Settles schema settles [] b h = cc
  each-Settles schema settles (a ∷ rest) b h =
      let (c, e, k) = >>=-eq-ok (schema a) _ h in
      let (cs, e', k') = >>=-eq-ok (each schema rest) _ k in
      settle (each schema) k' (rw (settles a c e, each-Settles schema settles rest cs e'))

pub tested-Settles : (test : String → Bool) → Settles (tested test)
tested-Settles test a b h = ground (arith, h)

unfoldable pub timeout_schema : ℕ → Result ℕ
timeout_schema n = if leb 1 n && leb n 60 then ok n else err type_error

timeout-Settles : Settles timeout_schema
unfolding timeout_schema
timeout-Settles a b h = ground (arith, h)

unfoldable pub earliest_schema : ℕ → Result ℕ
earliest_schema n = if ltb 0 n && leb n max_safe_integer then ok n else err type_error

pub earliest-Settles : Settles earliest_schema
unfolding earliest_schema
earliest-Settles a b h = ground (arith, h)

module _ ⦃p : Platform⦄
    (settled : (s t : String) → p.parse_uuid s ≡ some t → p.parse_uuid t ≡ some t) where
  pub uuid-Settles : Settles uuid
  uuid-Settles s t h = elim (Option-cases (p.parse_uuid s)) [
    | inl bad ↦ cc (rw bad at h)
    | inr (u, good) ↦ ground (arith, h, good, settled s u good)
  ]

  pub pending_input-Settles : Settles pending_input_schema
  unfolding pending_input_schema
  pending_input-Settles a b h =
      let (i, e, k) = >>=-eq-ok (uuid a.input_id) _ h in
      let (t, k') = passed (utf8_string task_answer_bytes 1 a.prompt) _ k in
      settle (pending_input_schema) k' (rw (uuid-Settles a.input_id i e, t))

  pub event-Settles : Settles event_schema
  unfolding event_schema
  event-Settles a b h =
      let (t, h1) = passed (ltb 0 a.event_seq && leb a.event_seq max_safe_integer) _ h in
      let (t', h2) = passed (p.is_timestamp a.at) _ h1 in
      let (t'', h3) = passed (utf8_string 64 1 a.type) _ h2 in
      let (i, e, k) =
        >>=-eq-ok (optional (tested (utf8_string output_event_bytes 0)) a.summary) _ h3 in
      settle (event_schema) k (
        rw (
          t,
          t',
          t'',
          optional-Settles _ (tested-Settles (utf8_string output_event_bytes 0)) a.summary i e,
        ))

  pub recovery_descriptor-Settles : Settles recovery_descriptor_schema
  unfolding recovery_descriptor_schema
  recovery_descriptor-Settles a b h =
      let (t, h1) = passed (utf8_string 64 1 a.adapter) _ h in
      let (t', h2) = passed (utf8_string identifier_bytes 1 a.session_id) _ h1 in
      let (i, e, k) =
        >>=-eq-ok (optional (tested (utf8_string identifier_bytes 1)) a.conversation_id) _ h2 in
      settle recovery_descriptor_schema k (
        rw (
          t,
          t',
          optional-Settles _ (tested-Settles (utf8_string identifier_bytes 1)) a.conversation_id i
              e,
        ))

  pub failure-Settles : Settles failure_schema
  unfolding failure_schema
  failure-Settles a b h = ground (arith, h)

  pub answered-Settles : Settles answered_input_schema
  unfolding answered_input_schema
  answered-Settles (q, a) b h =
      let (i, e, k) = >>=-eq-ok (uuid q) _ h in
      let (j, e', k') = >>=-eq-ok (uuid a) _ k in
      settle answered_input_schema k' (rw (uuid-Settles q i e, uuid-Settles a j e'))

  pub optional-uuid-Settles : Settles (optional uuid)
  optional-uuid-Settles = optional-Settles uuid uuid-Settles

  pub routing_target-Settles : Settles routing_target_schema
  unfolding routing_target_schema
  routing_target-Settles a b h =
      let (d, e1, h1) = >>=-eq-ok (uuid a.device_id) _ h in
      let (w, e2, h2) = >>=-eq-ok (uuid a.workspace_id) _ h1 in
      let (n, e3, h3) = >>=-eq-ok (optional uuid a.node_id) _ h2 in
      let (m, e4, h4) = >>=-eq-ok (optional uuid a.node_instance_id) _ h3 in
      let (t, k) = passed (bool_eq (is_some n) (is_some m)) _ h4 in
      settle routing_target_schema k (
        rw (
          uuid-Settles _ d e1,
          uuid-Settles _ w e2,
          optional-uuid-Settles _ n e3,
          optional-uuid-Settles _ m e4,
          t,
        ))

  pub version-Settles : Settles version_schema
  unfolding version_schema timeout_schema
  version-Settles version_1 b h = settle version_schema h refl
  version-Settles (version_2 v) b h =
      let (c, e1, h1) = >>=-eq-ok (optional uuid v.continue_from_task_id) _ h in
      let (t, e2, h2) = >>=-eq-ok (routing_target_schema v.target) _ h1 in
      let (n, e3, h3) = >>=-eq-ok (optional uuid v.source_node_id) _ h2 in
      let (w, e4, h4) =
        >>=-eq-ok (optional (tested (utf8_string 1_024 1)) v.source_workspace_identity) _ h3 in
      let (m, e5, k) = >>=-eq-ok (optional timeout_schema v.timeout_minutes) _ h4 in
      settle version_schema k (
        rw (
          optional-uuid-Settles v.continue_from_task_id c e1,
          routing_target-Settles v.target t e2,
          optional-uuid-Settles v.source_node_id n e3,
          optional-Settles _ (tested-Settles (utf8_string 1_024 1)) v.source_workspace_identity w
              e4,
          optional-Settles timeout_schema timeout-Settles v.timeout_minutes m e5,
        ))
