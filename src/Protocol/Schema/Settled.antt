-- ===== src/Protocol/Schema/Settled.antt =====
-- shared/protocol/models.ts: `persistedTaskRecordSchema` on the records that it gives.
use copilot_agent_mesh.Prelude.{String, some, ◌&&◌, leb, ◌≡◌, refl}
use copilot_agent_mesh.Protocol.Errors.{ok}
use copilot_agent_mesh.Protocol.Host.{Platform}
use copilot_agent_mesh.Protocol.Records.{TaskRecord}
use copilot_agent_mesh.Protocol.Schema.{
  uuid, timestamp, tested, optional, each, persisted_task_record_schema, record_fields_schema,
  is_sha256_hex, refinements, version_schema, pending_input_schema, event_schema,
  recovery_descriptor_schema, max_safe_integer, failure_schema, answered_inputs_schema,
}
use copilot_agent_mesh.Protocol.Limits.{terminal_summary_bytes, task_title_bytes, utf8_string}
use copilot_agent_mesh.Protocol.Schema.Fields.{
  gives, optional-Settles, each-Settles, tested-Settles, going_on, past, uuid-Settles,
  pending_input-Settles, event-Settles, recovery_descriptor-Settles, failure-Settles,
  version-Settles, earliest-Settles, earliest_schema,
}
use copilot_agent_mesh.Protocol.Schema.Objects.{answered_inputs-Settles}

module _ ⦃p : Platform⦄
    (settled : (s t : String) → p.parse_uuid s ≡ some t → p.parse_uuid t ≡ some t) where
  -- What the schema gives passes it unchanged, and has the identifiers of the value in lower case.
  abbrev pub HasIdentityOf : TaskRecord → TaskRecord → Type 0
  HasIdentityOf r v = (uuid r.peer_id ≡ ok v.peer_id) × (uuid r.task_id ≡ ok v.task_id)

  record_fields-Settles :
      (r v : TaskRecord)
      → record_fields_schema r ≡ ok v
      → (record_fields_schema v ≡ ok v) × HasIdentityOf r v
  unfolding record_fields_schema earliest_schema
  record_fields-Settles r b h0 = going_on (version_schema r.version) _ h0 λ version e1 h1.
      going_on (uuid r.task_id) _ h1 λ task_id e2 h2.
        going_on (uuid r.delegation_request_id) _ h2 λ request_id e3 h3.
          past (is_sha256_hex r.request_hash) _ h3 λ t1 h4.
            going_on (uuid r.peer_id) _ h4 λ peer_id e5 h5.
              going_on (uuid r.workspace_id) _ h5 λ workspace_id e6 h6.
                past (utf8_string 1_024 1 r.workspace_lease_key) _ h6 λ t2 h7.
                  past (utf8_string task_title_bytes 1 r.title) _ h7 λ t3 h8.
                    past (p.is_timestamp r.created_at && p.is_timestamp r.updated_at) _ h8 λ t4 h9.
                      past (leb r.event_seq max_safe_integer) _ h9 λ t5 h10.
                        past (p.is_timestamp r.worker_deadline) _ h10 λ t6 h11.
                          going_on (optional timestamp r.cancellation_deadline) _ h11
                            λ deadline e12 h12.
                              going_on (optional pending_input_schema r.pending_input) _ h12
                                λ pending e13 h13.
                                  going_on (answered_inputs_schema r.answered_inputs) _ h13
                                    λ answered e14 h14.
                                      going_on
                                        (optional recovery_descriptor_schema r.recovery_descriptor)
                                        _ h14
                                        λ recovery e15 h15.
                                          going_on
                                            (optional
                                              (tested (utf8_string terminal_summary_bytes 0))
                                              r.summary)
                                            _ h15
                                            λ summary e16 h16.
                                              going_on (optional failure_schema r.failure) _ h16
                                                λ failure e17 h17.
                                                  going_on (each event_schema r.events) _ h17
                                                    λ events e18 h18.
                                                      going_on
                                                        (optional earliest_schema
                                                          r.earliest_available_event_seq)
                                                        _ h18
                                                        λ earliest e19 k.
                                                          gives
                                                            (λ v.
                                                            (record_fields_schema v ≡ ok v)
                                                            × HasIdentityOf r v)
                                                            k
                                                            (
                                                            rw
                                                            (
                                                            (version-Settles settled) r.version
                                                            version e1,
                                                            (uuid-Settles settled) r.task_id task_id
                                                            e2,
                                                            (uuid-Settles settled)
                                                            r.delegation_request_id request_id e3,
                                                            t1,
                                                            (uuid-Settles settled) r.peer_id peer_id
                                                            e5,
                                                            (uuid-Settles settled) r.workspace_id
                                                            workspace_id e6,
                                                            t2,
                                                            t3,
                                                            t4,
                                                            t5,
                                                            t6,
                                                            optional-Settles _
                                                            (tested-Settles p.is_timestamp)
                                                            r.cancellation_deadline deadline e12,
                                                            optional-Settles _
                                                            (pending_input-Settles settled)
                                                            r.pending_input pending e13,
                                                            answered_inputs-Settles settled
                                                            r.answered_inputs answered e14,
                                                            optional-Settles _
                                                            (recovery_descriptor-Settles settled)
                                                            r.recovery_descriptor recovery e15,
                                                            optional-Settles _
                                                            (tested-Settles
                                                            (utf8_string terminal_summary_bytes 0))
                                                            r.summary summary e16,
                                                            optional-Settles _
                                                            (failure-Settles settled) r.failure
                                                            failure e17,
                                                            each-Settles _ (event-Settles settled)
                                                            r.events events e18,
                                                            optional-Settles earliest_schema
                                                            earliest-Settles
                                                            r.earliest_available_event_seq earliest
                                                            e19,
                                                            )
                                                            refl,
                                                            (e5, e2),
                                                            )

  -- A record that the schema gave passes the schema unchanged.
  pub schema-Settles :
      (r v : TaskRecord)
      → persisted_task_record_schema r ≡ ok v
      → (persisted_task_record_schema v ≡ ok v) × HasIdentityOf r v
  unfolding persisted_task_record_schema
  schema-Settles r b h = going_on (record_fields_schema r) _ h λ v e h1.
      past (refinements v) _ h1 λ t k.
        let (again, identity) = record_fields-Settles r v e in
        gives (λ v. (persisted_task_record_schema v ≡ ok v) × HasIdentityOf r v) k
          (rw (again, t) refl, identity)
