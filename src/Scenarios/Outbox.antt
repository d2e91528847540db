-- ===== src/Scenarios/Outbox.antt =====
-- Examples for the outbox of src/gateway/RpcPeer.ts.
use copilot_agent_mesh.Prelude.{false, List, [], ◌∷◌}
use copilot_agent_mesh.Outbox.{OutboxLimits, progress_of, output_of, no_notification}
use copilot_agent_mesh.Outbox.Accounting.{IsWithin}
use copilot_agent_mesh.Outbox.Traces.{
  OutboxStep, send_step, sent_step, new_outbox, run, outbox-IsWithin,
}

abbrev small_limits : OutboxLimits
small_limits = record { max_bytes = 300; max_events = 3 }

-- A message in flight, progress that is replaced, and output that is too large for the limit.
abbrev busy_steps : List OutboxStep
busy_steps =
    send_step 0 (record { bytes = 100; marker_bytes = 0; notification = no_notification }) 0
    ∷ send_step 100 (record { bytes = 90; marker_bytes = 0; notification = progress_of "t1" }) 1
    ∷ send_step 100 (record { bytes = 80; marker_bytes = 0; notification = progress_of "t1" }) 2
    ∷ send_step 100 (record { bytes = 500; marker_bytes = 60; notification = output_of "t1" }) 3
    ∷ sent_step 0 false
    ∷ []

outbox-IsWithin_example : IsWithin small_limits (run small_limits busy_steps new_outbox)
outbox-IsWithin_example = outbox-IsWithin small_limits busy_steps
