-- ===== src/Outbox/Traces.antt =====
-- The outbox under sends and completed sends in any order.
use copilot_agent_mesh.Prelude.{ℕ, Bool, true, false, none, List, [], ◌∷◌, refl, arith}
use copilot_agent_mesh.Outbox.{Outbox, OutboxLimits, Outbound, send, sent}
use copilot_agent_mesh.Outbox.Accounting.{IsWithin}
use copilot_agent_mesh.Outbox.Admission.{carry, send-IsWithin, sent-IsWithin}

-- A call of `send`, the callback of the socket for the message in flight, or the end of the socket. Each
-- comes with the bytes that the socket has buffered.
pub data OutboxStep : Type 0 where
  send_step : (buffered : ℕ) (value : Outbound) (waiter : ℕ) → OutboxStep
  sent_step : (buffered : ℕ) (failed : Bool) → OutboxStep
  closed_step : OutboxStep

abbrev pub new_outbox : Outbox
new_outbox = record {
  queue = [];
  in_flight = none;
  markers = [];
  episodes = [];
  queue_bytes = 0;
  outbox_events = 0;
  ordinary_queue_bytes = 0;
  ordinary_outbox_events = 0;
  is_open = true;
  disposed = false;
  next_number = 0;
}

module _ (limits : OutboxLimits) where
  abbrev pub step : OutboxStep → Outbox → Outbox
  step (send_step buffered value waiter) o = (send limits buffered value waiter o).0
  step (sent_step buffered failed) o = (sent limits buffered failed o o.in_flight).0
  step closed_step o = record o { is_open = false }

  abbrev pub run : List OutboxStep → Outbox → Outbox
  run [] o = o
  run (s ∷ steps) o = run steps (step s o)

  step-IsWithin : (s : OutboxStep) (o : Outbox) → IsWithin limits o → IsWithin limits (step s o)
  step-IsWithin (send_step buffered value waiter) o w =
      send-IsWithin limits buffered value waiter o w
  step-IsWithin (sent_step buffered failed) o w =
      sent-IsWithin limits buffered failed o o.in_flight refl w
  step-IsWithin closed_step o w = carry limits o o.markers o.episodes false w

  all-IsWithin :
      (steps : List OutboxStep) (o : Outbox) → IsWithin limits o → IsWithin limits (run steps o)
  all-IsWithin [] o w = w
  all-IsWithin (s ∷ steps) o w = all-IsWithin steps (step s o) (step-IsWithin s o w)

  -- Whatever is sent and whenever the socket takes it, until the connection is disposed of: the four
  -- counters of the outbox agree with the queue and the message in flight, and the bytes and messages
  -- stay within the limits, in all and for progress and output.
  pub outbox-IsWithin : (steps : List OutboxStep) → IsWithin limits (run steps new_outbox)
  outbox-IsWithin steps = all-IsWithin steps new_outbox (record {
    accounts = record {
      bytes_counted = refl;
      ordinary_counted = refl;
      events_counted = refl;
      ordinary_events_counted = refl;
    };
    bytes_within = omega arith;
    ordinary_within = omega arith;
    events_within = omega arith;
    ordinary_events_within = omega arith;
  })
