-- ===== src/Outbox/Accounting.antt =====
-- src/gateway/RpcPeer.ts: the counters of the outbox, and `flush` and `enqueue` on them.
use copilot_agent_mesh.Prelude.{
  ℕ, ◌+◌, ◌≤◌, false, not, ◌||◌, Option, none, some, List, [], ◌∷◌, ◌≡◌, refl, arith, Bool-cases,
  inl, inr, ap, ◌∙◌, is_some,
}
use copilot_agent_mesh.Outbox.{
  Outbox, OutboxLimits, QueuedMessage, flush, flush_first, queued, enqueue, total_outbox_max_bytes,
  total_outbox_max_events, ordinary_bytes, ordinary_event,
}
use copilot_agent_mesh.Outbox.Totals.{total, total-append}

abbrev pub in_flight_total : (QueuedMessage → ℕ) → Option QueuedMessage → ℕ
in_flight_total measure none = 0
in_flight_total measure (some m) = measure m

-- The counters count what they are named for.
pub record Accounts (o : Outbox) : Type 0 where
  pub bytes_counted : o.queue_bytes ≡ total (λ m. m.bytes) o.queue
  pub ordinary_counted : o.ordinary_queue_bytes ≡ total ordinary_bytes o.queue
  pub events_counted :
      o.outbox_events ≡ total (λ m. 1) o.queue + in_flight_total (λ m. 1) o.in_flight
  pub ordinary_events_counted :
      o.ordinary_outbox_events
      ≡ total ordinary_event o.queue + in_flight_total ordinary_event o.in_flight

-- And they are within the limits.
pub record IsWithin (limits : OutboxLimits) (o : Outbox) : Type 0 where
  pub accounts : Accounts o
  pub bytes_within : o.queue_bytes ≤ total_outbox_max_bytes
  pub ordinary_within : o.ordinary_queue_bytes ≤ limits.max_bytes
  pub events_within : o.outbox_events ≤ total_outbox_max_events
  pub ordinary_events_within : o.ordinary_outbox_events ≤ limits.max_events

flush_first-IsWithin :
    (limits : OutboxLimits) (queue : List QueuedMessage) (o : Outbox)
    → o.queue ≡ queue
    → o.in_flight ≡ none
    → IsWithin limits o
    → IsWithin limits (flush_first queue o)
flush_first-IsWithin limits [] o same idle w = w
flush_first-IsWithin limits (m ∷ rest) o same idle w =
    let a = w.accounts in
    let bytes = a.bytes_counted ∙ ap (total (λ q. q.bytes)) same in
    let ordinary = a.ordinary_counted ∙ ap (total ordinary_bytes) same in
    let events =
      a.events_counted
      ∙ ap (λ q. total (λ x. 1) q + in_flight_total (λ x. 1) o.in_flight) same
      ∙ ap (λ f. total (λ x. 1) (m ∷ rest) + in_flight_total (λ x. 1) f) idle in
    let ordinary_events =
      a.ordinary_events_counted
      ∙ ap (λ q. total ordinary_event q + in_flight_total ordinary_event o.in_flight) same
      ∙ ap (λ f. total ordinary_event (m ∷ rest) + in_flight_total ordinary_event f) idle in
    record {
      accounts = record {
        bytes_counted = omega (arith, bytes);
        ordinary_counted = omega (arith, ordinary);
        events_counted = omega (arith, events);
        ordinary_events_counted = omega (arith, ordinary_events);
      };
      bytes_within = omega (arith, w.bytes_within);
      ordinary_within = omega (arith, w.ordinary_within);
      events_within = w.events_within;
      ordinary_events_within = w.ordinary_events_within;
    }

idle_of : (f : Option QueuedMessage) → is_some f ≡ false → f ≡ none
idle_of none h = refl
idle_of (some m) h = cc

pub flush-IsWithin :
    (limits : OutboxLimits) (o : Outbox) → IsWithin limits o → IsWithin limits (flush o)
unfolding flush
flush-IsWithin limits o w = elim (Bool-cases (is_some o.in_flight || o.disposed || not o.is_open)) [
  | inl waits ↦ rw waits w
  | inr goes ↦
      rw goes (flush_first-IsWithin limits o.queue o refl (idle_of o.in_flight (ground arith)) w)
]

-- A message that the totals leave room for.
pub enqueue-IsWithin :
    (limits : OutboxLimits) (m : QueuedMessage) (o : Outbox)
    → IsWithin limits o
    → o.queue_bytes + m.bytes ≤ total_outbox_max_bytes
    → o.outbox_events + 1 ≤ total_outbox_max_events
    → o.ordinary_queue_bytes + ordinary_bytes m ≤ limits.max_bytes
    → o.ordinary_outbox_events + ordinary_event m ≤ limits.max_events
    → IsWithin limits (enqueue m o)
unfolding enqueue
enqueue-IsWithin limits m o w few_bytes few small small_events =
    let a = w.accounts in
    flush-IsWithin limits (queued m o) (record {
      accounts = record {
        bytes_counted =
            omega (arith, a.bytes_counted, total-append (λ q. q.bytes) o.queue (m ∷ []));
        ordinary_counted =
            omega (arith, a.ordinary_counted, total-append ordinary_bytes o.queue (m ∷ []));
        events_counted = omega (arith, a.events_counted, total-append (λ q. 1) o.queue (m ∷ []));
        ordinary_events_counted =
            omega (arith, a.ordinary_events_counted, total-append ordinary_event o.queue (m ∷ []));
      };
      bytes_within = few_bytes;
      ordinary_within = small;
      events_within = few;
      ordinary_events_within = small_events;
    })
