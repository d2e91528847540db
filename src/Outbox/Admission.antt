-- ===== src/Outbox/Admission.antt =====
-- src/gateway/RpcPeer.ts: the counters of the outbox through `send` and the socket's callback.
use copilot_agent_mesh.Prelude.{
  ℕ, ◌+◌, Bool, true, false, not, ◌||◌, String, Option, none, some, List, [], ◌==◌, ◌≡◌, refl,
  arith, map, find, any, length, leb, ltb, Bool-cases, inl, inr, sym, ap, ◌∙◌, if◌then◌else◌, Dict,
}
use copilot_agent_mesh.Protocol.{frame_bytes}
use copilot_agent_mesh.Outbox.{
  Outbox, OutboxLimits, QueuedMessage, Notification, Outbound, no_notification, progress_of,
  output_of, maybe_reset, join_marker, push_waiter, push_in_flight, enqueue_marker, is_progress_of,
  send_progress, send_value, send, sent, can_admit_total, can_admit_ordinary, can_replace_ordinary,
  pressure_marker_max_events, ordinary_bytes, ordinary_event,
}
use copilot_agent_mesh.Outbox.Totals.{total, total-map, push_keeps, total-replace}
use copilot_agent_mesh.Outbox.Accounting.{
  in_flight_total, IsWithin, flush-IsWithin, enqueue-IsWithin,
}

-- The fields that are not counted may change.
pub carry :
    (limits : OutboxLimits) (o : Outbox) (markers : Dict ℕ) (episodes : List String)
    (is_open : Bool)
    → IsWithin limits o
    → IsWithin limits (record o { markers = markers; episodes = episodes; is_open = is_open })
carry limits o markers episodes is_open w = record {
  accounts = record {
    bytes_counted = w.accounts.bytes_counted;
    ordinary_counted = w.accounts.ordinary_counted;
    events_counted = w.accounts.events_counted;
    ordinary_events_counted = w.accounts.ordinary_events_counted;
  };
  bytes_within = w.bytes_within;
  ordinary_within = w.ordinary_within;
  events_within = w.events_within;
  ordinary_events_within = w.ordinary_events_within;
}

pub maybe_reset-IsWithin :
    (limits : OutboxLimits) (buffered : ℕ) (o : Outbox)
    → IsWithin limits o
    → IsWithin limits (maybe_reset limits buffered o)
maybe_reset-IsWithin limits buffered o w =
    if-IsWithin limits _ (record o { episodes = [] }) o (carry limits o o.markers [] o.is_open w) w
  where
    if-IsWithin :
        (limits : OutboxLimits) (b : Bool) (x y : Outbox)
        → IsWithin limits x
        → IsWithin limits y
        → IsWithin limits (if b then x else y)
    if-IsWithin limits true x y u v = u
    if-IsWithin limits false x y u v = v

pushed_in_flight :
    (measure : QueuedMessage → ℕ) (number waiter : ℕ) (f : Option QueuedMessage)
    → ((m : QueuedMessage) (w : List ℕ) → measure (record m { waiters = w }) ≡ measure m)
    → in_flight_total measure (push_in_flight number waiter f) ≡ in_flight_total measure f
pushed_in_flight measure number waiter none same = refl
pushed_in_flight measure number waiter (some m) same = push_keeps measure number waiter m (same m)

kept :
    (number waiter : ℕ) (queue : List QueuedMessage) (measure : QueuedMessage → ℕ)
    → ((m : QueuedMessage) (v : List ℕ) → measure (record m { waiters = v }) ≡ measure m)
    → total measure (map (push_waiter number waiter) queue) ≡ total measure queue
kept number waiter queue measure same =
    total-map measure (push_waiter number waiter) queue
      (λ m. push_keeps measure number waiter m (same m))

join_marker-IsWithin :
    (limits : OutboxLimits) (number waiter : ℕ) (o : Outbox)
    → IsWithin limits o
    → IsWithin limits (join_marker number waiter o)
join_marker-IsWithin limits number waiter o w =
    let a = w.accounts in
    record {
      accounts = record {
        bytes_counted =
            a.bytes_counted ∙ sym (kept number waiter o.queue (λ m. m.bytes) (λ m v. refl));
        ordinary_counted =
            a.ordinary_counted ∙ sym (kept number waiter o.queue ordinary_bytes (λ m v. refl));
        events_counted = omega (
          arith,
          a.events_counted,
          kept number waiter o.queue (λ m. 1) (λ m v. refl),
          pushed_in_flight (λ m. 1) number waiter o.in_flight (λ m v. refl),
        );
        ordinary_events_counted = omega (
          arith,
          a.ordinary_events_counted,
          kept number waiter o.queue ordinary_event (λ m v. refl),
          pushed_in_flight ordinary_event number waiter o.in_flight (λ m v. refl),
        );
      };
      bytes_within = w.bytes_within;
      ordinary_within = w.ordinary_within;
      events_within = w.events_within;
      ordinary_events_within = w.ordinary_events_within;
    }

enqueue_marker-IsWithin :
    (limits : OutboxLimits) (buffered bytes : ℕ) (task_id : String) (waiter : ℕ) (o : Outbox)
    (existing : Option ℕ)
    → IsWithin limits o
    → IsWithin limits (enqueue_marker buffered bytes task_id waiter o existing).0
unfolding enqueue_marker
enqueue_marker-IsWithin limits buffered bytes task_id waiter o (some number) w =
    join_marker-IsWithin limits number waiter o w
enqueue_marker-IsWithin limits buffered bytes task_id waiter o none w =
    elim (Bool-cases (
      any (λ t. t == task_id) o.episodes
      || (leb pressure_marker_max_events (length o.markers)
          || leb pressure_marker_max_events (length o.episodes))
      || not (can_admit_total buffered bytes o))) [
        | inl refused ↦ rw refused w
        | inr admitted ↦ rw admitted (
            enqueue-IsWithin limits _ _ (carry limits o _ _ o.is_open w) (ground arith)
              (ground arith) (omega (arith, w.ordinary_within))
              (omega (arith, w.ordinary_events_within)))
      ]

send_progress-IsWithin :
    (limits : OutboxLimits) (buffered bytes : ℕ) (task_id : String) (waiter : ℕ) (o : Outbox)
    (found : Option QueuedMessage)
    → find (is_progress_of task_id) o.queue ≡ found
    → IsWithin limits o
    → IsWithin limits (send_progress limits buffered bytes task_id waiter o found).0
unfolding send_progress
send_progress-IsWithin limits buffered bytes task_id waiter o (some old) there w =
    elim (Bool-cases (can_replace_ordinary limits buffered old.bytes bytes o)) [
      | inl fits ↦
          let (all_bytes, ordinary, events, count) =
            total-replace task_id bytes waiter o.queue old there in
          let a = w.accounts in
          rw fits (record {
            accounts = record {
              bytes_counted = omega (arith, a.bytes_counted, all_bytes);
              ordinary_counted = omega (arith, a.ordinary_counted, ordinary);
              events_counted = omega (arith, a.events_counted, count);
              ordinary_events_counted = omega (arith, a.ordinary_events_counted, events);
            };
            bytes_within = ground (arith, fits);
            ordinary_within = ground (arith, fits);
            events_within = w.events_within;
            ordinary_events_within = w.ordinary_events_within;
          })
      | inr crowded ↦ rw crowded w
    ]
send_progress-IsWithin limits buffered bytes task_id waiter o none there w =
    elim (Bool-cases (can_admit_ordinary limits buffered bytes o)) [
      | inl fits ↦ rw fits (
          enqueue-IsWithin limits _ o w (ground (arith, fits)) (ground (arith, fits))
            (ground (arith, fits)) (ground (arith, fits)))
      | inr crowded ↦ rw crowded w
    ]

send_value-IsWithin :
    (limits : OutboxLimits) (buffered : ℕ) (value : Outbound) (waiter : ℕ) (n : Notification)
    (o : Outbox)
    → IsWithin limits o
    → IsWithin limits (send_value limits buffered value waiter n o).0
unfolding send_value
send_value-IsWithin limits buffered value waiter (progress_of task_id) o w =
    send_progress-IsWithin limits buffered value.bytes task_id waiter o _ refl w
send_value-IsWithin limits buffered value waiter (output_of task_id) o w =
    elim (Bool-cases (can_admit_ordinary limits buffered value.bytes o)) [
      | inl fits ↦ rw fits (
          enqueue-IsWithin limits _ o w (ground (arith, fits)) (ground (arith, fits))
            (ground (arith, fits)) (ground (arith, fits)))
      | inr crowded ↦
          rw crowded
            (enqueue_marker-IsWithin limits buffered value.marker_bytes task_id waiter o _ w)
    ]
send_value-IsWithin limits buffered value waiter no_notification o w =
    elim (Bool-cases (can_admit_total buffered value.bytes o)) [
      | inl fits ↦ rw fits (
          enqueue-IsWithin limits _ o w (ground (arith, fits)) (ground (arith, fits))
            (omega (arith, w.ordinary_within)) (omega (arith, w.ordinary_events_within)))
      | inr crowded ↦ rw crowded (carry limits o o.markers o.episodes false w)
    ]

pub send-IsWithin :
    (limits : OutboxLimits) (buffered : ℕ) (value : Outbound) (waiter : ℕ) (o : Outbox)
    → IsWithin limits o
    → IsWithin limits (send limits buffered value waiter o).0
unfolding send
send-IsWithin limits buffered value waiter o w = elim (Bool-cases (o.disposed || not o.is_open)) [
  | inl closed ↦ rw closed w
  | inr live ↦ elim (Bool-cases (ltb frame_bytes value.bytes)) [
    | inl large ↦ rw (live, large) (carry limits o o.markers o.episodes false w)
    | inr small ↦
        rw (live, small)
          (send_value-IsWithin limits buffered value waiter value.notification _
            (maybe_reset-IsWithin limits buffered o w))
  ]
]

-- The callback takes its message out of the counts.
pub sent-IsWithin :
    (limits : OutboxLimits) (buffered : ℕ) (failed : Bool) (o : Outbox) (m : Option QueuedMessage)
    → o.in_flight ≡ m
    → IsWithin limits o
    → IsWithin limits (sent limits buffered failed o m).0
unfolding sent
sent-IsWithin limits buffered failed o none flying w = w
sent-IsWithin limits buffered failed o (some m) flying w =
    let a = w.accounts in
    let events =
      a.events_counted ∙ ap (λ f. total (λ q. 1) o.queue + in_flight_total (λ q. 1) f) flying in
    let ordinary =
      a.ordinary_events_counted
      ∙ ap (λ f. total ordinary_event o.queue + in_flight_total ordinary_event f) flying in
    flush-IsWithin limits _ (
      maybe_reset-IsWithin limits buffered _ (record {
        accounts = record {
          bytes_counted = a.bytes_counted;
          ordinary_counted = a.ordinary_counted;
          events_counted = omega (arith, events);
          ordinary_events_counted = omega (arith, ordinary);
        };
        bytes_within = w.bytes_within;
        ordinary_within = w.ordinary_within;
        events_within = omega (arith, w.events_within);
        ordinary_events_within = omega (arith, w.ordinary_events_within);
      }))
