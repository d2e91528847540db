-- ===== src/Outbox.antt =====
-- src/gateway/RpcPeer.ts: the queue of outbound messages of a connection, and what it admits.
mod State
pub use State.*
pub mod Totals
pub mod Accounting
pub mod Admission
pub mod Traces
use copilot_agent_mesh.Prelude.{
  ℕ, zero, suc, ◌+◌, ◌-◌, ◌*◌, ◌/◌, Bool, true, false, not, ◌&&◌, ◌||◌, String, Option, none, some,
  List, [], ◌∷◌, ◌++◌, ◌==◌, ltb, leb, eqb, if◌then◌else◌, is_some, text_option_eq, nat_option_eq,
  any, find, map, length, Dict, lookup, insert, remove,
}
use copilot_agent_mesh.Protocol.{frame_bytes}

-- `canAdmitTotal`, `canAdmitOrdinary` and `canReplaceOrdinary`, where the byte difference may be negative
-- and is written on both sides. `buffered` is `socket.bufferedAmount`.
abbrev pub can_admit_total : ℕ → ℕ → Outbox → Bool
can_admit_total buffered bytes o =
    leb (o.outbox_events + 1) total_outbox_max_events
    && leb (o.queue_bytes + buffered + bytes) total_outbox_max_bytes

abbrev pub can_admit_ordinary : OutboxLimits → ℕ → ℕ → Outbox → Bool
can_admit_ordinary limits buffered bytes o =
    leb (o.ordinary_outbox_events + 1) limits.max_events
    && can_admit_total buffered bytes o
    && leb (o.ordinary_queue_bytes + buffered + bytes) limits.max_bytes

abbrev pub can_replace_ordinary : OutboxLimits → ℕ → ℕ → ℕ → Outbox → Bool
can_replace_ordinary limits buffered old_bytes bytes o =
    leb (o.queue_bytes + buffered + bytes) (total_outbox_max_bytes + old_bytes)
    && leb (o.ordinary_queue_bytes + buffered + bytes) (limits.max_bytes + old_bytes)

-- `maybeResetOutputPressureEpisodes`.
abbrev pub maybe_reset : OutboxLimits → ℕ → Outbox → Outbox
maybe_reset limits buffered o =
    if leb (o.queue_bytes + buffered) (total_outbox_max_bytes / 2)
      && leb (o.ordinary_queue_bytes + buffered) (limits.max_bytes / 2)
      && leb o.outbox_events (total_outbox_max_events / 2)
    then record o { episodes = [] }
    else o

-- `flush`, up to the call of the socket.
abbrev pub flush_first : List QueuedMessage → Outbox → Outbox
flush_first [] o = o
flush_first (m ∷ rest) o = record o {
  queue = rest;
  queue_bytes = o.queue_bytes - m.bytes;
  ordinary_queue_bytes = o.ordinary_queue_bytes - ordinary_bytes m;
  in_flight = some m;
}

unfoldable pub flush : Outbox → Outbox
flush o =
    let flushed = flush_first o.queue o in
    if is_some o.in_flight || o.disposed || not o.is_open then o else flushed

-- `enqueue`.
abbrev pub queued : QueuedMessage → Outbox → Outbox
queued m o = record o {
  queue_bytes = o.queue_bytes + m.bytes;
  outbox_events = o.outbox_events + 1;
  ordinary_queue_bytes = o.ordinary_queue_bytes + ordinary_bytes m;
  ordinary_outbox_events = o.ordinary_outbox_events + ordinary_event m;
  queue = o.queue ++ m ∷ [];
  next_number = o.next_number + 1;
}

unfoldable pub enqueue : QueuedMessage → Outbox → Outbox
enqueue m o = flush (queued m o)

-- `close` while the socket is open: the socket is closing, and is disposed of later.
abbrev pub close : Outbox → Outbox
close o = record o { is_open = false }

-- A queued message of progress for the task.
abbrev pub is_progress_of : String → QueuedMessage → Bool
is_progress_of task_id m = is_progress m.kind && text_option_eq m.task_id (some task_id)

-- The data of the first such message is replaced, and the waiter joins its waiters.
unfoldable pub replace_first : String → ℕ → ℕ → List QueuedMessage → List QueuedMessage
replace_first task_id bytes waiter [] = []
replace_first task_id bytes waiter (m ∷ rest) =
    let replaced = replace_first task_id bytes waiter rest in
    if is_progress_of task_id m
    then record m { bytes = bytes; waiters = m.waiters ++ waiter ∷ [] } ∷ rest
    else m ∷ replaced

-- `existing.waiters.push(waiter)`, wherever the message is.
abbrev pub push_waiter : ℕ → ℕ → QueuedMessage → QueuedMessage
push_waiter number waiter m =
    if eqb m.number number then record m { waiters = m.waiters ++ waiter ∷ [] } else m

abbrev pub push_in_flight : ℕ → ℕ → Option QueuedMessage → Option QueuedMessage
push_in_flight number waiter none = none
push_in_flight number waiter (some m) = some (push_waiter number waiter m)

abbrev pub join_marker : ℕ → ℕ → Outbox → Outbox
join_marker number waiter o = record o {
  queue = map (push_waiter number waiter) o.queue;
  in_flight = push_in_flight number waiter o.in_flight;
}

-- `enqueueOutputPressureMarker`.
unfoldable pub enqueue_marker : ℕ → ℕ → String → ℕ → Outbox → Option ℕ → Outbox × List Settled
enqueue_marker buffered bytes task_id waiter o (some existing) = (join_marker existing waiter o, [])
enqueue_marker buffered bytes task_id waiter o none =
    if any (λ t. t == task_id) o.episodes
      || (leb pressure_marker_max_events (length o.markers)
          || leb pressure_marker_max_events (length o.episodes))
      || not (can_admit_total buffered bytes o)
    then (o, rejected waiter ∷ [])
    else (
      enqueue
          (record {
            number = o.next_number;
            bytes = bytes;
            kind = output_marker;
            task_id = some task_id;
            waiters = waiter ∷ [];
          })
          (record o {
            episodes = o.episodes ++ task_id ∷ [];
            markers = insert task_id o.next_number o.markers;
          }),
      [],
    )

abbrev pub new_message : ℕ → MessageKind → Option String → ℕ → Outbox → QueuedMessage
new_message bytes kind task_id waiter o = record {
  number = o.next_number;
  bytes = bytes;
  kind = kind;
  task_id = task_id;
  waiters = waiter ∷ [];
}

-- The executor of `send`, after the reset of the episodes, for each kind of value.
unfoldable pub send_progress :
    OutboxLimits → ℕ → ℕ → String → ℕ → Outbox → Option QueuedMessage → Outbox × List Settled
send_progress limits buffered bytes task_id waiter o (some old) =
    if can_replace_ordinary limits buffered old.bytes bytes o
    then (
      record o {
        queue_bytes = (o.queue_bytes + bytes) - old.bytes;
        ordinary_queue_bytes = (o.ordinary_queue_bytes + bytes) - old.bytes;
        queue = replace_first task_id bytes waiter o.queue;
      },
      [],
    )
    else (o, rejected waiter ∷ [])
send_progress limits buffered bytes task_id waiter o none =
    if can_admit_ordinary limits buffered bytes o
    then (enqueue (new_message bytes progress (some task_id) waiter o) o, [])
    else (o, rejected waiter ∷ [])

unfoldable pub send_value :
    OutboxLimits → ℕ → Outbound → ℕ → Notification → Outbox → Outbox × List Settled
send_value limits buffered value waiter (progress_of task_id) o =
    send_progress limits buffered value.bytes task_id waiter o
      (find (is_progress_of task_id) o.queue)
send_value limits buffered value waiter (output_of task_id) o =
    if can_admit_ordinary limits buffered value.bytes o
    then (enqueue (new_message value.bytes output (some task_id) waiter o) o, [])
    else enqueue_marker buffered value.marker_bytes task_id waiter o (lookup task_id o.markers)
send_value limits buffered value waiter no_notification o =
    if can_admit_total buffered value.bytes o
    then (enqueue (new_message value.bytes critical none waiter o) o, [])
    else (close o, rejected waiter ∷ [])

-- `send`.
unfoldable pub send : OutboxLimits → ℕ → Outbound → ℕ → Outbox → Outbox × List Settled
send limits buffered value waiter o =
    if o.disposed || not o.is_open
    then (o, rejected waiter ∷ [])
    else if ltb frame_bytes value.bytes
    then (close o, rejected waiter ∷ [])
    else send_value limits buffered value waiter value.notification (maybe_reset limits buffered o)

abbrev pub settle : Bool → List ℕ → List Settled
settle failed waiters = map (λ w. if failed then rejected w else resolved w) waiters

-- The marker of a message that was sent is forgotten, if it is still this one.
abbrev pub unmark : MessageKind → Option String → ℕ → Dict ℕ → Dict ℕ
unmark output_marker (some task_id) number markers =
    if nat_option_eq (lookup task_id markers) (some number) then remove task_id markers else markers
unmark _ task_id number markers = markers

-- The callback of `socket.send`.
unfoldable pub sent :
    OutboxLimits → ℕ → Bool → Outbox → Option QueuedMessage → Outbox × List Settled
sent limits buffered failed o none = (o, [])
sent limits buffered failed o (some m) = (
  flush (
      maybe_reset limits buffered (record o {
        in_flight = none;
        outbox_events = o.outbox_events - 1;
        ordinary_outbox_events = o.ordinary_outbox_events - ordinary_event m;
        markers = unmark m.kind m.task_id m.number o.markers;
      })),
  settle failed m.waiters,
)

-- `dispose`: the queue is emptied and its waiters are rejected; the counters are left as they are.
abbrev pub reject_all : List QueuedMessage → List Settled
reject_all [] = []
reject_all (m ∷ rest) = settle true m.waiters ++ reject_all rest

abbrev pub dispose : Outbox → Outbox × List Settled
dispose o =
    if o.disposed then (o, []) else (record o { disposed = true; queue = [] }, reject_all o.queue)
