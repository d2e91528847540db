-- ===== src/Outbox/Totals.antt =====
-- Sums over the queue.
use copilot_agent_mesh.Prelude.{
  ℕ, ◌+◌, true, String, some, List, [], ◌∷◌, ◌++◌, ◌≡◌, refl, arith, map, find, Bool-cases, inl,
  inr, ap, and_split, eqb,
}
use copilot_agent_mesh.Outbox.{
  QueuedMessage, MessageKind, progress, is_ordinary, is_progress, is_progress_of, ordinary_bytes,
  ordinary_event, replace_first, push_waiter,
}

abbrev pub total : (QueuedMessage → ℕ) → List QueuedMessage → ℕ
total measure [] = 0
total measure (m ∷ rest) = measure m + total measure rest

pub total-append :
    (measure : QueuedMessage → ℕ) (xs ys : List QueuedMessage)
    → total measure (xs ++ ys) ≡ total measure xs + total measure ys
total-append measure [] ys = omega arith
total-append measure (x ∷ xs) ys = omega (arith, total-append measure xs ys)

pub total-map :
    (measure : QueuedMessage → ℕ) (f : QueuedMessage → QueuedMessage) (xs : List QueuedMessage)
    → ((m : QueuedMessage) → measure (f m) ≡ measure m)
    → total measure (map f xs) ≡ total measure xs
total-map measure f [] same = refl
total-map measure f (x ∷ xs) same = omega (arith, same x, total-map measure f xs same)

pub push_keeps :
    (measure : QueuedMessage → ℕ) (number waiter : ℕ) (m : QueuedMessage)
    → ((w : List ℕ) → measure (record m { waiters = w }) ≡ measure m)
    → measure (push_waiter number waiter m) ≡ measure m
push_keeps measure number waiter m same = elim (Bool-cases (eqb m.number number)) [
  | inl here ↦ rw here (same (m.waiters ++ waiter ∷ []))
  | inr other ↦ rw other refl
]

progress-ordinary : (k : MessageKind) → is_progress k ≡ true → is_ordinary k ≡ true
progress-ordinary progress h = refl
progress-ordinary _ h = cc

message-eq : {a b : QueuedMessage} → some a ≡ some b → a ≡ b
message-eq h = cc

-- Replacing the data of the message that `find` gives changes the totals by the difference.
pub total-replace :
    (task_id : String) (bytes waiter : ℕ) (queue : List QueuedMessage) (old : QueuedMessage)
    → find (is_progress_of task_id) queue ≡ some old
    → (total (λ m. m.bytes) (replace_first task_id bytes waiter queue) + old.bytes
        ≡ total (λ m. m.bytes) queue + bytes)
      × (total ordinary_bytes (replace_first task_id bytes waiter queue) + old.bytes
          ≡ total ordinary_bytes queue + bytes)
      × (total ordinary_event (replace_first task_id bytes waiter queue)
          ≡ total ordinary_event queue)
      × (total (λ m. 1) (replace_first task_id bytes waiter queue) ≡ total (λ m. 1) queue)
unfolding replace_first
total-replace task_id bytes waiter [] old h = cc
total-replace task_id bytes waiter (m ∷ rest) old h = elim (Bool-cases (is_progress_of task_id m)) [
  | inl here ↦
      let same : m ≡ old = message-eq (ground arith) in
      let ordinary = progress-ordinary m.kind (and_split _ _ here).0 in
      let bytes_same = ap (λ (q : QueuedMessage). q.bytes) same in
      rw (here, ordinary) (omega (arith, bytes_same), omega (arith, bytes_same), refl, refl)
  | inr other ↦
      let (all_bytes, ordinary, events, count) =
        total-replace task_id bytes waiter rest old (ground arith) in
      rw other (
        omega (arith, all_bytes),
        omega (arith, ordinary),
        omega (arith, events),
        omega (arith, count),
      )
]
