-- ===== src/Chat/Outbound/Fifo.antt =====
-- The outgoing queue as a first-in first-out channel.
use veilroom.Prelude.{
  List, Option, [], ap, arith, length, length-append, none, refl, some, ℕ, ◌++◌, ◌∷◌, ◌≡◌, ◌≤◌,
}
use mathlib.Core.List.{append_assoc}
use veilroom.Chat.Outbound.{OutboundQueue, PushResult, ok, queue_full, new, push, pop, pop_front}

-- What the room does with a queue: offer a message, or take the oldest one for the connection.
pub data Call {ℓ} (A : Type ℓ) : Type ℓ where
  pushes : A → Call A
  pops : Call A

-- A queue with the messages that it took and those that it gave out, oldest first.
pub record Trace {ℓ} (A : Type ℓ) : Type ℓ where
  pub queue : OutboundQueue A
  pub taken : List A
  pub given : List A

module _ {ℓ} {A : Type ℓ} where
  after_push : Trace A → A → OutboundQueue A × PushResult → Trace A
  after_push t a (q, ok) = record { queue = q; taken = t.taken ++ a ∷ []; given = t.given }
  after_push t a (q, queue_full) = record t { queue = q }

  after_pop : Trace A → OutboundQueue A × Option A → Trace A
  after_pop t (q, none) = record t { queue = q }
  after_pop t (q, some a) = record { queue = q; taken = t.taken; given = t.given ++ a ∷ [] }

  step : Trace A → Call A → Trace A
  unfolding after_push after_pop push pop
  step t (pushes a) = after_push t a (push t.queue a)
  step t pops = after_pop t (pop t.queue)

  pub run : Trace A → List (Call A) → Trace A
  run t [] = t
  run t (c ∷ cs) = run (step t c) cs

  abbrev pub start : ℕ → Trace A
  start capacity = record { queue = new capacity; taken = []; given = [] }

  pub record IsFifo (t : Trace A) : Type ℓ where
    pub in_order : t.taken ≡ t.given ++ t.queue.items
    pub bounded : length t.queue.items ≤ t.queue.capacity

  pop-IsFifo :
      (t : Trace A) (xs : List A)
      → t.queue.items ≡ xs
      → IsFifo t
      → IsFifo (after_pop t (pop_front t.queue xs))
  unfolding after_pop pop_front
  pop-IsFifo t [] e v = v
  pop-IsFifo t (x ∷ xs) e v = ground (arith, ap length e, append_assoc t.given (x ∷ []) xs)

  step-IsFifo : (t : Trace A) (c : Call A) → IsFifo t → IsFifo (step t c)
  unfolding step
  step-IsFifo t (pushes a) v =
      ground
        (arith, append_assoc t.given t.queue.items (a ∷ []), length-append t.queue.items (a ∷ []))
  step-IsFifo t pops v = pop-IsFifo t t.queue.items refl v

  run-IsFifo : (t : Trace A) (cs : List (Call A)) → IsFifo t → IsFifo (run t cs)
  unfolding run
  run-IsFifo t [] v = v
  run-IsFifo t (c ∷ cs) v = run-IsFifo (step t c) cs (step-IsFifo t c v)

  -- After any calls on a new queue the accepted messages are those given out followed by those still
  -- queued, in the order in which they came, and the queue never holds more than its capacity.
  pub run-new-IsFifo : (capacity : ℕ) (cs : List (Call A)) → IsFifo (run (start capacity) cs)
  unfolding new
  run-new-IsFifo capacity cs = run-IsFifo _ cs (record { in_order = refl; bounded = omega arith })
