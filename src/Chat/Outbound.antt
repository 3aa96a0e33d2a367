-- ===== src/Chat/Outbound.antt =====
-- chat/outbound.rs: the bounded queue of messages that wait for one connection.
pub mod Fifo
use veilroom.Prelude.{
  Bool, List, Option, [], false, if◌then◌else◌, leb, length, none, some, true, ℕ, ◌++◌, ◌∷◌,
}

pub data PushResult : Type 0 where
  ok queue_full : PushResult

-- The head of `items` is the front of the deque.
pub record OutboundQueue {ℓ} (A : Type ℓ) : Type ℓ where
  pub capacity : ℕ
  pub items : List A

module _ {ℓ} {A : Type ℓ} where
  unfoldable pub new : ℕ → OutboundQueue A
  new capacity = record { capacity = capacity; items = [] }

  unfoldable pub len : OutboundQueue A → ℕ
  len q = length q.items

  unfoldable pub is_empty : OutboundQueue A → Bool
  is_empty q = elim q.items [ [] ↦ true | x ∷ xs ↦ false ]

  unfoldable pub is_full : OutboundQueue A → Bool
  is_full q = leb q.capacity (length q.items)

  unfoldable pub push : OutboundQueue A → A → OutboundQueue A × PushResult
  unfolding is_full
  push q item =
      if is_full q then (q, queue_full) else (record q { items = q.items ++ item ∷ [] }, ok)

  pop_front : OutboundQueue A → List A → OutboundQueue A × Option A
  pop_front q [] = (q, none)
  pop_front q (item ∷ rest) = (record q { items = rest }, some item)

  unfoldable pub pop : OutboundQueue A → OutboundQueue A × Option A
  unfolding pop_front
  pop q = pop_front q q.items
