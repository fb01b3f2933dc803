-- ===== src/Events/EventQueue/Threads.antt =====
-- The producer and the consumer of src/events/event_queue.hpp as two threads, which take turns in any
-- order. A turn is one access to memory of the two threads share: a load or a store of an index, or of
-- a place of the array. Release stores and acquire loads make the accesses sequentially consistent
-- as far as the two threads can tell.
mod Sound
mod Order
pub mod Delivery
use packetpipe.Common.{
  ℕ, Bool, true, false, Option, none, some, List, [], ◌∷◌, ◌++◌, ◌==◌, if◌then◌else◌, get_elem?,
  set,
}
use packetpipe.Events.EventQueue.{EventQueue, next, fresh}

-- Where the producer stands in `push`, with its local variables.
pub data Producer {ℓ} (A : Type ℓ) : Type ℓ where
  idle : Producer A
  loaded : A → ℕ → Producer A
  writing : A → ℕ → Producer A
  storing : A → ℕ → Producer A

-- Where the consumer stands in `pop`.
pub data Consumer {ℓ} (A : Type ℓ) : Type ℓ where
  idle : Consumer A
  loaded : ℕ → Consumer A
  reading : ℕ → Consumer A
  storing : ℕ → Option A → Consumer A

-- `accepted` and `delivered` are the events that `push` returned true for and that `pop` returned,
-- in the order of the calls, and `refused` those that `push` returned false for.
pub record Threads {ℓ} (A : Type ℓ) : Type ℓ where
  pub queue : EventQueue A
  pub producer : Producer A
  pub consumer : Consumer A
  pub accepted : List A
  pub refused : List A
  pub delivered : List (Option A)

-- The producer's next access, with the event that it pushes if it has none in hand, or the consumer's.
pub data Turn {ℓ} (A : Type ℓ) : Type ℓ where
  produce : A → Turn A
  consume : Turn A

module _ (n : ℕ) where
  module _ {ℓ} {A : Type ℓ} where
    unfoldable pub produce_step : A → Threads A → Producer A → Threads A
    produce_step evt s idle = record s { producer = Producer.loaded evt s.queue.tail }
    produce_step evt s (loaded e tail) =
        if next n tail == s.queue.head
        then record s { producer = Producer.idle; refused = s.refused ++ (e ∷ []) }
        else record s { producer = Producer.writing e tail }
    produce_step evt s (writing e tail) = record s {
      queue = record s.queue { buffer = set s.queue.buffer tail e };
      producer = Producer.storing e tail;
    }
    produce_step evt s (storing e tail) = record s {
      queue = record s.queue { tail = next n tail };
      producer = Producer.idle;
      accepted = s.accepted ++ (e ∷ []);
    }

    unfoldable pub consume_step : Threads A → Consumer A → Threads A
    consume_step s idle = record s { consumer = Consumer.loaded s.queue.head }
    consume_step s (loaded head) =
        if head == s.queue.tail
        then record s { consumer = Consumer.idle }
        else record s { consumer = Consumer.reading head }
    consume_step s (reading head) = record s {
      consumer = Consumer.storing head (get_elem? s.queue.buffer head);
    }
    consume_step s (storing head evt) = record s {
      queue = record s.queue { head = next n head };
      consumer = Consumer.idle;
      delivered = s.delivered ++ (evt ∷ []);
    }

    unfoldable pub turn : Turn A → Threads A → Threads A
    unfolding produce_step consume_step
    turn (produce evt) s = produce_step evt s s.producer
    turn consume s = consume_step s s.consumer

    unfoldable pub interleave : List (Turn A) → Threads A → Threads A
    unfolding turn
    interleave [] s = s
    interleave (t ∷ ts) s = interleave ts (turn t s)

    unfoldable pub start : A → Threads A
    unfolding fresh
    start default = record {
      queue = fresh n default;
      producer = Producer.idle;
      consumer = Consumer.idle;
      accepted = [];
      refused = [];
      delivered = [];
    }
