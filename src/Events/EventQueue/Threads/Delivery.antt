-- ===== src/Events/EventQueue/Threads/Delivery.antt =====
-- The events of src/events/event_queue.hpp arrive whole and in order, however its two threads take
-- turns.
use packetpipe.Common.{ℕ, ◌<◌, ◌≡◌, ◌≢◌, sym, subst, ◌∙◌, some, List, [], ◌++◌, map, length}
use packetpipe.Events.EventQueue.{IsCapacity, EventQueue}
use packetpipe.Events.EventQueue.Held.{Holds}
use packetpipe.Events.EventQueue.Index.{turn_ne}
use packetpipe.Events.EventQueue.Threads.{Producer, Consumer, Turn, interleave, start}
use packetpipe.Events.EventQueue.Threads.Sound.{ProducerAt, ConsumerAt}
use packetpipe.Events.EventQueue.Threads.Order.{interleave-Sound, start-Sound}

-- Where the capacity is what the static assertion asks for and fits the address space: however the
-- producer and the consumer take turns from a fresh queue, the events that `pop` delivered, followed
-- by fewer than `n` events, are the events for which `push` returned true, in their order. None is
-- lost, doubled, torn or overtaken.
pub interleave-accepted {ℓ} :
    {A : Type ℓ} (n : ℕ) (default : A) (ts : List (Turn A))
    → IsCapacity n
    → (xs : List A) × (map some (interleave n ts (start n default)).accepted
        ≡ (interleave n ts (start n default)).delivered ++ map some xs)
      × (length xs < n)
interleave-accepted n default ts c =
    let (xs, h) = interleave-Sound n c ts (start n default) [] (start-Sound n c default) in
    (xs, h.order, h.holds.room)

apart {ℓ} :
    {A : Type ℓ} (n : ℕ) (q : EventQueue A) (xs : List A) (e : A) (i j : ℕ)
    → Holds n q xs
    → ProducerAt n q xs (Producer.writing e i)
    → ConsumerAt q.head xs (Consumer.reading j)
    → i ≢ j
apart n q xs e i j h pa ca same =
    turn_ne n q.head (length xs) h.head ca.1 h.room (sym h.tail ∙ sym pa.0 ∙ same ∙ ca.0)

-- Where the capacity is what the static assertion asks for and fits the address space: however the
-- two threads take turns from a fresh queue, when the producer is about to write a place of the array
-- and the consumer about to read one, the two places differ.
pub interleave-apart {ℓ} :
    {A : Type ℓ} (n : ℕ) (default : A) (ts : List (Turn A)) (e : A) (i j : ℕ)
    → IsCapacity n
    → (interleave n ts (start n default)).producer ≡ Producer.writing e i
    → (interleave n ts (start n default)).consumer ≡ Consumer.reading j
    → i ≢ j
interleave-apart n default ts e i j c p q =
    let s = interleave n ts (start n default) in
    let (xs, h) = interleave-Sound n c ts (start n default) [] (start-Sound n c default) in
    apart n s.queue xs e i j h.holds (subst (ProducerAt n s.queue xs) p h.producer)
      (subst (ConsumerAt s.queue.head xs) q h.consumer)
