-- ===== src/Events/Tests.antt =====
-- The ring of src/events/event_queue.hpp and the hash of flow_key.hpp on small inputs.
use packetpipe.Common.{
  ℕ, ◌≡◌, ◌≢◌, ◌^◌, replicate, refl, true, false, none, some, List, [], ◌∷◌, ◌++◌, ◌<◌, map, length,
  arith,
}
use packetpipe.Events.{FlowKey}
use packetpipe.Events.FlowKeyHash.{fnv_offset, mix_all, hash}
use packetpipe.Events.FlowKeyHash.Apart.{DifferOnce, hash-DifferOnce}
use packetpipe.Events.EventQueue.{IsCapacity, fresh, next, add_size}
use packetpipe.Events.EventQueue.Fifo.{Op, pushed, popped, is_empty, counted, fifo_run}
use packetpipe.Events.EventQueue.Refine.{run_ops, run-refines}
use packetpipe.Events.EventQueue.Threads.{
  Producer, Consumer, Turn, produce, consume, interleave, start,
}
use packetpipe.Events.EventQueue.Threads.Delivery.{interleave-accepted, interleave-apart}

four-IsCapacity : IsCapacity 4
four-IsCapacity = record { positive = omega arith; single_bit = refl; fits = omega arith }

-- The ring of four places takes three elements, refuses a fourth and goes round its end.
abbrev calls : List (Op ℕ)
calls =
    Op.pop_wait []
    ∷ Op.push 7
    ∷ Op.push 8
    ∷ Op.push 9
    ∷ Op.push 10
    ∷ Op.size
    ∷ Op.pop
    ∷ Op.push 11
    ∷ Op.pop
    ∷ Op.pop
    ∷ Op.pop
    ∷ Op.empty
    ∷ Op.pop_wait (12 ∷ 13 ∷ [])
    ∷ Op.size
    ∷ []

answers_test : fifo_run 4 calls [] ≡ (
    popped none
    ∷ pushed true
    ∷ pushed true
    ∷ pushed true
    ∷ pushed false
    ∷ counted 3
    ∷ popped (some 7)
    ∷ pushed true
    ∷ popped (some 8)
    ∷ popped (some 9)
    ∷ popped (some 11)
    ∷ is_empty true
    ∷ popped (some 12)
    ∷ counted 1
    ∷ [])
answers_test = refl

run-refines_example : run_ops 4 calls (fresh 4 0) ≡ fifo_run 4 calls []
run-refines_example = run-refines 4 0 calls four-IsCapacity

-- One event goes through while a second is on its way: the producer is about to write place 1, the
-- consumer to read place 0.
abbrev turns : List (Turn ℕ)
turns =
    produce 7 ∷ consume ∷ produce 7 ∷ produce 7 ∷ produce 7 ∷ produce 8 ∷ consume ∷ produce 8 ∷ []

-- The first is delivered before the second is in, and the second waits.
abbrev more_turns : List (Turn ℕ)
more_turns = turns ++ (consume ∷ produce 8 ∷ consume ∷ produce 8 ∷ consume ∷ [])

turns_test :
    ((interleave 4 turns (start 4 0)).producer ≡ Producer.writing 8 1)
    × ((interleave 4 turns (start 4 0)).consumer ≡ Consumer.reading 0)
unfolding interleave start next add_size
turns_test = (refl, refl)

more_turns_test :
    ((interleave 4 more_turns (start 4 0)).accepted ≡ 7 ∷ 8 ∷ [])
    × ((interleave 4 more_turns (start 4 0)).delivered ≡ some 7 ∷ [])
unfolding interleave start next add_size
more_turns_test = (refl, refl)

interleave-accepted_example :
    (xs : List ℕ) × (map some (interleave 4 more_turns (start 4 0)).accepted
      ≡ (interleave 4 more_turns (start 4 0)).delivered ++ map some xs)
    × (length xs < 4)
interleave-accepted_example = interleave-accepted 4 0 more_turns four-IsCapacity

interleave-apart_example : ¬ (Path ℕ 1 0)
unfolding interleave start next add_size
interleave-apart_example = interleave-apart 4 0 turns 8 1 0 four-IsCapacity refl refl

abbrev tcp_key : FlowKey
tcp_key = record {
  src_ip = replicate 16 1;
  dst_ip = replicate 16 2;
  src_port = 443;
  dst_port = 51_000;
  protocol = 6;
}

abbrev udp_key : FlowKey
udp_key = record tcp_key { protocol = 17 }

-- The published value for the text "a".
mix_test : mix_all (97 ∷ []) fnv_offset ≡ 0xaf63dc4c8601ec8c
unfolding mix_all
mix_test = refl

abbrev protocols_differ : DifferOnce tcp_key udp_key
protocols_differ = record {
  front = replicate 16 1 ++ (replicate 16 2 ++ (1 ∷ 187 ∷ 199 ∷ 56 ∷ []));
  back = [];
  byte = 6;
  other = 17;
  apart = λ e. omega (arith, e);
  first = refl;
  second = refl;
}

hash-DifferOnce_example : (hash tcp_key < 2 ^ 64) × (hash tcp_key ≢ hash udp_key)
hash-DifferOnce_example =
    hash-DifferOnce tcp_key udp_key
      (record { src_ip = omega arith; dst_ip = omega arith; protocol = omega arith })
      (record { src_ip = omega arith; dst_ip = omega arith; protocol = omega arith })
      protocols_differ
