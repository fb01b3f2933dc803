-- ===== src/Main/Messages/Tests.antt =====
-- The messages of a small run of src/main.cpp.
use Prim.Native.String.{String}
use packetpipe.Common.{ℕ, ◌≡◌, refl, true, some, List, [], ◌∷◌, map, arith}
use packetpipe.Common.Int.{pos}
use packetpipe.Config.{defaults}
use packetpipe.Events.EventQueue.{fresh}
use packetpipe.Avro.{Libraries, flow_id, serialize}
use packetpipe.Kafka.KafkaProducer.{Librdkafka}
use packetpipe.Kafka.KafkaProducer.Journal.{journaled}
use packetpipe.Packets.Outcome.{ok}
use packetpipe.Main.{Program, default_event_queue_capacity, begin, perform_all}
use packetpipe.Main.Sound.{Recorded, recorded_buffer}
use packetpipe.Main.Samples.{broker, steps, some_event}
use packetpipe.Main.Messages.{
  IsPublished, read_message, event_message, perform_all-IsPublished, perform_all-event_message,
}

perform_all-IsPublished_example :
    (p : Program Recorded (ℕ × List (ℕ × ℕ))) × (perform_all recorded_buffer
        (journaled broker)
        (λ e. some 1)
        (λ k. k.src_port)
        steps
        (begin (defaults "1.0.0") (fresh default_event_queue_capacity some_event, []) (0, []))
      ≡ ok p)
    × IsPublished (λ e. some 1) (λ k. k.src_port) p
perform_all-IsPublished_example =
    perform_all-IsPublished (λ e. some 1) (λ k. k.src_port) broker (defaults "1.0.0") some_event 0
      steps (omega arith)

abbrev libraries : Libraries
libraries = record {
  inet_ntop4 = λ ip. "10.0.0.1";
  inet_ntop6 = λ ip. "fe80::1";
  field_count = 13;
  encode = λ datum. some (1 ∷ 2 ∷ 3 ∷ []);
}

abbrev taker : Librdkafka ℕ String (List ℕ)
taker = record {
  rd_produce = λ key payload n. (true, n);
  rd_poll = λ n. ([], n);
  rd_flush = λ n. ([], true, n);
}

perform_all-event_message_example :
    (p : Program Recorded (ℕ × List (String × List ℕ))) × (perform_all recorded_buffer
        (journaled taker)
        (serialize libraries (pos 7))
        (flow_id libraries)
        steps
        (begin (defaults "1.0.0") (fresh default_event_queue_capacity some_event, []) (0, []))
      ≡ ok p)
    × (h : IsPublished (serialize libraries (pos 7)) (flow_id libraries) p) × (map read_message
          p.sink.producer.broker.1
        ≡ map (event_message libraries 7) h.sent)
perform_all-event_message_example =
    perform_all-event_message libraries 7 (omega arith) refl taker (defaults "1.0.0") some_event 0
      steps (omega arith)
