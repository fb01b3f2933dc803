-- ===== src/Kafka/AvroKafkaSink/Ordered/Tests.antt =====
-- The order of the messages of the thread of src/kafka/avro_kafka_sink.cpp with small brokers.
use packetpipe.Common.{
  ℕ, zero, suc, ◌≡◌, refl, Bool, true, false, Option, none, some, List, [], ◌∷◌, map,
}
use packetpipe.Common.Int.{pos}
use packetpipe.Config.{defaults}
use packetpipe.Events.{FlowEvent, start, idle_timeout}
use packetpipe.Kafka.KafkaProducer.{Librdkafka, poll, flush}
use packetpipe.Kafka.KafkaProducer.Journal.{journaled}
use packetpipe.Kafka.AvroKafkaSink.{has_room, Observation, init_sink, sink_thread_func}
use packetpipe.Kafka.AvroKafkaSink.Ordered.{oldest_first}

-- One message fits until every second poll. The state is that of the queue and of the polls.
abbrev push_one : ℕ → Bool × ℕ
push_one zero = (true, 2)
push_one (suc n) = (false, suc n)

abbrev poll_one : ℕ → ℕ
poll_one zero = zero
poll_one (suc n) = n

abbrev narrow : Librdkafka ℕ ℕ ℕ
narrow = record {
  rd_produce = λ key payload n. push_one n;
  rd_poll = λ n. ([], poll_one n);
  rd_flush = λ n. ([], true, zero);
}

-- librdkafka takes no payload 1, such as a message that is too large, and every other.
abbrev choosy : Librdkafka ℕ ℕ ℕ
choosy = record {
  rd_produce = λ key payload n. elim payload [ suc zero ↦ (false, n) | _ ↦ (true, n) ];
  rd_poll = λ n. ([], n);
  rd_flush = λ n. ([], true, n);
}

-- Events of one flow, told apart by their number of packets.
abbrev event : ℕ → FlowEvent
event n = record {
  type = start;
  state = record {
    key = record { src_ip = []; dst_ip = []; src_port = 7; dst_port = 80; protocol = 6 };
    start_us = pos 0;
    last_seen_us = pos 0;
    packet_count = n;
    byte_count = 100;
  };
  event_timestamp_us = pos 0;
  reason = idle_timeout;
}

abbrev sees : Option FlowEvent → Observation
sees e = record { stop_requested = false; queue_empty = false; maybe_evt = e }

abbrev observed : List Observation
observed =
    sees (some (event 1))
    ∷ sees (some (event 2))
    ∷ sees (some (event 3))
    ∷ sees none
    ∷ sees (some (event 4))
    ∷ record { stop_requested = true; queue_empty = true; maybe_evt = none }
    ∷ []

abbrev payloads : List (ℕ × ℕ) → List ℕ
payloads ms = map (λ (m : ℕ × ℕ). m.1) (oldest_first ms)

-- Under back pressure the first three are published in their order, and the last one waits.
in_order_test :
    let s =
      sink_thread_func
        (journaled narrow)
        (λ e. some e.state.packet_count)
        (λ k. k.src_port)
        observed
        (init_sink (defaults "1.0.0") (0, [])) in
    (payloads s.producer.broker.1 ≡ 1 ∷ 2 ∷ 3 ∷ [])
    × (map (λ (e : FlowEvent). e.state.packet_count) s.retry_buf ≡ 4 ∷ [])
unfolding sink_thread_func init_sink defaults poll has_room journaled flush
in_order_test = (refl, refl)

-- A message that librdkafka never takes stays in front of the retry buffer, later events of its flow
-- are published.
overtaken_test :
    let s =
      sink_thread_func
        (journaled choosy)
        (λ e. some e.state.packet_count)
        (λ k. k.src_port)
        observed
        (init_sink (defaults "1.0.0") (0, [])) in
    (payloads s.producer.broker.1 ≡ 2 ∷ 3 ∷ 4 ∷ [])
    × (map (λ (e : FlowEvent). e.state.packet_count) s.retry_buf ≡ 1 ∷ [])
unfolding sink_thread_func init_sink defaults poll has_room journaled flush
overtaken_test = (refl, refl)
