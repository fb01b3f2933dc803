-- ===== src/Kafka/Tests.antt =====
-- The sink of src/kafka/avro_kafka_sink.cpp with a broker whose state is the list of its answers; each
-- poll reports one failed delivery.
use packetpipe.Common.{
  length, refl, ◌≡◌, ℕ, zero, suc, Bool, true, false, Option, none, some, List, [], ◌∷◌, ◌++◌,
  arith,
}
use packetpipe.Common.Int.{pos}
use packetpipe.Config.{AppConfig, defaults}
use packetpipe.Events.{FlowEvent, start, idle_timeout}
use packetpipe.Kafka.KafkaProducer.{poll, Librdkafka}
use packetpipe.Kafka.AvroKafkaSink.{has_room, Observation, init_sink, sink_thread_func}
use packetpipe.Kafka.AvroKafkaSink.Bound.{IsBounded, sink_thread_func-IsBounded}
use packetpipe.Kafka.AvroKafkaSink.Shutdown.{shutdown, retry_buf-sink_thread_func}
use packetpipe.Kafka.AvroKafkaSink.Accounts.{taken}

abbrev answer : List Bool → Bool × List Bool
answer [] = (true, [])
answer (a ∷ rest) = (a, rest)

abbrev broker : Librdkafka (List Bool) ℕ ℕ
broker = record {
  rd_produce = λ key payload script. answer script;
  rd_poll = λ script. (true ∷ [], script);
  rd_flush = λ script. ([], true, script);
}

abbrev answers : List Bool
answers = false ∷ false ∷ false ∷ true ∷ false ∷ []

abbrev event : ℕ → FlowEvent
event port = record {
  type = start;
  state = record {
    key = record { src_ip = []; dst_ip = []; src_port = port; dst_port = 80; protocol = 6 };
    start_us = pos 0;
    last_seen_us = pos 0;
    packet_count = 1;
    byte_count = 100;
  };
  event_timestamp_us = pos 0;
  reason = idle_timeout;
}

-- Port 0 is not serializable.
abbrev payload_of : ℕ → Option ℕ
payload_of zero = none
payload_of (suc n) = some (suc n)

abbrev small : AppConfig
unfolding defaults
small = record (defaults "1.0.0") { sr_buffer_size = 1 }

abbrev sees : Option FlowEvent → Observation
sees e = record { stop_requested = false; queue_empty = false; maybe_evt = e }

-- The first event waits, the second finds no room, the third is not serializable while the first is
-- retried, the fourth waits when the stop comes.
abbrev observed : List Observation
observed =
    sees (some (event 1))
    ∷ sees (some (event 2))
    ∷ sees (some (event 0))
    ∷ sees (some (event 3))
    ∷ record { stop_requested = true; queue_empty = true; maybe_evt = none }
    ∷ []

observed_test :
    (length
        (sink_thread_func broker
          (λ e. payload_of e.state.key.src_port)
          (λ k. k.src_port)
          observed
          (init_sink small answers)).retry_buf
      ≡ 1)
    × (taken observed ≡ 4)
unfolding sink_thread_func init_sink small poll has_room
observed_test = (refl, refl)

sink_thread_func-IsBounded_example : IsBounded (
    sink_thread_func broker
      (λ e. payload_of e.state.key.src_port)
      (λ k. k.src_port)
      observed
      (init_sink small answers))
unfolding init_sink small
sink_thread_func-IsBounded_example =
    sink_thread_func-IsBounded broker (λ e. payload_of e.state.key.src_port) (λ k. k.src_port)
      observed (init_sink small answers) (record { size = omega arith; bounded = omega arith })

abbrev port_of : FlowEvent → Option ℕ
port_of e = some e.state.key.src_port

abbrev refusing : Librdkafka ℕ ℕ ℕ
refusing = record {
  rd_produce = λ key payload b. (false, b);
  rd_poll = λ b. ([], b);
  rd_flush = λ b. ([], true, b);
}

retry_buf-sink_thread_func_example :
    (sink_thread_func refusing port_of
      (λ k. k.src_port)
      (shutdown (event 1 ∷ []) [])
      (init_sink small 0)).retry_buf
    ≡ [] ++ (event 1 ∷ [])
unfolding init_sink small
retry_buf-sink_thread_func_example =
    retry_buf-sink_thread_func refusing port_of (λ k. k.src_port) (λ key payload b. refl)
      (λ e. (e.state.key.src_port, refl)) (event 1 ∷ []) [] (init_sink small 0) (omega arith)
      (omega arith)
