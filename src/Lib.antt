-- ===== src/Lib.antt =====
-- PacketPipe, a C++20 program that turns captured packets into flow events and publishes them to
-- Kafka.
--
-- A packet source hands each captured frame to the packet decoder
-- (src/packets/packet_decoder.cpp) and each parsed packet to the flow table
-- (src/flowtable/flow_table.cpp), which a timer thread also sweeps. The flow table sends start,
-- stats and end events through a callback, which main.cpp makes the `push` of the event queue
-- (src/events/event_queue.hpp); a sink thread pops them, serializes them and publishes them.
--
-- The files, and the code that each is about:
--
-- - Common: Boolean tests, lists over the native numbers, integers, bits, results, and the text
--   functions of the C++ library that the program calls. No code of the program.
-- - Events: src/events/flow_key.hpp, flow_state.hpp, flow_event.hpp. `FlowKey`, `FlowState`,
--   `FlowEvent`, and `key_eq` for the defaulted comparison. Events/FlowKeyHash is the hash of
--   flow_key.hpp.
-- - Events/EventQueue: src/events/event_queue.hpp. The fields of the record `EventQueue` are the
--   members `buffer_`, `head_` and `tail_`; `push`, `pop`, `pop_wait`, `empty`, `size` are the
--   methods, for any capacity that passes the static assertion and any element type.
--   EventQueue/Threads splits `push` and `pop` into the single accesses to shared memory and
--   lets two threads take turns with them.
-- - Metrics: src/metrics/imetrics_registry.hpp and metrics_registry.cpp. A counter is the number
--   of its increments; the gauge is an integer. Metrics/MetricsRegistry: the constructor and the
--   accessors of src/metrics/metrics_registry.cpp, with prometheus-cpp as the record
--   `Prometheus` and its laws in MetricsRegistry/Series.
-- - Config: src/config/app_config.hpp, with its defaults. Config/Parser:
--   src/config/config_parser.cpp, where the chain of comparisons is `flag_of`, a flag's branch
--   `set_option` and the loop `parse_loop`; an exception is an error value.
--   Config/Parser/Settings says independently what command lines there are and what they set.
-- - Packets: src/packets/parsed_packet.hpp. Packets/Decoder: `PacketDecoder::decode`, layer by
--   layer. Packets/Outcome is its result: a value, a rejection (`std::nullopt`), or a fault,
--   which is a read outside the captured bytes. Packets/Decoder/Frame is an independent
--   description of the frames that the round trip is about.
-- - Avro: src/avro/avro_serializer.cpp. `flow_id`, `datum_of` for the record that `serialize`
--   fills, and `wire_format`; Avro/Schema has the schema of schemas/FlowEvent.avsc and the datum
--   by its indices; Avro/FlowId is about the flow id; `inet_ntop`, the number of the schema's
--   fields and the Avro encoder are the record `Libraries`.
-- - Avro/SchemaRegistryClient: src/avro/schema_registry_client.cpp, with the HTTP client and the
--   JSON library as the record `Registry`.
-- - Kafka: KafkaProducer for src/kafka/kafka_producer.cpp, with librdkafka as a record of
--   functions, KafkaProducer/Settings for its constructor, KafkaProducer/Journal to keep the
--   messages that librdkafka took, and AvroKafkaSink for the thread of
--   src/kafka/avro_kafka_sink.cpp. The serializer and the message key are arguments.
--   `sink_thread_func` takes a list of what the thread observes in each turn; a list that ends
--   before a stop is a thread that still runs. AvroKafkaSink/Ordered is about the order of its
--   messages, AvroKafkaSink/Booked about where each event is, AvroKafkaSink/Shutdown about its
--   end.
-- - Packets/Sources: src/packets/pcap_file_source.cpp and live_capture_source.cpp, with the
--   answers of libpcap as a record; a run records which handles and filters it acquires and
--   releases. Packets/Sources/Stop is `stop` beside a run, its errors and the destructor, as a
--   step relation.
-- - Main: src/main.cpp. `Program` is the state of the whole program, `Step` one piece of work of
--   one of its threads. Main/Published and Main/Invariant follow the numbers of frames and
--   events through the program, Main/Traced, Main/Tracing and Main/Messages each event, down to
--   the messages; Main/Drained is about a sink that catches up. Main/StartUp is the way from the
--   command line to the running program, and the exit code.
-- - Flowtable: src/flowtable/flow_table.cpp. The record `FlowTable` has the members of the
--   class, `emit`, `expire_flow`, `process`, `timer_sweep` and `drain_all` are its methods, with
--   the two branches of `process` and the loops as functions of their own. Flowtable/FlowMap is
--   the map `flows_`.
--
-- Modelling choices. The `std::unordered_map` is an association list: its order stands for the
-- unspecified order of iteration. The flow table's model does not use the hash. The mutex makes
-- the calls of the two threads a sequence, `run` over a list of `Call`. The callback is any
-- function from an event and a state of the sink to an answer and a new state. Timestamps,
-- `int64_t`, are unbounded integers, and the `int` settings are natural numbers, since the
-- parser takes positive values only; the counters of a flow wrap at 2^64, the number of flows is
-- cast to `int` as the code does, and `drop_count` counts the increments of the int
-- `drop_count_`, where `overflowed` says that one of them overflowed, which is undefined. Log
-- lines are values. The Prometheus counters are doubles in the code and numbers here. Stores and
-- loads of the event queue are sequentially consistent: with one producer and one consumer,
-- release and acquire allow no more. What the condition variable of `pop_wait` does is the
-- parameter `meanwhile`: which events arrive before the wait ends, be it by notification or by
-- the time limit.
--
-- The components refer to one registry of metrics. In Main the table, the source and the sink
-- therefore work in turn on the registry of the `Program`; a `Step` is one frame, one sweep, one
-- drain, or one half of a turn of the sink, and the steps come in any order. The mutex keeps
-- frames and sweeps apart; but the sink thread can take events off the queue between two pushes
-- of one sweep or drain, which the steps leave out. It bears only on which events a full queue
-- refuses. The buffer between the table and the sink is the event queue with the list of all
-- events that were pushed kept beside it.
--
-- Every loop is a structural recursion: over the packets, the entries of the table, the bytes,
-- the arguments, the lines of a file, or a list of what a thread observes in each turn; so there
-- is no fuel, but in the digits of `std::to_string` (Common/Decimal), whose fuel is one more
-- than the number.
--
-- Not modelled: the inside of prometheus-cpp, libpcap, librdkafka, the Avro library, the schema
-- registry's HTTP calls, signals, the log and the start of threads, which are libraries or input
-- and output.
pub mod Common
pub mod Events
pub mod Metrics
pub mod Config
pub mod Packets
pub mod Flowtable
pub mod Avro
pub mod Kafka
pub mod Main
