-- ===== src/Kafka/AvroKafkaSink/Bound.antt =====
-- The retry buffer of src/kafka/avro_kafka_sink.cpp stays within its size.
use packetpipe.Common.{
  ◌^◌, ◌≤◌, ◌<◌, inl, inr, Bool, true, false, ◌&&◌, Bool-cases, Option, none, some, List, [], ◌∷◌,
  length, length-append, arith,
}
use packetpipe.Events.{FlowEvent, FlowKey}
use packetpipe.Flowtable.Invariant.{to_int_small}
use packetpipe.Kafka.KafkaProducer.{Librdkafka, KafkaProducer}
use packetpipe.Kafka.AvroKafkaSink.{
  AvroKafkaSink, Observation, has_room, after_attempt, retry_payload, retry_loop, attempt_produce,
  consume_one, loop_turn, sink_thread_func,
}

pub record IsBounded {B : Type 0} (s : AvroKafkaSink B) : Type 0 where
  pub size : s.sr_buffer_size < 2 ^ 31
  pub bounded : length s.retry_buf ≤ s.sr_buffer_size

module _ {B : Type 0} where
  after_attempt-IsBounded :
      (evt : FlowEvent) (s : AvroKafkaSink B) (r : Bool × KafkaProducer B)
      → IsBounded s
      → IsBounded (after_attempt evt s r)
  unfolding after_attempt has_room
  after_attempt-IsBounded evt s (true, p) h = record { size = h.size; bounded = h.bounded }
  after_attempt-IsBounded evt s (false, p) h = elim (Bool-cases (has_room s)) [
    | inl e ↦ rw e (record {
      size = h.size;
      bounded = ground (
        arith,
        e,
        h.size,
        h.bounded,
        to_int_small (length s.retry_buf),
        length-append s.retry_buf (evt ∷ []),
      );
    })
    | inr e ↦ rw e (record { size = h.size; bounded = h.bounded })
  ]

module _ {B K V : Type 0} (rd : Librdkafka B K V) (serialize : FlowEvent → Option V)
    (flow_id : FlowKey → K) where
  pub length-retry_loop :
      (evts : List FlowEvent) (p : KafkaProducer B)
      → length (retry_loop rd serialize flow_id evts p).0 ≤ length evts
  unfolding retry_loop
  length-retry_loop [] p = omega arith
  length-retry_loop (evt ∷ evts) p =
      ground
        (arith, length-retry_loop evts (retry_payload rd serialize flow_id evt (serialize evt) p).1)

  consume_one-IsBounded :
      (e : Option FlowEvent) (s : AvroKafkaSink B)
      → IsBounded s
      → IsBounded (consume_one rd serialize flow_id e s)
  unfolding consume_one
  consume_one-IsBounded none s h = h
  consume_one-IsBounded (some evt) s h =
      after_attempt-IsBounded evt s (attempt_produce rd serialize flow_id evt s.producer) h

  loop_turn-IsBounded :
      (e : Option FlowEvent) (s : AvroKafkaSink B)
      → IsBounded s
      → IsBounded (loop_turn rd serialize flow_id e s)
  unfolding loop_turn
  loop_turn-IsBounded e s h =
      let (buf, p) = retry_loop rd serialize flow_id s.retry_buf s.producer in
      let s' : AvroKafkaSink B = record s { producer = p; retry_buf = buf } in
      let h' = consume_one-IsBounded e s' (record {
        size = h.size;
        bounded = omega (arith, h.bounded, length-retry_loop s.retry_buf s.producer);
      }) in
      record { size = h'.size; bounded = h'.bounded }

  -- If the retry buffer is within its size, which is an `int`, it is still within it after any
  -- number of turns of the sink thread, whatever the serializer and librdkafka answer.
  pub sink_thread_func-IsBounded :
      (os : List Observation) (s : AvroKafkaSink B)
      → IsBounded s
      → IsBounded (sink_thread_func rd serialize flow_id os s)
  unfolding sink_thread_func
  sink_thread_func-IsBounded [] s h = h
  sink_thread_func-IsBounded (o ∷ os) s h = elim (Bool-cases (o.stop_requested && o.queue_empty)) [
    | inl e ↦ rw e (record { size = h.size; bounded = h.bounded })
    | inr e ↦ rw e (sink_thread_func-IsBounded os _ (loop_turn-IsBounded o.maybe_evt s h))
  ]
