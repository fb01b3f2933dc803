-- ===== src/Kafka/AvroKafkaSink/Accepting.antt =====
-- The sink of src/kafka/avro_kafka_sink.cpp while librdkafka takes every message.
use packetpipe.Common.{◌≡◌, refl, ◌∙◌, Bool, true, false, Option, none, some, List, [], ◌∷◌}
use packetpipe.Events.{FlowEvent, FlowKey}
use packetpipe.Kafka.KafkaProducer.{Librdkafka, KafkaProducer, after_produce, produce}
use packetpipe.Kafka.AvroKafkaSink.{
  AvroKafkaSink, after_attempt, after_retry, attempt_payload, attempt_produce, retry_payload,
  retry_loop, consume_one, retry_first, take_event,
}

module _ {B : Type 0} where
  pub after_produce_lem : (r : Bool × B) (p : KafkaProducer B) → (after_produce r p).0 ≡ r.0
  unfolding after_produce
  after_produce_lem (true, b) p = refl
  after_produce_lem (false, b) p = refl

  pub after_retry_lem : (r : Bool × KafkaProducer B) → (after_retry r).0 ≡ r.0
  unfolding after_retry
  after_retry_lem (true, p) = refl
  after_retry_lem (false, p) = refl

  retry_buf-after_attempt :
      (evt : FlowEvent) (s : AvroKafkaSink B) (r : Bool × KafkaProducer B)
      → r.0 ≡ true
      → (after_attempt evt s r).retry_buf ≡ s.retry_buf
  unfolding after_attempt
  retry_buf-after_attempt evt s (true, p) e = refl
  retry_buf-after_attempt evt s (false, p) e = cc

module _ {B K V : Type 0} (rd : Librdkafka B K V) (serialize : FlowEvent → Option V)
    (flow_id : FlowKey → K)
    (accepts : (key : K) (payload : V) (b : B) → (rd.rd_produce key payload b).0 ≡ true) where
  produce_lem : (key : K) (payload : V) (p : KafkaProducer B) → (produce rd key payload p).0 ≡ true
  unfolding produce
  produce_lem key payload p = after_produce_lem _ p ∙ accepts key payload p.broker

  attempt_payload_lem :
      (evt : FlowEvent) (payload : Option V) (p : KafkaProducer B)
      → (attempt_payload rd serialize flow_id evt payload p).0 ≡ true
  unfolding attempt_payload
  attempt_payload_lem evt none p = refl
  attempt_payload_lem evt (some payload) p = produce_lem (flow_id evt.state.key) payload p

  retry_payload_lem :
      (evt : FlowEvent) (payload : Option V) (p : KafkaProducer B)
      → (retry_payload rd serialize flow_id evt payload p).0 ≡ true
  unfolding retry_payload
  retry_payload_lem evt none p = refl
  retry_payload_lem evt (some payload) p =
      after_retry_lem _ ∙ produce_lem (flow_id evt.state.key) payload p

  retry_loop_lem :
      (evts : List FlowEvent) (p : KafkaProducer B)
      → (retry_loop rd serialize flow_id evts p).0 ≡ []
  unfolding retry_loop
  retry_loop_lem [] p = refl
  retry_loop_lem (evt ∷ evts) p =
      rw (retry_payload_lem evt (serialize evt) p)
        (retry_loop_lem evts (retry_payload rd serialize flow_id evt (serialize evt) p).1)

  pub retry_buf-retry_first :
      (s : AvroKafkaSink B) → (retry_first rd serialize flow_id s).retry_buf ≡ []
  unfolding retry_first
  retry_buf-retry_first s = retry_loop_lem s.retry_buf s.producer

  retry_buf-consume_one :
      (e : Option FlowEvent) (s : AvroKafkaSink B)
      → (consume_one rd serialize flow_id e s).retry_buf ≡ s.retry_buf
  unfolding consume_one attempt_produce
  retry_buf-consume_one none s = refl
  retry_buf-consume_one (some evt) s =
      retry_buf-after_attempt evt s _ (attempt_payload_lem evt (serialize evt) s.producer)

  pub retry_buf-take_event :
      (e : Option FlowEvent) (s : AvroKafkaSink B)
      → (take_event rd serialize flow_id e s).retry_buf ≡ s.retry_buf
  unfolding take_event
  retry_buf-take_event e s = retry_buf-consume_one e s
