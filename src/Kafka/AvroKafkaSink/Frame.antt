-- ===== src/Kafka/AvroKafkaSink/Frame.antt =====
-- The metrics that the thread of src/kafka/avro_kafka_sink.cpp leaves alone in the shared registry.
use packetpipe.Common.{
  ◌≡◌, arith, Bool, true, false, Bool-cases, inl, inr, Option, none, some, List, [], ◌∷◌,
}
use packetpipe.Events.{FlowEvent, FlowKey}
use packetpipe.Metrics.{
  Metrics, inc_produced, inc_delivery_errors, inc_serialization_errors, inc_retries,
}
use packetpipe.Kafka.KafkaProducer.{
  Librdkafka, KafkaProducer, after_produce, dr_cb, dr_cbs, produce, poll, flush,
}
use packetpipe.Kafka.AvroKafkaSink.{
  AvroKafkaSink, has_room, overflow, retried, discard, unserializable, after_attempt, after_retry,
  attempt_payload, attempt_produce, retry_payload, retry_loop, consume_one, retry_first, take_event,
}

pub record SameFlowMetrics (m m' : Metrics) : Type 0 where
  pub received : m'.packets_received ≡ m.packets_received
  pub dropped : m'.packets_dropped ≡ m.packets_dropped
  pub active : m'.flows_active ≡ m.flows_active
  pub created : m'.flows_created ≡ m.flows_created
  pub expired_idle : m'.flows_expired_idle ≡ m.flows_expired_idle
  pub expired_tcp : m'.flows_expired_tcp ≡ m.flows_expired_tcp

pub SameFlowMetrics-refl : (m : Metrics) → SameFlowMetrics m m
SameFlowMetrics-refl m = ground arith

module _ {B : Type 0} (m : Metrics) where
  abbrev Keeps : KafkaProducer B → Type 0
  Keeps p = SameFlowMetrics m p.metrics

  after_produce-Keeps : (r : Bool × B) (p : KafkaProducer B) → Keeps p → Keeps (after_produce r p).1
  unfolding after_produce inc_produced inc_delivery_errors
  after_produce-Keeps (true, b) p h = ground arith
  after_produce-Keeps (false, b) p h = ground arith

  after_retry-Keeps : (r : Bool × KafkaProducer B) → Keeps r.1 → Keeps (after_retry r).1
  unfolding after_retry retried inc_retries
  after_retry-Keeps (true, p) h = ground arith
  after_retry-Keeps (false, p) h = h

  dr_cbs-Keeps : (rs : List Bool) (p : KafkaProducer B) → Keeps p → Keeps (dr_cbs rs p)
  unfolding dr_cbs dr_cb inc_delivery_errors
  dr_cbs-Keeps [] p h = h
  dr_cbs-Keeps (true ∷ rs) p h = dr_cbs-Keeps rs _ (ground arith)
  dr_cbs-Keeps (false ∷ rs) p h = dr_cbs-Keeps rs p h

  after_attempt-Keeps :
      (evt : FlowEvent) (s : AvroKafkaSink B) (r : Bool × KafkaProducer B)
      → Keeps r.1
      → Keeps (after_attempt evt s r).producer
  unfolding after_attempt overflow inc_delivery_errors
  after_attempt-Keeps evt s (true, p) h = h
  after_attempt-Keeps evt s (false, p) h = elim (Bool-cases (has_room s)) [
    | inl e ↦ rw e h
    | inr e ↦ rw e (ground arith)
  ]

module _ {B K V : Type 0} (rd : Librdkafka B K V) (serialize : FlowEvent → Option V)
    (flow_id : FlowKey → K) (m : Metrics) where
  attempt_payload-Keeps :
      (evt : FlowEvent) (o : Option V) (p : KafkaProducer B)
      → Keeps m p
      → Keeps m (attempt_payload rd serialize flow_id evt o p).1
  unfolding attempt_payload unserializable inc_serialization_errors produce
  attempt_payload-Keeps evt none p h = ground arith
  attempt_payload-Keeps evt (some v) p h =
      after_produce-Keeps m (rd.rd_produce (flow_id evt.state.key) v p.broker) p h

  retry_payload-Keeps :
      (evt : FlowEvent) (o : Option V) (p : KafkaProducer B)
      → Keeps m p
      → Keeps m (retry_payload rd serialize flow_id evt o p).1
  unfolding retry_payload discard inc_serialization_errors produce
  retry_payload-Keeps evt none p h = ground arith
  retry_payload-Keeps evt (some v) p h =
      after_retry-Keeps m _
        (after_produce-Keeps m (rd.rd_produce (flow_id evt.state.key) v p.broker) p h)

  retry_loop-Keeps :
      (evts : List FlowEvent) (p : KafkaProducer B)
      → Keeps m p
      → Keeps m (retry_loop rd serialize flow_id evts p).1
  unfolding retry_loop
  retry_loop-Keeps [] p h = h
  retry_loop-Keeps (evt ∷ evts) p h =
      let r = retry_payload rd serialize flow_id evt (serialize evt) p in
      let k = retry_payload-Keeps evt (serialize evt) p h in
      elim (Bool-cases r.0) [ inl e ↦ rw e (retry_loop-Keeps evts r.1 k) | inr e ↦ rw e k ]

  pub retry_first-Keeps :
      (s : AvroKafkaSink B)
      → Keeps m s.producer
      → Keeps m (retry_first rd serialize flow_id s).producer
  unfolding retry_first
  retry_first-Keeps s h = retry_loop-Keeps s.retry_buf s.producer h

  pub take_event-Keeps :
      (e : Option FlowEvent) (s : AvroKafkaSink B)
      → Keeps m s.producer
      → Keeps m (take_event rd serialize flow_id e s).producer
  unfolding take_event consume_one attempt_produce poll
  take_event-Keeps none s h =
      let (reports, b) = rd.rd_poll s.producer.broker in
      dr_cbs-Keeps m reports (record s.producer { broker = b }) (ground arith)
  take_event-Keeps (some evt) s h =
      let k = attempt_payload-Keeps evt (serialize evt) s.producer h in
      let r = attempt_payload rd serialize flow_id evt (serialize evt) s.producer in
      let p = (after_attempt evt s r).producer in
      let (reports, b) = rd.rd_poll p.broker in
      dr_cbs-Keeps m reports (record p { broker = b }) (after_attempt-Keeps m evt s r k)

  pub flush-Keeps : (p : KafkaProducer B) → Keeps m p → Keeps m (flush rd p)
  unfolding flush
  flush-Keeps p h =
      let (reports, clean, b) = rd.rd_flush p.broker in
      let k = dr_cbs-Keeps m reports (record p { broker = b }) (ground arith) in
      elim (Bool-cases clean) [ inl e ↦ rw e k | inr e ↦ rw e (ground (arith, k)) ]
