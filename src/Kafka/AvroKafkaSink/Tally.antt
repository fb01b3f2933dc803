-- ===== src/Kafka/AvroKafkaSink/Tally.antt =====
-- The counters of src/kafka/kafka_producer.cpp and avro_kafka_sink.cpp, and the events that have left
-- the sink thread's hands.
use packetpipe.Common.{
  ℕ, suc, ◌+◌, ◌≤◌, ◌≡◌, refl, subst, inl, inr, Bool, true, false, Bool-cases, Option, none, some,
  List, [], ◌∷◌, length, arith,
}
use packetpipe.Events.{FlowEvent, FlowKey}
use packetpipe.Metrics.{inc_produced, inc_delivery_errors, inc_serialization_errors, inc_retries}
use packetpipe.Kafka.KafkaProducer.{
  Librdkafka, KafkaProducer, KafkaLog, produce_error, delivery_error, flush_timeout,
  retry_buffer_full, serialization_error, after_produce, dr_cb, dr_cbs, produce, flush,
}
use packetpipe.Kafka.AvroKafkaSink.{
  overflow, retried, discard, unserializable, after_retry, attempt_payload, retry_payload,
  retry_loop,
}

-- The events dropped for want of room, as the log has them.
abbrev pub dropped : List KafkaLog → ℕ
dropped [] = 0
dropped (retry_buffer_full ∷ ls) = suc (dropped ls)
dropped (produce_error ∷ ls) = dropped ls
dropped (delivery_error ∷ ls) = dropped ls
dropped (flush_timeout ∷ ls) = dropped ls
dropped (serialization_error ∷ ls) = dropped ls

-- The lines that tell of a message refused, a failed delivery or an event dropped.
abbrev pub failures : List KafkaLog → ℕ
failures [] = 0
failures (retry_buffer_full ∷ ls) = suc (failures ls)
failures (produce_error ∷ ls) = suc (failures ls)
failures (delivery_error ∷ ls) = suc (failures ls)
failures (flush_timeout ∷ ls) = failures ls
failures (serialization_error ∷ ls) = failures ls

-- `n` events have left the thread's hands: produced, unserializable or dropped.
pub record IsTallied {B : Type 0} (p : KafkaProducer B) (n : ℕ) : Type 0 where
  pub gone :
      p.metrics.kafka_messages_produced + p.metrics.avro_serialization_errors + dropped p.log ≡ n
  pub failed : p.metrics.kafka_delivery_errors ≡ failures p.log
  pub again : p.metrics.schema_registry_retries ≤ p.metrics.kafka_messages_produced

abbrev pub one_if : Bool → ℕ
one_if true = 1
one_if false = 0

module _ {B : Type 0} where
  after_produce-IsTallied :
      (r : Bool × B) (p : KafkaProducer B) (n : ℕ)
      → IsTallied p n
      → IsTallied (after_produce r p).1 (n + one_if (after_produce r p).0)
  unfolding after_produce inc_produced inc_delivery_errors
  after_produce-IsTallied (true, b) p n h = record {
    gone = omega (arith, h.gone);
    failed = h.failed;
    again = omega (arith, h.again);
  }
  after_produce-IsTallied (false, b) p n h = record {
    gone = omega (arith, h.gone);
    failed = omega (arith, h.failed);
    again = h.again;
  }

  after_retry-IsTallied :
      (r : Bool × B) (p : KafkaProducer B) (n : ℕ)
      → IsTallied p n
      → IsTallied
          (after_retry (after_produce r p)).1
          (n + one_if (after_retry (after_produce r p)).0)
  unfolding after_retry after_produce retried inc_produced inc_delivery_errors inc_retries
  after_retry-IsTallied (true, b) p n h = record {
    gone = omega (arith, h.gone);
    failed = h.failed;
    again = omega (arith, h.again);
  }
  after_retry-IsTallied (false, b) p n h = record {
    gone = omega (arith, h.gone);
    failed = omega (arith, h.failed);
    again = h.again;
  }

  dr_cbs-IsTallied :
      (reports : List Bool) (p : KafkaProducer B) (n : ℕ)
      → IsTallied p n
      → IsTallied (dr_cbs reports p) n
  unfolding dr_cbs dr_cb inc_delivery_errors
  dr_cbs-IsTallied [] p n h = h
  dr_cbs-IsTallied (true ∷ rs) p n h =
      dr_cbs-IsTallied rs _ n
        (record { gone = h.gone; failed = omega (arith, h.failed); again = h.again })
  dr_cbs-IsTallied (false ∷ rs) p n h = dr_cbs-IsTallied rs p n h

  pub overflow-IsTallied :
      (p : KafkaProducer B) (n : ℕ) → IsTallied p n → IsTallied (overflow p) (suc n)
  unfolding overflow inc_delivery_errors
  overflow-IsTallied p n h = record {
    gone = omega (arith, h.gone);
    failed = omega (arith, h.failed);
    again = h.again;
  }

  pub polled-IsTallied :
      (p : KafkaProducer B) (r : List Bool × B) (n : ℕ)
      → IsTallied p n
      → IsTallied (dr_cbs r.0 (record p { broker = r.1 })) n
  polled-IsTallied p r n h =
      dr_cbs-IsTallied r.0 _ n (record { gone = h.gone; failed = h.failed; again = h.again })

module _ {B K V : Type 0} (rd : Librdkafka B K V) (serialize : FlowEvent → Option V)
    (flow_id : FlowKey → K) where
  pub attempt_payload-IsTallied :
      (evt : FlowEvent) (payload : Option V) (p : KafkaProducer B) (n : ℕ)
      → IsTallied p n
      → IsTallied
          (attempt_payload rd serialize flow_id evt payload p).1
          (n + one_if (attempt_payload rd serialize flow_id evt payload p).0)
  unfolding attempt_payload unserializable inc_serialization_errors produce
  attempt_payload-IsTallied evt none p n h = record {
    gone = omega (arith, h.gone);
    failed = h.failed;
    again = h.again;
  }
  attempt_payload-IsTallied evt (some payload) p n h =
      after_produce-IsTallied (rd.rd_produce (flow_id evt.state.key) payload p.broker) p n h

  retry_payload-IsTallied :
      (evt : FlowEvent) (payload : Option V) (p : KafkaProducer B) (n : ℕ)
      → IsTallied p n
      → IsTallied
          (retry_payload rd serialize flow_id evt payload p).1
          (n + one_if (retry_payload rd serialize flow_id evt payload p).0)
  unfolding retry_payload discard inc_serialization_errors produce
  retry_payload-IsTallied evt none p n h = record {
    gone = omega (arith, h.gone);
    failed = h.failed;
    again = h.again;
  }
  retry_payload-IsTallied evt (some payload) p n h =
      after_retry-IsTallied (rd.rd_produce (flow_id evt.state.key) payload p.broker) p n h

  pub retry_loop-IsTallied :
      (evts : List FlowEvent) (p : KafkaProducer B) (n : ℕ)
      → IsTallied p n
      → (m : ℕ) × IsTallied (retry_loop rd serialize flow_id evts p).1 m
        × (m + length (retry_loop rd serialize flow_id evts p).0 ≡ n + length evts)
  unfolding retry_loop
  retry_loop-IsTallied [] p n h = (n, h, refl)
  retry_loop-IsTallied (evt ∷ evts) p n h =
      let r = retry_payload rd serialize flow_id evt (serialize evt) p in
      let k = retry_payload-IsTallied evt (serialize evt) p n h in
      elim (Bool-cases r.0) [
        | inl e ↦
            let (m, k', sum) =
              retry_loop-IsTallied evts r.1 (n + 1)
                (subst (λ b. IsTallied r.1 (n + one_if b)) e k) in
            rw e (m, k', omega (arith, sum))
        | inr e ↦ rw e (n + 0, subst (λ b. IsTallied r.1 (n + one_if b)) e k, omega arith)
      ]

  pub flush-IsTallied : (p : KafkaProducer B) (n : ℕ) → IsTallied p n → IsTallied (flush rd p) n
  unfolding flush
  flush-IsTallied p n h =
      let (reports, clean, b) = rd.rd_flush p.broker in
      let k = polled-IsTallied p (reports, b) n h in
      elim (Bool-cases clean) [
        | inl e ↦ rw e k
        | inr e ↦ rw e (record { gone = k.gone; failed = k.failed; again = k.again })
      ]
