-- ===== src/Kafka/KafkaProducer/Journal.antt =====
-- librdkafka with a list of the messages that it took, newest first, kept beside its state.
use packetpipe.Metrics.{inc_delivery_errors}
use packetpipe.Common.{◌≡◌, refl, inl, inr, Bool-cases, Bool, true, false, List, [], ◌∷◌}
use packetpipe.Kafka.KafkaProducer.{Librdkafka, KafkaProducer, dr_cb, dr_cbs, poll, flush}

module _ {B K V : Type 0} where
  abbrev pub note : K → V → List (K × V) → Bool × B → Bool × (B × List (K × V))
  note key payload messages (true, b) = (true, (b, (key, payload) ∷ messages))
  note key payload messages (false, b) = (false, (b, messages))

  unfoldable pub journaled : Librdkafka B K V → Librdkafka (B × List (K × V)) K V
  journaled rd = record {
    rd_produce =
        λ key payload (b, messages). note key payload messages (rd.rd_produce key payload b);
    rd_poll = λ (b, messages). let (reports, b') = rd.rd_poll b in (reports, (b', messages));
    rd_flush = λ (b, messages).
        let (reports, clean, b') = rd.rd_flush b in (reports, clean, (b', messages));
  }

-- Delivery reports change neither the messages nor how many were produced.
pub record SameMessages {B M : Type 0} (p q : KafkaProducer (B × List M)) : Type 0 where
  pub messages : q.broker.1 ≡ p.broker.1
  pub produced : q.metrics.kafka_messages_produced ≡ p.metrics.kafka_messages_produced

module _ {B M : Type 0} where
  dr_cbs-SameMessages :
      (reports : List Bool) (p q : KafkaProducer (B × List M))
      → SameMessages p q
      → SameMessages p (dr_cbs reports q)
  unfolding dr_cbs dr_cb inc_delivery_errors
  dr_cbs-SameMessages [] p q h = h
  dr_cbs-SameMessages (true ∷ rs) p q h =
      dr_cbs-SameMessages rs p _ (record { messages = h.messages; produced = h.produced })
  dr_cbs-SameMessages (false ∷ rs) p q h = dr_cbs-SameMessages rs p q h

module _ {B : Type 0} where
  dr_cbs-retries :
      (reports : List Bool) (p : KafkaProducer B)
      → (dr_cbs reports p).metrics.schema_registry_retries ≡ p.metrics.schema_registry_retries
  unfolding dr_cbs dr_cb inc_delivery_errors
  dr_cbs-retries [] p = refl
  dr_cbs-retries (true ∷ rs) p = dr_cbs-retries rs _
  dr_cbs-retries (false ∷ rs) p = dr_cbs-retries rs p

module _ {B K V : Type 0} (rd : Librdkafka B K V) where
  pub poll-retries :
      (p : KafkaProducer B)
      → (poll rd p).metrics.schema_registry_retries ≡ p.metrics.schema_registry_retries
  unfolding poll
  poll-retries p =
      let (reports, b) = rd.rd_poll p.broker in dr_cbs-retries reports (record p { broker = b })

  pub flush-retries :
      (p : KafkaProducer B)
      → (flush rd p).metrics.schema_registry_retries ≡ p.metrics.schema_registry_retries
  unfolding flush
  flush-retries p =
      let (reports, clean, b) = rd.rd_flush p.broker in
      let h = dr_cbs-retries reports (record p { broker = b }) in
      elim (Bool-cases clean) [ inl e ↦ rw e h | inr e ↦ rw e h ]

module _ {B K V : Type 0} (rd : Librdkafka B K V) where
  pub poll-SameMessages :
      (p : KafkaProducer (B × List (K × V))) → SameMessages p (poll (journaled rd) p)
  unfolding poll journaled
  poll-SameMessages p =
      let (reports, b) = rd.rd_poll p.broker.0 in
      dr_cbs-SameMessages reports p (record p { broker = (b, p.broker.1) })
        (record { messages = refl; produced = refl })

  pub flush-SameMessages :
      (p : KafkaProducer (B × List (K × V))) → SameMessages p (flush (journaled rd) p)
  unfolding flush journaled
  flush-SameMessages p =
      let (reports, clean, b) = rd.rd_flush p.broker.0 in
      let h =
        dr_cbs-SameMessages reports p (record p { broker = (b, p.broker.1) })
          (record { messages = refl; produced = refl }) in
      elim (Bool-cases clean) [
        | inl e ↦ rw e h
        | inr e ↦ rw e (record { messages = h.messages; produced = h.produced })
      ]
