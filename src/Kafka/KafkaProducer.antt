-- ===== src/Kafka/KafkaProducer.antt =====
-- src/kafka/kafka_producer.cpp: what a message handed to librdkafka does to the counters. librdkafka
-- is outside the repository: `rd_produce` answers a message by whether it was enqueued, `rd_poll`
-- gives the delivery reports that are due, each by whether it carries an error, `rd_flush` the same
-- and whether nothing was left, and `B` is the state of the library. Keys and payloads are of any types `K` and `V`.
pub mod Settings
pub mod Journal
use packetpipe.Common.{Bool, true, false, if◌then◌else◌, List, [], ◌∷◌}
use packetpipe.Metrics.{Metrics, inc_produced, inc_delivery_errors}

pub record Librdkafka (B K V : Type 0) : Type 0 where
  pub rd_produce : K → V → B → Bool × B
  pub rd_poll : B → List Bool × B
  pub rd_flush : B → List Bool × Bool × B

-- The log lines of the producer and of its client; `delivery_error` is at the level debug.
pub data KafkaLog : Type 0 where
  produce_error delivery_error flush_timeout retry_buffer_full serialization_error : KafkaLog

-- `metrics` is the registry, which the sink shares with its producer.
pub record KafkaProducer (B : Type 0) : Type 0 where
  pub metrics : Metrics
  pub broker : B
  pub log : List KafkaLog

module _ {B : Type 0} where
  unfoldable pub after_produce : Bool × B → KafkaProducer B → Bool × KafkaProducer B
  unfolding inc_produced inc_delivery_errors
  after_produce (true, b) p = (true, record p { broker = b; metrics = inc_produced p.metrics })
  after_produce (false, b) p = (
    false,
    record p { broker = b; metrics = inc_delivery_errors p.metrics; log = produce_error ∷ p.log },
  )

  -- `DeliveryCb::dr_cb` for a report that carries an error or not.
  unfoldable pub dr_cb : Bool → KafkaProducer B → KafkaProducer B
  unfolding inc_delivery_errors
  dr_cb true p = record p { metrics = inc_delivery_errors p.metrics; log = delivery_error ∷ p.log }
  dr_cb false p = p

  unfoldable pub dr_cbs : List Bool → KafkaProducer B → KafkaProducer B
  unfolding dr_cb
  dr_cbs [] p = p
  dr_cbs (failed ∷ reports) p = dr_cbs reports (dr_cb failed p)

module _ {B K V : Type 0} (rd : Librdkafka B K V) where
  unfoldable pub produce : K → V → KafkaProducer B → Bool × KafkaProducer B
  unfolding after_produce
  produce key payload p = after_produce (rd.rd_produce key payload p.broker) p

  unfoldable pub poll : KafkaProducer B → KafkaProducer B
  unfolding dr_cbs
  poll p = let (reports, b) = rd.rd_poll p.broker in dr_cbs reports (record p { broker = b })

  -- The delivery reports that come in while `flush` waits.
  unfoldable pub flush : KafkaProducer B → KafkaProducer B
  unfolding dr_cbs
  flush p =
      let (reports, clean, b) = rd.rd_flush p.broker in
      let p' = dr_cbs reports (record p { broker = b }) in
      if clean then p' else record p' { log = flush_timeout ∷ p'.log }
