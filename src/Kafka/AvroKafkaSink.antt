-- ===== src/Kafka/AvroKafkaSink.antt =====
-- src/kafka/avro_kafka_sink.cpp: the sink thread. The serializer is an argument: `serialize` is `none`
-- where the code throws AvroSerializationError, and `flow_id` is the message key. Each turn of the
-- thread's loop takes from its environment whether a stop was requested, whether the queue was empty
-- at the test, and what `pop_wait` then returned.
pub mod Bound
pub mod Tally
pub mod Accounts
pub mod Frame
pub mod Accepting
pub mod Shutdown
pub mod Shares
pub mod Ordered
pub mod Booked
use packetpipe.Common.{
  ℕ, Bool, true, false, not, ◌&&◌, Option, none, some, List, [], ◌∷◌, ◌++◌, length, if◌then◌else◌,
}
use packetpipe.Common.Int.{pos, leb_ℤ}
use packetpipe.Config.{AppConfig}
use packetpipe.Events.{FlowEvent, FlowKey}
use packetpipe.Flowtable.{to_int}
use packetpipe.Metrics.{registry, inc_delivery_errors, inc_serialization_errors, inc_retries}
use packetpipe.Kafka.KafkaProducer.{
  Librdkafka, KafkaProducer, KafkaLog, retry_buffer_full, serialization_error, produce, poll, flush,
}

pub record AvroKafkaSink (B : Type 0) : Type 0 where
  pub producer : KafkaProducer B
  pub sr_buffer_size : ℕ
  pub retry_buf : List FlowEvent

pub record Observation : Type 0 where
  pub stop_requested : Bool
  pub queue_empty : Bool
  pub maybe_evt : Option FlowEvent

module _ {B : Type 0} where
  -- The two handlers of AvroSerializationError: only the first writes to the log.
  unfoldable pub unserializable : KafkaProducer B → KafkaProducer B
  unfolding inc_serialization_errors
  unserializable p = record p {
    metrics = inc_serialization_errors p.metrics;
    log = serialization_error ∷ p.log;
  }

  unfoldable pub discard : KafkaProducer B → KafkaProducer B
  unfolding inc_serialization_errors
  discard p = record p { metrics = inc_serialization_errors p.metrics }

  unfoldable pub retried : KafkaProducer B → KafkaProducer B
  unfolding inc_retries
  retried p = record p { metrics = inc_retries p.metrics }

  unfoldable pub after_retry : Bool × KafkaProducer B → Bool × KafkaProducer B
  unfolding retried
  after_retry (true, p) = (true, retried p)
  after_retry (false, p) = (false, p)

  unfoldable pub overflow : KafkaProducer B → KafkaProducer B
  unfolding inc_delivery_errors
  overflow p = record p { metrics = inc_delivery_errors p.metrics; log = retry_buffer_full ∷ p.log }

  unfoldable pub has_room : AvroKafkaSink B → Bool
  unfolding to_int
  has_room s = not (leb_ℤ (pos s.sr_buffer_size) (to_int (length s.retry_buf)))

  -- An event that was not enqueued waits in the retry buffer if there is room.
  unfoldable pub after_attempt :
      FlowEvent → AvroKafkaSink B → Bool × KafkaProducer B → AvroKafkaSink B
  unfolding overflow
  after_attempt evt s (true, p) = record s { producer = p }
  after_attempt evt s (false, p) =
      if has_room s
      then record s { producer = p; retry_buf = s.retry_buf ++ (evt ∷ []) }
      else record s { producer = overflow p }

  unfoldable pub init_sink : AppConfig → B → AvroKafkaSink B
  unfolding registry
  init_sink cfg b = record {
    producer = record { metrics = registry; broker = b; log = [] };
    sr_buffer_size = cfg.sr_buffer_size;
    retry_buf = [];
  }

module _ {B K V : Type 0} (rd : Librdkafka B K V) (serialize : FlowEvent → Option V)
    (flow_id : FlowKey → K) where
  unfoldable pub attempt_payload : FlowEvent → Option V → KafkaProducer B → Bool × KafkaProducer B
  unfolding produce unserializable
  attempt_payload evt none p = (true, unserializable p)
  attempt_payload evt (some payload) p = produce rd (flow_id evt.state.key) payload p

  unfoldable pub attempt_produce : FlowEvent → KafkaProducer B → Bool × KafkaProducer B
  unfolding attempt_payload
  attempt_produce evt p = attempt_payload evt (serialize evt) p

  -- One event at the front of the retry buffer: whether it leaves the buffer.
  unfoldable pub retry_payload : FlowEvent → Option V → KafkaProducer B → Bool × KafkaProducer B
  unfolding produce discard after_retry
  retry_payload evt none p = (true, discard p)
  retry_payload evt (some payload) p = after_retry (produce rd (flow_id evt.state.key) payload p)

  -- The inner loop, from the front of the buffer on: the buffer that is left.
  unfoldable pub retry_loop : List FlowEvent → KafkaProducer B → List FlowEvent × KafkaProducer B
  unfolding retry_payload
  retry_loop [] p = ([], p)
  retry_loop (evt ∷ evts) p =
      let (gone, p') = retry_payload evt (serialize evt) p in
      let rest = retry_loop evts p' in if gone then rest else (evt ∷ evts, p')

  unfoldable pub consume_one : Option FlowEvent → AvroKafkaSink B → AvroKafkaSink B
  unfolding attempt_produce after_attempt
  consume_one none s = s
  consume_one (some evt) s = after_attempt evt s (attempt_produce evt s.producer)

  -- A turn of the thread's loop has two halves: the retry buffer, and the event that `pop_wait` took.
  unfoldable pub retry_first : AvroKafkaSink B → AvroKafkaSink B
  unfolding retry_loop
  retry_first s =
      let (buf, p) = retry_loop s.retry_buf s.producer in record s { producer = p; retry_buf = buf }

  unfoldable pub take_event : Option FlowEvent → AvroKafkaSink B → AvroKafkaSink B
  unfolding consume_one
  take_event maybe_evt s =
      let s' = consume_one maybe_evt s in record s' { producer = poll rd s'.producer }

  unfoldable pub loop_turn : Option FlowEvent → AvroKafkaSink B → AvroKafkaSink B
  unfolding retry_first take_event
  loop_turn maybe_evt s = take_event maybe_evt (retry_first s)

  -- The thread's loop, and the flush behind it. A list that ends first is a thread that still runs.
  unfoldable pub sink_thread_func : List Observation → AvroKafkaSink B → AvroKafkaSink B
  unfolding loop_turn
  sink_thread_func [] s = s
  sink_thread_func (o ∷ os) s =
      let rest = sink_thread_func os (loop_turn o.maybe_evt s) in
      if o.stop_requested && o.queue_empty
      then record s { producer = flush rd s.producer }
      else rest
