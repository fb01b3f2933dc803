-- ===== src/Kafka/AvroKafkaSink/Accounts.antt =====
-- How the counters of the thread of src/kafka/avro_kafka_sink.cpp add up.
use packetpipe.Common.{
  ℕ, suc, ◌+◌, ◌≡◌, refl, subst, inl, inr, Bool, true, false, ◌&&◌, Bool-cases, Option, none, some,
  List, [], ◌∷◌, length, length-append, arith, if◌then◌else◌,
}
use packetpipe.Config.{AppConfig}
use packetpipe.Events.{FlowEvent, FlowKey}
use packetpipe.Metrics.{registry}
use packetpipe.Kafka.KafkaProducer.{Librdkafka, KafkaProducer, poll}
use packetpipe.Kafka.AvroKafkaSink.Tally.{
  IsTallied, one_if, attempt_payload-IsTallied, retry_loop-IsTallied, flush-IsTallied,
  overflow-IsTallied, polled-IsTallied,
}
use packetpipe.Kafka.AvroKafkaSink.{
  AvroKafkaSink, Observation, has_room, after_attempt, attempt_produce, consume_one, retry_first,
  take_event, loop_turn, sink_thread_func, init_sink,
}

abbrev pub count : Option FlowEvent → ℕ
count none = 0
count (some evt) = 1

-- The events that the thread takes off the queue before it stops.
abbrev pub taken : List Observation → ℕ
taken [] = 0
taken (o ∷ os) =
    let rest = taken os in if o.stop_requested && o.queue_empty then 0 else count o.maybe_evt + rest

-- `n` events were taken: each has left or waits in the retry buffer.
pub record IsAccounted {B : Type 0} (s : AvroKafkaSink B) (n : ℕ) : Type 0 where
  pub left : ℕ
  pub tallied : IsTallied s.producer left
  pub sum : left + length s.retry_buf ≡ n

module _ {B : Type 0} where
  recount : (s : AvroKafkaSink B) (m n : ℕ) → IsAccounted s m → m ≡ n → IsAccounted s n
  recount s m n h e = subst (λ k. IsAccounted s k) e h

  after_attempt-IsAccounted :
      (evt : FlowEvent) (s : AvroKafkaSink B) (r : Bool × KafkaProducer B) (m n : ℕ)
      → m + length s.retry_buf ≡ n
      → IsTallied r.1 (m + one_if r.0)
      → IsAccounted (after_attempt evt s r) (1 + n)
  unfolding after_attempt
  after_attempt-IsAccounted evt s (true, p) m n w h = record {
    left = m + 1;
    tallied = h;
    sum = omega (arith, w);
  }
  after_attempt-IsAccounted evt s (false, p) m n w h = elim (Bool-cases (has_room s)) [
    | inl e ↦ rw e (record {
      left = m + 0;
      tallied = h;
      sum = omega (arith, w, length-append s.retry_buf (evt ∷ []));
    })
    | inr e ↦ rw e (record {
      left = suc (m + 0);
      tallied = overflow-IsTallied p (m + 0) h;
      sum = omega (arith, w);
    })
  ]

module _ {B K V : Type 0} (rd : Librdkafka B K V) (serialize : FlowEvent → Option V)
    (flow_id : FlowKey → K) where
  consume_one-IsAccounted :
      (e : Option FlowEvent) (s : AvroKafkaSink B) (n : ℕ)
      → IsAccounted s n
      → IsAccounted (consume_one rd serialize flow_id e s) (count e + n)
  unfolding consume_one attempt_produce
  consume_one-IsAccounted none s n h = recount s n (0 + n) h (omega arith)
  consume_one-IsAccounted (some evt) s n h =
      after_attempt-IsAccounted evt s (attempt_produce rd serialize flow_id evt s.producer) h.left n
        h.sum
        (attempt_payload-IsTallied rd serialize flow_id evt (serialize evt) s.producer h.left
          h.tallied)

  pub retry_first-IsAccounted :
      (s : AvroKafkaSink B) (n : ℕ)
      → IsAccounted s n
      → IsAccounted (retry_first rd serialize flow_id s) n
  unfolding retry_first
  retry_first-IsAccounted s n h =
      let (m, k, sum) =
        retry_loop-IsTallied rd serialize flow_id s.retry_buf s.producer h.left h.tallied in
      record { left = m; tallied = k; sum = omega (arith, sum, h.sum) }

  pub take_event-IsAccounted :
      (e : Option FlowEvent) (s : AvroKafkaSink B) (n : ℕ)
      → IsAccounted s n
      → IsAccounted (take_event rd serialize flow_id e s) (count e + n)
  unfolding take_event poll
  take_event-IsAccounted e s n h =
      let p = (consume_one rd serialize flow_id e s).producer in
      let h' = consume_one-IsAccounted e s n h in
      record {
        left = h'.left;
        tallied = polled-IsTallied p (rd.rd_poll p.broker) h'.left h'.tallied;
        sum = h'.sum;
      }

  loop_turn-IsAccounted :
      (e : Option FlowEvent) (s : AvroKafkaSink B) (n : ℕ)
      → IsAccounted s n
      → IsAccounted (loop_turn rd serialize flow_id e s) (count e + n)
  unfolding loop_turn
  loop_turn-IsAccounted e s n h =
      take_event-IsAccounted e (retry_first rd serialize flow_id s) n
        (retry_first-IsAccounted s n h)

  accounts_from :
      (os : List Observation) (s : AvroKafkaSink B) (n : ℕ)
      → IsAccounted s n
      → IsAccounted (sink_thread_func rd serialize flow_id os s) (taken os + n)
  unfolding sink_thread_func
  accounts_from [] s n h = recount s n (0 + n) h (omega arith)
  accounts_from (o ∷ os) s n h = elim (Bool-cases (o.stop_requested && o.queue_empty)) [
    | inl e ↦ rw e (record {
      left = h.left;
      tallied = flush-IsTallied rd serialize flow_id s.producer h.left h.tallied;
      sum = omega (arith, h.sum);
    })
    | inr e ↦ rw e (
        recount _ (taken os + (count o.maybe_evt + n)) _
          (accounts_from os (loop_turn rd serialize flow_id o.maybe_evt s) (count o.maybe_evt + n)
            (loop_turn-IsAccounted o.maybe_evt s n h))
          (omega arith))
  ]

  -- From an empty sink, after any number of turns of its thread: the numbers of the events produced,
  -- counted as unserializable, dropped with a log line and waiting add up to that of the events taken.
  pub sink_thread_func-IsAccounted :
      (cfg : AppConfig) (b : B) (os : List Observation)
      → IsAccounted (sink_thread_func rd serialize flow_id os (init_sink cfg b)) (taken os)
  unfolding init_sink registry
  sink_thread_func-IsAccounted cfg b os =
      recount _ (taken os + 0) (taken os)
        (accounts_from os (init_sink cfg b) 0 (record {
          left = 0;
          tallied = record { gone = refl; failed = refl; again = omega arith };
          sum = refl;
        }))
        (omega arith)
