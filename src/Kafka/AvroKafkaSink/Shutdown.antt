-- ===== src/Kafka/AvroKafkaSink/Shutdown.antt =====
-- How the sink thread of src/kafka/avro_kafka_sink.cpp comes to its end.
use mathlib.Core.List.{append-nil, append_assoc}
use packetpipe.Common.{
  ◌+◌, ◌≤◌, ◌<◌, ◌^◌, ◌≡◌, refl, sym, ap, ◌∙◌, inl, inr, Bool, true, false, Bool-cases, Option,
  none, some, List, [], ◌∷◌, ◌++◌, length, length-append, arith,
}
use packetpipe.Events.{FlowEvent, FlowKey}
use packetpipe.Flowtable.Invariant.{to_int_small}
use packetpipe.Kafka.KafkaProducer.{Librdkafka, KafkaProducer, produce, flush}
use packetpipe.Kafka.AvroKafkaSink.{
  AvroKafkaSink, Observation, has_room, after_attempt, attempt_payload, attempt_produce,
  retry_payload, retry_loop, consume_one, retry_first, take_event, loop_turn, sink_thread_func,
}
use packetpipe.Kafka.AvroKafkaSink.Accepting.{after_produce_lem, after_retry_lem}

-- A stop was requested and these events are left in the queue; `rest` would come after the end.
abbrev pub shutdown : List FlowEvent → List Observation → List Observation
shutdown [] rest = record { stop_requested = true; queue_empty = true; maybe_evt = none } ∷ rest
shutdown (x ∷ xs) rest =
    record { stop_requested = true; queue_empty = false; maybe_evt = some x } ∷ shutdown xs rest

module _ {B : Type 0} where
  keeps_in_buffer :
      (evt : FlowEvent) (s : AvroKafkaSink B) (r : Bool × KafkaProducer B)
      → r.0 ≡ false
      → s.sr_buffer_size < 2 ^ 31
      → length s.retry_buf < s.sr_buffer_size
      → (after_attempt evt s r).retry_buf ≡ s.retry_buf ++ (evt ∷ [])
  unfolding after_attempt has_room
  keeps_in_buffer evt s (true, p) e small room = cc
  keeps_in_buffer evt s (false, p) e small room = elim (Bool-cases (has_room s)) [
    | inl h ↦ rw h refl
    | inr h ↦ absurd (ground (arith, h, small, room, to_int_small (length s.retry_buf)))
  ]

module _ {B : Type 0} where
  size-after_attempt :
      (evt : FlowEvent) (s : AvroKafkaSink B) (r : Bool × KafkaProducer B)
      → (after_attempt evt s r).sr_buffer_size ≡ s.sr_buffer_size
  unfolding after_attempt
  size-after_attempt evt s (true, p) = refl
  size-after_attempt evt s (false, p) = elim (Bool-cases (has_room s)) [
    | inl h ↦ rw h refl
    | inr h ↦ rw h refl
  ]

module _ {B K V : Type 0} (rd : Librdkafka B K V) (serialize : FlowEvent → Option V)
    (flow_id : FlowKey → K) where
  -- One turn for each event.
  abbrev pub all_turns : List FlowEvent → AvroKafkaSink B → AvroKafkaSink B
  all_turns [] s = s
  all_turns (x ∷ xs) s = all_turns xs (loop_turn rd serialize flow_id (some x) s)

  -- Once a stop is requested and nothing more is pushed, the thread ends: after one turn for each event
  -- that is left in the queue it flushes the producer, and whatever might follow changes nothing.
  pub sink_thread_func-shutdown :
      (xs : List FlowEvent) (rest : List Observation) (s : AvroKafkaSink B)
      → let s' = all_turns xs s in
        sink_thread_func rd serialize flow_id (shutdown xs rest) s
        ≡ record s' { producer = flush rd s'.producer }
  unfolding sink_thread_func
  sink_thread_func-shutdown [] rest s = refl
  sink_thread_func-shutdown (x ∷ xs) rest s =
      sink_thread_func-shutdown xs rest (loop_turn rd serialize flow_id (some x) s)

module _ {B K V : Type 0} (rd : Librdkafka B K V) (serialize : FlowEvent → Option V)
    (flow_id : FlowKey → K)
    (refuses : (key : K) (payload : V) (b : B) → (rd.rd_produce key payload b).0 ≡ false)
    (serializes : (evt : FlowEvent) → (payload : V) × (serialize evt ≡ some payload)) where
  produce_lem : (key : K) (payload : V) (p : KafkaProducer B) → (produce rd key payload p).0 ≡ false
  unfolding produce
  produce_lem key payload p = after_produce_lem _ p ∙ refuses key payload p.broker

  retry_loop_lem :
      (evts : List FlowEvent) (p : KafkaProducer B)
      → (retry_loop rd serialize flow_id evts p).0 ≡ evts
  unfolding retry_loop retry_payload
  retry_loop_lem [] p = refl
  retry_loop_lem (evt ∷ evts) p =
      let (payload, e) = serializes evt in
      rw
        (
          e,
          after_retry_lem (produce rd (flow_id evt.state.key) payload p)
              ∙ produce_lem (flow_id evt.state.key) payload p,
        )
        refl

  attempt_produce_lem :
      (evt : FlowEvent) (p : KafkaProducer B)
      → (attempt_produce rd serialize flow_id evt p).0 ≡ false
  unfolding attempt_produce attempt_payload
  attempt_produce_lem evt p =
      let (payload, e) = serializes evt in rw e (produce_lem (flow_id evt.state.key) payload p)

  -- A turn of the thread leaves its event behind those that wait.
  loop_turn_lem :
      (evt : FlowEvent) (s : AvroKafkaSink B)
      → s.sr_buffer_size < 2 ^ 31
      → length s.retry_buf < s.sr_buffer_size
      → let s' = loop_turn rd serialize flow_id (some evt) s in
        (s'.retry_buf ≡ s.retry_buf ++ (evt ∷ [])) × (s'.sr_buffer_size ≡ s.sr_buffer_size)
  unfolding loop_turn take_event consume_one retry_first
  loop_turn_lem evt s small room =
      let r = retry_first rd serialize flow_id s in
      let kept = retry_loop_lem s.retry_buf s.producer in
      (
        keeps_in_buffer evt r (attempt_produce rd serialize flow_id evt r.producer)
              (attempt_produce_lem evt r.producer) small (omega (arith, room, ap length kept))
            ∙ ap (λ buf. buf ++ (evt ∷ [])) kept,
        size-after_attempt evt r (attempt_produce rd serialize flow_id evt r.producer),
      )

  all_turns_lem :
      (xs : List FlowEvent) (s : AvroKafkaSink B)
      → s.sr_buffer_size < 2 ^ 31
      → length s.retry_buf + length xs ≤ s.sr_buffer_size
      → (all_turns rd serialize flow_id xs s).retry_buf ≡ s.retry_buf ++ xs
  all_turns_lem [] s small room = sym (append-nil s.retry_buf)
  all_turns_lem (x ∷ xs) s small room =
      let (kept, same) = loop_turn_lem x s small (omega (arith, room)) in
      all_turns_lem xs (loop_turn rd serialize flow_id (some x) s) (omega (arith, same, small))
        (omega (arith, room, same, ap length kept, length-append s.retry_buf (x ∷ [])))
      ∙ ap (λ buf. buf ++ xs) kept
      ∙ append_assoc s.retry_buf (x ∷ []) xs

  -- If librdkafka refuses every message, the serializer takes every event and the retry buffer, whose
  -- size is an `int`, has room: a thread that is asked to stop ends with all events that waited for
  -- a retry, and all that were left in the queue, still in its retry buffer.
  pub retry_buf-sink_thread_func :
      (xs : List FlowEvent) (rest : List Observation) (s : AvroKafkaSink B)
      → s.sr_buffer_size < 2 ^ 31
      → length s.retry_buf + length xs ≤ s.sr_buffer_size
      → (sink_thread_func rd serialize flow_id (shutdown xs rest) s).retry_buf ≡ s.retry_buf ++ xs
  retry_buf-sink_thread_func xs rest s small room =
      ap (λ (s : AvroKafkaSink B). s.retry_buf)
        (sink_thread_func-shutdown rd serialize flow_id xs rest s)
      ∙ all_turns_lem xs s small room
