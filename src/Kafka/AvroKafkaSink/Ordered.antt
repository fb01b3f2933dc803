-- ===== src/Kafka/AvroKafkaSink/Ordered.antt =====
-- In which order the thread of src/kafka/avro_kafka_sink.cpp hands its messages to librdkafka.
pub mod Turns
mod Tests
use mathlib.Core.List.{append-nil, append_assoc, map-append, Sublist, sublist-append_left}
use mathlib.Core.List.Sublist
use packetpipe.Common.{
  ◌+◌, ◌≡◌, length, length-append, arith, refl, sym, ap, ap₂, subst, ◌∙◌, ◌⊎◌, inl, inr, Bool, true,
  false, ◌&&◌, Bool-cases, Option, none, some, List, [], ◌∷◌, ◌++◌, map, if◌then◌else◌,
}
use packetpipe.Config.{AppConfig}
use packetpipe.Events.{FlowEvent, FlowKey}
use packetpipe.Metrics.{
  registry, inc_produced, inc_delivery_errors, inc_serialization_errors, inc_retries,
}
use packetpipe.Kafka.KafkaProducer.{Librdkafka, KafkaProducer, after_produce, produce, flush}
use packetpipe.Kafka.KafkaProducer.Journal.{
  note, journaled, SameMessages, poll-SameMessages, flush-SameMessages,
}
use packetpipe.Kafka.AvroKafkaSink.{
  AvroKafkaSink, Observation, has_room, after_attempt, after_retry, retried, discard,
  unserializable, overflow, attempt_payload, attempt_produce, retry_payload, retry_loop,
  consume_one, retry_first, take_event, loop_turn, sink_thread_func, init_sink,
}
use packetpipe.Kafka.AvroKafkaSink.Shares.{as_message, message_of, list_of}

-- The journal keeps the newest message in front.
abbrev pub oldest_first : {M : Type 0} → List M → List M
oldest_first [] = []
oldest_first (m ∷ ms) = oldest_first ms ++ (m ∷ [])

-- The events that the thread takes off the queue before it stops.
abbrev pub taken_events : List Observation → List FlowEvent
taken_events [] = []
taken_events (o ∷ os) =
    let rest = taken_events os in
    if o.stop_requested && o.queue_empty then [] else list_of o.maybe_evt ++ rest

-- Of the events with a mark: those published on a retry, and those published when they were taken.
abbrev pub on_retry : List (Bool × FlowEvent) → List FlowEvent
on_retry [] = []
on_retry ((true, evt) ∷ xs) = evt ∷ on_retry xs
on_retry ((false, evt) ∷ xs) = on_retry xs

abbrev pub at_once : List (Bool × FlowEvent) → List FlowEvent
at_once [] = []
at_once ((true, evt) ∷ xs) = at_once xs
at_once ((false, evt) ∷ xs) = evt ∷ at_once xs

on_retry-append :
    (xs ys : List (Bool × FlowEvent)) → on_retry (xs ++ ys) ≡ on_retry xs ++ on_retry ys
on_retry-append [] ys = refl
on_retry-append ((true, evt) ∷ xs) ys = ap (λ r. evt ∷ r) (on_retry-append xs ys)
on_retry-append ((false, evt) ∷ xs) ys = on_retry-append xs ys

at_once-append : (xs ys : List (Bool × FlowEvent)) → at_once (xs ++ ys) ≡ at_once xs ++ at_once ys
at_once-append [] ys = refl
at_once-append ((true, evt) ∷ xs) ys = at_once-append xs ys
at_once-append ((false, evt) ∷ xs) ys = ap (λ r. evt ∷ r) (at_once-append xs ys)

module _ {K V : Type 0} (serialize : FlowEvent → Option V) (flow_id : FlowKey → K) where
  abbrev pub marked_message : Bool × FlowEvent → K × Option V
  marked_message (mark, evt) = message_of serialize flow_id evt

  grown :
      (mark : Bool) (evt : FlowEvent) (payload : V) (sent : List (Bool × FlowEvent))
      (ms ns : List (K × V))
      → serialize evt ≡ some payload
      → ns ≡ (flow_id evt.state.key, payload) ∷ ms
      → map as_message (oldest_first ms) ≡ map marked_message sent
      → map as_message (oldest_first ns) ≡ map marked_message (sent ++ ((mark, evt) ∷ []))
  grown mark evt payload sent ms ns e m h =
      ap (λ (rs : List (K × V)). map as_message (oldest_first rs)) m
      ∙ map-append as_message (oldest_first ms) _
      ∙ ap₂ (λ (rs ts : List (K × Option V)). rs ++ ts) h
          (ap (λ v. (flow_id evt.state.key, v) ∷ []) (sym e))
      ∙ sym (map-append marked_message sent ((mark, evt) ∷ []))

module _ {B K V : Type 0} (serialize : FlowEvent → Option V) (flow_id : FlowKey → K) where
  -- The messages are those of the events `sent`, from the oldest on, each with the mark whether it was a
  -- retry, of which the metric is the number. Those published when they were taken stand in the order in which they were taken, and so
  -- do those published on a retry, with the events that wait behind them.
  pub record IsOrdered (p : KafkaProducer (B × List (K × V))) (waiting taken : List FlowEvent)
      : Type 0 where
    pub sent : List (Bool × FlowEvent)
    pub messages :
        map as_message (oldest_first p.broker.1) ≡ map (marked_message serialize flow_id) sent
    pub retries : length (on_retry sent) ≡ p.metrics.schema_registry_retries
    pub first : Sublist (at_once sent) taken
    pub again : Sublist (on_retry sent ++ waiting) taken

  pub same-IsOrdered :
      (p q : KafkaProducer (B × List (K × V))) (waiting taken : List FlowEvent)
      → q.broker.1 ≡ p.broker.1
      → q.metrics.schema_registry_retries ≡ p.metrics.schema_registry_retries
      → IsOrdered p waiting taken
      → IsOrdered q waiting taken
  same-IsOrdered p q waiting taken e n h = record {
    sent = h.sent;
    messages = ap (λ (ms : List (K × V)). map as_message (oldest_first ms)) e ∙ h.messages;
    retries = h.retries ∙ sym n;
    first = h.first;
    again = h.again;
  }

  -- The first event that waited was published.
  pub retried-IsOrdered :
      (evt : FlowEvent) (waiting taken : List FlowEvent) (payload : V)
      (p q : KafkaProducer (B × List (K × V)))
      → serialize evt ≡ some payload
      → q.broker.1 ≡ (flow_id evt.state.key, payload) ∷ p.broker.1
      → q.metrics.schema_registry_retries ≡ p.metrics.schema_registry_retries + 1
      → IsOrdered p (evt ∷ waiting) taken
      → IsOrdered q waiting taken
  retried-IsOrdered evt waiting taken payload p q e m n h = record {
    sent = h.sent ++ ((true, evt) ∷ []);
    messages = grown serialize flow_id true evt payload h.sent p.broker.1 q.broker.1 e m h.messages;
    retries = omega (
      arith,
      n,
      h.retries,
      ap length (on_retry-append h.sent ((true, evt) ∷ [])),
      length-append (on_retry h.sent) (evt ∷ []),
    );
    first =
        subst (λ l. Sublist l taken)
          (sym (at_once-append h.sent ((true, evt) ∷ []) ∙ append-nil (at_once h.sent))) h.first;
    again =
        subst (λ l. Sublist l taken)
          (sym (
            ap (λ l. l ++ waiting) (on_retry-append h.sent ((true, evt) ∷ []))
            ∙ append_assoc (on_retry h.sent) (evt ∷ []) waiting))
          h.again;
  }

  -- An event was published when it was taken.
  pub published-IsOrdered :
      (evt : FlowEvent) (waiting taken : List FlowEvent) (payload : V)
      (p q : KafkaProducer (B × List (K × V)))
      → serialize evt ≡ some payload
      → q.broker.1 ≡ (flow_id evt.state.key, payload) ∷ p.broker.1
      → q.metrics.schema_registry_retries ≡ p.metrics.schema_registry_retries
      → IsOrdered p waiting taken
      → IsOrdered q waiting (taken ++ (evt ∷ []))
  published-IsOrdered evt waiting taken payload p q e m n h = record {
    sent = h.sent ++ ((false, evt) ∷ []);
    messages =
        grown serialize flow_id false evt payload h.sent p.broker.1 q.broker.1 e m h.messages;
    retries =
        ap length (on_retry-append h.sent ((false, evt) ∷ []) ∙ append-nil (on_retry h.sent))
        ∙ h.retries
        ∙ sym n;
    first =
        subst (λ l. Sublist l (taken ++ (evt ∷ [])))
          (sym (at_once-append h.sent ((false, evt) ∷ [])))
          (Sublist.append h.first (Sublist.refl (evt ∷ [])));
    again =
        subst (λ l. Sublist (l ++ waiting) (taken ++ (evt ∷ [])))
          (sym (on_retry-append h.sent ((false, evt) ∷ []) ∙ append-nil (on_retry h.sent)))
          (Sublist.trans h.again (sublist-append_left taken (evt ∷ [])));
  }

  pub lost-IsOrdered :
      (evt : FlowEvent) (waiting taken : List FlowEvent) (p : KafkaProducer (B × List (K × V)))
      → IsOrdered p (evt ∷ waiting) taken
      → IsOrdered p waiting taken
  lost-IsOrdered evt waiting taken p h = record {
    sent = h.sent;
    messages = h.messages;
    retries = h.retries;
    first = h.first;
    again =
        Sublist.trans
          (Sublist.append (Sublist.refl (on_retry h.sent))
            (Sublist.cons evt (Sublist.refl waiting)))
          h.again;
  }

  -- One more event was taken: it is lost, or it waits behind the others.
  pub skipped-IsOrdered :
      (evt : FlowEvent) (waiting taken : List FlowEvent) (p : KafkaProducer (B × List (K × V)))
      → IsOrdered p waiting taken
      → IsOrdered p waiting (taken ++ (evt ∷ []))
  skipped-IsOrdered evt waiting taken p h = record {
    sent = h.sent;
    messages = h.messages;
    retries = h.retries;
    first = Sublist.trans h.first (sublist-append_left taken (evt ∷ []));
    again = Sublist.trans h.again (sublist-append_left taken (evt ∷ []));
  }

  pub waits-IsOrdered :
      (evt : FlowEvent) (waiting taken : List FlowEvent) (p : KafkaProducer (B × List (K × V)))
      → IsOrdered p waiting taken
      → IsOrdered p (waiting ++ (evt ∷ [])) (taken ++ (evt ∷ []))
  waits-IsOrdered evt waiting taken p h = record {
    sent = h.sent;
    messages = h.messages;
    retries = h.retries;
    first = Sublist.trans h.first (sublist-append_left taken (evt ∷ []));
    again =
        subst (λ l. Sublist l (taken ++ (evt ∷ [])))
          (append_assoc (on_retry h.sent) waiting (evt ∷ []))
          (Sublist.append h.again (Sublist.refl (evt ∷ [])));
  }
