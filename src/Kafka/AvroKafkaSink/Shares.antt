-- ===== src/Kafka/AvroKafkaSink/Shares.antt =====
-- Where each event that the thread of src/kafka/avro_kafka_sink.cpp took is: in a message that
-- librdkafka took, in the retry buffer, or lost.
use packetpipe.Common.{
  ◌+◌, ◌≡◌, refl, sym, ap, ◌∙◌, inl, inr, Bool, true, false, Bool-cases, Option, none, some, List,
  [], ◌∷◌, ◌++◌, map, length, arith, tally, tally-append,
}
use packetpipe.Events.{FlowEvent, FlowKey}
use packetpipe.Metrics.{inc_produced, inc_delivery_errors, inc_serialization_errors, inc_retries}
use packetpipe.Kafka.KafkaProducer.{Librdkafka, KafkaProducer, after_produce, produce}
use packetpipe.Kafka.KafkaProducer.Journal.{note, journaled, SameMessages, poll-SameMessages}
use packetpipe.Kafka.AvroKafkaSink.{
  AvroKafkaSink, has_room, after_attempt, after_retry, retried, discard, unserializable, overflow,
  attempt_payload, attempt_produce, retry_payload, retry_loop, consume_one, retry_first, take_event,
}

-- A message is the key and the payload of an event.
abbrev pub as_message : {K V : Type 0} → K × V → K × Option V
as_message (key, payload) = (key, some payload)

abbrev pub message_of :
    {K V : Type 0} → (FlowEvent → Option V) → (FlowKey → K) → FlowEvent → K × Option V
message_of serialize flow_id evt = (flow_id evt.state.key, serialize evt)

abbrev pub list_of : Option FlowEvent → List FlowEvent
list_of none = []
list_of (some evt) = evt ∷ []

module _ {B K V : Type 0} (serialize : FlowEvent → Option V) (flow_id : FlowKey → K) where
  -- The events `sent` are those of the messages, in their order, and the taken events are these, the
  -- lost ones and those that wait, each as often as it was taken.
  pub record IsShared (p : KafkaProducer (B × List (K × V))) (waiting taken : List FlowEvent)
      : Type 0 where
    pub sent : List FlowEvent
    pub lost : List FlowEvent
    pub messages : map as_message p.broker.1 ≡ map (message_of serialize flow_id) sent
    pub produced : p.metrics.kafka_messages_produced ≡ length sent
    pub shares :
        (f : FlowEvent → Bool) → tally f taken ≡ tally f sent + tally f lost + tally f waiting

  -- An event that waited was tried: it left, or it waits on.
  abbrev pub Tried :
      FlowEvent → List FlowEvent → List FlowEvent → Bool × KafkaProducer (B × List (K × V)) → Type 0
  Tried evt waiting taken (true, p) = IsShared p waiting taken
  Tried evt waiting taken (false, p) = IsShared p (evt ∷ waiting) taken

  pub same-IsShared :
      (p q : KafkaProducer (B × List (K × V))) (waiting taken : List FlowEvent)
      → SameMessages p q
      → IsShared p waiting taken
      → IsShared q waiting taken
  same-IsShared p q waiting taken s h = record {
    sent = h.sent;
    lost = h.lost;
    messages = ap (λ (ms : List (K × V)). map as_message ms) s.messages ∙ h.messages;
    produced = s.produced ∙ h.produced;
    shares = h.shares;
  }

  module _ (evt : FlowEvent) (waiting taken : List FlowEvent) where
    sent_lem :
        (payload : V) (p q : KafkaProducer (B × List (K × V)))
        → serialize evt ≡ some payload
        → q.broker.1 ≡ (flow_id evt.state.key, payload) ∷ p.broker.1
        → q.metrics.kafka_messages_produced ≡ p.metrics.kafka_messages_produced + 1
        → IsShared p (evt ∷ waiting) taken
        → IsShared q waiting taken
    sent_lem payload p q e m n h = record {
      sent = evt ∷ h.sent;
      lost = h.lost;
      messages =
          ap (λ (ms : List (K × V)). map as_message ms) m
          ∙ ap (λ ms. (flow_id evt.state.key, some payload) ∷ ms) h.messages
          ∙ ap (λ v. (flow_id evt.state.key, v) ∷ map (message_of serialize flow_id) h.sent)
              (sym e);
      produced = omega (arith, n, h.produced);
      shares = λ f. omega (arith, h.shares f);
    }

    pub lost_lem :
        (p q : KafkaProducer (B × List (K × V)))
        → SameMessages p q
        → IsShared p (evt ∷ waiting) taken
        → IsShared q waiting taken
    lost_lem p q s h = record {
      sent = h.sent;
      lost = evt ∷ h.lost;
      messages = ap (λ (ms : List (K × V)). map as_message ms) s.messages ∙ h.messages;
      produced = s.produced ∙ h.produced;
      shares = λ f. omega (arith, h.shares f);
    }

    produced-Tried :
        (payload : V) (r : Bool × B) (p : KafkaProducer (B × List (K × V)))
        → serialize evt ≡ some payload
        → IsShared p (evt ∷ waiting) taken
        → Tried evt waiting taken
            (after_produce (note (flow_id evt.state.key) payload p.broker.1 r) p)
    unfolding after_produce inc_produced inc_delivery_errors
    produced-Tried payload (true, b) p e h = sent_lem payload p _ e refl refl h
    produced-Tried payload (false, b) p e h =
        same-IsShared p _ (evt ∷ waiting) taken (record { messages = refl; produced = refl }) h

    retried-Tried :
        (r : Bool × KafkaProducer (B × List (K × V)))
        → Tried evt waiting taken r
        → Tried evt waiting taken (after_retry r)
    unfolding after_retry retried inc_retries
    retried-Tried (true, p) h =
        same-IsShared p _ waiting taken (record { messages = refl; produced = refl }) h
    retried-Tried (false, p) h = h

    Tried-left :
        (r : Bool × KafkaProducer (B × List (K × V)))
        → r.0 ≡ true
        → Tried evt waiting taken r
        → IsShared r.1 waiting taken
    Tried-left (true, p) e h = h
    Tried-left (false, p) e h = cc

    Tried-stays :
        (r : Bool × KafkaProducer (B × List (K × V)))
        → r.0 ≡ false
        → Tried evt waiting taken r
        → IsShared r.1 (evt ∷ waiting) taken
    Tried-stays (true, p) e h = cc
    Tried-stays (false, p) e h = h

  -- One more event was taken, and waits.
  one_more :
      (evt : FlowEvent) (waiting taken : List FlowEvent) (p : KafkaProducer (B × List (K × V)))
      → IsShared p waiting taken
      → IsShared p (evt ∷ waiting) (evt ∷ taken)
  one_more evt waiting taken p h = record {
    sent = h.sent;
    lost = h.lost;
    messages = h.messages;
    produced = h.produced;
    shares = λ f. omega (arith, h.shares f);
  }

  to_back :
      (evt : FlowEvent) (waiting taken : List FlowEvent) (p : KafkaProducer (B × List (K × V)))
      → IsShared p (evt ∷ waiting) taken
      → IsShared p (waiting ++ (evt ∷ [])) taken
  to_back evt waiting taken p h = record {
    sent = h.sent;
    lost = h.lost;
    messages = h.messages;
    produced = h.produced;
    shares = λ f. omega (arith, h.shares f, tally-append f waiting (evt ∷ []));
  }

  -- The sink's producer and its retry buffer.
  abbrev pub Shared : AvroKafkaSink (B × List (K × V)) → List FlowEvent → Type 0
  Shared s taken = IsShared s.producer s.retry_buf taken

  after_attempt-Shared :
      (evt : FlowEvent) (taken : List FlowEvent) (s : AvroKafkaSink (B × List (K × V)))
      (r : Bool × KafkaProducer (B × List (K × V)))
      → Tried evt s.retry_buf taken r
      → Shared (after_attempt evt s r) taken
  unfolding after_attempt overflow inc_delivery_errors
  after_attempt-Shared evt taken s (true, p) h = h
  after_attempt-Shared evt taken s (false, p) h = elim (Bool-cases (has_room s)) [
    | inl e ↦ rw e (to_back evt s.retry_buf taken p h)
    | inr e ↦
        rw e (lost_lem evt s.retry_buf taken p _ (record { messages = refl; produced = refl }) h)
  ]

  module _ (rd : Librdkafka B K V) where
    retry_payload-Tried :
        (evt : FlowEvent) (waiting taken : List FlowEvent) (payload : Option V)
        (p : KafkaProducer (B × List (K × V)))
        → serialize evt ≡ payload
        → IsShared p (evt ∷ waiting) taken
        → Tried evt waiting taken (retry_payload (journaled rd) serialize flow_id evt payload p)
    unfolding retry_payload produce journaled discard inc_serialization_errors
    retry_payload-Tried evt waiting taken none p e h =
        lost_lem evt waiting taken p _ (record { messages = refl; produced = refl }) h
    retry_payload-Tried evt waiting taken (some payload) p e h = retried-Tried evt waiting taken _ (
        produced-Tried evt waiting taken payload
          (rd.rd_produce (flow_id evt.state.key) payload p.broker.0) p e h)

    attempt_payload-Tried :
        (evt : FlowEvent) (waiting taken : List FlowEvent) (payload : Option V)
        (p : KafkaProducer (B × List (K × V)))
        → serialize evt ≡ payload
        → IsShared p (evt ∷ waiting) taken
        → Tried evt waiting taken (attempt_payload (journaled rd) serialize flow_id evt payload p)
    unfolding attempt_payload produce journaled unserializable inc_serialization_errors
    attempt_payload-Tried evt waiting taken none p e h =
        lost_lem evt waiting taken p _ (record { messages = refl; produced = refl }) h
    attempt_payload-Tried evt waiting taken (some payload) p e h =
        produced-Tried evt waiting taken payload
          (rd.rd_produce (flow_id evt.state.key) payload p.broker.0) p e h

    retry_loop-IsShared :
        (evts taken : List FlowEvent) (p : KafkaProducer (B × List (K × V)))
        → IsShared p evts taken
        → let (buf, p') = retry_loop (journaled rd) serialize flow_id evts p in
          IsShared p' buf taken
    unfolding retry_loop
    retry_loop-IsShared [] taken p h = h
    retry_loop-IsShared (evt ∷ evts) taken p h =
        let r = retry_payload (journaled rd) serialize flow_id evt (serialize evt) p in
        let k = retry_payload-Tried evt evts taken (serialize evt) p refl h in
        elim (Bool-cases r.0) [
          | inl e ↦ rw e (retry_loop-IsShared evts taken r.1 (Tried-left evt evts taken r e k))
          | inr e ↦ rw e (Tried-stays evt evts taken r e k)
        ]

    pub retry_first-Shared :
        (taken : List FlowEvent) (s : AvroKafkaSink (B × List (K × V)))
        → Shared s taken
        → Shared (retry_first (journaled rd) serialize flow_id s) taken
    unfolding retry_first
    retry_first-Shared taken s h = retry_loop-IsShared s.retry_buf taken s.producer h

    consume_one-Shared :
        (e : Option FlowEvent) (taken : List FlowEvent) (s : AvroKafkaSink (B × List (K × V)))
        → Shared s taken
        → Shared (consume_one (journaled rd) serialize flow_id e s) (list_of e ++ taken)
    unfolding consume_one attempt_produce
    consume_one-Shared none taken s h = h
    consume_one-Shared (some evt) taken s h = after_attempt-Shared evt (evt ∷ taken) s _ (
        attempt_payload-Tried evt s.retry_buf (evt ∷ taken) (serialize evt) s.producer refl
          (one_more evt s.retry_buf taken s.producer h))

    pub take_event-Shared :
        (e : Option FlowEvent) (taken : List FlowEvent) (s : AvroKafkaSink (B × List (K × V)))
        → Shared s taken
        → Shared (take_event (journaled rd) serialize flow_id e s) (list_of e ++ taken)
    unfolding take_event
    take_event-Shared e taken s h =
        let s' = consume_one (journaled rd) serialize flow_id e s in
        same-IsShared s'.producer _ s'.retry_buf (list_of e ++ taken)
          (poll-SameMessages rd s'.producer) (consume_one-Shared e taken s h)
