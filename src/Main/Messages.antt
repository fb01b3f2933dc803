-- ===== src/Main/Messages.antt =====
-- The messages that src/main.cpp hands to librdkafka are those of the flow table's events.
mod Tests
use packetpipe.Common.{
  ℕ, ◌+◌, ◌≡◌, refl, sym, ap, ap₂, subst, ◌∙◌, Bool, true, Option, none, some, List, [], ◌∷◌, ◌++◌,
  All, map, length, tally, tally-append, tally-length, arith, ◌<◌, ◌^◌, leb, false,
}
use packetpipe.Config.{AppConfig}
use packetpipe.Events.{FlowKey, FlowEvent}
use packetpipe.Events.EventQueue.{fresh, pop}
use packetpipe.Events.EventQueue.Fifo.{dequeue}
use packetpipe.Events.EventQueue.Held.{Holds}
use packetpipe.Events.EventQueue.Refine.{pop-Holds, fresh-Holds, size_lem}
use packetpipe.Flowtable.{FlowTable, init, process, timer_sweep, drain_all}
use packetpipe.Flowtable.Drops.{refusals}
use packetpipe.Flowtable.Walk.{walk-process, walk-timer_sweep, walk-drain_all}
use packetpipe.Kafka.KafkaProducer.{Librdkafka, flush}
use packetpipe.Kafka.KafkaProducer.Journal.{journaled, flush-SameMessages}
use packetpipe.Kafka.AvroKafkaSink.{AvroKafkaSink, init_sink, retry_first, take_event}
use packetpipe.Kafka.AvroKafkaSink.Shares.{
  as_message, message_of, Shared, list_of, same-IsShared, retry_first-Shared, take_event-Shared,
}
use packetpipe.Kafka.AvroKafkaSink.Tally.{dropped}
use packetpipe.Metrics.{registry, inc_received, inc_dropped}
use packetpipe.Avro.{Libraries, flow_id, datum_of, serialize}
use packetpipe.Avro.Wire.{read_wire, read_all, with_id, serialize-read_wire}
use packetpipe.Common.Int.{pos}
use Prim.Native.String.{String}
use packetpipe.Packets.{ParsedPacket}
use packetpipe.Packets.Outcome.{Outcome, ok, reject, fault, ◌>>=◌, ok-injective, >>=-ok_inv}
use packetpipe.Packets.Decoder.{decode}
use packetpipe.Packets.Sources.{CapturedFrame, count_drop, handle_decoded, pcap_handler}
use packetpipe.Packets.Sources.Handled.{IsCaptured}
use packetpipe.Main.{
  Program, Step, captures, sweeps, drains, retries, takes, flushes, on_registry, table_of, sink_of,
  with_table, with_sink, begin, capture, take_turn, flush_all, perform, perform_all,
  default_event_queue_capacity, queue_buffer,
}
use packetpipe.Main.Sound.{
  Recorded, recorded_buffer, default_event_queue_capacity-IsCapacity, Sound,
}
use packetpipe.Main.Invariant.{frames_of, perform_all-Sound}
use packetpipe.Main.Accounted.{begin-Sound}
use packetpipe.Main.Traced.{IsTraced, calm-IsTraced, IsTraced-Kept}
use packetpipe.Main.Tracing.{Traced, perform_all-Traced}

module _ {B K V : Type 0} (serialize : FlowEvent → Option V) (flow_id : FlowKey → K) where
  -- `sent` are the events of the messages that librdkafka took, newest first, and `lost` those that
  -- were counted as unserializable or dropped from the full retry buffer. Any test passes as many of
  -- the events that the flow table pushed as of those refused, queued, sent, lost and waiting.
  pub record IsPublished (p : Program Recorded (B × List (K × V))) : Type 0 where
    pub refused : List FlowEvent
    pub queued : List FlowEvent
    pub sent : List FlowEvent
    pub lost : List FlowEvent
    pub holds : Holds default_event_queue_capacity p.table.sink.0 queued
    pub messages : map as_message p.sink.producer.broker.1 ≡ map (message_of serialize flow_id) sent
    pub pushed :
        (f : FlowEvent → Bool)
        → tally f p.table.sink.1
          ≡ tally f refused
            + tally f queued
            + tally f sent
            + tally f lost
            + tally f p.sink.retry_buf
    pub logged : length refused ≡ refusals p.table.log
    pub produced : length sent ≡ p.metrics.kafka_messages_produced
    pub losses : length lost ≡ p.metrics.avro_serialization_errors + dropped p.sink.producer.log

  pub published :
      (p : Program Recorded (B × List (K × V))) (a b : ℕ)
      → IsTraced serialize flow_id p.sink.producer p.sink.retry_buf (table_of p)
      → Sound p a b
      → IsPublished p
  unfolding table_of
  published p a b t (gone, h) =
      let n = default_event_queue_capacity in
      let c = default_event_queue_capacity-IsCapacity in
      let q = p.table.sink.0 in
      let same = sym (size_lem n c q h.queued h.holds) ∙ size_lem n c q t.queued t.holds in
      let s = t.shared in
      record {
        refused = t.refused;
        queued = t.queued;
        sent = s.sent;
        lost = s.lost;
        holds = t.holds;
        messages = s.messages;
        pushed = λ f. omega (arith, t.pushed f, s.shares f);
        logged = t.logged;
        produced = sym s.produced;
        losses = omega (
          arith,
          same,
          h.events,
          h.tallied.gone,
          t.logged,
          s.produced,
          t.pushed (λ e. true),
          s.shares (λ e. true),
          tally-length p.table.sink.1,
          tally-length t.refused,
          tally-length t.queued,
          tally-length t.taken,
          tally-length s.sent,
          tally-length s.lost,
          tally-length p.sink.retry_buf,
        );
      }

  pub begin-Traced :
      (rd : Librdkafka B K V) (cfg : AppConfig) (default : FlowEvent) (c : B)
      → Traced rd serialize flow_id
          (begin cfg (fresh default_event_queue_capacity default, []) (c, []))
  unfolding begin table_of init registry init_sink refusals
  begin-Traced rd cfg default c = record {
    refused = [];
    queued = [];
    taken = [];
    holds =
        fresh-Holds default_event_queue_capacity default_event_queue_capacity-IsCapacity default;
    logged = refl;
    pushed = λ f. refl;
    shared = record { sent = []; lost = []; messages = refl; produced = refl; shares = λ f. refl };
  }

  -- After any sequence of whole steps of the threads, from the start, and whatever the serializer and
  -- librdkafka answer, if the captured frames are whole: the messages that librdkafka has taken are,
  -- one by one, the keys and the payloads of events that the flow table pushed; and each pushed
  -- event is, as often as it was pushed, refused by the full queue with a log line, in the queue,
  -- published, in the retry buffer, or lost, and the lost ones are as many as the serialization
  -- errors and the log lines about a full retry buffer. Published means taken by librdkafka: a
  -- delivery report that fails puts no event back.
  pub perform_all-IsPublished :
      (rd : Librdkafka B K V) (cfg : AppConfig) (default : FlowEvent) (c : B) (xs : List Step)
      → All IsCaptured (frames_of xs)
      → (p : Program Recorded (B × List (K × V))) × (perform_all recorded_buffer
            (journaled rd)
            serialize
            flow_id
            xs
            (begin cfg (fresh default_event_queue_capacity default, []) (c, []))
          ≡ ok p)
        × IsPublished p
  perform_all-IsPublished rd cfg default c xs w =
      let (p, e, sound) =
        perform_all-Sound (journaled rd) serialize flow_id xs
          (begin cfg (fresh default_event_queue_capacity default, []) (c, [])) 0 0 w
          (begin-Sound cfg default (c, [])) in
      (
        p,
        e,
        published p _ _
            (perform_all-Traced rd serialize flow_id xs _ p e (begin-Traced rd cfg default c))
            sound,
      )

-- A message as a reader of the wire format sees it, and an event as it should be seen.
abbrev pub read_message : String × List ℕ → String × Option (ℕ × List ℕ)
read_message (key, payload) = (key, read_wire payload)

abbrev read_payload : String × Option (List ℕ) → String × Option (ℕ × List ℕ)
read_payload (key, payload) = (key, read_all payload)

abbrev pub event_message : Libraries → ℕ → FlowEvent → String × Option (ℕ × List ℕ)
event_message lib id evt = (flow_id lib evt.state.key, with_id id (lib.encode (datum_of lib evt)))

module _ (lib : Libraries) (id : ℕ) (small : id < 2 ^ 31)
    (full : leb lib.field_count 12 ≡ false) where
  wire_lem :
      (evt : FlowEvent)
      → read_all (serialize lib (pos id) evt) ≡ with_id id (lib.encode (datum_of lib evt))
  wire_lem evt = serialize-read_wire lib id evt small ∙ rw full refl

  read_messages :
      (ms : List (String × List ℕ)) (sent : List FlowEvent)
      → map as_message ms ≡ map (message_of (serialize lib (pos id)) (flow_id lib)) sent
      → map read_message ms ≡ map (event_message lib id) sent
  read_messages [] [] e = refl
  read_messages [] (x ∷ xs) e = cc
  read_messages (m ∷ ms) [] e = cc
  read_messages (m ∷ ms) (x ∷ xs) e =
      let head : as_message m ≡ message_of (serialize lib (pos id)) (flow_id lib) x = cc e in
      let tail : map as_message ms ≡ map (message_of (serialize lib (pos id)) (flow_id lib)) xs =
        cc e in
      ap₂ (λ (r : String × Option (ℕ × List ℕ)) rs. r ∷ rs)
        (ap read_payload head
          ∙ ap (λ (o : Option (ℕ × List ℕ)). (flow_id lib x.state.key, o)) (wire_lem x))
        (read_messages ms xs tail)

  -- With the serializer of the program, the schema id that the registry gave, if it is not negative, and a
  -- schema of at least thirteen fields: whatever librdkafka has taken, at any time, are messages
  -- whose key is the flow id of an event that was pushed, and whose payload a reader takes apart
  -- into this schema id and the encoded record of the same event.
  pub perform_all-event_message :
      {B : Type 0} (rd : Librdkafka B String (List ℕ)) (cfg : AppConfig) (default : FlowEvent)
      (c : B) (xs : List Step)
      → All IsCaptured (frames_of xs)
      → (p : Program Recorded (B × List (String × List ℕ))) × (perform_all recorded_buffer
            (journaled rd)
            (serialize lib (pos id))
            (flow_id lib)
            xs
            (begin cfg (fresh default_event_queue_capacity default, []) (c, []))
          ≡ ok p)
        × (h : IsPublished (serialize lib (pos id)) (flow_id lib) p) × (map read_message
              p.sink.producer.broker.1
            ≡ map (event_message lib id) h.sent)
  perform_all-event_message rd cfg default c xs w =
      let (p, e, h) =
        perform_all-IsPublished (serialize lib (pos id)) (flow_id lib) rd cfg default c xs w in
      (p, e, h, read_messages p.sink.producer.broker.1 h.sent h.messages)
