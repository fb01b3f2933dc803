-- ===== src/Main/Invariant.antt =====
-- What each piece of work of src/main.cpp does to the accounts of frames and events.
use packetpipe.Common.{
  ℕ, ◌+◌, ◌≡◌, refl, ap, subst, ◌∙◌, Option, some, List, [], ◌∷◌, ◌++◌, All, length, arith,
}
use packetpipe.Events.{FlowKey, FlowEvent}
use packetpipe.Flowtable.{FlowTable, process}
use packetpipe.Flowtable.Walk.{walk-process, walk-timer_sweep, walk-drain_all}
use packetpipe.Kafka.KafkaProducer.{Librdkafka, KafkaProducer}
use packetpipe.Kafka.AvroKafkaSink.{retry_first}
use packetpipe.Metrics.{inc_received, inc_dropped}
use packetpipe.Packets.Outcome.{Outcome, ok, ◌>>=◌}
use packetpipe.Packets.Decoder.{decode}
use packetpipe.Packets.Decoder.Safety.{decode-IsPacket}
use packetpipe.Packets.Sources.{CapturedFrame, count_drop, pcap_handler}
use packetpipe.Packets.Sources.Handled.{
  IsCaptured, packets_in, rejects_in, decodable, undecodable, decodable-append, undecodable-append,
  All-append_inv, Counts, handle_decoded-Counts,
}
use packetpipe.Main.{
  Program, Step, captures, sweeps, drains, retries, takes, flushes, on_registry, table_of, sink_of,
  with_table, with_sink, capture, take_turn, flush_all, perform, perform_all,
}
use packetpipe.Main.Sound.{Recorded, recorded_buffer, IsSound, IsSound-Kept, Sound}
use packetpipe.Main.Published.{retries-Sound, take_turn-Sound, flush_all-Sound}

abbrev pub frames_in : Step → List CapturedFrame
frames_in (captures f) = f ∷ []
frames_in (sweeps now) = []
frames_in (drains now) = []
frames_in retries = []
frames_in takes = []
frames_in flushes = []

-- The frames that were captured.
abbrev pub frames_of : List Step → List CapturedFrame
frames_of [] = []
frames_of (x ∷ xs) = frames_in x ++ frames_of xs

recast :
    {B : Type 0} (p : Program Recorded B) (a b a' b' : ℕ)
    → a ≡ a'
    → b ≡ b'
    → Sound p a b
    → Sound p a' b'
recast p a b a' b' e e' h = subst (λ c. Sound p a' c) e' (subst (λ c. Sound p c b) e h)

quiet_end :
    {B : Type 0} (p : Program Recorded B) (a b : ℕ)
    → Sound p a b
    → (p' : Program Recorded B) × (◌≡◌ {A = Outcome (Program Recorded B)} (ok p) (ok p'))
      × Sound p' (0 + a) (0 + b)
quiet_end p a b h = (p, refl, recast p a b (0 + a) (0 + b) (omega arith) (omega arith) h)

table-Sound :
    {B : Type 0} (t : FlowTable Recorded) (p : Program Recorded B) (gone a b : ℕ)
    → IsSound p.sink.producer gone (length p.sink.retry_buf) a b t
    → Sound (with_table t p) a b
unfolding with_table table_of
table-Sound t p gone a b h = (gone, h)

module _ {B : Type 0} (q : KafkaProducer B) (gone waiting a b : ℕ) (t : FlowTable Recorded) where
  one_packet :
      IsSound q gone waiting a b t
      → IsSound q gone waiting (1 + a) b (record t { metrics = inc_received t.metrics })
  unfolding inc_received
  one_packet h = record {
    queued = h.queued;
    holds = h.holds;
    events = h.events;
    tallied = record { gone = h.tallied.gone; failed = h.tallied.failed; again = h.tallied.again };
    received = omega (arith, h.received);
    dropped = h.dropped;
  }

  one_drop :
      IsSound q gone waiting a b t → IsSound q gone waiting a (1 + b) (on_registry inc_dropped t)
  unfolding on_registry inc_dropped
  one_drop h = record {
    queued = h.queued;
    holds = h.holds;
    events = h.events;
    tallied = record { gone = h.tallied.gone; failed = h.tallied.failed; again = h.tallied.again };
    received = h.received;
    dropped = omega (arith, h.dropped);
  }

module _ {B K V : Type 0} (rd : Librdkafka B K V) (serialize : FlowEvent → Option V)
    (flow_id : FlowKey → K) where
  -- The table's callback counts packets, and the source's drop frames without one.
  process-Counts :
      (q : KafkaProducer B) (gone waiting : ℕ)
      → Counts (process recorded_buffer.push_event) (some on_registry) (IsSound q gone waiting)
  unfolding count_drop
  process-Counts q gone waiting = record {
    calls_back = λ a b pkt t is h.
        walk-process recorded_buffer.push_event (IsSound q gone waiting (1 + a) b)
          (IsSound-Kept q gone waiting (1 + a) b) pkt t (one_packet q gone waiting a b t h);
    drops = λ a b t h. one_drop q gone waiting a b t h;
  }

  capture-Sound :
      (f : CapturedFrame) (p : Program Recorded B) (a b : ℕ)
      → IsCaptured f
      → Sound p a b
      → let r = decode (some f.bytes) f.caplen f.ts in
        (p' : Program Recorded B) × (capture recorded_buffer rd serialize flow_id f p ≡ ok p')
        × Sound p' (packets_in r + a) (rejects_in r + b)
  unfolding capture pcap_handler
  capture-Sound f p a b w (gone, h) =
      let q = p.sink.producer in
      let waiting = length p.sink.retry_buf in
      let (nf, is) = decode-IsPacket f.bytes f.caplen f.ts w.0 w.1 in
      let (t, e, h') =
        handle_decoded-Counts (process recorded_buffer.push_event) (some on_registry)
          (IsSound q gone waiting) (process-Counts q gone waiting)
          (decode (some f.bytes) f.caplen f.ts) a b (table_of p) nf is h in
      (with_table t p, ap (λ r. r >>= λ t. ok (with_table t p)) e, (gone, h'))

  -- The numbers of frames after one piece of work.
  perform-Sound :
      (x : Step) (p : Program Recorded B) (a b : ℕ)
      → All IsCaptured (frames_in x)
      → Sound p a b
      → (p' : Program Recorded B) × (perform recorded_buffer rd serialize flow_id x p ≡ ok p')
        × Sound p' (decodable (frames_in x) + a) (undecodable (frames_in x) + b)
  unfolding perform
  perform-Sound (captures f) p a b w h =
      let (p', e, h') = capture-Sound f p a b w.0 h in
      (p', e, recast p' _ _ _ _ (omega arith) (omega arith) h')
  perform-Sound (sweeps now) p a b w (gone, h) = quiet_end _ a b (
      table-Sound _ p gone a b (
        walk-timer_sweep recorded_buffer.push_event
          (IsSound p.sink.producer gone (length p.sink.retry_buf) a b)
          (IsSound-Kept p.sink.producer gone (length p.sink.retry_buf) a b) now (table_of p) h))
  perform-Sound (drains now) p a b w (gone, h) = quiet_end _ a b (
      table-Sound _ p gone a b (
        walk-drain_all recorded_buffer.push_event
          (IsSound p.sink.producer gone (length p.sink.retry_buf) a b)
          (IsSound-Kept p.sink.producer gone (length p.sink.retry_buf) a b) now (table_of p) h))
  perform-Sound retries p a b w h =
      quiet_end (with_sink (retry_first rd serialize flow_id (sink_of p)) p) a b
        (retries-Sound rd serialize flow_id p a b h)
  perform-Sound takes p a b w h =
      quiet_end (take_turn recorded_buffer rd serialize flow_id p) a b
        (take_turn-Sound rd serialize flow_id p a b h)
  perform-Sound flushes p a b w h =
      quiet_end (flush_all recorded_buffer rd serialize flow_id p) a b
        (flush_all-Sound rd serialize flow_id p a b h)

  pub perform_all-Sound :
      (xs : List Step) (p : Program Recorded B) (a b : ℕ)
      → All IsCaptured (frames_of xs)
      → Sound p a b
      → (p' : Program Recorded B) × (perform_all recorded_buffer rd serialize flow_id xs p ≡ ok p')
        × Sound p' (decodable (frames_of xs) + a) (undecodable (frames_of xs) + b)
  unfolding perform_all
  perform_all-Sound [] p a b w h = quiet_end p a b h
  perform_all-Sound (x ∷ xs) p a b w h =
      let (wx, wxs) = All-append_inv (frames_in x) (frames_of xs) w in
      let (p', e, h') = perform-Sound x p a b wx h in
      let (p'', e', h'') =
        perform_all-Sound xs p' (decodable (frames_in x) + a) (undecodable (frames_in x) + b) wxs
          h' in
      (
        p'',
        ap (λ r. r >>= λ p'. perform_all recorded_buffer rd serialize flow_id xs p') e ∙ e',
        recast p'' _ _ _ _ (omega (arith, decodable-append (frames_in x) (frames_of xs)))
            (omega (arith, undecodable-append (frames_in x) (frames_of xs))) h'',
      )
