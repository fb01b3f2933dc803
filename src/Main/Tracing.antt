-- ===== src/Main/Tracing.antt =====
-- Each piece of work of src/main.cpp keeps track of every event.
use packetpipe.Common.{
  ◌+◌, ◌≡◌, refl, ap, subst, Bool, Option, some, List, [], ◌∷◌, ◌++◌, length, tally, tally-append,
  arith,
}
use packetpipe.Events.{FlowKey, FlowEvent}
use packetpipe.Events.EventQueue.{pop}
use packetpipe.Events.EventQueue.Fifo.{dequeue}
use packetpipe.Events.EventQueue.Held.{Holds}
use packetpipe.Events.EventQueue.Refine.{pop-Holds}
use packetpipe.Flowtable.{FlowTable, process}
use packetpipe.Flowtable.Drops.{refusals}
use packetpipe.Flowtable.Walk.{walk-process, walk-timer_sweep, walk-drain_all}
use packetpipe.Kafka.KafkaProducer.{Librdkafka, flush}
use packetpipe.Kafka.KafkaProducer.Journal.{journaled, flush-SameMessages}
use packetpipe.Kafka.AvroKafkaSink.{AvroKafkaSink, retry_first, take_event}
use packetpipe.Kafka.AvroKafkaSink.Shares.{
  Shared, list_of, same-IsShared, retry_first-Shared, take_event-Shared,
}
use packetpipe.Metrics.{inc_received, inc_dropped}
use packetpipe.Packets.{ParsedPacket}
use packetpipe.Packets.Outcome.{Outcome, ok, reject, fault, ◌>>=◌, ok-injective, >>=-ok_inv}
use packetpipe.Packets.Decoder.{decode}
use packetpipe.Packets.Sources.{count_drop, handle_decoded, pcap_handler}
use packetpipe.Main.{
  Program, Step, captures, sweeps, drains, retries, takes, flushes, on_registry, table_of, sink_of,
  with_table, with_sink, capture, take_turn, flush_all, perform, perform_all,
  default_event_queue_capacity, queue_buffer,
}
use packetpipe.Main.Sound.{Recorded, recorded_buffer, default_event_queue_capacity-IsCapacity}
use packetpipe.Main.Traced.{IsTraced, calm-IsTraced, IsTraced-Kept}

tally-dequeue :
    (f : FlowEvent → Bool) (xs : List FlowEvent)
    → tally f (list_of (dequeue xs).1) + tally f (dequeue xs).0 ≡ tally f xs
tally-dequeue f [] = omega arith
tally-dequeue f (x ∷ xs) = omega arith

module _ {B K V : Type 0} (rd : Librdkafka B K V) (serialize : FlowEvent → Option V)
    (flow_id : FlowKey → K) where
  abbrev pub Traced : Program Recorded (B × List (K × V)) → Type 0
  Traced p = IsTraced serialize flow_id p.sink.producer p.sink.retry_buf (table_of p)

  handled-Traced :
      (r : Outcome ParsedPacket) (p p' : Program Recorded (B × List (K × V)))
      → (handle_decoded (process recorded_buffer.push_event) (some on_registry) r (table_of p)
          >>= λ t. ok (with_table t p))
        ≡ ok p'
      → Traced p
      → Traced p'
  unfolding handle_decoded table_of with_table count_drop on_registry inc_dropped inc_received
  handled-Traced (ok pkt) p p' e h = subst Traced (ok-injective e) (
      walk-process recorded_buffer.push_event
        (IsTraced serialize flow_id p.sink.producer p.sink.retry_buf)
        (IsTraced-Kept serialize flow_id p.sink.producer p.sink.retry_buf) pkt (table_of p)
        (calm-IsTraced serialize flow_id p.sink.producer p.sink.retry_buf (table_of p) _ refl refl
          refl h))
  handled-Traced reject p p' e h = subst Traced (ok-injective e) (
      calm-IsTraced serialize flow_id p.sink.producer p.sink.retry_buf (table_of p) _ refl refl refl
        h)
  handled-Traced fault p p' e h = cc

  -- The sink's part of the invariant, behind work of its own.
  sink-Traced :
      (s : AvroKafkaSink (B × List (K × V))) (p : Program Recorded (B × List (K × V)))
      (refused queued taken : List FlowEvent)
      → Holds default_event_queue_capacity p.table.sink.0 queued
      → length refused ≡ refusals p.table.log
      → ((f : FlowEvent → Bool)
          → tally f p.table.sink.1 ≡ tally f refused + tally f queued + tally f taken)
      → Shared serialize flow_id s taken
      → Traced (with_sink s p)
  unfolding table_of with_sink
  sink-Traced s p refused queued taken holds logged pushed shared = record {
    refused = refused;
    queued = queued;
    taken = taken;
    holds = holds;
    logged = logged;
    pushed = pushed;
    shared = shared;
  }

  retries-Traced :
      (p : Program Recorded (B × List (K × V)))
      → Traced p
      → Traced (with_sink (retry_first (journaled rd) serialize flow_id (sink_of p)) p)
  unfolding table_of sink_of
  retries-Traced p h =
      sink-Traced _ p h.refused h.queued h.taken h.holds h.logged h.pushed
        (retry_first-Shared serialize flow_id rd h.taken (sink_of p) h.shared)

  take_turn-Traced :
      (p : Program Recorded (B × List (K × V)))
      → Traced p
      → Traced (take_turn recorded_buffer (journaled rd) serialize flow_id p)
  unfolding take_turn recorded_buffer queue_buffer table_of sink_of
  take_turn-Traced p h =
      let n = default_event_queue_capacity in
      let (holds, same) =
        pop-Holds n default_event_queue_capacity-IsCapacity p.table.sink.0 h.queued h.holds in
      let (q', evt) = pop n p.table.sink.0 in
      let p' : Program Recorded (B × List (K × V)) = record p {
        table = record p.table { sink = (q', p.table.sink.1) };
      } in
      sink-Traced (take_event (journaled rd) serialize flow_id evt (sink_of p')) p' h.refused
        (dequeue h.queued).0 (list_of evt ++ h.taken) holds h.logged
        (λ f. omega (
          arith,
          h.pushed f,
          tally-append f (list_of evt) h.taken,
          tally-dequeue f h.queued,
          ap (λ e. tally f (list_of e)) same,
        ))
        (take_event-Shared serialize flow_id rd evt h.taken (sink_of p') h.shared)

  flush_all-Traced :
      (p : Program Recorded (B × List (K × V)))
      → Traced p
      → Traced (flush_all recorded_buffer (journaled rd) serialize flow_id p)
  unfolding flush_all table_of sink_of
  flush_all-Traced p h =
      let s = sink_of p in
      sink-Traced (record s { producer = flush (journaled rd) s.producer }) p h.refused h.queued
        h.taken h.holds h.logged h.pushed
        (same-IsShared serialize flow_id s.producer _ s.retry_buf h.taken
          (flush-SameMessages rd s.producer) h.shared)

  table-Traced :
      (t : FlowTable Recorded) (p : Program Recorded (B × List (K × V)))
      → IsTraced serialize flow_id p.sink.producer p.sink.retry_buf t
      → Traced (with_table t p)
  unfolding with_table table_of
  table-Traced t p h = h

  perform-Traced :
      (x : Step) (p p' : Program Recorded (B × List (K × V)))
      → perform recorded_buffer (journaled rd) serialize flow_id x p ≡ ok p'
      → Traced p
      → Traced p'
  unfolding perform capture pcap_handler
  perform-Traced (captures f) p p' e h =
      handled-Traced (decode (some f.bytes) f.caplen f.ts) p p' e h
  perform-Traced (sweeps now) p p' e h = subst Traced (ok-injective e) (
      table-Traced _ p (
        walk-timer_sweep recorded_buffer.push_event
          (IsTraced serialize flow_id p.sink.producer p.sink.retry_buf)
          (IsTraced-Kept serialize flow_id p.sink.producer p.sink.retry_buf) now (table_of p) h))
  perform-Traced (drains now) p p' e h = subst Traced (ok-injective e) (
      table-Traced _ p (
        walk-drain_all recorded_buffer.push_event
          (IsTraced serialize flow_id p.sink.producer p.sink.retry_buf)
          (IsTraced-Kept serialize flow_id p.sink.producer p.sink.retry_buf) now (table_of p) h))
  perform-Traced retries p p' e h = subst Traced (ok-injective e) (retries-Traced p h)
  perform-Traced takes p p' e h = subst Traced (ok-injective e) (take_turn-Traced p h)
  perform-Traced flushes p p' e h = subst Traced (ok-injective e) (flush_all-Traced p h)

  pub perform_all-Traced :
      (xs : List Step) (p p' : Program Recorded (B × List (K × V)))
      → perform_all recorded_buffer (journaled rd) serialize flow_id xs p ≡ ok p'
      → Traced p
      → Traced p'
  unfolding perform_all
  perform_all-Traced [] p p' e h = subst Traced (ok-injective e) h
  perform_all-Traced (x ∷ xs) p p' e h =
      let (q, e1, e2) =
        >>=-ok_inv (perform recorded_buffer (journaled rd) serialize flow_id x p) _ e in
      perform_all-Traced xs q p' e2 (perform-Traced x p q e1 h)
