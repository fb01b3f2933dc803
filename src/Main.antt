-- ===== src/Main.antt =====
-- src/main.cpp: the components put together. The capture thread, the timer thread and the sink thread
-- take turns, in any order, with the pieces below, each as a whole: the flow table's mutex keeps frames
-- and sweeps apart, and that the sink thread takes an event between two pushes of one sweep or drain is
-- left out. There is one registry, `metrics`, which the flow table, the packet source and the Kafka sink
-- refer to: a component works on it as it finds it and leaves it changed. `S` is what the flow table's
-- callback pushes into and the sink pops from.
pub mod Sound
pub mod Published
pub mod Invariant
pub mod Accounted
pub mod Drained
pub mod Timer
pub mod Traced
pub mod Tracing
pub mod Messages
pub mod StartUp
mod Samples
mod Tests
use packetpipe.Common.{ℕ, ◌*◌, ◌^◌, ltb, if◌then◌else◌, Bool, Option, none, some, List, [], ◌∷◌}
use packetpipe.Common.Int.{ℤ}
use packetpipe.Config.{AppConfig}
use packetpipe.Events.{FlowKey, FlowEvent}
use packetpipe.Events.EventQueue.{EventQueue, push, pop}
use packetpipe.Flowtable.{FlowTable, init, process, timer_sweep, drain_all}
use packetpipe.Kafka.KafkaProducer.{Librdkafka, KafkaProducer, flush}
use packetpipe.Kafka.AvroKafkaSink.{AvroKafkaSink, init_sink, retry_first, take_event}
use packetpipe.Metrics.{Metrics, registry}
use packetpipe.Packets.Outcome.{Outcome, ok, reject, fault, ◌>>=◌}
use packetpipe.Packets.Sources.{CapturedFrame, pcap_handler}

abbrev pub default_event_queue_capacity : ℕ
default_event_queue_capacity = 65_536

-- What stands between the flow table and the sink.
pub record Buffer (S : Type 0) : Type 0 where
  pub push_event : FlowEvent → S → Bool × S
  pub pop_event : S → S × Option FlowEvent

-- The lambda that `main` gives the flow table, and the sink's end of the queue.
unfoldable pub queue_buffer : Buffer (EventQueue FlowEvent)
queue_buffer = record {
  push_event = λ evt q. let (q', taken) = push default_event_queue_capacity evt q in (taken, q');
  pop_event = λ q. pop default_event_queue_capacity q;
}

pub record Program (S B : Type 0) : Type 0 where
  pub metrics : Metrics
  pub table : FlowTable S
  pub sink : AvroKafkaSink B

-- One piece of work of a thread. `retries` and `takes` are the halves of a turn of the sink thread,
-- `drains` and `flushes` belong to the shutdown.
pub data Step : Type 0 where
  captures : CapturedFrame → Step
  sweeps drains : ℤ → Step
  retries takes flushes : Step

-- `std::max(1, std::min(stats, timeout)) * 500`, an `int`: `none` is its overflow, which is undefined.
unfoldable pub timer_interval_ms : AppConfig → Option ℕ
timer_interval_ms cfg =
    let least =
      if ltb cfg.flow_timeout_sec cfg.stats_interval_sec
      then cfg.flow_timeout_sec
      else cfg.stats_interval_sec in
    let ms = (if ltb 1 least then least else 1) * 500 in if ltb ms (2 ^ 31) then some ms else none

-- The pointer that the packet source is given.
unfoldable pub on_registry : {S : Type 0} → (Metrics → Metrics) → FlowTable S → FlowTable S
on_registry f t = record t { metrics = f t.metrics }

module _ {S B : Type 0} where
  -- The table and the producer at work on the one registry.
  unfoldable pub table_of : Program S B → FlowTable S
  table_of p = record p.table { metrics = p.metrics }

  unfoldable pub sink_of : Program S B → AvroKafkaSink B
  sink_of p = record p.sink { producer = record p.sink.producer { metrics = p.metrics } }

  unfoldable pub with_table : FlowTable S → Program S B → Program S B
  with_table t p = record p { metrics = t.metrics; table = t }

  unfoldable pub with_sink : AvroKafkaSink B → Program S B → Program S B
  with_sink s p = record p { metrics = s.producer.metrics; sink = s }

  unfoldable pub begin : AppConfig → S → B → Program S B
  unfolding init registry init_sink
  begin cfg s b = record { metrics = registry; table = init cfg registry s; sink = init_sink cfg b }

module _ {S B K V : Type 0} (buffer : Buffer S) (rd : Librdkafka B K V)
    (serialize : FlowEvent → Option V) (flow_id : FlowKey → K) where
  unfoldable pub capture : CapturedFrame → Program S B → Outcome (Program S B)
  unfolding table_of with_table on_registry
  capture f p = pcap_handler (process buffer.push_event) (some on_registry) f (table_of p) >>= λ t.
      ok (with_table t p)

  -- `pop_wait` takes an event, or none came in time.
  unfoldable pub take_turn : Program S B → Program S B
  unfolding sink_of with_sink
  take_turn p =
      let (s', evt) = buffer.pop_event p.table.sink in
      let p' : Program S B = record p { table = record p.table { sink = s' } } in
      with_sink (take_event rd serialize flow_id evt (sink_of p')) p'

  unfoldable pub flush_all : Program S B → Program S B
  unfolding sink_of with_sink
  flush_all p = let s = sink_of p in with_sink (record s { producer = flush rd s.producer }) p

  unfoldable pub perform : Step → Program S B → Outcome (Program S B)
  unfolding capture take_turn flush_all table_of with_table sink_of with_sink
  perform (captures f) p = capture f p
  perform (sweeps now) p = ok (with_table (timer_sweep buffer.push_event now (table_of p)) p)
  perform (drains now) p = ok (with_table (drain_all buffer.push_event now (table_of p)) p)
  perform retries p = ok (with_sink (retry_first rd serialize flow_id (sink_of p)) p)
  perform takes p = ok (take_turn p)
  perform flushes p = ok (flush_all p)

  unfoldable pub perform_all : List Step → Program S B → Outcome (Program S B)
  unfolding perform
  perform_all [] p = ok p
  perform_all (x ∷ xs) p = perform x p >>= λ p'. perform_all xs p'
