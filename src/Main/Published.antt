-- ===== src/Main/Published.antt =====
-- What the sink thread of src/main.cpp does to the accounts of frames and events.
use packetpipe.Common.{ℕ, ◌+◌, ◌≡◌, refl, ap, ◌∙◌, Option, List, [], ◌∷◌, length, arith}
use packetpipe.Events.{FlowKey, FlowEvent}
use packetpipe.Events.EventQueue.{pop}
use packetpipe.Events.EventQueue.Fifo.{dequeue}
use packetpipe.Events.EventQueue.Held.{Holds}
use packetpipe.Events.EventQueue.Refine.{pop-Holds}
use packetpipe.Flowtable.Drops.{refusals}
use packetpipe.Kafka.KafkaProducer.{Librdkafka, flush}
use packetpipe.Kafka.AvroKafkaSink.{AvroKafkaSink, retry_first, take_event}
use packetpipe.Kafka.AvroKafkaSink.Tally.{flush-IsTallied}
use packetpipe.Kafka.AvroKafkaSink.Accounts
use packetpipe.Kafka.AvroKafkaSink.Accounts.{count, retry_first-IsAccounted, take_event-IsAccounted}
use packetpipe.Kafka.AvroKafkaSink.Frame.{
  SameFlowMetrics, SameFlowMetrics-refl, retry_first-Keeps, take_event-Keeps, flush-Keeps,
}
use packetpipe.Main.{
  default_event_queue_capacity, queue_buffer, Program, table_of, sink_of, with_sink, take_turn,
  flush_all,
}
use packetpipe.Main.Sound.{
  Recorded, recorded_buffer, default_event_queue_capacity-IsCapacity, Sound,
}

count-dequeue : (xs : List FlowEvent) → count (dequeue xs).1 + length (dequeue xs).0 ≡ length xs
count-dequeue [] = omega arith
count-dequeue (x ∷ xs) = omega arith

module _ {B K V : Type 0} (rd : Librdkafka B K V) (serialize : FlowEvent → Option V)
    (flow_id : FlowKey → K) where
  sink-Sound :
      (s : AvroKafkaSink B) (p : Program Recorded B) (n a b : ℕ)
      → SameFlowMetrics p.metrics s.producer.metrics
      → Accounts.IsAccounted s n
      → (queued : List FlowEvent) → Holds default_event_queue_capacity p.table.sink.0 queued
      → length p.table.sink.1 ≡ refusals p.table.log + length queued + n
      → p.metrics.packets_received ≡ a
      → p.metrics.packets_dropped ≡ p.table.drop_count + refusals p.table.log + b
      → Sound (with_sink s p) a b
  unfolding with_sink table_of
  sink-Sound s p n a b m acc queued holds sum r d = (
    acc.left,
    record {
      queued = queued;
      holds = holds;
      events = omega (arith, sum, acc.sum);
      tallied = acc.tallied;
      received = m.received ∙ r;
      dropped = m.dropped ∙ d;
    },
  )

  pub retries-Sound :
      (p : Program Recorded B) (a b : ℕ)
      → Sound p a b
      → Sound (with_sink (retry_first rd serialize flow_id (sink_of p)) p) a b
  unfolding sink_of table_of
  retries-Sound p a b (gone, h) =
      sink-Sound _ p (gone + length p.sink.retry_buf) a b
        (retry_first-Keeps rd serialize flow_id p.metrics (sink_of p)
          (SameFlowMetrics-refl p.metrics))
        (retry_first-IsAccounted rd serialize flow_id (sink_of p) (gone + length p.sink.retry_buf)
          (record { left = gone; tallied = h.tallied; sum = refl }))
        h.queued h.holds (omega (arith, h.events)) h.received h.dropped

  pub take_turn-Sound :
      (p : Program Recorded B) (a b : ℕ)
      → Sound p a b
      → Sound (take_turn recorded_buffer rd serialize flow_id p) a b
  unfolding take_turn recorded_buffer queue_buffer table_of sink_of
  take_turn-Sound p a b (gone, h) =
      let n = default_event_queue_capacity in
      let (holds, same) =
        pop-Holds n default_event_queue_capacity-IsCapacity p.table.sink.0 h.queued h.holds in
      let (q', evt) = pop n p.table.sink.0 in
      let p' : Program Recorded B = record p {
        table = record p.table { sink = (q', p.table.sink.1) };
      } in
      sink-Sound (take_event rd serialize flow_id evt (sink_of p')) p'
        (count evt + (gone + length p.sink.retry_buf)) a b
        (take_event-Keeps rd serialize flow_id p.metrics evt (sink_of p')
          (SameFlowMetrics-refl p.metrics))
        (take_event-IsAccounted rd serialize flow_id evt (sink_of p')
          (gone + length p.sink.retry_buf)
          (record { left = gone; tallied = h.tallied; sum = refl }))
        (dequeue h.queued).0 holds (omega (arith, h.events, count-dequeue h.queued, ap count same))
        h.received h.dropped

  pub flush_all-Sound :
      (p : Program Recorded B) (a b : ℕ)
      → Sound p a b
      → Sound (flush_all recorded_buffer rd serialize flow_id p) a b
  unfolding flush_all table_of
  flush_all-Sound p a b (gone, h) =
      let s : AvroKafkaSink B = record (sink_of p) { producer = flush rd (sink_of p).producer } in
      sink-Sound s p (gone + length p.sink.retry_buf) a b
        (flush-Keeps rd serialize flow_id p.metrics (sink_of p).producer
          (SameFlowMetrics-refl p.metrics))
        (record {
          left = gone;
          tallied = flush-IsTallied rd serialize flow_id (sink_of p).producer gone h.tallied;
          sum = refl;
        })
        h.queued h.holds (omega (arith, h.events)) h.received h.dropped
