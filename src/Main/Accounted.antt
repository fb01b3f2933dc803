-- ===== src/Main/Accounted.antt =====
-- How the counters of src/main.cpp agree at any time.
use packetpipe.Common.{ℕ, ◌+◌, ◌≡◌, refl, List, [], length, arith}
use packetpipe.Config.{AppConfig}
use packetpipe.Events.{FlowEvent}
use packetpipe.Events.EventQueue.{fresh}
use packetpipe.Events.EventQueue.Held.{Holds}
use packetpipe.Events.EventQueue.Refine.{fresh-Holds}
use packetpipe.Flowtable.{init}
use packetpipe.Flowtable.Drops.{refusals}
use packetpipe.Kafka.AvroKafkaSink.{init_sink}
use packetpipe.Kafka.AvroKafkaSink.Tally.{failures, dropped}
use packetpipe.Metrics.{registry}
use packetpipe.Main.{default_event_queue_capacity, Program, table_of, begin}
use packetpipe.Main.Sound.{Recorded, default_event_queue_capacity-IsCapacity}
use packetpipe.Main.Sound.{Sound}

-- `a` packets and `b` frames without one were captured.
pub record IsAccounted {B : Type 0} (p : Program Recorded B) (a b : ℕ) : Type 0 where
  pub queued : List FlowEvent
  pub holds : Holds default_event_queue_capacity p.table.sink.0 queued
  pub events :
      length p.table.sink.1
      ≡ refusals p.table.log
        + length queued
        + length p.sink.retry_buf
        + p.metrics.kafka_messages_produced
        + p.metrics.avro_serialization_errors
        + dropped p.sink.producer.log
  pub failed : p.metrics.kafka_delivery_errors ≡ failures p.sink.producer.log
  pub received : p.metrics.packets_received ≡ a
  pub dropped : p.metrics.packets_dropped ≡ p.table.drop_count + refusals p.table.log + b

pub begin-Sound :
    {B : Type 0} (cfg : AppConfig) (default : FlowEvent) (c : B)
    → Sound (begin cfg (fresh default_event_queue_capacity default, []) c) 0 0
unfolding begin table_of init registry init_sink refusals
begin-Sound cfg default c = (
  0,
  record {
    queued = [];
    holds =
        fresh-Holds default_event_queue_capacity default_event_queue_capacity-IsCapacity default;
    events = omega arith;
    tallied = record { gone = refl; failed = refl; again = omega arith };
    received = refl;
    dropped = omega arith;
  },
)
