-- ===== src/Kafka/AvroKafkaSink/Ordered/Turns.antt =====
-- The turns of the thread of src/kafka/avro_kafka_sink.cpp keep the order of the events.
use mathlib.Core.List.Sublist
use packetpipe.Common.{Bool, true, false, Option, List, ◌∷◌}
use packetpipe.Events.{FlowEvent, FlowKey}
use packetpipe.Kafka.KafkaProducer.{Librdkafka, KafkaProducer}
use packetpipe.Kafka.AvroKafkaSink.{AvroKafkaSink}
use packetpipe.Kafka.AvroKafkaSink.Ordered.{IsOrdered}

module _ {B K V : Type 0} (serialize : FlowEvent → Option V) (flow_id : FlowKey → K)
    (rd : Librdkafka B K V) where
  -- An event that waited was tried: it left, or it waits on.
  abbrev Tried :
      FlowEvent → List FlowEvent → List FlowEvent → Bool × KafkaProducer (B × List (K × V)) → Type 0
  Tried evt waiting taken (true, p) = IsOrdered serialize flow_id p waiting taken
  Tried evt waiting taken (false, p) = IsOrdered serialize flow_id p (evt ∷ waiting) taken

  abbrev Ordered : AvroKafkaSink (B × List (K × V)) → List FlowEvent → Type 0
  Ordered s taken = IsOrdered serialize flow_id s.producer s.retry_buf taken
