-- ===== src/Kafka/AvroKafkaSink/Booked.antt =====
-- Which event of the thread of src/kafka/avro_kafka_sink.cpp is where, and which counter says so.
use packetpipe.Common.{◌+◌, ◌≤◌, ◌≡◌, Bool, Option, List, map, length, tally}
use packetpipe.Events.{FlowEvent, FlowKey}
use packetpipe.Kafka.KafkaProducer.{KafkaProducer}
use packetpipe.Kafka.AvroKafkaSink.{AvroKafkaSink}
use packetpipe.Kafka.AvroKafkaSink.Tally.{failures, dropped}
use packetpipe.Kafka.AvroKafkaSink.Shares.{as_message, message_of}

module _ {B K V : Type 0} (serialize : FlowEvent → Option V) (flow_id : FlowKey → K) where
  -- `sent` are the events of the messages, newest first, and `lost` those that were dropped. Any test passes
  -- as many of the events taken as of those sent, lost and waiting.
  pub record IsBooked (s : AvroKafkaSink (B × List (K × V))) (events : List FlowEvent)
      : Type 0 where
    pub sent : List FlowEvent
    pub lost : List FlowEvent
    pub messages : map as_message s.producer.broker.1 ≡ map (message_of serialize flow_id) sent
    pub shares :
        (f : FlowEvent → Bool) → tally f events ≡ tally f sent + tally f lost + tally f s.retry_buf
    pub produced : s.producer.metrics.kafka_messages_produced ≡ length sent
    pub losses : length lost ≡ s.producer.metrics.avro_serialization_errors + dropped s.producer.log
    pub failed : s.producer.metrics.kafka_delivery_errors ≡ failures s.producer.log
    pub again :
        s.producer.metrics.schema_registry_retries ≤ s.producer.metrics.kafka_messages_produced
