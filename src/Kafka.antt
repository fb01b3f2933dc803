-- ===== src/Kafka.antt =====
-- src/kafka: the thread that takes events off the queue and hands them to Kafka.
pub mod KafkaProducer
pub mod AvroKafkaSink
mod Tests
