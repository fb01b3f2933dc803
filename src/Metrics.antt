-- ===== src/Metrics.antt =====
-- src/metrics/imetrics_registry.hpp and metrics_registry.cpp: the nine metrics and the choice of
-- the expiry counter. The Prometheus objects are outside the repository: a counter is the number
-- of its increments, the gauge is an integer.
pub mod MetricsRegistry
use packetpipe.Common.{ℕ, ◌+◌}
use packetpipe.Common.Int.{ℤ, pos, ◌+ℤ◌, ◌-ℤ◌}
use packetpipe.Events.{ExpireReason, idle_timeout, tcp_teardown}

pub record Metrics : Type 0 where
  pub packets_received : ℕ
  pub packets_dropped : ℕ
  pub flows_active : ℤ
  pub flows_created : ℕ
  pub flows_expired_idle : ℕ
  pub flows_expired_tcp : ℕ
  pub kafka_messages_produced : ℕ
  pub kafka_delivery_errors : ℕ
  pub avro_serialization_errors : ℕ
  pub schema_registry_retries : ℕ

-- A registry starts with every metric at zero.
unfoldable pub registry : Metrics
registry = record {
  packets_received = 0;
  packets_dropped = 0;
  flows_active = pos 0;
  flows_created = 0;
  flows_expired_idle = 0;
  flows_expired_tcp = 0;
  kafka_messages_produced = 0;
  kafka_delivery_errors = 0;
  avro_serialization_errors = 0;
  schema_registry_retries = 0;
}

-- `packets_received().Increment()`, and so on.
unfoldable pub inc_received : Metrics → Metrics
inc_received m = record m { packets_received = m.packets_received + 1 }

unfoldable pub inc_dropped : Metrics → Metrics
inc_dropped m = record m { packets_dropped = m.packets_dropped + 1 }

unfoldable pub inc_active : Metrics → Metrics
unfolding ◌+ℤ◌
inc_active m = record m { flows_active = m.flows_active +ℤ pos 1 }

unfoldable pub dec_active : Metrics → Metrics
unfolding ◌-ℤ◌
dec_active m = record m { flows_active = m.flows_active -ℤ pos 1 }

unfoldable pub inc_created : Metrics → Metrics
inc_created m = record m { flows_created = m.flows_created + 1 }

-- `flows_expired(r)` picks the counter by the reason.
unfoldable pub inc_expired : ExpireReason → Metrics → Metrics
inc_expired idle_timeout m = record m { flows_expired_idle = m.flows_expired_idle + 1 }
inc_expired tcp_teardown m = record m { flows_expired_tcp = m.flows_expired_tcp + 1 }

unfoldable pub inc_produced : Metrics → Metrics
inc_produced m = record m { kafka_messages_produced = m.kafka_messages_produced + 1 }

unfoldable pub inc_delivery_errors : Metrics → Metrics
inc_delivery_errors m = record m { kafka_delivery_errors = m.kafka_delivery_errors + 1 }

unfoldable pub inc_serialization_errors : Metrics → Metrics
inc_serialization_errors m = record m {
  avro_serialization_errors = m.avro_serialization_errors + 1;
}

unfoldable pub inc_retries : Metrics → Metrics
inc_retries m = record m { schema_registry_retries = m.schema_registry_retries + 1 }
