-- ===== src/Metrics/MetricsRegistry.antt =====
-- src/metrics/metrics_registry.cpp and metrics_registry.hpp: the registry's constructor and its
-- accessors. prometheus-cpp is outside the repository: it is a record of functions on its state `R`,
-- with families `F` and series `S`; an error is the text of the exception.
pub mod Series
pub mod Constructed
pub mod Updates
mod Tests
use Prim.Native.String.{String, ◌++◌}
use packetpipe.Common.{ℕ, List, [], ◌∷◌}
use packetpipe.Common.Int.{ℤ}
use packetpipe.Common.Decimal.{to_string}
use packetpipe.Common.Result.{Result, err, ok, ◌>>=◌}
use packetpipe.Events.{ExpireReason, idle_timeout, tcp_teardown}

abbrev pub Labels : Type 0
Labels = List (String × String)

-- `listen` is the exposer: it is given its address and the registry.
pub record Prometheus (R F S : Type 0) : Type 0 where
  pub new_registry : R
  pub register_counter : String → String → R → Result String (F × R)
  pub register_gauge : String → String → R → Result String (F × R)
  pub add : F → Labels → R → Result String (S × R)
  pub listen : String → R → Result String R
  pub increment : S → R → R
  pub decrement : S → R → R

pub record MetricsRegistry (S : Type 0) : Type 0 where
  pub packets_received_ : S
  pub packets_dropped_ : S
  pub flows_active_ : S
  pub flows_created_ : S
  pub flows_expired_idle_ : S
  pub flows_expired_tcp_ : S
  pub kafka_messages_produced_ : S
  pub kafka_delivery_errors_ : S
  pub avro_serialization_errors_ : S
  pub schema_registry_retries_ : S

-- The methods that give access to a metric.
pub data Accessor : Type 0 where
  packets_received packets_dropped flows_active flows_created : Accessor
  flows_expired : ExpireReason → Accessor
  kafka_messages_produced kafka_delivery_errors : Accessor
  avro_serialization_errors schema_registry_retries : Accessor

unfoldable pub access : {S : Type 0} → MetricsRegistry S → Accessor → S
access m packets_received = m.packets_received_
access m packets_dropped = m.packets_dropped_
access m flows_active = m.flows_active_
access m flows_created = m.flows_created_
access m (flows_expired idle_timeout) = m.flows_expired_idle_
access m (flows_expired tcp_teardown) = m.flows_expired_tcp_
access m kafka_messages_produced = m.kafka_messages_produced_
access m kafka_delivery_errors = m.kafka_delivery_errors_
access m avro_serialization_errors = m.avro_serialization_errors_
access m schema_registry_retries = m.schema_registry_retries_

module _ {R F S : Type 0} (prom : Prometheus R F S) where
  unfoldable pub make_counter : String → String → Labels → R → Result String (S × R)
  make_counter name help labels reg = do
    (family, reg) ← prom.register_counter name help reg
    prom.add family labels reg

  unfoldable pub make_gauge : String → String → Labels → R → Result String (S × R)
  make_gauge name help labels reg = do
    (family, reg) ← prom.register_gauge name help reg
    prom.add family labels reg

  unfoldable pub construct : String → ℕ → Result String (MetricsRegistry S × R)
  unfolding make_counter make_gauge
  construct version port = do
    let base = ("version", version) ∷ []
    let reg = prom.new_registry
    (received, reg) ← make_counter "packetpipe_packets_received_total" "Packets ingested" base reg
    (dropped, reg) ←
        make_counter "packetpipe_packets_dropped_total"
          "Packets discarded (unrecognised protocol or over flow limit)" base reg
    (active, reg) ← make_gauge "packetpipe_flows_active" "Currently tracked flows" base reg
    (created, reg) ← make_counter "packetpipe_flows_created_total" "Total flows opened" base reg
    (expired_fam, reg) ←
        prom.register_counter "packetpipe_flows_expired_total" "Total flows expired" reg
    (idle, reg) ← prom.add expired_fam (("version", version) ∷ ("reason", "idle_timeout") ∷ []) reg
    (tcp, reg) ← prom.add expired_fam (("version", version) ∷ ("reason", "tcp_teardown") ∷ []) reg
    (produced, reg) ←
        make_counter "packetpipe_kafka_messages_produced_total" "Messages handed to librdkafka" base
          reg
    (failed, reg) ←
        make_counter "packetpipe_kafka_delivery_errors_total" "Failed Kafka deliveries" base reg
    (unserialized, reg) ←
        make_counter "packetpipe_avro_serialization_errors_total" "Avro serialization failures" base
          reg
    (retries, reg) ←
        make_counter "packetpipe_schema_registry_retries_total" "Schema Registry retry attempts"
          base reg
    reg ← prom.listen ("0.0.0.0:" ++ to_string port) reg
    ok (
      record {
        packets_received_ = received;
        packets_dropped_ = dropped;
        flows_active_ = active;
        flows_created_ = created;
        flows_expired_idle_ = idle;
        flows_expired_tcp_ = tcp;
        kafka_messages_produced_ = produced;
        kafka_delivery_errors_ = failed;
        avro_serialization_errors_ = unserialized;
        schema_registry_retries_ = retries;
      },
      reg,
    )
