-- ===== src/Metrics/MetricsRegistry/Series.antt =====
-- What the metrics of src/metrics/metrics_registry.cpp are published with, and the laws of
-- prometheus-cpp.
use Prim.Native.String.{String}
use text.Mathlib.Text.{◌==◌}
use packetpipe.Common.{◌≡◌, ◌≢◌, refl, sym, ap, ◌∙◌, [], ◌∷◌, if◌then◌else◌}
use packetpipe.Common.Int.{ℤ, pos, ◌+ℤ◌, ◌-ℤ◌}
use packetpipe.Common.Result.{ok}
use packetpipe.Events.{ExpireReason, idle_timeout, tcp_teardown}
use packetpipe.Metrics.MetricsRegistry.{
  Labels, Prometheus, Accessor, packets_received, packets_dropped, flows_active, flows_created,
  flows_expired, kafka_messages_produced, kafka_delivery_errors, avro_serialization_errors,
  schema_registry_retries,
}

-- What prometheus-cpp documents: a series has the name of its family and the labels that it was added
-- with, its value starts at zero, and only increments and decrements of it change it.
pub record IsPrometheus {R F S : Type 0} (prom : Prometheus R F S) : Type 0 where
  pub name_of : F → String
  pub identity : S → String × Labels
  pub value : S → R → ℤ
  pub counter_name :
      (name help : String) (r : R) (f : F) (r' : R)
      → prom.register_counter name help r ≡ ok (f, r')
      → (name_of f ≡ name) × ((s : S) → value s r' ≡ value s r)
  pub gauge_name :
      (name help : String) (r : R) (f : F) (r' : R)
      → prom.register_gauge name help r ≡ ok (f, r')
      → (name_of f ≡ name) × ((s : S) → value s r' ≡ value s r)
  pub added :
      (f : F) (labels : Labels) (r : R) (s : S) (r' : R)
      → prom.add f labels r ≡ ok (s, r')
      → (identity s ≡ (name_of f, labels)) × ((t : S) → value t r' ≡ value t r)
  pub listens :
      (address : String) (r r' : R)
      → prom.listen address r ≡ ok r'
      → (s : S) → value s r' ≡ value s r
  pub starts : (s : S) → value s prom.new_registry ≡ pos 0
  pub incremented : (s : S) (r : R) → value s (prom.increment s r) ≡ value s r +ℤ pos 1
  pub decremented : (s : S) (r : R) → value s (prom.decrement s r) ≡ value s r -ℤ pos 1
  pub others_up :
      (s t : S) (r : R) → identity s ≢ identity t → value t (prom.increment s r) ≡ value t r
  pub others_down :
      (s t : S) (r : R) → identity s ≢ identity t → value t (prom.decrement s r) ≡ value t r

-- The name and the labels that an accessor's metric is published with.
abbrev pub published : String → Accessor → String × Labels
published v packets_received = ("packetpipe_packets_received_total", ("version", v) ∷ [])
published v packets_dropped = ("packetpipe_packets_dropped_total", ("version", v) ∷ [])
published v flows_active = ("packetpipe_flows_active", ("version", v) ∷ [])
published v flows_created = ("packetpipe_flows_created_total", ("version", v) ∷ [])
published v (flows_expired idle_timeout) =
    ("packetpipe_flows_expired_total", ("version", v) ∷ ("reason", "idle_timeout") ∷ [])
published v (flows_expired tcp_teardown) =
    ("packetpipe_flows_expired_total", ("version", v) ∷ ("reason", "tcp_teardown") ∷ [])
published v kafka_messages_produced =
    ("packetpipe_kafka_messages_produced_total", ("version", v) ∷ [])
published v kafka_delivery_errors = ("packetpipe_kafka_delivery_errors_total", ("version", v) ∷ [])
published v avro_serialization_errors =
    ("packetpipe_avro_serialization_errors_total", ("version", v) ∷ [])
published v schema_registry_retries =
    ("packetpipe_schema_registry_retries_total", ("version", v) ∷ [])

-- The reason among the labels.
abbrev reason_of : Labels → ExpireReason
reason_of (version ∷ (key, reason) ∷ rest) =
    if reason == "idle_timeout" then idle_timeout else tcp_teardown
reason_of labels = tcp_teardown

abbrev accessor_of : String × Labels → Accessor
accessor_of (name, labels) =
    if name == "packetpipe_packets_received_total"
    then packets_received
    else if name == "packetpipe_packets_dropped_total"
    then packets_dropped
    else if name == "packetpipe_flows_active"
    then flows_active
    else if name == "packetpipe_flows_created_total"
    then flows_created
    else if name == "packetpipe_flows_expired_total"
    then flows_expired (reason_of labels)
    else if name == "packetpipe_kafka_messages_produced_total"
    then kafka_messages_produced
    else if name == "packetpipe_kafka_delivery_errors_total"
    then kafka_delivery_errors
    else if name == "packetpipe_avro_serialization_errors_total"
    then avro_serialization_errors
    else schema_registry_retries

accessor_of-published : (v : String) (k : Accessor) → accessor_of (published v k) ≡ k
accessor_of-published v packets_received = refl
accessor_of-published v packets_dropped = refl
accessor_of-published v flows_active = refl
accessor_of-published v flows_created = refl
accessor_of-published v (flows_expired idle_timeout) = refl
accessor_of-published v (flows_expired tcp_teardown) = refl
accessor_of-published v kafka_messages_produced = refl
accessor_of-published v kafka_delivery_errors = refl
accessor_of-published v avro_serialization_errors = refl
accessor_of-published v schema_registry_retries = refl

pub published-injective : (v : String) (k l : Accessor) → published v k ≡ published v l → k ≡ l
published-injective v k l e =
    sym (accessor_of-published v k) ∙ ap accessor_of e ∙ accessor_of-published v l
