-- ===== src/Metrics/MetricsRegistry/Tests.antt =====
-- The registry of src/metrics/metrics_registry.cpp on a store that gives every name and labels a
-- number.
use Prim.Native.String.{String}
use text.Mathlib.Text.{◌==◌}
use text.Mathlib.TextEquality.{eq_iff}
use mathlib.Core.Bool.{true≢false}
use packetpipe.Common.{◌≡◌, ◌≢◌, refl, sym, ap, ◌∙◌, inl, inr, Bool-cases, List, [], ◌∷◌, tally}
use packetpipe.Common.Int.{ℤ, pos, sub_ℕ, ◌+ℤ◌, ◌-ℤ◌}
use packetpipe.Common.Result.{ok, ok-injective}
use packetpipe.Events.{tcp_teardown}
use packetpipe.Metrics.MetricsRegistry.{
  Labels, Prometheus, MetricsRegistry, packets_received, flows_active, flows_expired, access,
  construct, make_counter, make_gauge,
}
use packetpipe.Metrics.MetricsRegistry.Series.{IsPrometheus}
use packetpipe.Metrics.MetricsRegistry.Updates.{
  Update, increments, decrements, ups, downs, update_all, update_all_lem,
}

abbrev Named : Type 0
Named = String × Labels

String_discrete : Discrete String
String_discrete s t = elim (Bool-cases (s == t)) [
  | inl e ↦ yes ((eq_iff s t).0 e)
  | inr e ↦ no (λ p. absurd (true≢false (sym ((eq_iff s t).1 p) ∙ e)))
]

Named_discrete : Discrete Named
Named_discrete = hlevel String_discrete

-- The value of one series is replaced.
abbrev change : (ℤ → ℤ) → Named → (Named → ℤ) → Named → ℤ
change f s store t = elim (Named_discrete s t) [ yes e ↦ f (store t) | no d ↦ store t ]

change_same : (f : ℤ → ℤ) (s : Named) (store : Named → ℤ) → change f s store s ≡ f (store s)
change_same f s store =
    elim (Named_discrete s s)
      as (λ c. elim c as (λ c. ℤ) [ yes e ↦ f (store s) | no d ↦ store s ] ≡ f (store s)) [
        | yes e ↦ refl
        | no d ↦ absurd (d refl)
      ]

change_other : (f : ℤ → ℤ) (s t : Named) (store : Named → ℤ) → s ≢ t → change f s store t ≡ store t
change_other f s t store n =
    elim (Named_discrete s t)
      as (λ c. elim c as (λ c. ℤ) [ yes e ↦ f (store t) | no d ↦ store t ] ≡ store t) [
        | yes e ↦ absurd (n e)
        | no d ↦ refl
      ]

abbrev prom : Prometheus (Named → ℤ) String Named
prom = record {
  new_registry = λ t. pos 0;
  register_counter = λ name help r. ok (name, r);
  register_gauge = λ name help r. ok (name, r);
  add = λ f labels r. ok ((f, labels), r);
  listen = λ address r. ok r;
  increment = change (λ v. v +ℤ pos 1);
  decrement = change (λ v. v -ℤ pos 1);
}

abbrev laws : IsPrometheus prom
laws = record {
  name_of = λ f. f;
  identity = λ s. s;
  value = λ s r. r s;
  counter_name = λ name help r f r' e.
      let p = ok-injective e in (sym (ap (λ x. x.0) p), λ s. sym (ap (λ x. x.1 s) p));
  gauge_name = λ name help r f r' e.
      let p = ok-injective e in (sym (ap (λ x. x.0) p), λ s. sym (ap (λ x. x.1 s) p));
  added = λ f labels r s r' e.
      let p = ok-injective e in (sym (ap (λ x. x.0) p), λ s. sym (ap (λ x. x.1 s) p));
  listens = λ address r r' e s. sym (ap (λ x. x s) (ok-injective e));
  starts = λ s. refl;
  incremented = λ s r. change_same (λ v. v +ℤ pos 1) s r;
  decremented = λ s r. change_same (λ v. v -ℤ pos 1) s r;
  others_up = λ s t r n. change_other (λ v. v +ℤ pos 1) s t r n;
  others_down = λ s t r n. change_other (λ v. v -ℤ pos 1) s t r n;
}

abbrev made : MetricsRegistry Named
made = record {
  packets_received_ = ("packetpipe_packets_received_total", ("version", "1.0.0") ∷ []);
  packets_dropped_ = ("packetpipe_packets_dropped_total", ("version", "1.0.0") ∷ []);
  flows_active_ = ("packetpipe_flows_active", ("version", "1.0.0") ∷ []);
  flows_created_ = ("packetpipe_flows_created_total", ("version", "1.0.0") ∷ []);
  flows_expired_idle_ =
      ("packetpipe_flows_expired_total", ("version", "1.0.0") ∷ ("reason", "idle_timeout") ∷ []);
  flows_expired_tcp_ =
      ("packetpipe_flows_expired_total", ("version", "1.0.0") ∷ ("reason", "tcp_teardown") ∷ []);
  kafka_messages_produced_ =
      ("packetpipe_kafka_messages_produced_total", ("version", "1.0.0") ∷ []);
  kafka_delivery_errors_ = ("packetpipe_kafka_delivery_errors_total", ("version", "1.0.0") ∷ []);
  avro_serialization_errors_ =
      ("packetpipe_avro_serialization_errors_total", ("version", "1.0.0") ∷ []);
  schema_registry_retries_ =
      ("packetpipe_schema_registry_retries_total", ("version", "1.0.0") ∷ []);
}

construct_test : construct prom "1.0.0" 9100 ≡ ok (made, λ t. pos 0)
unfolding construct make_counter make_gauge
construct_test = refl

-- A flow is opened and ends.
abbrev updates : List Update
updates =
    increments packets_received
    ∷ increments flows_active
    ∷ increments packets_received
    ∷ decrements
    ∷ increments (flows_expired tcp_teardown)
    ∷ []

update_all_lem_example :
    update_all prom made updates (λ t. pos 0) (access made flows_active)
    ≡ sub_ℕ (tally (ups flows_active) updates) (tally (downs flows_active) updates)
update_all_lem_example =
    update_all_lem prom laws "1.0.0" 9100 made (λ t. pos 0) construct_test updates flows_active

counts_test : (tally (ups flows_active) updates ≡ 1) × (tally (downs flows_active) updates ≡ 1)
counts_test = (refl, refl)
