-- ===== src/Metrics/MetricsRegistry/Constructed.antt =====
-- The constructor in src/metrics/metrics_registry.cpp makes the metrics as they are published.
use Prim.Native.String.{String}
use packetpipe.Common.{ℕ, ◌≡◌, refl, ap, ◌∙◌}
use packetpipe.Common.Int.{pos}
use packetpipe.Common.Result.{Result, ◌>>=◌, Ensures, >>=-Ensures, ok-Ensures}
use packetpipe.Events.{idle_timeout, tcp_teardown}
use packetpipe.Metrics.MetricsRegistry.{
  Labels, Prometheus, MetricsRegistry, Accessor, packets_received, packets_dropped, flows_active,
  flows_created, flows_expired, kafka_messages_produced, kafka_delivery_errors,
  avro_serialization_errors, schema_registry_retries, access, make_counter, make_gauge, construct,
}
use packetpipe.Metrics.MetricsRegistry.Series.{IsPrometheus, published}

module _ {R F S : Type 0} (prom : Prometheus R F S) (laws : IsPrometheus prom) where
  -- Nothing that was there has changed.
  abbrev Unmoved : R → R → Type 0
  Unmoved r r' = (s : S) → laws.value s r' ≡ laws.value s r

  -- The metrics have the names and labels that they are published with, and are at zero.
  pub record IsConstructed (version : String) (m : MetricsRegistry S) (r : R) : Type 0 where
    pub names : (k : Accessor) → laws.identity (access m k) ≡ published version k
    pub zeros : (s : S) → laws.value s r ≡ pos 0

  -- A series was made with this name and these labels.
  abbrev Makes : String → Labels → R → S × R → Type 0
  Makes name labels r (s, r') = (laws.identity s ≡ (name, labels)) × Unmoved r r'

  add-Makes :
      (name : String) (labels : Labels) (r r' : R) (f : F)
      → (laws.name_of f ≡ name) × Unmoved r r'
      → Ensures (Makes name labels r) (prom.add f labels r')
  add-Makes name labels r r' f (named, kept) = record {
    holds = λ (s, r2) e.
        let (same, unmoved) = laws.added f labels r' s r2 e in
        (same ∙ ap (λ n. (n, labels)) named, λ t. unmoved t ∙ kept t);
  }

  -- A family was registered.
  abbrev Registers : String → R → F × R → Type 0
  Registers name r (f, r') = (laws.name_of f ≡ name) × Unmoved r r'

  register_counter-Registers :
      (name help : String) (r : R) → Ensures (Registers name r) (prom.register_counter name help r)
  register_counter-Registers name help r = record {
    holds = λ (f, r') e. laws.counter_name name help r f r' e;
  }

  register_gauge-Registers :
      (name help : String) (r : R) → Ensures (Registers name r) (prom.register_gauge name help r)
  register_gauge-Registers name help r = record {
    holds = λ (f, r') e. laws.gauge_name name help r f r' e;
  }

  make_counter-Makes :
      (name help : String) (labels : Labels) (r : R)
      → Ensures (Makes name labels r) (make_counter prom name help labels r)
  unfolding make_counter
  make_counter-Makes name help labels r =
      >>=-Ensures (Registers name r) (Makes name labels r) _ _
        (register_counter-Registers name help r) (λ (f, r') h. add-Makes name labels r r' f h)

  make_gauge-Makes :
      (name help : String) (labels : Labels) (r : R)
      → Ensures (Makes name labels r) (make_gauge prom name help labels r)
  unfolding make_gauge
  make_gauge-Makes name help labels r =
      >>=-Ensures (Registers name r) (Makes name labels r) _ _
        (register_gauge-Registers name help r) (λ (f, r') h. add-Makes name labels r r' f h)

  abbrev pub Made : String → MetricsRegistry S × R → Type 0
  Made version (m, r) = IsConstructed version m r

  counter-next :
      {A : Type 0} (Q : A → Type 0) (name help : String) (labels : Labels) (r : R)
      (next : S × R → Result String A)
      → ((made : S × R) → Makes name labels r made → Ensures Q (next made))
      → Ensures Q (make_counter prom name help labels r >>= next)
  counter-next Q name help labels r next k =
      >>=-Ensures (Makes name labels r) Q _ next (make_counter-Makes name help labels r) k

  gauge-next :
      {A : Type 0} (Q : A → Type 0) (name help : String) (labels : Labels) (r : R)
      (next : S × R → Result String A)
      → ((made : S × R) → Makes name labels r made → Ensures Q (next made))
      → Ensures Q (make_gauge prom name help labels r >>= next)
  gauge-next Q name help labels r next k =
      >>=-Ensures (Makes name labels r) Q _ next (make_gauge-Makes name help labels r) k

  family-next :
      {A : Type 0} (Q : A → Type 0) (name help : String) (r : R) (next : F × R → Result String A)
      → ((made : F × R) → Registers name r made → Ensures Q (next made))
      → Ensures Q (prom.register_counter name help r >>= next)
  family-next Q name help r next k =
      >>=-Ensures (Registers name r) Q _ next (register_counter-Registers name help r) k

  add-next :
      {A : Type 0} (Q : A → Type 0) (name : String) (labels : Labels) (r r' : R) (f : F)
      (next : S × R → Result String A)
      → Registers name r (f, r')
      → ((made : S × R) → Makes name labels r made → Ensures Q (next made))
      → Ensures Q (prom.add f labels r' >>= next)
  add-next Q name labels r r' f next h k =
      >>=-Ensures (Makes name labels r) Q _ next (add-Makes name labels r r' f h) k

  listen-next :
      {A : Type 0} (Q : A → Type 0) (address : String) (r : R) (next : R → Result String A)
      → ((r' : R) → Unmoved r r' → Ensures Q (next r'))
      → Ensures Q (prom.listen address r >>= next)
  listen-next Q address r next k =
      >>=-Ensures (Unmoved r) Q _ next (record { holds = λ r' e. laws.listens address r r' e }) k

  pub construct-Made :
      (version : String) (port : ℕ) → Ensures (Made version) (construct prom version port)
  unfolding construct access
  construct-Made version port =
      let Q = Made version in
      counter-next Q _ _ _ _ _ (λ m1 h1. counter-next Q _ _ _ _ _ (λ m2 h2.
        gauge-next Q _ _ _ _ _ (λ m3 h3. counter-next Q _ _ _ _ _ (λ m4 h4.
          family-next Q _ _ _ _ (λ (f, r5) h5.
            add-next Q "packetpipe_flows_expired_total" _ _ _ f _ h5 (λ m6 h6.
              add-next Q "packetpipe_flows_expired_total" _ m6.1 m6.1 f _ (h5.0, λ s. refl)
                (λ m7 h7. counter-next Q _ _ _ _ _ (λ m8 h8. counter-next Q _ _ _ _ _ (λ m9 h9.
                  counter-next Q _ _ _ _ _ (λ m10 h10. counter-next Q _ _ _ _ _ (λ m11 h11.
                    listen-next Q _ _ _ (λ r12 h12.
                      let m : MetricsRegistry S = record {
                        packets_received_ = m1.0;
                        packets_dropped_ = m2.0;
                        flows_active_ = m3.0;
                        flows_created_ = m4.0;
                        flows_expired_idle_ = m6.0;
                        flows_expired_tcp_ = m7.0;
                        kafka_messages_produced_ = m8.0;
                        kafka_delivery_errors_ = m9.0;
                        avro_serialization_errors_ = m10.0;
                        schema_registry_retries_ = m11.0;
                      } in
                      ok-Ensures Q _ (record {
                        names = λ k.
                            elim k as (λ k. laws.identity (access m k) ≡ published version k) [
                              | packets_received ↦ h1.0
                              | packets_dropped ↦ h2.0
                              | flows_active ↦ h3.0
                              | flows_created ↦ h4.0
                              | flows_expired idle_timeout ↦ h6.0
                              | flows_expired tcp_teardown ↦ h7.0
                              | kafka_messages_produced ↦ h8.0
                              | kafka_delivery_errors ↦ h9.0
                              | avro_serialization_errors ↦ h10.0
                              | schema_registry_retries ↦ h11.0
                            ];
                        zeros = λ s.
                            h12 s
                            ∙ h11.1 s
                            ∙ h10.1 s
                            ∙ h9.1 s
                            ∙ h8.1 s
                            ∙ h7.1 s
                            ∙ h6.1 s
                            ∙ h4.1 s
                            ∙ h3.1 s
                            ∙ h2.1 s
                            ∙ h1.1 s
                            ∙ laws.starts s;
                      })))))))))))))
