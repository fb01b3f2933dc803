-- ===== src/Metrics/MetricsRegistry/Updates.antt =====
-- Each metric of src/metrics/metrics_registry.cpp counts the updates through its accessor.
use packetpipe.Common.{
  ℕ, ◌+◌, ◌≡◌, ◌≢◌, refl, sym, ap, ap₂, subst, ◌∙◌, Bool, true, false, List, [], ◌∷◌, tally, one,
  arith, inl, inr, ◌⊎◌,
}
use packetpipe.Common.Int.{pos, sub_ℕ, ◌+ℤ◌, ◌-ℤ◌}
use packetpipe.Common.Result.{ok}
use packetpipe.Metrics.MetricsRegistry.{
  Prometheus, MetricsRegistry, Accessor, flows_active, access, construct,
}
use packetpipe.Metrics.MetricsRegistry.Series.{IsPrometheus, published, published-injective}
use packetpipe.Metrics.MetricsRegistry.Constructed.{construct-Made}
use Prim.Native.String.{String}

-- What the program does with a metric: only the gauge is decremented.
pub data Update : Type 0 where
  increments : Accessor → Update
  decrements : Update

abbrev pub Accessor_discrete : Discrete Accessor
Accessor_discrete = hlevel

abbrev pub same : Accessor → Accessor → Bool
same k l = elim (Accessor_discrete k l) [ yes e ↦ true | no d ↦ false ]

same-cases : (k l : Accessor) → ((same k l ≡ true) × (k ≡ l)) ⊎ ((same k l ≡ false) × (k ≢ l))
same-cases k l = go (Accessor_discrete k l)
  where
    go :
        (c : Dec (k ≡ l))
        → ((elim c as (λ c. Bool) [ yes e ↦ true | no d ↦ false ] ≡ true) × (k ≡ l))
          ⊎ ((elim c as (λ c. Bool) [ yes e ↦ true | no d ↦ false ] ≡ false) × (k ≢ l))
    go (yes e) = inl (refl, e)
    go (no d) = inr (refl, d)

-- The update is an increment, or a decrement, of this metric.
abbrev pub ups : Accessor → Update → Bool
ups k (increments l) = same k l
ups k decrements = false

abbrev pub downs : Accessor → Update → Bool
downs k (increments l) = false
downs k decrements = same k flows_active

sub_ℕ-up : (u d : ℕ) → sub_ℕ u d +ℤ pos 1 ≡ sub_ℕ (1 + u) d
unfolding ◌+ℤ◌
sub_ℕ-up u d = ground arith

sub_ℕ-down : (u d : ℕ) → sub_ℕ u d -ℤ pos 1 ≡ sub_ℕ u (1 + d)
unfolding ◌-ℤ◌
sub_ℕ-down u d = ground arith

module _ {R F S : Type 0} (prom : Prometheus R F S) where
  abbrev pub update : MetricsRegistry S → Update → R → R
  update m (increments k) r = prom.increment (access m k) r
  update m decrements r = prom.decrement (access m flows_active) r

  abbrev pub update_all : MetricsRegistry S → List Update → R → R
  update_all m [] r = r
  update_all m (x ∷ xs) r = update_all m xs (update m x r)

module _ {R F S : Type 0} (prom : Prometheus R F S) (laws : IsPrometheus prom) (version : String)
    (m : MetricsRegistry S)
    (names : (k : Accessor) → laws.identity (access m k) ≡ published version k) where
  -- After `u` increments and `d` decrements of the metric.
  abbrev Shows : Accessor → R → ℕ → ℕ → Type 0
  Shows k r u d = laws.value (access m k) r ≡ sub_ℕ u d

  apart : (k l : Accessor) → k ≢ l → laws.identity (access m l) ≢ laws.identity (access m k)
  apart k l d e = d (published-injective version k l (sym (names k) ∙ sym e ∙ names l))

  recount :
      (k : Accessor) (r : R) (u u' d d' : ℕ) → Shows k r u d → u ≡ u' → d ≡ d' → Shows k r u' d'
  recount k r u u' d d' h p q = h ∙ ap₂ sub_ℕ p q

  update-Shows :
      (k : Accessor) (x : Update) (r : R) (u d : ℕ)
      → Shows k r u d
      → Shows k (update prom m x r) (u + one (ups k) x) (d + one (downs k) x)
  update-Shows k (increments l) r u d h = elim (same-cases k l) [
    | inl (e, p) ↦
        let h' = laws.incremented (access m k) r ∙ ap (λ v. v +ℤ pos 1) h ∙ sub_ℕ-up u d in
        rw e (
          recount k (prom.increment (access m l) r) (1 + u) (u + 1) d (d + 0)
            (subst (λ l. Shows k (prom.increment (access m l) r) (1 + u) d) p h') (omega arith)
            (omega arith))
    | inr (e, p) ↦ rw e (
        recount k (prom.increment (access m l) r) u (u + 0) d (d + 0)
          (laws.others_up (access m l) (access m k) r (apart k l p) ∙ h) (omega arith)
          (omega arith))
  ]
  update-Shows k decrements r u d h = elim (same-cases k flows_active) [
    | inl (e, p) ↦
        let h' = laws.decremented (access m k) r ∙ ap (λ v. v -ℤ pos 1) h ∙ sub_ℕ-down u d in
        rw e (
          recount k (prom.decrement (access m flows_active) r) u (u + 0) (1 + d) (d + 1)
            (subst (λ l. Shows k (prom.decrement (access m l) r) u (1 + d)) p h') (omega arith)
            (omega arith))
    | inr (e, p) ↦ rw e (
        recount k (prom.decrement (access m flows_active) r) u (u + 0) d (d + 0)
          (laws.others_down (access m flows_active) (access m k) r (apart k flows_active p) ∙ h)
          (omega arith) (omega arith))
  ]

  update_all-Shows :
      (k : Accessor) (xs : List Update) (r : R) (u d : ℕ)
      → Shows k r u d
      → Shows k (update_all prom m xs r) (u + tally (ups k) xs) (d + tally (downs k) xs)
  update_all-Shows k [] r u d h = recount k r u (u + 0) d (d + 0) h (omega arith) (omega arith)
  update_all-Shows k (x ∷ xs) r u d h =
      let v = u + one (ups k) x in
      let c = d + one (downs k) x in
      recount k (update_all prom m (x ∷ xs) r) (v + tally (ups k) xs) (u + tally (ups k) (x ∷ xs))
        (c + tally (downs k) xs) (d + tally (downs k) (x ∷ xs))
        (update_all-Shows k xs (update prom m x r) v c (update-Shows k x r u d h)) (omega arith)
        (omega arith)

-- Where the laws of prometheus-cpp hold and the constructor throws nothing: after any updates through
-- the accessors, the metric of each accessor shows the number of its own increments less the number
-- of its decrements.
pub update_all_lem :
    {R F S : Type 0} (prom : Prometheus R F S) (laws : IsPrometheus prom) (version : String)
    (port : ℕ) (m : MetricsRegistry S) (r : R)
    → construct prom version port ≡ ok (m, r)
    → (xs : List Update) (k : Accessor)
    → laws.value (access m k) (update_all prom m xs r)
      ≡ sub_ℕ (tally (ups k) xs) (tally (downs k) xs)
update_all_lem prom laws version port m r e xs k =
    let made = (construct-Made prom laws version port).holds (m, r) e in
    recount prom laws version m made.names k (update_all prom m xs r) (0 + tally (ups k) xs) _
      (0 + tally (downs k) xs) _
      (update_all-Shows prom laws version m made.names k xs r 0 0 (made.zeros (access m k)))
      (omega arith) (omega arith)
