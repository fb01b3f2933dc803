-- ===== src/Flowtable/SweepEvents.antt =====
-- Which events a sweep and a drain emit, and in which order.
use packetpipe.Common.{
  ℕ, ◌≡◌, refl, sym, ap, subst, ◌∙◌, Bool, Option, none, some, List, [], ◌∷◌, ◌++◌, arith,
  if◌then◌else◌,
}
use packetpipe.Common.Int.{ℤ}
use packetpipe.Events.{FlowKey, FlowState, FlowEvent, idle_timeout, key_eq_iff}
use packetpipe.Flowtable.FlowMap.{Entries, find, erase, IsKeyed, find-erase_ne, key_eq_refl}
use packetpipe.Flowtable.Frame.{emit-SameTable}
use packetpipe.Flowtable.Invariant.{IsValid, sweep_loop-SameTable, visit-SameTable}
use packetpipe.Flowtable.Trace.{recorded, events_of, events-emit}
use packetpipe.Flowtable.Told.{Holds, Holds-refl}
use packetpipe.Flowtable.View.{flows-expire_flow}
use packetpipe.Flowtable.{
  FlowTable, emit, expire_flow, sweep_loop, expire_found, expire_loop, timer_sweep, drain_loop,
  drain_all, elapsed, stats_event, end_event,
}

-- Events put on a history one after the other.
unfoldable pub told : List FlowEvent → List FlowEvent → List FlowEvent
told [] history = history
told (e ∷ es) history = told es (e ∷ history)

told-append : (xs ys history : List FlowEvent) → told (xs ++ ys) history ≡ told ys (told xs history)
unfolding told
told-append [] ys history = refl
told-append (x ∷ xs) ys history = told-append xs ys (x ∷ history)

-- A heartbeat for each flow that is not idle, if heartbeats are due.
unfoldable pub heartbeats : Bool → ℤ → ℕ → Entries → List FlowEvent
heartbeats due now timeout [] = []
heartbeats due now timeout ((k, s) ∷ es) =
    let rest = heartbeats due now timeout es in
    if elapsed now s.last_seen_us timeout
    then rest
    else if due
    then stats_event s now ∷ rest
    else rest

-- An end for each idle flow.
unfoldable pub idle_ends : ℤ → ℕ → Entries → List FlowEvent
idle_ends now timeout [] = []
idle_ends now timeout ((k, s) ∷ es) =
    let rest = idle_ends now timeout es in
    if elapsed now s.last_seen_us timeout then end_event s now idle_timeout ∷ rest else rest

-- An end for each flow.
unfoldable pub all_ends : ℤ → Entries → List FlowEvent
all_ends now [] = []
all_ends now ((k, s) ∷ es) = end_event s now idle_timeout ∷ all_ends now es

Holds-erase :
    (k : FlowKey) (es flows : Entries)
    → find k es ≡ none
    → Holds es flows
    → Holds es (erase k flows)
unfolding find
Holds-erase k [] flows h a = tt
Holds-erase k ((j, r) ∷ es) flows h a =
    ground (arith, Holds-erase k es flows, find-erase_ne k j flows, key_eq_iff k j, key_eq_iff j k)

module _ {S : Type 0} (on_event : FlowEvent → S → Bool × S) where
  events-expire_flow :
      (key : FlowKey) (s : FlowState) (now : ℤ) (t : FlowTable (S × List FlowEvent))
      → events_of (expire_flow (recorded on_event) key s now idle_timeout t)
        ≡ end_event s now idle_timeout ∷ events_of t
  unfolding expire_flow
  events-expire_flow key s now t = events-emit on_event (end_event s now idle_timeout) t

  -- What an expiry leaves alone.
  expire_flow-times :
      (key : FlowKey) (s : FlowState) (now : ℤ) (t : FlowTable (S × List FlowEvent))
      → let t' = expire_flow (recorded on_event) key s now idle_timeout t in
        (t'.idle_timeout_us ≡ t.idle_timeout_us) × (t'.last_heartbeat_us ≡ t.last_heartbeat_us)
  unfolding expire_flow
  expire_flow-times key s now t =
      let same = emit-SameTable (recorded on_event) (end_event s now idle_timeout) t in
      (same.idle_timeout_us, same.last_heartbeat_us)

  expire_found-heartbeat :
      (key : FlowKey) (now : ℤ) (o : Option FlowState) (t : FlowTable (S × List FlowEvent))
      → (expire_found (recorded on_event) key now o t).last_heartbeat_us ≡ t.last_heartbeat_us
  unfolding expire_found
  expire_found-heartbeat key now none t = refl
  expire_found-heartbeat key now (some s) t = (expire_flow-times key s now t).1

  expire_loop-heartbeat :
      (now : ℤ) (keys : List FlowKey) (t : FlowTable (S × List FlowEvent))
      → (expire_loop (recorded on_event) now keys t).last_heartbeat_us ≡ t.last_heartbeat_us
  unfolding expire_loop
  expire_loop-heartbeat now [] t = refl
  expire_loop-heartbeat now (key ∷ keys) t =
      expire_loop-heartbeat now keys (expire_found (recorded on_event) key now (find key t.flows) t)
      ∙ expire_found-heartbeat key now (find key t.flows) t

  events-sweep_loop :
      (due : Bool) (now : ℤ) (es : Entries) (t : FlowTable (S × List FlowEvent))
      → events_of (sweep_loop (recorded on_event) due now es t).1
        ≡ told (heartbeats due now t.idle_timeout_us es) (events_of t)
  unfolding sweep_loop told heartbeats
  events-sweep_loop due now [] t = refl
  events-sweep_loop due now ((key, s) ∷ es) t =
      let beat = emit (recorded on_event) (stats_event s now) t in
      let t' =
        if elapsed now s.last_seen_us t.idle_timeout_us then t else if due then beat else t in
      ground (
        arith,
        visit-SameTable (recorded on_event) due now s t,
        events-sweep_loop due now es t',
        events-emit on_event (stats_event s now) t,
      )

  -- Expiring the idle ones of some entries that the table holds.
  events-expire_loop :
      (due : Bool) (now : ℤ) (es : Entries) (u t : FlowTable (S × List FlowEvent))
      → u.idle_timeout_us ≡ t.idle_timeout_us
      → IsKeyed es
      → Holds es t.flows
      → events_of
          (expire_loop (recorded on_event) now (sweep_loop (recorded on_event) due now es u).0 t)
        ≡ told (idle_ends now t.idle_timeout_us es) (events_of t)
  unfolding sweep_loop expire_loop expire_found told idle_ends
  events-expire_loop due now [] u t e v a = refl
  events-expire_loop due now ((key, s) ∷ es) u t e v a = ground (
    arith,
    e,
    a.0.0,
    times,
    events-expire_loop due now es u' t e' v.2 a.1,
    events-expire_loop due now es u' t' (e' ∙ sym times.0) v.2 held,
    events-expire_flow key s now t,
  )
    where
      u' : FlowTable (S × List FlowEvent)
      u' =
          if elapsed now s.last_seen_us u.idle_timeout_us
          then u
          else if due
          then emit (recorded on_event) (stats_event s now) u
          else u

      e' : u'.idle_timeout_us ≡ t.idle_timeout_us
      e' = (visit-SameTable (recorded on_event) due now s u).idle_timeout_us ∙ e

      t' : FlowTable (S × List FlowEvent)
      t' = expire_flow (recorded on_event) key s now idle_timeout t

      times :
          (t'.idle_timeout_us ≡ t.idle_timeout_us) × (t'.last_heartbeat_us ≡ t.last_heartbeat_us)
      times = expire_flow-times key s now t

      held : Holds es t'.flows
      held =
          subst (Holds es) (sym (flows-expire_flow (recorded on_event) key s now idle_timeout t))
            (Holds-erase key es t.flows v.1 a.1)

  -- A sweep first emits a stats event for each flow that is not idle, if the stats interval has
  -- passed since the last heartbeat, then an end event with reason idle_timeout for each idle
  -- flow, each in the order of the table, and nothing else; it notes the time of a heartbeat.
  pub events-timer_sweep :
      (now : ℤ) (t : FlowTable (S × List FlowEvent))
      → IsValid t
      → let due = elapsed now t.last_heartbeat_us t.stats_interval_us in
        let t' = timer_sweep (recorded on_event) now t in
        (events_of t'
          ≡ told
              (heartbeats due now t.idle_timeout_us t.flows
                ++ idle_ends now t.idle_timeout_us t.flows)
              (events_of t))
        × (t'.last_heartbeat_us ≡ (if due then now else t.last_heartbeat_us))
  unfolding timer_sweep
  events-timer_sweep now t v =
      let due = elapsed now t.last_heartbeat_us t.stats_interval_us in
      let swept = sweep_loop (recorded on_event) due now t.flows t in
      let same = sweep_loop-SameTable (recorded on_event) due now t.flows t in
      let kept = subst (Holds t.flows) (sym same.flows) (Holds-refl t.flows v.keyed) in
      ground (
        arith,
        same,
        events-sweep_loop due now t.flows t,
        events-expire_loop due now t.flows t swept.1 (sym same.idle_timeout_us) v.keyed kept,
        expire_loop-heartbeat now swept.0 swept.1,
        told-append (heartbeats due now t.idle_timeout_us t.flows)
            (idle_ends now t.idle_timeout_us t.flows) (events_of t),
      )

  drain_loop_lem :
      (now : ℤ) (es : Entries) (t : FlowTable (S × List FlowEvent))
      → t.flows ≡ es
      → let t' = drain_loop (recorded on_event) now es t in
        (t'.flows ≡ []) × (events_of t' ≡ told (all_ends now es) (events_of t))
  unfolding drain_loop told all_ends expire_flow erase
  drain_loop_lem now [] t h = (h, refl)
  drain_loop_lem now ((key, s) ∷ es) t h =
      let one = drain_loop_lem now es (expire_flow (recorded on_event) key s now idle_timeout t) (
        flows-expire_flow (recorded on_event) key s now idle_timeout t
        ∙ (rw h (ground (arith, key_eq_refl key)))) in
      (one.0, one.1 ∙ ap (told (all_ends now es)) (events-expire_flow key s now t))

  -- A drain leaves no flow, and emits one end event for each flow held, in the order of the table.
  pub drain_all_lem :
      (now : ℤ) (t : FlowTable (S × List FlowEvent))
      → let t' = drain_all (recorded on_event) now t in
        (t'.flows ≡ []) × (events_of t' ≡ told (all_ends now t.flows) (events_of t))
  unfolding drain_all
  drain_all_lem now t = drain_loop_lem now t.flows t refl
