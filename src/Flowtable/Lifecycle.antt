-- ===== src/Flowtable/Lifecycle.antt =====
-- The events of each flow follow the life cycle start, stats*, end, in step with the table.
use packetpipe.Common.{
  ◌^◌, ◌<◌, ◌≡◌, refl, sym, ap, subst, ◌∙◌, Bool, Option, none, some, List, [], ◌∷◌, arith,
  if◌then◌else◌,
}
use packetpipe.Common.Int.{ℤ}
use packetpipe.Config.{AppConfig}
use packetpipe.Events.{FlowKey, FlowState, FlowEvent, idle_timeout}
use packetpipe.Metrics.{registry, inc_received}
use packetpipe.Flowtable.FlowMap.{Entries, find, erase, IsKeyed, key_eq_refl}
use packetpipe.Flowtable.Frame.{SameTable, emit-SameTable}
use packetpipe.Flowtable.Invariant.{
  IsValid, step-IsValid, init-IsValid, expire_found-IsValid, sweep_loop-SameTable, visit-SameTable,
  SameTable-IsValid,
}
use packetpipe.Flowtable.Trace.{recorded}
use packetpipe.Flowtable.Trace.Status.{status}
use packetpipe.Flowtable.{
  FlowTable, Call, processes, sweeps, drains, init, emit, expire_flow, process, sweep_loop,
  expire_found, expire_loop, timer_sweep, drain_loop, drain_all, step, run, key_from_packet,
  elapsed, stats_event, end_event,
}
use packetpipe.Flowtable.Told.{
  IsTold, Holds, Holds-refl, expire_flow-IsTold, stats-IsTold, dispatch-IsTold,
}

module _ {S : Type 0} (on_event : FlowEvent → S → Bool × S) where
  expire_found-IsTold :
      (key : FlowKey) (now : ℤ) (o : Option FlowState) (t : FlowTable (S × List FlowEvent))
      → find key t.flows ≡ o
      → IsKeyed t.flows
      → IsTold t
      → IsTold (expire_found (recorded on_event) key now o t)
  unfolding expire_found
  expire_found-IsTold key now none t h v told = told
  expire_found-IsTold key now (some s) t h v told =
      expire_flow-IsTold on_event key s now idle_timeout t h v told

  expire_loop-IsTold :
      (now : ℤ) (keys : List FlowKey) (t : FlowTable (S × List FlowEvent))
      → IsValid t
      → IsTold t
      → IsTold (expire_loop (recorded on_event) now keys t)
  unfolding expire_loop
  expire_loop-IsTold now [] t v told = told
  expire_loop-IsTold now (key ∷ keys) t v told =
      expire_loop-IsTold now keys (expire_found (recorded on_event) key now (find key t.flows) t)
        (expire_found-IsValid (recorded on_event) key now (find key t.flows) t refl v)
        (expire_found-IsTold key now (find key t.flows) t refl v.keyed told)

  sweep_loop-IsTold :
      (due : Bool) (now : ℤ) (es : Entries) (t : FlowTable (S × List FlowEvent))
      → Holds es t.flows
      → IsTold t
      → IsTold (sweep_loop (recorded on_event) due now es t).1
  unfolding sweep_loop
  sweep_loop-IsTold due now [] t a told = told
  sweep_loop-IsTold due now ((key, s) ∷ es) t a told =
      sweep_loop-IsTold due now es t' (subst (Holds es) (sym same.flows) a.1) visited
    where
      beat : FlowTable (S × List FlowEvent)
      beat = emit (recorded on_event) (stats_event s now) t

      t' : FlowTable (S × List FlowEvent)
      t' = if elapsed now s.last_seen_us t.idle_timeout_us then t else if due then beat else t

      same : SameTable t t'
      same = visit-SameTable (recorded on_event) due now s t

      beat_told : IsTold beat
      beat_told = stats-IsTold on_event s now t (ap (λ k. find k t.flows) a.0.1 ∙ a.0.0) told

      visited : IsTold t'
      visited k = ground (arith, told k, beat_told k)

  timer_sweep-IsTold :
      (now : ℤ) (t : FlowTable (S × List FlowEvent))
      → IsValid t
      → IsTold t
      → IsTold (timer_sweep (recorded on_event) now t)
  unfolding timer_sweep
  timer_sweep-IsTold now t v told k = ground (arith, swept k)
    where
      due : Bool
      due = elapsed now t.last_heartbeat_us t.stats_interval_us

      looped : List FlowKey × FlowTable (S × List FlowEvent)
      looped = sweep_loop (recorded on_event) due now t.flows t

      swept : IsTold (expire_loop (recorded on_event) now looped.0 looped.1)
      swept =
          expire_loop-IsTold now looped.0 looped.1
            (SameTable-IsValid (sweep_loop-SameTable (recorded on_event) due now t.flows t) v)
            (sweep_loop-IsTold due now t.flows t (Holds-refl t.flows v.keyed) told)

  drain_loop-IsTold :
      (now : ℤ) (es : Entries) (t : FlowTable (S × List FlowEvent))
      → t.flows ≡ es
      → IsKeyed es
      → IsTold t
      → IsTold (drain_loop (recorded on_event) now es t)
  unfolding drain_loop expire_flow find erase
  drain_loop-IsTold now [] t h v told = told
  drain_loop-IsTold now ((key, s) ∷ es) t h v told =
      drain_loop-IsTold now es (expire_flow (recorded on_event) key s now idle_timeout t)
        (ground (
          arith,
          emit-SameTable (recorded on_event) (end_event s now idle_timeout) t,
          key_eq_refl key,
        ))
        v.2
        (expire_flow-IsTold on_event key s now idle_timeout t
          (rw h (ground (arith, key_eq_refl key))) (subst IsKeyed (sym h) v) told)

  step-IsTold :
      (c : Call) (t : FlowTable (S × List FlowEvent))
      → IsValid t
      → IsTold t
      → IsTold (step (recorded on_event) c t)
  unfolding step process drain_all
  step-IsTold (processes pkt) t v told =
      dispatch-IsTold on_event pkt (find (key_from_packet pkt) t.flows)
        (record t { metrics = inc_received t.metrics }) refl v.keyed told
  step-IsTold (sweeps now) t v told = timer_sweep-IsTold now t v told
  step-IsTold (drains now) t v told = drain_loop-IsTold now t.flows t refl v.keyed told

  run-IsTold_from :
      (cs : List Call) (t : FlowTable (S × List FlowEvent))
      → IsValid t
      → IsTold t
      → IsTold (run (recorded on_event) cs t)
  unfolding run
  run-IsTold_from [] t v told = told
  run-IsTold_from (c ∷ cs) t v told =
      run-IsTold_from cs (step (recorded on_event) c t) (step-IsValid (recorded on_event) c t v)
        (step-IsTold c t v told)

  init-IsTold :
      (cfg : AppConfig) (sink : S) → IsTold (init {S = S × List FlowEvent} cfg registry (sink, []))
  unfolding init status find
  init-IsTold cfg sink k = refl

  -- From an empty table, after any sequence of packets, timer sweeps and drains, whatever the sink
  -- answers: the events emitted for any key are a sequence of complete lives, start, any number of
  -- stats, end, with one more life left open exactly when the table holds a flow under that key.
  pub run-IsTold :
      (cfg : AppConfig) (sink : S) (cs : List Call)
      → cfg.max_flows < 2 ^ 31
      → IsTold (run (recorded on_event) cs (init cfg registry (sink, [])))
  run-IsTold cfg sink cs h =
      run-IsTold_from cs _ (init-IsValid (recorded on_event) cfg (sink, []) h)
        (init-IsTold cfg sink)
