-- ===== src/Flowtable/Conservation.antt =====
-- Every packet that reaches src/flowtable/flow_table.cpp is counted in exactly one place.
use packetpipe.Common.{
  ◌+◌, ◌%◌, ◌^◌, ◌≡◌, refl, ◌∙◌, Bool, Option, none, some, List, [], ◌∷◌, arith, if◌then◌else◌,
}
use packetpipe.Common.Int.{ℤ}
use packetpipe.Config.{AppConfig}
use packetpipe.Events.{FlowKey, FlowState, FlowEvent, ExpireReason, idle_timeout, tcp_teardown}
use packetpipe.Metrics.{registry, inc_received, inc_active, inc_created, dec_active, inc_expired}
use packetpipe.Packets.{ParsedPacket}
use packetpipe.Flowtable.FlowMap.{Entries, find, erase, modify, find-modify, key_eq_refl}
use packetpipe.Flowtable.Frame.{emit-SameTable}
use packetpipe.Flowtable.View.{flows-expire_flow}
use packetpipe.Flowtable.Trace.{recorded, events-emit}
use packetpipe.Flowtable.{
  FlowTable, Call, processes, sweeps, drains, init, emit, expire_flow, open_flow, update_flow,
  drop_new, dispatch, process, sweep_loop, expire_found, expire_loop, timer_sweep, drain_loop,
  drain_all, step, run, key_from_packet, fresh_state, bump, elapsed, start_event, stats_event,
  end_event,
}
use packetpipe.Flowtable.PacketCount.{
  held_packets, ended_packets, held_packets-erase, held_packets-modify, accounted,
}

module _ {S : Type 0} (on_event : FlowEvent → S → Bool × S) where
  accounted-expire_flow :
      (key : FlowKey) (s : FlowState) (now : ℤ) (r : ExpireReason)
      (t : FlowTable (S × List FlowEvent))
      → find key t.flows ≡ some s
      → let t' = expire_flow (recorded on_event) key s now r t in
        (accounted t' ≡ accounted t) × (t'.metrics.packets_received ≡ t.metrics.packets_received)
  unfolding expire_flow inc_expired dec_active ended_packets
  accounted-expire_flow key s now idle_timeout t h = ground (
    arith,
    emit-SameTable (recorded on_event) (end_event s now idle_timeout) t,
    events-emit on_event (end_event s now idle_timeout) t,
    held_packets-erase key s t.flows h,
  )
  accounted-expire_flow key s now tcp_teardown t h = ground (
    arith,
    emit-SameTable (recorded on_event) (end_event s now tcp_teardown) t,
    events-emit on_event (end_event s now tcp_teardown) t,
    held_packets-erase key s t.flows h,
  )

  -- One more packet for the accounts.
  abbrev TakesOne : FlowTable (S × List FlowEvent) → FlowTable (S × List FlowEvent) → Type 0
  TakesOne t u =
      (accounted u % 2 ^ 64 ≡ (accounted t + 1) % 2 ^ 64)
      × (u.metrics.packets_received ≡ t.metrics.packets_received)

  TakesOne-open_flow :
      (pkt : ParsedPacket) (t : FlowTable (S × List FlowEvent))
      → TakesOne t (open_flow (recorded on_event) pkt t)
  unfolding open_flow fresh_state held_packets ended_packets inc_active inc_created
  TakesOne-open_flow pkt t =
      let s = fresh_state pkt in
      let t' = record t { flows = (s.key, s) ∷ t.flows } in
      ground (
        arith,
        emit-SameTable (recorded on_event) (start_event s pkt.timestamp_us) t',
        events-emit on_event (start_event s pkt.timestamp_us) t',
      )

  TakesOne-update_flow :
      (pkt : ParsedPacket) (s : FlowState) (t : FlowTable (S × List FlowEvent))
      → find (key_from_packet pkt) t.flows ≡ some s
      → TakesOne t (update_flow (recorded on_event) pkt s t)
  unfolding update_flow
  TakesOne-update_flow pkt s t h =
      let key = key_from_packet pkt in
      let t' = record t { flows = modify key (bump pkt) t.flows } in
      ground (
        arith,
        held_packets-modify pkt key s t.flows h,
        find-modify key key (bump pkt) t.flows,
        key_eq_refl key,
        accounted-expire_flow key (bump pkt s) pkt.timestamp_us tcp_teardown t',
      )

  TakesOne-dispatch :
      (pkt : ParsedPacket) (o : Option FlowState) (t : FlowTable (S × List FlowEvent))
      → find (key_from_packet pkt) t.flows ≡ o
      → TakesOne t (dispatch (recorded on_event) pkt o t)
  unfolding dispatch drop_new
  TakesOne-dispatch pkt none t h = ground (arith, TakesOne-open_flow pkt t)
  TakesOne-dispatch pkt (some s) t h = TakesOne-update_flow pkt s t h

  -- The accounts agree with the counter of received packets, up to the width of the counters.
  abbrev pub IsBalanced : FlowTable (S × List FlowEvent) → Type 0
  IsBalanced t = accounted t % 2 ^ 64 ≡ t.metrics.packets_received % 2 ^ 64

  process-IsBalanced :
      (pkt : ParsedPacket) (t : FlowTable (S × List FlowEvent))
      → IsBalanced t
      → IsBalanced (process (recorded on_event) pkt t)
  unfolding process inc_received
  process-IsBalanced pkt t b =
      let t' = record t { metrics = inc_received t.metrics } in
      let one = TakesOne-dispatch pkt (find (key_from_packet pkt) t.flows) t' refl in
      omega (arith, one.0, one.1)

  expire_found-IsBalanced :
      (key : FlowKey) (now : ℤ) (o : Option FlowState) (t : FlowTable (S × List FlowEvent))
      → find key t.flows ≡ o
      → IsBalanced t
      → IsBalanced (expire_found (recorded on_event) key now o t)
  unfolding expire_found
  expire_found-IsBalanced key now none t h b = b
  expire_found-IsBalanced key now (some s) t h b =
      omega (arith, accounted-expire_flow key s now idle_timeout t h)

  expire_loop-IsBalanced :
      (now : ℤ) (keys : List FlowKey) (t : FlowTable (S × List FlowEvent))
      → IsBalanced t
      → IsBalanced (expire_loop (recorded on_event) now keys t)
  unfolding expire_loop
  expire_loop-IsBalanced now [] t b = b
  expire_loop-IsBalanced now (key ∷ keys) t b =
      expire_loop-IsBalanced now keys
        (expire_found (recorded on_event) key now (find key t.flows) t)
        (expire_found-IsBalanced key now (find key t.flows) t refl b)

  stats-IsBalanced :
      (s : FlowState) (now : ℤ) (t : FlowTable (S × List FlowEvent))
      → IsBalanced t
      → IsBalanced (emit (recorded on_event) (stats_event s now) t)
  unfolding ended_packets
  stats-IsBalanced s now t b = ground (
    arith,
    emit-SameTable (recorded on_event) (stats_event s now) t,
    events-emit on_event (stats_event s now) t,
  )

  sweep_loop-IsBalanced :
      (due : Bool) (now : ℤ) (es : Entries) (t : FlowTable (S × List FlowEvent))
      → IsBalanced t
      → IsBalanced (sweep_loop (recorded on_event) due now es t).1
  unfolding sweep_loop
  sweep_loop-IsBalanced due now [] t b = b
  sweep_loop-IsBalanced due now ((key, s) ∷ es) t b =
      sweep_loop-IsBalanced due now es
        (if elapsed now s.last_seen_us t.idle_timeout_us
          then t
          else if due
          then emit (recorded on_event) (stats_event s now) t
          else t)
        (ground (arith, stats-IsBalanced s now t b))

  drain_loop-IsBalanced :
      (now : ℤ) (es : Entries) (t : FlowTable (S × List FlowEvent))
      → t.flows ≡ es
      → IsBalanced t
      → IsBalanced (drain_loop (recorded on_event) now es t)
  unfolding drain_loop expire_flow find erase
  drain_loop-IsBalanced now [] t h b = b
  drain_loop-IsBalanced now ((key, s) ∷ es) t h b =
      drain_loop-IsBalanced now es t'
        (flows-expire_flow (recorded on_event) key s now idle_timeout t
          ∙ rw h (ground (arith, key_eq_refl key)))
        (omega (
          arith,
          accounted-expire_flow key s now idle_timeout t (rw h (ground (arith, key_eq_refl key))),
        ))
    where
      t' : FlowTable (S × List FlowEvent)
      t' = expire_flow (recorded on_event) key s now idle_timeout t

  step-IsBalanced :
      (c : Call) (t : FlowTable (S × List FlowEvent))
      → IsBalanced t
      → IsBalanced (step (recorded on_event) c t)
  unfolding step timer_sweep drain_all
  step-IsBalanced (processes pkt) t b = process-IsBalanced pkt t b
  step-IsBalanced (sweeps now) t b =
      let due = elapsed now t.last_heartbeat_us t.stats_interval_us in
      let swept = sweep_loop (recorded on_event) due now t.flows t in
      ground (
        arith,
        expire_loop-IsBalanced now swept.0 swept.1 (sweep_loop-IsBalanced due now t.flows t b),
      )
  step-IsBalanced (drains now) t b = drain_loop-IsBalanced now t.flows t refl b

  run-IsBalanced_from :
      (cs : List Call) (t : FlowTable (S × List FlowEvent))
      → IsBalanced t
      → IsBalanced (run (recorded on_event) cs t)
  unfolding run
  run-IsBalanced_from [] t b = b
  run-IsBalanced_from (c ∷ cs) t b =
      run-IsBalanced_from cs (step (recorded on_event) c t) (step-IsBalanced c t b)

  init-IsBalanced :
      (cfg : AppConfig) (sink : S)
      → IsBalanced (init {S = S × List FlowEvent} cfg registry (sink, []))
  unfolding init registry held_packets ended_packets
  init-IsBalanced cfg sink = refl

  -- From an empty table, after any sequence of packets, timer sweeps and drains, whatever the sink
  -- answers: the packets counted in the flows held, those reported by end events and the packets
  -- dropped at the flow limit together are the packets received, modulo 2^64, the width of the
  -- packet counters.
  pub run-IsBalanced :
      (cfg : AppConfig) (sink : S) (cs : List Call)
      → IsBalanced (run (recorded on_event) cs (init cfg registry (sink, [])))
  run-IsBalanced cfg sink cs = run-IsBalanced_from cs _ (init-IsBalanced cfg sink)
