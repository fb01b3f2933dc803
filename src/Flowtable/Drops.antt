-- ===== src/Flowtable/Drops.antt =====
-- What the counter of dropped packets and the log of src/flowtable/flow_table.cpp count.
use packetpipe.Common.{
  ℕ, ◌+◌, ◌/◌, ◌<◌, ◌^◌, ◌≡◌, leb, Bool, true, false, Option, none, some, List, [], ◌∷◌, arith,
  if◌then◌else◌,
}
use packetpipe.Common.Int.{ℤ}
use packetpipe.Config.{AppConfig}
use packetpipe.Events.{FlowKey, FlowState, FlowEvent, ExpireReason, idle_timeout, tcp_teardown}
use packetpipe.Metrics.{registry, inc_received, inc_active, inc_created, dec_active, inc_expired}
use packetpipe.Packets.{ParsedPacket}
use packetpipe.Flowtable.FlowMap.{Entries, find, modify}
use packetpipe.Flowtable.{
  FlowTable, LogLine, queue_full, limit_reached, Call, processes, sweeps, drains, init, emit,
  after_emit, expire_flow, open_flow, update_flow, drop_new, dispatch, process, sweep_loop,
  expire_found, expire_loop, timer_sweep, drain_loop, drain_all, step, run, key_from_packet,
  fresh_state, bump, elapsed, start_event, stats_event, end_event,
}

-- The warnings of a full event queue.
unfoldable pub refusals : List LogLine → ℕ
refusals [] = 0
refusals (queue_full ∷ ls) = refusals ls + 1
refusals (limit_reached n ∷ ls) = refusals ls

-- The warnings of a full flow table.
unfoldable pub limit_warnings : List LogLine → ℕ
limit_warnings [] = 0
limit_warnings (queue_full ∷ ls) = limit_warnings ls
limit_warnings (limit_reached n ∷ ls) = limit_warnings ls + 1

pub record IsCounted {S : Type 0} (t : FlowTable S) : Type 0 where
  pub dropped : t.metrics.packets_dropped ≡ t.drop_count + refusals t.log
  pub overflow : t.overflowed ≡ leb (2 ^ 31) t.drop_count
  pub warned : limit_warnings t.log ≡ (t.drop_count + 999) / 1000

module _ {S : Type 0} (on_event : FlowEvent → S → Bool × S) where
  after_emit-IsCounted :
      (r : Bool × S) (t : FlowTable S) → IsCounted t → IsCounted (after_emit on_event r t)
  unfolding after_emit refusals limit_warnings
  after_emit-IsCounted (true, s) t c = ground arith
  after_emit-IsCounted (false, s) t c = ground arith

  emit-IsCounted :
      (evt : FlowEvent) (t : FlowTable S) → IsCounted t → IsCounted (emit on_event evt t)
  unfolding emit
  emit-IsCounted evt t c = after_emit-IsCounted (on_event evt t.sink) t c

  drop_new-IsCounted : (t : FlowTable S) → IsCounted t → IsCounted (drop_new t)
  unfolding drop_new refusals limit_warnings
  drop_new-IsCounted t c = ground arith

  expire_flow-IsCounted :
      (key : FlowKey) (s : FlowState) (now : ℤ) (r : ExpireReason) (t : FlowTable S)
      → IsCounted t
      → IsCounted (expire_flow on_event key s now r t)
  unfolding expire_flow inc_expired dec_active
  expire_flow-IsCounted key s now idle_timeout t c =
      ground (arith, emit-IsCounted (end_event s now idle_timeout) t c)
  expire_flow-IsCounted key s now tcp_teardown t c =
      ground (arith, emit-IsCounted (end_event s now tcp_teardown) t c)

  open_flow-IsCounted :
      (pkt : ParsedPacket) (t : FlowTable S) → IsCounted t → IsCounted (open_flow on_event pkt t)
  unfolding open_flow inc_active inc_created
  open_flow-IsCounted pkt t c =
      let s = fresh_state pkt in
      let t' = record t { flows = (s.key, s) ∷ t.flows } in
      let same : IsCounted t' = record {
        dropped = c.dropped;
        overflow = c.overflow;
        warned = c.warned;
      } in
      ground (arith, emit-IsCounted (start_event s pkt.timestamp_us) t' same)

  dispatch-IsCounted :
      (pkt : ParsedPacket) (o : Option FlowState) (t : FlowTable S)
      → IsCounted t
      → IsCounted (dispatch on_event pkt o t)
  unfolding dispatch update_flow
  dispatch-IsCounted pkt none t c =
      ground (arith, drop_new-IsCounted t c, open_flow-IsCounted pkt t c)
  dispatch-IsCounted pkt (some s) t c =
      let key = key_from_packet pkt in
      let t' = record t { flows = modify key (bump pkt) t.flows } in
      let same : IsCounted t' = record {
        dropped = c.dropped;
        overflow = c.overflow;
        warned = c.warned;
      } in
      ground
        (arith, same, expire_flow-IsCounted key (bump pkt s) pkt.timestamp_us tcp_teardown t' same)

  expire_loop-IsCounted :
      (now : ℤ) (keys : List FlowKey) (t : FlowTable S)
      → IsCounted t
      → IsCounted (expire_loop on_event now keys t)
  unfolding expire_loop
  expire_loop-IsCounted now [] t c = c
  expire_loop-IsCounted now (key ∷ keys) t c =
      expire_loop-IsCounted now keys (expire_found on_event key now (find key t.flows) t)
        (one (find key t.flows))
    where
      one : (o : Option FlowState) → IsCounted (expire_found on_event key now o t)
      one none = unfold expire_found in c
      one (some s) = unfold expire_found in expire_flow-IsCounted key s now idle_timeout t c

  sweep_loop-IsCounted :
      (due : Bool) (now : ℤ) (es : Entries) (t : FlowTable S)
      → IsCounted t
      → IsCounted (sweep_loop on_event due now es t).1
  unfolding sweep_loop
  sweep_loop-IsCounted due now [] t c = c
  sweep_loop-IsCounted due now ((key, s) ∷ es) t c =
      sweep_loop-IsCounted due now es
        (if elapsed now s.last_seen_us t.idle_timeout_us
          then t
          else if due
          then emit on_event (stats_event s now) t
          else t)
        (ground (arith, emit-IsCounted (stats_event s now) t c))

  drain_loop-IsCounted :
      (now : ℤ) (es : Entries) (t : FlowTable S)
      → IsCounted t
      → IsCounted (drain_loop on_event now es t)
  unfolding drain_loop expire_flow
  drain_loop-IsCounted now [] t c = c
  drain_loop-IsCounted now ((key, s) ∷ es) t c =
      drain_loop-IsCounted now es (expire_flow on_event key s now idle_timeout t)
        (expire_flow-IsCounted key s now idle_timeout t c)

  step-IsCounted : (c : Call) (t : FlowTable S) → IsCounted t → IsCounted (step on_event c t)
  unfolding step process timer_sweep drain_all inc_received
  step-IsCounted (processes pkt) t c =
      dispatch-IsCounted pkt (find (key_from_packet pkt) t.flows)
        (record t { metrics = inc_received t.metrics })
        (record { dropped = c.dropped; overflow = c.overflow; warned = c.warned })
  step-IsCounted (sweeps now) t c =
      let due = elapsed now t.last_heartbeat_us t.stats_interval_us in
      let swept = sweep_loop on_event due now t.flows t in
      ground (
        arith,
        expire_loop-IsCounted now swept.0 swept.1 (sweep_loop-IsCounted due now t.flows t c),
      )
  step-IsCounted (drains now) t c = drain_loop-IsCounted now t.flows t c

  run-IsCounted_from :
      (cs : List Call) (t : FlowTable S) → IsCounted t → IsCounted (run on_event cs t)
  unfolding run
  run-IsCounted_from [] t c = c
  run-IsCounted_from (call ∷ cs) t c =
      run-IsCounted_from cs (step on_event call t) (step-IsCounted call t c)

  init-IsCounted : (cfg : AppConfig) (sink : S) → IsCounted (init cfg registry sink)
  unfolding init registry refusals limit_warnings
  init-IsCounted cfg sink = ground arith

  -- From an empty table, after any sequence of packets, timer sweeps and drains in which `drop_count_` has
  -- not overflowed, which are those with less than 2^31 packets dropped at the flow limit: the metric
  -- of dropped packets is the number of these packets plus the number of events that the sink
  -- refused, and the log has one limit warning for every thousand of them, the first included.
  pub run-IsCounted :
      (cfg : AppConfig) (sink : S) (cs : List Call)
      → (run on_event cs (init cfg registry sink)).overflowed ≡ false
      → IsCounted (run on_event cs (init cfg registry sink))
        × ((run on_event cs (init cfg registry sink)).drop_count < 2 ^ 31)
  run-IsCounted cfg sink cs e =
      let c = run-IsCounted_from cs _ (init-IsCounted cfg sink) in
      (c, ground (arith, c.overflow, e))
