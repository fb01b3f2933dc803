-- ===== src/Flowtable.antt =====
-- src/flowtable/flow_table.hpp and flow_table.cpp: the table of active flows. Every operation runs
-- under the table's mutex from its first access to the last, so each is one function from table to
-- table. `on_event` is the callback that takes an event and says whether the sink had room; `sink`
-- is what it changes. Log lines are values, newest first. `drop_count` is the number of increments of
-- `drop_count_`, which is an `int`: `overflowed` says that one of them overflowed, which is undefined.
pub mod FlowMap
pub mod Frame
pub mod Invariant
pub mod View
pub mod Trace
pub mod Told
pub mod Lifecycle
pub mod SweepEvents
pub mod PacketCount
pub mod Conservation
pub mod Drops
pub mod Walk
mod Tests
use packetpipe.Common.{
  ℕ, ◌+◌, ◌*◌, ◌%◌, ◌^◌, ◌-◌, Bool, true, false, ◌&&◌, ◌||◌, Option, none, some, List, [], ◌∷◌,
  length, ltb, leb, ◌==◌, if◌then◌else◌,
}
use packetpipe.Common.Int.{ℤ, pos, negsuc, ◌-ℤ◌, leb_ℤ}
use packetpipe.Events.{
  FlowKey, FlowState, FlowEvent, FlowEventType, start, end, stats, ExpireReason, idle_timeout,
  tcp_teardown,
}
use packetpipe.Metrics.{
  Metrics, inc_received, inc_dropped, inc_active, dec_active, inc_created, inc_expired,
}
use packetpipe.Config.{AppConfig}
use packetpipe.Packets.{ParsedPacket}
use packetpipe.Packets.Decoder.{ipproto_tcp}
use FlowMap.{Entries, find, erase, modify}

pub data LogLine : Type 0 where
  queue_full : LogLine
  limit_reached : ℕ → LogLine

pub record FlowTable (S : Type 0) : Type 0 where
  pub cfg : AppConfig
  pub metrics : Metrics
  pub sink : S
  pub log : List LogLine
  pub flows : Entries
  pub last_heartbeat_us : ℤ
  pub idle_timeout_us : ℕ
  pub stats_interval_us : ℕ
  pub drop_count : ℕ
  pub overflowed : Bool

unfoldable pub key_from_packet : ParsedPacket → FlowKey
key_from_packet pkt = record {
  src_ip = pkt.src_ip;
  dst_ip = pkt.dst_ip;
  src_port = pkt.src_port;
  dst_port = pkt.dst_port;
  protocol = pkt.protocol;
}

-- `static_cast<int>` of a size: the low 32 bits, read as a signed number.
unfoldable pub to_int : ℕ → ℤ
to_int n = let w = n % 2 ^ 32 in if ltb w (2 ^ 31) then pos w else negsuc (2 ^ 32 - w - 1)

unfoldable pub add64 : ℕ → ℕ → ℕ
add64 a b = (a + b) % 2 ^ 64

-- The state of a new flow.
unfoldable pub fresh_state : ParsedPacket → FlowState
unfolding key_from_packet
fresh_state pkt = record {
  key = key_from_packet pkt;
  start_us = pkt.timestamp_us;
  last_seen_us = pkt.timestamp_us;
  packet_count = 1;
  byte_count = pkt.wire_length;
}

-- The counters of an existing flow after one more packet.
unfoldable pub bump : ParsedPacket → FlowState → FlowState
unfolding add64
bump pkt s = record s {
  last_seen_us = pkt.timestamp_us;
  packet_count = add64 s.packet_count 1;
  byte_count = add64 s.byte_count pkt.wire_length;
}

unfoldable pub is_teardown : ParsedPacket → Bool
is_teardown pkt = pkt.protocol == ipproto_tcp && (pkt.tcp_fin || pkt.tcp_rst)

-- `(now_us - state.last_seen_us) >= idle_timeout_us_`, and the same test for the heartbeat.
unfoldable pub elapsed : ℤ → ℤ → ℕ → Bool
elapsed now since interval = leb_ℤ (pos interval) (now -ℤ since)

-- A default `FlowEvent` has the reason IdleTimeout.
abbrev pub start_event : FlowState → ℤ → FlowEvent
start_event s ts = record {
  type = start;
  state = s;
  event_timestamp_us = ts;
  reason = idle_timeout;
}

abbrev pub stats_event : FlowState → ℤ → FlowEvent
stats_event s ts = record {
  type = stats;
  state = s;
  event_timestamp_us = ts;
  reason = idle_timeout;
}

abbrev pub end_event : FlowState → ℤ → ExpireReason → FlowEvent
end_event s ts r = record { type = end; state = s; event_timestamp_us = ts; reason = r }

-- A call of the capture thread or of the timer thread; the mutex puts the calls in a sequence.
pub data Call : Type 0 where
  processes : ParsedPacket → Call
  sweeps drains : ℤ → Call

module _ {S : Type 0} where
  -- The constructor.
  unfoldable pub init : AppConfig → Metrics → S → FlowTable S
  init cfg metrics sink = record {
    cfg = cfg;
    metrics = metrics;
    sink = sink;
    log = [];
    flows = [];
    last_heartbeat_us = pos 0;
    idle_timeout_us = cfg.flow_timeout_sec * 1_000_000;
    stats_interval_us = cfg.stats_interval_sec * 1_000_000;
    drop_count = 0;
    overflowed = false;
  }

  -- The branch for a full table.
  unfoldable pub drop_new : FlowTable S → FlowTable S
  unfolding inc_dropped
  drop_new t =
      let count = t.drop_count + 1 in
      record t {
        metrics = inc_dropped t.metrics;
        drop_count = count;
        overflowed = leb (2 ^ 31) count;
        log = if count % 1000 == 1 then limit_reached t.cfg.max_flows ∷ t.log else t.log;
      }

  unfoldable pub is_full : FlowTable S → Bool
  unfolding to_int
  is_full t = leb_ℤ (pos t.cfg.max_flows) (to_int (length t.flows))

module _ {S : Type 0} (on_event : FlowEvent → S → Bool × S) where
  -- What `emit` does once the callback has answered.
  unfoldable pub after_emit : Bool × S → FlowTable S → FlowTable S
  unfolding inc_dropped
  after_emit (true, s) t = record t { sink = s }
  after_emit (false, s) t = record t {
    sink = s;
    metrics = inc_dropped t.metrics;
    log = queue_full ∷ t.log;
  }

  unfoldable pub emit : FlowEvent → FlowTable S → FlowTable S
  unfolding after_emit
  emit evt t = after_emit (on_event evt t.sink) t

  -- `expire_flow(it, now_us, reason)` at the entry `(key, s)`.
  unfoldable pub expire_flow : FlowKey → FlowState → ℤ → ExpireReason → FlowTable S → FlowTable S
  expire_flow key s now reason t =
      let t' = emit (end_event s now reason) t in
      record t' { flows = erase key t'.flows; metrics = inc_expired reason (dec_active t'.metrics) }

  unfoldable pub open_flow : ParsedPacket → FlowTable S → FlowTable S
  open_flow pkt t =
      let s = fresh_state pkt in
      let t' = emit (start_event s pkt.timestamp_us) (record t { flows = (s.key, s) ∷ t.flows }) in
      record t' { metrics = inc_created (inc_active t'.metrics) }

  unfoldable pub update_flow : ParsedPacket → FlowState → FlowTable S → FlowTable S
  update_flow pkt s t =
      let key = key_from_packet pkt in
      let t' = record t { flows = modify key (bump pkt) t.flows } in
      if is_teardown pkt then expire_flow key (bump pkt s) pkt.timestamp_us tcp_teardown t' else t'

  -- The two cases of `it == flows_.end()`.
  unfoldable pub dispatch : ParsedPacket → Option FlowState → FlowTable S → FlowTable S
  dispatch pkt none t = if is_full t then drop_new t else open_flow pkt t
  dispatch pkt (some s) t = update_flow pkt s t

  unfoldable pub process : ParsedPacket → FlowTable S → FlowTable S
  unfolding dispatch
  process pkt t =
      let t' = record t { metrics = inc_received t.metrics } in
      dispatch pkt (find (key_from_packet pkt) t'.flows) t'

  -- The first loop of `timer_sweep`: heartbeats go out, idle keys are collected.
  unfoldable pub sweep_loop : Bool → ℤ → Entries → FlowTable S → List FlowKey × FlowTable S
  sweep_loop emit_stats now [] t = ([], t)
  sweep_loop emit_stats now ((key, s) ∷ es) t =
      let idle = elapsed now s.last_seen_us t.idle_timeout_us in
      let t' = if idle then t else if emit_stats then emit (stats_event s now) t else t in
      let (keys, t'') = sweep_loop emit_stats now es t' in (if idle then key ∷ keys else keys, t'')

  unfoldable pub expire_found : FlowKey → ℤ → Option FlowState → FlowTable S → FlowTable S
  expire_found key now none t = t
  expire_found key now (some s) t = expire_flow key s now idle_timeout t

  -- The second loop: look each collected key up again and expire it.
  unfoldable pub expire_loop : ℤ → List FlowKey → FlowTable S → FlowTable S
  expire_loop now [] t = t
  expire_loop now (key ∷ keys) t = expire_loop now keys (expire_found key now (find key t.flows) t)

  unfoldable pub timer_sweep : ℤ → FlowTable S → FlowTable S
  timer_sweep now t =
      let emit_stats = elapsed now t.last_heartbeat_us t.stats_interval_us in
      let (to_expire, t') = sweep_loop emit_stats now t.flows t in
      let t'' = expire_loop now to_expire t' in
      if emit_stats then record t'' { last_heartbeat_us = now } else t''

  -- The loop of `drain_all` from an iterator on: `erase` returns the next one.
  unfoldable pub drain_loop : ℤ → Entries → FlowTable S → FlowTable S
  drain_loop now [] t = t
  drain_loop now ((key, s) ∷ es) t =
      let t' = emit (end_event s now idle_timeout) t in
      drain_loop now es (record t' {
        metrics = inc_expired idle_timeout (dec_active t'.metrics);
        flows = erase key t'.flows;
      })

  unfoldable pub drain_all : ℤ → FlowTable S → FlowTable S
  drain_all now t = drain_loop now t.flows t

  unfoldable pub step : Call → FlowTable S → FlowTable S
  step (processes pkt) t = process pkt t
  step (sweeps now) t = timer_sweep now t
  step (drains now) t = drain_all now t

  unfoldable pub run : List Call → FlowTable S → FlowTable S
  run [] t = t
  run (c ∷ cs) t = run cs (step c t)
