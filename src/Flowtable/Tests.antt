-- ===== src/Flowtable/Tests.antt =====
-- Runs of the flow table on concrete packets, and its theorems at them.
use packetpipe.Common.{
  ℕ, zero, suc, ◌*◌, ◌<◌, ◌^◌, ◌≡◌, refl, Bool, true, false, List, [], ◌∷◌, ◌++◌, arith, replicate,
  length, if◌then◌else◌,
}
use packetpipe.Common.Int.{ℤ, pos, ◌-ℤ◌}
use packetpipe.Config.{AppConfig, defaults}
use packetpipe.Events.{FlowEvent, key_eq}
use packetpipe.Metrics.{registry, inc_received, inc_active, inc_created, inc_expired, dec_active}
use packetpipe.Packets.{ParsedPacket}
use packetpipe.Flowtable.FlowMap.{find, erase, modify}
use packetpipe.Flowtable.Invariant.{IsValid, run-IsValid}
use packetpipe.Flowtable.View.{packet_key, next_state, keep_live, find-process, find-timer_sweep}
use packetpipe.Flowtable.Trace.{recorded, events_of}
use packetpipe.Flowtable.Told.{IsTold}
use packetpipe.Flowtable.Lifecycle.{run-IsTold}
use packetpipe.Flowtable.SweepEvents.{
  told, heartbeats, idle_ends, all_ends, events-timer_sweep, drain_all_lem,
}
use packetpipe.Flowtable.Conservation.{IsBalanced, run-IsBalanced}
use packetpipe.Flowtable.Drops.{IsCounted, run-IsCounted}
use packetpipe.Flowtable.{
  FlowTable, Call, processes, sweeps, init, emit, expire_flow, open_flow, update_flow, drop_new,
  is_full, dispatch, process, sweep_loop, expire_found, expire_loop, timer_sweep, drain_all, step,
  run, key_from_packet, fresh_state, bump, is_teardown, elapsed,
}

abbrev address : ℕ → List ℕ
address host = replicate 10 0 ++ 0xff ∷ 0xff ∷ 10 ∷ 0 ∷ 0 ∷ host ∷ []

-- A packet from a port, at a second, that may carry FIN.
abbrev packet : ℕ → ℕ → Bool → ParsedPacket
packet port second fin = record {
  src_ip = address 1;
  dst_ip = address 2;
  src_port = port;
  dst_port = 80;
  protocol = 6;
  wire_length = 100;
  timestamp_us = pos (second * 1_000_000);
  tcp_fin = fin;
  tcp_rst = false;
  is_ipv6 = false;
}

-- A sink with room for so many events.
abbrev bounded_sink : FlowEvent → ℕ → Bool × ℕ
bounded_sink e zero = (false, zero)
bounded_sink e (suc room) = (true, room)

abbrev config : AppConfig
config = record (defaults "test") { max_flows = 2 }

abbrev calls : List Call
calls =
    processes (packet 1000 5 false)
    ∷ processes (packet 1001 6 false)
    ∷ processes (packet 1002 7 false)
    ∷ processes (packet 1001 8 true)
    ∷ sweeps (pos 40_000_000)
    ∷ processes (packet 1000 41 false)
    ∷ []

abbrev start_table : FlowTable ℕ
start_table = init config registry 3

abbrev after_calls : FlowTable ℕ
after_calls = run bounded_sink calls start_table

abbrev recorded_table : FlowTable (ℕ × List FlowEvent)
recorded_table = run (recorded bounded_sink) calls (init config registry (3, []))

after_calls_metrics :
    (length after_calls.flows ≡ 1)
    × (after_calls.metrics.packets_received ≡ 5)
    × (after_calls.metrics.packets_dropped ≡ 2)
    × (after_calls.metrics.flows_expired_tcp ≡ 1)
    × (after_calls.overflowed ≡ false)
unfolding run step process timer_sweep sweep_loop expire_loop expire_found expire_flow open_flow
    update_flow drop_new is_full dispatch emit find erase modify fresh_state bump is_teardown
    elapsed ◌-ℤ◌ init registry inc_received inc_active inc_created inc_expired dec_active key_eq
    key_from_packet defaults
after_calls_metrics = (refl, refl, refl, refl, refl)

after_calls-IsValid : IsValid after_calls
after_calls-IsValid = run-IsValid bounded_sink config 3 calls (omega arith)

recorded_table-IsValid : IsValid recorded_table
recorded_table-IsValid = run-IsValid (recorded bounded_sink) config (3, []) calls (omega arith)

run-IsValid_example : IsValid (run bounded_sink calls (init config registry 3))
run-IsValid_example = run-IsValid bounded_sink config 3 calls (omega arith)

find-process_example :
    let pkt : ParsedPacket = packet 1000 42 true in
    find (packet_key pkt) (process bounded_sink pkt after_calls).flows ≡ (
      if key_eq (packet_key pkt) (packet_key pkt)
      then next_state pkt after_calls.cfg.max_flows
          (length after_calls.flows)
          (find (packet_key pkt) after_calls.flows)
      else find (packet_key pkt) after_calls.flows)
find-process_example =
    find-process bounded_sink (packet 1000 42 true) after_calls (packet_key (packet 1000 42 true))
      after_calls-IsValid

find-timer_sweep_example :
    let key = key_from_packet (packet 1000 0 false) in
    find key (timer_sweep bounded_sink (pos 200_000_000) after_calls).flows
    ≡ keep_live (pos 200_000_000) after_calls.idle_timeout_us (find key after_calls.flows)
find-timer_sweep_example =
    find-timer_sweep bounded_sink (pos 200_000_000) after_calls
      (key_from_packet (packet 1000 0 false)) after_calls-IsValid

run-IsTold_example : IsTold (run (recorded bounded_sink) calls (init config registry (3, [])))
run-IsTold_example = run-IsTold bounded_sink config 3 calls (omega arith)

events-timer_sweep_example :
    let now : ℤ = pos 200_000_000 in
    let t = recorded_table in
    let due = elapsed now t.last_heartbeat_us t.stats_interval_us in
    let t' = timer_sweep (recorded bounded_sink) now t in
    (events_of t'
      ≡ told
          (heartbeats due now t.idle_timeout_us t.flows ++ idle_ends now t.idle_timeout_us t.flows)
          (events_of t))
    × (t'.last_heartbeat_us ≡ (if due then now else t.last_heartbeat_us))
events-timer_sweep_example =
    events-timer_sweep bounded_sink (pos 200_000_000) recorded_table recorded_table-IsValid

drain_all_example :
    let t' = drain_all (recorded bounded_sink) (pos 9) recorded_table in
    (t'.flows ≡ [])
    × (events_of t' ≡ told (all_ends (pos 9) recorded_table.flows) (events_of recorded_table))
drain_all_example = drain_all_lem bounded_sink (pos 9) recorded_table

run-IsBalanced_example :
    IsBalanced bounded_sink (run (recorded bounded_sink) calls (init config registry (3, [])))
run-IsBalanced_example = run-IsBalanced bounded_sink config 3 calls

run-IsCounted_example :
    IsCounted (run bounded_sink calls (init config registry 3))
    × ((run bounded_sink calls (init config registry 3)).drop_count < 2 ^ 31)
run-IsCounted_example = run-IsCounted bounded_sink config 3 calls after_calls_metrics.4
