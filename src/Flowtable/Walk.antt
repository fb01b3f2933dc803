-- ===== src/Flowtable/Walk.antt =====
-- How the operations of src/flowtable/flow_table.cpp are made of `emit` and of steps that neither
-- touch the sink nor the metrics of the other components: what both keep, every operation keeps.
use packetpipe.Common.{
  ◌+◌, ◌≡◌, arith, Bool, true, false, Bool-cases, inl, inr, Option, none, some, List, [], ◌∷◌,
  if◌then◌else◌,
}
use packetpipe.Common.Int.{ℤ}
use packetpipe.Events.{FlowKey, FlowState, FlowEvent, ExpireReason, idle_timeout, tcp_teardown}
use packetpipe.Metrics.{inc_received, inc_active, inc_created, dec_active, inc_expired}
use packetpipe.Packets.{ParsedPacket}
use packetpipe.Flowtable.FlowMap.{Entries, find, modify}
use packetpipe.Flowtable.Drops.{refusals}
use packetpipe.Flowtable.{
  FlowTable, emit, expire_flow, open_flow, update_flow, drop_new, is_full, is_teardown, dispatch,
  process, sweep_loop, expire_found, expire_loop, timer_sweep, drain_loop, drain_all,
  key_from_packet, fresh_state, bump, elapsed, start_event, stats_event, end_event,
}

-- `u` comes from `t` without an event.
pub record Quiet {S : Type 0} (t u : FlowTable S) : Type 0 where
  pub sink : u.sink ≡ t.sink
  pub refused : refusals u.log ≡ refusals t.log
  pub dropped : u.metrics.packets_dropped + t.drop_count ≡ t.metrics.packets_dropped + u.drop_count
  pub received : u.metrics.packets_received ≡ t.metrics.packets_received
  pub produced : u.metrics.kafka_messages_produced ≡ t.metrics.kafka_messages_produced
  pub errors : u.metrics.kafka_delivery_errors ≡ t.metrics.kafka_delivery_errors
  pub unserializable : u.metrics.avro_serialization_errors ≡ t.metrics.avro_serialization_errors
  pub retries : u.metrics.schema_registry_retries ≡ t.metrics.schema_registry_retries

pub record Kept {S : Type 0} (on_event : FlowEvent → S → Bool × S) (P : FlowTable S → Type 0)
    : Type 0 where
  pub emits : (evt : FlowEvent) (t : FlowTable S) → P t → P (emit on_event evt t)
  pub quiet : (t u : FlowTable S) → Quiet t u → P t → P u

module _ {S : Type 0} (on_event : FlowEvent → S → Bool × S) (P : FlowTable S → Type 0)
    (k : Kept on_event P) where
  walk-expire_flow :
      (key : FlowKey) (s : FlowState) (now : ℤ) (r : ExpireReason) (t : FlowTable S)
      → P t
      → P (expire_flow on_event key s now r t)
  unfolding expire_flow inc_expired dec_active
  walk-expire_flow key s now idle_timeout t h =
      k.quiet (emit on_event (end_event s now idle_timeout) t) _ (ground arith) (k.emits _ t h)
  walk-expire_flow key s now tcp_teardown t h =
      k.quiet (emit on_event (end_event s now tcp_teardown) t) _ (ground arith) (k.emits _ t h)

  walk-drop_new : (t : FlowTable S) → P t → P (drop_new t)
  unfolding drop_new refusals
  walk-drop_new t h = k.quiet t _ (ground arith) h

  walk-open_flow : (pkt : ParsedPacket) (t : FlowTable S) → P t → P (open_flow on_event pkt t)
  unfolding open_flow inc_active inc_created
  walk-open_flow pkt t h =
      let s = fresh_state pkt in
      let t' : FlowTable S = record t { flows = (s.key, s) ∷ t.flows } in
      k.quiet (emit on_event (start_event s pkt.timestamp_us) t') _ (ground arith)
        (k.emits _ t' (k.quiet t t' (ground arith) h))

  walk-update_flow :
      (pkt : ParsedPacket) (s : FlowState) (t : FlowTable S)
      → P t
      → P (update_flow on_event pkt s t)
  unfolding update_flow
  walk-update_flow pkt s t h =
      let t' : FlowTable S = record t { flows = modify (key_from_packet pkt) (bump pkt) t.flows } in
      let h' = k.quiet t t' (ground arith) h in
      elim (Bool-cases (is_teardown pkt)) [
        | inl e ↦ rw e (
            walk-expire_flow (key_from_packet pkt) (bump pkt s) pkt.timestamp_us tcp_teardown t' h')
        | inr e ↦ rw e h'
      ]

  pub walk-dispatch :
      (pkt : ParsedPacket) (o : Option FlowState) (t : FlowTable S)
      → P t
      → P (dispatch on_event pkt o t)
  unfolding dispatch
  walk-dispatch pkt none t h = elim (Bool-cases (is_full t)) [
    | inl e ↦ rw e (walk-drop_new t h)
    | inr e ↦ rw e (walk-open_flow pkt t h)
  ]
  walk-dispatch pkt (some s) t h = walk-update_flow pkt s t h

  -- The packet is counted first.
  pub walk-process :
      (pkt : ParsedPacket) (t : FlowTable S)
      → P (record t { metrics = inc_received t.metrics })
      → P (process on_event pkt t)
  unfolding process
  walk-process pkt t h = walk-dispatch pkt (find (key_from_packet pkt) t.flows) _ h

  walk-if : (b : Bool) (u v : FlowTable S) → P u → P v → P (if b then u else v)
  walk-if true u v p q = p
  walk-if false u v p q = q

  walk-sweep_loop :
      (stats : Bool) (now : ℤ) (es : Entries) (t : FlowTable S)
      → P t
      → P (sweep_loop on_event stats now es t).1
  unfolding sweep_loop
  walk-sweep_loop stats now [] t h = h
  walk-sweep_loop stats now ((key, s) ∷ es) t h = walk-sweep_loop stats now es _ (
      walk-if (elapsed now s.last_seen_us t.idle_timeout_us) t _ h
        (walk-if stats _ t (k.emits (stats_event s now) t h) h))

  walk-expire_loop :
      (now : ℤ) (keys : List FlowKey) (t : FlowTable S) → P t → P (expire_loop on_event now keys t)
  unfolding expire_loop expire_found
  walk-expire_loop now [] t h = h
  walk-expire_loop now (key ∷ keys) t h = walk-expire_loop now keys _ (found (find key t.flows))
    where
      found : (o : Option FlowState) → P (expire_found on_event key now o t)
      found none = h
      found (some s) = walk-expire_flow key s now idle_timeout t h

  pub walk-timer_sweep : (now : ℤ) (t : FlowTable S) → P t → P (timer_sweep on_event now t)
  unfolding timer_sweep
  walk-timer_sweep now t h =
      let stats = elapsed now t.last_heartbeat_us t.stats_interval_us in
      let (keys, t') = sweep_loop on_event stats now t.flows t in
      let t'' = expire_loop on_event now keys t' in
      let h'' = walk-expire_loop now keys t' (walk-sweep_loop stats now t.flows t h) in
      walk-if stats _ t'' (k.quiet t'' (record t'' { last_heartbeat_us = now }) (ground arith) h'')
        h''

  walk-drain_loop :
      (now : ℤ) (es : Entries) (t : FlowTable S) → P t → P (drain_loop on_event now es t)
  unfolding drain_loop inc_expired dec_active
  walk-drain_loop now [] t h = h
  walk-drain_loop now ((key, s) ∷ es) t h =
      walk-drain_loop now es _
        (k.quiet (emit on_event (end_event s now idle_timeout) t) _ (ground arith) (k.emits _ t h))

  pub walk-drain_all : (now : ℤ) (t : FlowTable S) → P t → P (drain_all on_event now t)
  unfolding drain_all
  walk-drain_all now t h = walk-drain_loop now t.flows t h
