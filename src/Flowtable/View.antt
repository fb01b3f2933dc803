-- ===== src/Flowtable/View.antt =====
-- The flow table as a function from keys to states: what each operation of
-- src/flowtable/flow_table.cpp does to that function.
use packetpipe.Common.{
  ℕ, ◌+◌, ◌%◌, ◌^◌, ◌≡◌, ◌&&◌, ◌==◌, ltb, leb, length, refl, sym, ap, subst, ◌∙◌, Bool, true, false,
  ◌||◌, Option, none, some, List, [], ◌∷◌, arith, if◌then◌else◌,
}
use packetpipe.Common.Int.{ℤ, pos, leb_ℤ, ◌+ℤ◌, ◌-ℤ◌}
use packetpipe.Events.{
  FlowKey, FlowState, FlowEvent, ExpireReason, idle_timeout, tcp_teardown, key_eq, key_eq_iff,
}
use packetpipe.Metrics.{inc_received}
use packetpipe.Packets.{ParsedPacket}
use packetpipe.Flowtable.FlowMap.{
  Entries, find, erase, modify, IsKeyed, find-erase, find-modify, erase-IsKeyed, modify-IsKeyed,
}
use packetpipe.Flowtable.Frame.{emit-SameTable}
use packetpipe.Flowtable.Invariant.{
  IsValid, sweep_loop-SameTable, visit-SameTable, bump-key, to_int_small,
}
use packetpipe.Flowtable.{
  FlowTable, emit, expire_flow, open_flow, update_flow, drop_new, is_full, dispatch, process,
  sweep_loop, expire_found, expire_loop, timer_sweep, key_from_packet, fresh_state, bump,
  is_teardown, elapsed, start_event, stats_event, end_event,
}

-- The key of a packet and what a packet makes of the state of its key, where the table holds `count`
-- flows of at most `max`. It is written out here, next to the functions of the code.
abbrev pub packet_key : ParsedPacket → FlowKey
packet_key pkt = record {
  src_ip = pkt.src_ip;
  dst_ip = pkt.dst_ip;
  src_port = pkt.src_port;
  dst_port = pkt.dst_port;
  protocol = pkt.protocol;
}

abbrev pub next_state : ParsedPacket → ℕ → ℕ → Option FlowState → Option FlowState
next_state pkt max count none =
    if ltb count max
    then some (record {
      key = packet_key pkt;
      start_us = pkt.timestamp_us;
      last_seen_us = pkt.timestamp_us;
      packet_count = 1;
      byte_count = pkt.wire_length;
    })
    else none
next_state pkt max count (some s) =
    if pkt.protocol == 6 && (pkt.tcp_fin || pkt.tcp_rst)
    then none
    else some (record {
      key = s.key;
      start_us = s.start_us;
      last_seen_us = pkt.timestamp_us;
      packet_count = (s.packet_count + 1) % 2 ^ 64;
      byte_count = (s.byte_count + pkt.wire_length) % 2 ^ 64;
    })

-- The same, in the functions of the code.
abbrev dispatched : ParsedPacket → Bool → Option FlowState → Option FlowState
dispatched pkt full none = if full then none else some (fresh_state pkt)
dispatched pkt full (some s) = if is_teardown pkt then none else some (bump pkt s)

dispatched_lem :
    (pkt : ParsedPacket) (max count : ℕ) (o : Option FlowState)
    → dispatched pkt (leb max count) o ≡ next_state pkt max count o
unfolding fresh_state bump is_teardown
dispatched_lem pkt max count none = ground arith
dispatched_lem pkt max count (some s) = refl

-- What a sweep leaves of a state: nothing, once the timeout has passed since the last packet.
abbrev pub keep_live : ℤ → ℕ → Option FlowState → Option FlowState
keep_live now timeout none = none
keep_live now timeout (some s) = if leb_ℤ (s.last_seen_us +ℤ pos timeout) now then none else some s

elapsed_lem :
    (now since : ℤ) (interval : ℕ) → elapsed now since interval ≡ leb_ℤ (since +ℤ pos interval) now
unfolding elapsed ◌+ℤ◌ ◌-ℤ◌
elapsed_lem now since interval = ground arith

abbrev pub has_key : FlowKey → List FlowKey → Bool
has_key j [] = false
has_key j (k ∷ ks) = key_eq k j || has_key j ks

abbrev is_idle : ℤ → ℕ → Option FlowState → Bool
is_idle now timeout none = false
is_idle now timeout (some s) = elapsed now s.last_seen_us timeout

keep_live_lem :
    (now : ℤ) (timeout : ℕ) (o : Option FlowState)
    → (if is_idle now timeout o then none else o) ≡ keep_live now timeout o
keep_live_lem now timeout none = refl
keep_live_lem now timeout (some s) =
    ap (λ idle. if idle then none else some s) (elapsed_lem now s.last_seen_us timeout)

module _ {S : Type 0} (on_event : FlowEvent → S → Bool × S) where
  pub flows-expire_flow :
      (key : FlowKey) (s : FlowState) (now : ℤ) (r : ExpireReason) (t : FlowTable S)
      → (expire_flow on_event key s now r t).flows ≡ erase key t.flows
  unfolding expire_flow
  flows-expire_flow key s now r t = ground (arith, emit-SameTable on_event (end_event s now r) t)

  pub flows-open_flow :
      (pkt : ParsedPacket) (t : FlowTable S)
      → (open_flow on_event pkt t).flows ≡ (key_from_packet pkt, fresh_state pkt) ∷ t.flows
  unfolding open_flow fresh_state
  flows-open_flow pkt t =
      let s = fresh_state pkt in
      (emit-SameTable on_event (start_event s pkt.timestamp_us)
        (record t { flows = (s.key, s) ∷ t.flows })).flows

  update_flow-find :
      (pkt : ParsedPacket) (s : FlowState) (t : FlowTable S) (j : FlowKey)
      → IsKeyed t.flows
      → find (key_from_packet pkt) t.flows ≡ some s
      → find j (update_flow on_event pkt s t).flows
        ≡ (if key_eq (key_from_packet pkt) j then dispatched pkt true (some s) else find j t.flows)
  unfolding update_flow
  update_flow-find pkt s t j v h =
      let key = key_from_packet pkt in
      let bumped = modify key (bump pkt) t.flows in
      let t' = record t { flows = bumped } in
      ground (
        arith,
        flows-expire_flow key (bump pkt s) pkt.timestamp_us tcp_teardown t',
        find-erase key j bumped (modify-IsKeyed key (bump pkt) t.flows (bump-key pkt) v),
        find-modify key j (bump pkt) t.flows,
        key_eq_iff key j,
      )

  dispatch-find :
      (pkt : ParsedPacket) (o : Option FlowState) (t : FlowTable S) (j : FlowKey)
      → IsKeyed t.flows
      → find (key_from_packet pkt) t.flows ≡ o
      → find j (dispatch on_event pkt o t).flows
        ≡ (if key_eq (key_from_packet pkt) j then dispatched pkt (is_full t) o else find j t.flows)
  unfolding dispatch drop_new find
  dispatch-find pkt none t j v h =
      ground (arith, flows-open_flow pkt t, key_eq_iff (key_from_packet pkt) j)
  dispatch-find pkt (some s) t j v h = update_flow-find pkt s t j v h

  process-find :
      (pkt : ParsedPacket) (t : FlowTable S) (j : FlowKey)
      → IsValid t
      → find j (process on_event pkt t).flows ≡ (
          if key_eq (key_from_packet pkt) j
          then dispatched pkt (is_full t) (find j t.flows)
          else find j t.flows)
  unfolding process is_full
  process-find pkt t j v = ground (
    arith,
    dispatch-find pkt (find (key_from_packet pkt) t.flows)
        (record t { metrics = inc_received t.metrics }) j v.keyed refl,
    key_eq_iff (key_from_packet pkt) j,
  )

  is_full_lem : (t : FlowTable S) → IsValid t → is_full t ≡ leb t.cfg.max_flows (length t.flows)
  unfolding is_full
  is_full_lem t v =
      rw (to_int_small (length t.flows) (omega (arith, v.bounded, v.limit))) (ground arith)

  -- On a valid table, which is every table that the operations reach, `process` is a function on the
  -- view: the packet's own key, which is its addresses, ports and protocol, gets a new flow of one
  -- packet if it had none and the table has room, and is left without one if not; with a FIN or a
  -- RST of TCP it loses its flow; else the flow keeps its key and its start, is last seen at the
  -- packet's time, and counts one packet and the packet's bytes more, modulo 2^64; every other key
  -- keeps its state.
  pub find-process :
      (pkt : ParsedPacket) (t : FlowTable S) (j : FlowKey)
      → IsValid t
      → find j (process on_event pkt t).flows ≡ (
          if key_eq (packet_key pkt) j
          then next_state pkt t.cfg.max_flows (length t.flows) (find j t.flows)
          else find j t.flows)
  unfolding key_from_packet
  find-process pkt t j v =
      process-find pkt t j v
      ∙ ap (λ o. if key_eq (packet_key pkt) j then o else find j t.flows)
          (ap (λ full. dispatched pkt full (find j t.flows)) (is_full_lem t v)
            ∙ dispatched_lem pkt t.cfg.max_flows (length t.flows) (find j t.flows))

  has_key-sweep_loop :
      (due : Bool) (now : ℤ) (j : FlowKey) (es : Entries) (t : FlowTable S)
      → IsKeyed es
      → has_key j (sweep_loop on_event due now es t).0 ≡ is_idle now t.idle_timeout_us (find j es)
  unfolding sweep_loop find
  has_key-sweep_loop due now j [] t v = refl
  has_key-sweep_loop due now j ((key, s) ∷ es) t v =
      let t' =
        if elapsed now s.last_seen_us t.idle_timeout_us
        then t
        else if due
        then emit on_event (stats_event s now) t
        else t in
      ground (
        arith,
        visit-SameTable on_event due now s t,
        has_key-sweep_loop due now j es t' v.2,
        key_eq_iff key j,
      )

  flows-expire_found :
      (key : FlowKey) (now : ℤ) (o : Option FlowState) (t : FlowTable S) (j : FlowKey)
      → IsKeyed t.flows
      → find key t.flows ≡ o
      → IsKeyed (expire_found on_event key now o t).flows
        × (find j (expire_found on_event key now o t).flows
            ≡ (if key_eq key j then none else find j t.flows))
  unfolding expire_found
  flows-expire_found key now none t j v h = ground (arith, key_eq_iff key j)
  flows-expire_found key now (some s) t j v h =
      rw (flows-expire_flow key s now idle_timeout t)
        (erase-IsKeyed key t.flows v, find-erase key j t.flows v)

  find-expire_loop :
      (now : ℤ) (keys : List FlowKey) (t : FlowTable S) (j : FlowKey)
      → IsKeyed t.flows
      → find j (expire_loop on_event now keys t).flows
        ≡ (if has_key j keys then none else find j t.flows)
  unfolding expire_loop
  find-expire_loop now [] t j v = refl
  find-expire_loop now (key ∷ keys) t j v =
      let one = flows-expire_found key now (find key t.flows) t j v refl in
      find-expire_loop now keys (expire_found on_event key now (find key t.flows) t) j one.0
      ∙ ground (arith, one.1)

  swept_view :
      (now : ℤ) (t : FlowTable S) (j : FlowKey)
      → IsValid t
      → find j (timer_sweep on_event now t).flows
        ≡ (if is_idle now t.idle_timeout_us (find j t.flows) then none else find j t.flows)
  unfolding timer_sweep
  swept_view now t j v =
      let due = elapsed now t.last_heartbeat_us t.stats_interval_us in
      let swept = sweep_loop on_event due now t.flows t in
      let same = sweep_loop-SameTable on_event due now t.flows t in
      ground (
        arith,
        same,
        has_key-sweep_loop due now j t.flows t v.keyed,
        find-expire_loop now swept.0 swept.1 j (subst IsKeyed (sym same.flows) v.keyed),
      )

  -- On a valid table, which is every table that the operations reach, a sweep removes exactly the flows
  -- whose last packet and the timeout together are not after its time, and leaves every other flow
  -- as it was.
  pub find-timer_sweep :
      (now : ℤ) (t : FlowTable S) (j : FlowKey)
      → IsValid t
      → find j (timer_sweep on_event now t).flows ≡ keep_live now t.idle_timeout_us (find j t.flows)
  find-timer_sweep now t j v =
      swept_view now t j v ∙ keep_live_lem now t.idle_timeout_us (find j t.flows)
