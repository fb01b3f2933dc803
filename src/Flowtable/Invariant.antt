-- ===== src/Flowtable/Invariant.antt =====
-- Well-formed flow tables, and that every call keeps them so.
use packetpipe.Common.{
  ℕ, ◌+◌, ◌^◌, ◌≤◌, ◌<◌, ◌≡◌, refl, sym, subst, Bool, false, Option, none, some, List, [], ◌∷◌,
  arith, length, if◌then◌else◌, Bool-cases, inl, inr,
}
use packetpipe.Common.Int.{ℤ, pos}
use packetpipe.Events.{FlowKey, FlowState, FlowEvent, ExpireReason, idle_timeout, tcp_teardown}
use packetpipe.Metrics.{registry, inc_received, inc_active, dec_active, inc_created, inc_expired}
use packetpipe.Config.{AppConfig}
use packetpipe.Packets.{ParsedPacket}
use packetpipe.Flowtable.FlowMap.{
  Entries, find, erase, modify, IsKeyed, length-erase, length-modify, erase-IsKeyed, modify-IsKeyed,
  find-modify, key_eq_refl,
}
use packetpipe.Flowtable.Frame.{SameTable, SameTable-refl, SameTable-trans, emit-SameTable}
use packetpipe.Flowtable.{
  FlowTable, Call, processes, sweeps, drains, init, emit, expire_flow, open_flow, update_flow,
  drop_new, is_full, to_int, dispatch, process, sweep_loop, expire_found, expire_loop, timer_sweep,
  drain_loop, drain_all, step, run, key_from_packet, fresh_state, bump, is_teardown, end_event,
  start_event, stats_event, elapsed,
}

pub record IsValid {S : Type 0} (t : FlowTable S) : Type 0 where
  pub keyed : IsKeyed t.flows
  pub bounded : length t.flows ≤ t.cfg.max_flows
  pub limit : t.cfg.max_flows < 2 ^ 31
  pub active : t.metrics.flows_active ≡ pos (length t.flows)
  pub created :
      t.metrics.flows_created
      ≡ length t.flows + t.metrics.flows_expired_idle + t.metrics.flows_expired_tcp

pub to_int_small : (n : ℕ) → n < 2 ^ 31 → to_int n ≡ pos n
unfolding to_int
to_int_small n h = ground arith

pub bump-key : (pkt : ParsedPacket) (s : FlowState) → (bump pkt s).key ≡ s.key
unfolding bump
bump-key pkt s = refl

module _ {S : Type 0} where
  pub SameTable-IsValid : {t u : FlowTable S} → SameTable t u → IsValid t → IsValid u
  SameTable-IsValid {t} {u} f v = ground (arith, subst IsKeyed (sym f.flows) v.keyed)

  drop_new-IsValid : (t : FlowTable S) → IsValid t → IsValid (drop_new t)
  unfolding drop_new
  drop_new-IsValid t v = ground arith

  is_full-false :
      (t : FlowTable S) → IsValid t → is_full t ≡ false → length t.flows < t.cfg.max_flows
  unfolding is_full
  is_full-false t v h = ground (arith, to_int_small (length t.flows))

module _ {S : Type 0} (on_event : FlowEvent → S → Bool × S) where
  pub expire_flow-IsValid :
      (key : FlowKey) (s : FlowState) (now : ℤ) (r : ExpireReason) (t : FlowTable S)
      → find key t.flows ≡ some s
      → IsValid t
      → IsValid (expire_flow on_event key s now r t)
  unfolding expire_flow inc_expired dec_active
  expire_flow-IsValid key s now idle_timeout t h v = ground (
    arith,
    emit-SameTable on_event (end_event s now idle_timeout) t,
    length-erase key s t.flows,
    erase-IsKeyed key t.flows,
  )
  expire_flow-IsValid key s now tcp_teardown t h v = ground (
    arith,
    emit-SameTable on_event (end_event s now tcp_teardown) t,
    length-erase key s t.flows,
    erase-IsKeyed key t.flows,
  )

  open_flow-IsValid :
      (pkt : ParsedPacket) (t : FlowTable S)
      → find (key_from_packet pkt) t.flows ≡ none
      → length t.flows < t.cfg.max_flows
      → IsValid t
      → IsValid (open_flow on_event pkt t)
  unfolding open_flow inc_active inc_created fresh_state
  open_flow-IsValid pkt t absent room v =
      let s = fresh_state pkt in
      let t' = record t { flows = (s.key, s) ∷ t.flows } in
      let f = emit-SameTable on_event (start_event s pkt.timestamp_us) t' in
      ground (arith, f, subst IsKeyed (sym f.flows) (refl, absent, v.keyed))

  update_flow-IsValid :
      (pkt : ParsedPacket) (s : FlowState) (t : FlowTable S)
      → find (key_from_packet pkt) t.flows ≡ some s
      → IsValid t
      → IsValid (update_flow on_event pkt s t)
  unfolding update_flow
  update_flow-IsValid pkt s t h v = elim (Bool-cases (is_teardown pkt)) [
    | inl e ↦ rw e (expire_flow-IsValid _ (bump pkt s) pkt.timestamp_us tcp_teardown _ found bumped)
    | inr e ↦ rw e bumped
  ]
    where
      key : FlowKey
      key = key_from_packet pkt

      bumped : IsValid (record t { flows = modify key (bump pkt) t.flows })
      bumped = ground (
        arith,
        length-modify key (bump pkt) t.flows,
        modify-IsKeyed key (bump pkt) t.flows (bump-key pkt),
      )

      found : find key (modify key (bump pkt) t.flows) ≡ some (bump pkt s)
      found = ground (arith, find-modify key key (bump pkt) t.flows, key_eq_refl key)

  dispatch-IsValid :
      (pkt : ParsedPacket) (o : Option FlowState) (t : FlowTable S)
      → find (key_from_packet pkt) t.flows ≡ o
      → IsValid t
      → IsValid (dispatch on_event pkt o t)
  unfolding dispatch
  dispatch-IsValid pkt none t h v = elim (Bool-cases (is_full t)) [
    | inl e ↦ rw e (drop_new-IsValid t v)
    | inr e ↦ rw e (open_flow-IsValid pkt t h (is_full-false t v e) v)
  ]
  dispatch-IsValid pkt (some s) t h v = update_flow-IsValid pkt s t h v

  pub process-IsValid :
      (pkt : ParsedPacket) (t : FlowTable S) → IsValid t → IsValid (process on_event pkt t)
  unfolding process inc_received
  process-IsValid pkt t v =
      dispatch-IsValid pkt (find (key_from_packet pkt) t.flows) _ refl (record {
        keyed = v.keyed;
        bounded = v.bounded;
        limit = v.limit;
        active = v.active;
        created = v.created;
      })

  pub expire_found-IsValid :
      (key : FlowKey) (now : ℤ) (o : Option FlowState) (t : FlowTable S)
      → find key t.flows ≡ o
      → IsValid t
      → IsValid (expire_found on_event key now o t)
  unfolding expire_found
  expire_found-IsValid key now none t h v = v
  expire_found-IsValid key now (some s) t h v = expire_flow-IsValid key s now idle_timeout t h v

  pub expire_loop-IsValid :
      (now : ℤ) (keys : List FlowKey) (t : FlowTable S)
      → IsValid t
      → IsValid (expire_loop on_event now keys t)
  unfolding expire_loop
  expire_loop-IsValid now [] t v = v
  expire_loop-IsValid now (key ∷ keys) t v =
      expire_loop-IsValid now keys _ (expire_found-IsValid key now (find key t.flows) t refl v)

  pub visit-SameTable :
      (due : Bool) (now : ℤ) (s : FlowState) (t : FlowTable S)
      → SameTable t (
          if elapsed now s.last_seen_us t.idle_timeout_us
          then t
          else if due
          then emit on_event (stats_event s now) t
          else t)
  visit-SameTable due now s t = ground (arith, emit-SameTable on_event (stats_event s now) t)

  -- The first loop of a sweep changes what `emit` changes.
  pub sweep_loop-SameTable :
      (due : Bool) (now : ℤ) (es : Entries) (t : FlowTable S)
      → SameTable t (sweep_loop on_event due now es t).1
  unfolding sweep_loop
  sweep_loop-SameTable due now [] t = SameTable-refl t
  sweep_loop-SameTable due now ((key, s) ∷ es) t =
      SameTable-trans (visit-SameTable due now s t) (sweep_loop-SameTable due now es _)

  pub timer_sweep-IsValid :
      (now : ℤ) (t : FlowTable S) → IsValid t → IsValid (timer_sweep on_event now t)
  unfolding timer_sweep
  timer_sweep-IsValid now t v = ground (arith, swept)
    where
      due : Bool
      due = elapsed now t.last_heartbeat_us t.stats_interval_us

      swept : IsValid (
          expire_loop on_event now
            (sweep_loop on_event due now t.flows t).0
            (sweep_loop on_event due now t.flows t).1)
      swept =
          expire_loop-IsValid now _ _ (SameTable-IsValid (sweep_loop-SameTable due now t.flows t) v)

  drain_loop-IsValid :
      (now : ℤ) (es : Entries) (t : FlowTable S)
      → t.flows ≡ es
      → IsValid t
      → IsValid (drain_loop on_event now es t)
  unfolding drain_loop expire_flow find erase
  drain_loop-IsValid now [] t h v = v
  drain_loop-IsValid now ((key, s) ∷ es) t h v =
      drain_loop-IsValid now es (expire_flow on_event key s now idle_timeout t)
        (ground (arith, emit-SameTable on_event (end_event s now idle_timeout) t, key_eq_refl key))
        (expire_flow-IsValid key s now idle_timeout t (rw h (ground (arith, key_eq_refl key))) v)

  -- One call, whatever it is, keeps a table well formed.
  pub step-IsValid : (c : Call) (t : FlowTable S) → IsValid t → IsValid (step on_event c t)
  unfolding step drain_all
  step-IsValid (processes pkt) t v = process-IsValid pkt t v
  step-IsValid (sweeps now) t v = timer_sweep-IsValid now t v
  step-IsValid (drains now) t v = drain_loop-IsValid now t.flows t refl v

  run-IsValid_from : (cs : List Call) (t : FlowTable S) → IsValid t → IsValid (run on_event cs t)
  unfolding run
  run-IsValid_from [] t v = v
  run-IsValid_from (c ∷ cs) t v = run-IsValid_from cs (step on_event c t) (step-IsValid c t v)

  pub init-IsValid :
      (cfg : AppConfig) (sink : S) → cfg.max_flows < 2 ^ 31 → IsValid (init cfg registry sink)
  unfolding init registry
  init-IsValid cfg sink h = ground arith

  -- From an empty table, any sequence of packets, timer sweeps and drains, whatever the sink
  -- answers: keys stay distinct and match their states, the table never holds more than
  -- `max_flows` flows (an `int`), the active gauge is the number of flows held, and every flow
  -- created is either held or counted as expired for exactly one reason.
  pub run-IsValid :
      (cfg : AppConfig) (sink : S) (cs : List Call)
      → cfg.max_flows < 2 ^ 31
      → IsValid (run on_event cs (init cfg registry sink))
  run-IsValid cfg sink cs h = run-IsValid_from cs _ (init-IsValid cfg sink h)
