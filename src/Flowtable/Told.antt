-- ===== src/Flowtable/Told.antt =====
-- The operations of src/flowtable/flow_table.cpp on one flow keep the event history in step with the
-- table.
use packetpipe.Common.{
  ◌≡◌, Bool, Option, none, some, List, [], ◌∷◌, arith, All, Bool-cases, inl, inr,
}
use packetpipe.Common.Int.{ℤ}
use packetpipe.Events.{FlowKey, FlowState, FlowEvent, ExpireReason, tcp_teardown, key_eq_iff}
use packetpipe.Packets.{ParsedPacket}
use packetpipe.Flowtable.FlowMap.{
  Entries, find, modify, IsKeyed, find-erase, find-modify, find-key, key_eq_refl, modify-IsKeyed,
}
use packetpipe.Flowtable.Frame.{emit-SameTable}
use packetpipe.Flowtable.Invariant.{bump-key}
use packetpipe.Flowtable.Trace.{recorded, events_of, events-emit}
use packetpipe.Flowtable.Trace.Status.{status, held}
use packetpipe.Flowtable.{
  FlowTable, emit, expire_flow, open_flow, update_flow, drop_new, is_full, dispatch,
  key_from_packet, fresh_state, bump, is_teardown, start_event, stats_event, end_event,
}

-- A flow is open in the event history exactly when the table holds it.
abbrev pub IsTold : {S : Type 0} → FlowTable (S × List FlowEvent) → Type 0
IsTold t = (k : FlowKey) → status k (events_of t) ≡ held (find k t.flows)

-- Each of the entries is the one that the table has under its key.
abbrev pub Holds : Entries → Entries → Type 0
Holds es flows = All (λ e. (find e.0 flows ≡ some e.1) × (e.1.key ≡ e.0)) es

Holds-cons :
    (k : FlowKey) (s : FlowState) (es flows : Entries)
    → find k es ≡ none
    → Holds es flows
    → Holds es ((k, s) ∷ flows)
unfolding find
Holds-cons k s [] flows h a = tt
Holds-cons k s ((j, r) ∷ es) flows h a =
    ground (arith, Holds-cons k s es flows, key_eq_iff k j, key_eq_iff j k)

pub Holds-refl : (es : Entries) → IsKeyed es → Holds es es
unfolding find
Holds-refl [] v = tt
Holds-refl ((k, s) ∷ es) v =
    ground (arith, key_eq_refl k, Holds-cons k s es es v.1 (Holds-refl es v.2))

module _ {S : Type 0} (on_event : FlowEvent → S → Bool × S) where
  pub expire_flow-IsTold :
      (key : FlowKey) (s : FlowState) (now : ℤ) (r : ExpireReason)
      (t : FlowTable (S × List FlowEvent))
      → find key t.flows ≡ some s
      → IsKeyed t.flows
      → IsTold t
      → IsTold (expire_flow (recorded on_event) key s now r t)
  unfolding expire_flow status
  expire_flow-IsTold key s now r t h v told k = ground (
    arith,
    emit-SameTable (recorded on_event) (end_event s now r) t,
    events-emit on_event (end_event s now r) t,
    find-erase key k t.flows v,
    find-key key s t.flows v h,
    key_eq_iff key k,
    told k,
  )

  pub open_flow-IsTold :
      (pkt : ParsedPacket) (t : FlowTable (S × List FlowEvent))
      → find (key_from_packet pkt) t.flows ≡ none
      → IsTold t
      → IsTold (open_flow (recorded on_event) pkt t)
  unfolding open_flow status fresh_state find
  open_flow-IsTold pkt t h told k =
      let s = fresh_state pkt in
      let t' = record t { flows = (s.key, s) ∷ t.flows } in
      ground (
        arith,
        emit-SameTable (recorded on_event) (start_event s pkt.timestamp_us) t',
        events-emit on_event (start_event s pkt.timestamp_us) t',
        key_eq_iff (key_from_packet pkt) k,
        told k,
      )

  pub stats-IsTold :
      (s : FlowState) (now : ℤ) (t : FlowTable (S × List FlowEvent))
      → find s.key t.flows ≡ some s
      → IsTold t
      → IsTold (emit (recorded on_event) (stats_event s now) t)
  unfolding status
  stats-IsTold s now t h told k = ground (
    arith,
    emit-SameTable (recorded on_event) (stats_event s now) t,
    events-emit on_event (stats_event s now) t,
    key_eq_iff s.key k,
    told k,
  )

  pub update_flow-IsTold :
      (pkt : ParsedPacket) (s : FlowState) (t : FlowTable (S × List FlowEvent))
      → find (key_from_packet pkt) t.flows ≡ some s
      → IsKeyed t.flows
      → IsTold t
      → IsTold (update_flow (recorded on_event) pkt s t)
  unfolding update_flow
  update_flow-IsTold pkt s t h v told = elim (Bool-cases (is_teardown pkt)) [
    | inl e ↦
        rw e
          (expire_flow-IsTold key (bump pkt s) pkt.timestamp_us tcp_teardown t' found keyed bumped)
    | inr e ↦ rw e bumped
  ]
    where
      key : FlowKey
      key = key_from_packet pkt

      t' : FlowTable (S × List FlowEvent)
      t' = record t { flows = modify key (bump pkt) t.flows }

      keyed : IsKeyed t'.flows
      keyed = modify-IsKeyed key (bump pkt) t.flows (bump-key pkt) v

      found : find key t'.flows ≡ some (bump pkt s)
      found = ground (arith, find-modify key key (bump pkt) t.flows, key_eq_refl key)

      bumped : IsTold t'
      bumped k = ground (arith, find-modify key k (bump pkt) t.flows, key_eq_iff key k, told k)

  pub dispatch-IsTold :
      (pkt : ParsedPacket) (o : Option FlowState) (t : FlowTable (S × List FlowEvent))
      → find (key_from_packet pkt) t.flows ≡ o
      → IsKeyed t.flows
      → IsTold t
      → IsTold (dispatch (recorded on_event) pkt o t)
  unfolding dispatch drop_new
  dispatch-IsTold pkt none t h v told = elim (Bool-cases (is_full t)) [
    | inl e ↦ rw e told
    | inr e ↦ rw e (open_flow-IsTold pkt t h told)
  ]
  dispatch-IsTold pkt (some s) t h v told = update_flow-IsTold pkt s t h v told
