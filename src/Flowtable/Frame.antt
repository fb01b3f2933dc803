-- ===== src/Flowtable/Frame.antt =====
-- What `emit` of src/flowtable/flow_table.cpp leaves alone: all but the sink, the log and the
-- counter of dropped packets.
use packetpipe.Common.{arith, ◌≡◌, Bool, true, false}
use packetpipe.Events.{FlowEvent}
use packetpipe.Flowtable.{FlowTable, emit, after_emit}

-- Two tables that differ in the sink, the log and the dropped packets only.
pub record SameTable {S : Type 0} (t u : FlowTable S) : Type 0 where
  pub cfg : u.cfg ≡ t.cfg
  pub flows : u.flows ≡ t.flows
  pub last_heartbeat_us : u.last_heartbeat_us ≡ t.last_heartbeat_us
  pub idle_timeout_us : u.idle_timeout_us ≡ t.idle_timeout_us
  pub stats_interval_us : u.stats_interval_us ≡ t.stats_interval_us
  pub drop_count : u.drop_count ≡ t.drop_count
  pub received : u.metrics.packets_received ≡ t.metrics.packets_received
  pub active : u.metrics.flows_active ≡ t.metrics.flows_active
  pub created : u.metrics.flows_created ≡ t.metrics.flows_created
  pub expired_idle : u.metrics.flows_expired_idle ≡ t.metrics.flows_expired_idle
  pub expired_tcp : u.metrics.flows_expired_tcp ≡ t.metrics.flows_expired_tcp

pub SameTable-refl : {S : Type 0} (t : FlowTable S) → SameTable t t
SameTable-refl t = ground arith

pub SameTable-trans :
    {S : Type 0} {t u v : FlowTable S} → SameTable t u → SameTable u v → SameTable t v
SameTable-trans p q = ground arith

module _ {S : Type 0} (on_event : FlowEvent → S → Bool × S) where
  after_emit-SameTable : (r : Bool × S) (t : FlowTable S) → SameTable t (after_emit on_event r t)
  unfolding after_emit
  after_emit-SameTable (true, s) t = ground arith
  after_emit-SameTable (false, s) t = ground arith

  pub emit-SameTable : (evt : FlowEvent) (t : FlowTable S) → SameTable t (emit on_event evt t)
  unfolding emit
  emit-SameTable evt t = after_emit-SameTable (on_event evt t.sink) t
