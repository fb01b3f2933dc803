-- ===== src/Main/Sound.antt =====
-- What every piece of work of src/main.cpp keeps: where each event of the flow table is.
use packetpipe.Common.{
  ℕ, ◌+◌, ◌≡◌, refl, sym, ap, subst, ◌∙◌, inl, inr, Bool, true, false, Bool-cases, List, [], ◌∷◌,
  length, length-append, arith, ◌==◌,
}
use packetpipe.Events.{FlowEvent}
use packetpipe.Events.EventQueue.{IsCapacity, EventQueue, push}
use packetpipe.Events.EventQueue.Fifo.{enqueue}
use packetpipe.Events.EventQueue.Held.{Holds}
use packetpipe.Events.EventQueue.Refine.{push-Holds}
use packetpipe.Flowtable.{FlowTable, emit, after_emit}
use packetpipe.Flowtable.Drops.{refusals}
use packetpipe.Flowtable.Trace.{recorded}
use packetpipe.Flowtable.Walk.{Quiet, Kept}
use packetpipe.Kafka.KafkaProducer.{KafkaProducer}
use packetpipe.Kafka.AvroKafkaSink.Tally.{IsTallied}
use packetpipe.Metrics.{inc_dropped}
use packetpipe.Main.{Program, table_of, Buffer, default_event_queue_capacity, queue_buffer}

pub default_event_queue_capacity-IsCapacity : IsCapacity default_event_queue_capacity
default_event_queue_capacity-IsCapacity = record {
  positive = omega arith;
  single_bit = refl;
  fits = omega arith;
}

-- The queue, with the list of all events that the flow table pushed kept beside it.
abbrev pub Recorded : Type 0
Recorded = EventQueue FlowEvent × List FlowEvent

unfoldable pub recorded_buffer : Buffer Recorded
unfolding recorded
recorded_buffer = record {
  push_event = recorded queue_buffer.push_event;
  pop_event = λ (q, events). let (q', evt) = queue_buffer.pop_event q in ((q', events), evt);
}

abbrev refused : Bool → ℕ
refused true = 0
refused false = 1

length-enqueue :
    (n : ℕ) (x : FlowEvent) (xs : List FlowEvent)
    → length (enqueue n x xs).0 + refused (enqueue n x xs).1 ≡ length xs + 1
length-enqueue n x xs = elim (Bool-cases (length xs + 1 == n)) [
  | inl e ↦ rw e (omega arith)
  | inr e ↦ rw e (omega (arith, length-append xs (x ∷ [])))
]

-- `gone` events have left the sink's hands, `waiting` are in the retry buffer, and the producer `p`
-- works on the registry that the table shows: `a` packets were captured, and `b` frames without one.
pub record IsSound {B : Type 0} (p : KafkaProducer B) (gone waiting a b : ℕ)
    (t : FlowTable Recorded) : Type 0 where
  pub queued : List FlowEvent
  pub holds : Holds default_event_queue_capacity t.sink.0 queued
  pub events : length t.sink.1 ≡ refusals t.log + length queued + gone + waiting
  pub tallied : IsTallied (record p { metrics = t.metrics }) gone
  pub received : t.metrics.packets_received ≡ a
  pub dropped : t.metrics.packets_dropped ≡ t.drop_count + refusals t.log + b

module _ {B : Type 0} (p : KafkaProducer B) (gone waiting a b : ℕ) where
  Quiet-IsSound :
      (t u : FlowTable Recorded)
      → Quiet t u
      → IsSound p gone waiting a b t
      → IsSound p gone waiting a b u
  Quiet-IsSound t u q h = record {
    queued = h.queued;
    holds = subst (λ s. Holds default_event_queue_capacity s.0 h.queued) (sym q.sink) h.holds;
    events = ap (λ (s : Recorded). length s.1) q.sink ∙ omega (arith, h.events, q.refused);
    tallied = record {
      gone = omega (arith, h.tallied.gone, q.produced, q.unserializable);
      failed = q.errors ∙ h.tallied.failed;
      again = omega (arith, h.tallied.again, q.produced, q.retries);
    };
    received = q.received ∙ h.received;
    dropped = omega (arith, q.dropped, q.refused, h.dropped);
  }

  after_emit-IsSound :
      (evt : FlowEvent) (f : FlowEvent → Recorded → Bool × Recorded) (taken : Bool)
      (q : EventQueue FlowEvent) (ys : List FlowEvent) (t : FlowTable Recorded)
      (h : IsSound p gone waiting a b t)
      → Holds default_event_queue_capacity q ys
      → length ys + refused taken ≡ length h.queued + 1
      → IsSound p gone waiting a b (after_emit f (taken, (q, evt ∷ t.sink.1)) t)
  unfolding after_emit refusals inc_dropped
  after_emit-IsSound evt f true q ys t h holds sum = record {
    queued = ys;
    holds = holds;
    events = omega (arith, h.events, sum);
    tallied = record { gone = h.tallied.gone; failed = h.tallied.failed; again = h.tallied.again };
    received = h.received;
    dropped = h.dropped;
  }
  after_emit-IsSound evt f false q ys t h holds sum = record {
    queued = ys;
    holds = holds;
    events = omega (arith, h.events, sum);
    tallied = record { gone = h.tallied.gone; failed = h.tallied.failed; again = h.tallied.again };
    received = h.received;
    dropped = omega (arith, h.dropped);
  }

  emit-IsSound :
      (evt : FlowEvent) (t : FlowTable Recorded)
      → IsSound p gone waiting a b t
      → IsSound p gone waiting a b (emit recorded_buffer.push_event evt t)
  unfolding emit recorded_buffer queue_buffer
  emit-IsSound evt t h =
      let n = default_event_queue_capacity in
      let (holds, same) =
        push-Holds n default_event_queue_capacity-IsCapacity evt t.sink.0 h.queued h.holds in
      after_emit-IsSound evt recorded_buffer.push_event (push n evt t.sink.0).1
        (push n evt t.sink.0).0 (enqueue n evt h.queued).0 t h holds
        (ap (λ r. length (enqueue n evt h.queued).0 + refused r) same
          ∙ length-enqueue n evt h.queued)

  pub IsSound-Kept : Kept recorded_buffer.push_event (IsSound p gone waiting a b)
  IsSound-Kept = record { emits = emit-IsSound; quiet = Quiet-IsSound }

-- The invariant: the table's with the numbers of the sink.
abbrev pub Sound : {B : Type 0} → Program Recorded B → ℕ → ℕ → Type 0
Sound p a b = (gone : ℕ) × IsSound p.sink.producer gone (length p.sink.retry_buf) a b (table_of p)
