-- ===== src/Main/Traced.antt =====
-- What every piece of work of src/main.cpp keeps: which event is where.
use packetpipe.Common.{
  ℕ, ◌+◌, ◌≡◌, refl, sym, ap, subst, ◌∙◌, inl, inr, Bool, true, false, Bool-cases, Option, List, [],
  ◌∷◌, length, tally, tally-append, one, arith, ◌==◌,
}
use packetpipe.Events.{FlowKey, FlowEvent}
use packetpipe.Events.EventQueue.{EventQueue, push}
use packetpipe.Events.EventQueue.Fifo.{enqueue}
use packetpipe.Events.EventQueue.Held.{Holds}
use packetpipe.Events.EventQueue.Refine.{push-Holds}
use packetpipe.Flowtable.{FlowTable, emit, after_emit}
use packetpipe.Flowtable.Drops.{refusals}
use packetpipe.Flowtable.Walk.{Kept}
use packetpipe.Kafka.KafkaProducer.{KafkaProducer}
use packetpipe.Kafka.AvroKafkaSink.Shares.{IsShared, same-IsShared}
use packetpipe.Metrics.{inc_dropped}
use packetpipe.Main.{default_event_queue_capacity, queue_buffer}
use packetpipe.Main.Sound.{Recorded, recorded_buffer, default_event_queue_capacity-IsCapacity}

-- The list with an event more, if it was refused.
abbrev also : Bool → FlowEvent → List FlowEvent → List FlowEvent
also true evt xs = xs
also false evt xs = evt ∷ xs

tally-enqueue :
    (f : FlowEvent → Bool) (n : ℕ) (x : FlowEvent) (xs ys : List FlowEvent)
    → tally f (enqueue n x xs).0 + tally f (also (enqueue n x xs).1 x ys)
      ≡ one f x + tally f xs + tally f ys
tally-enqueue f n x xs ys = elim (Bool-cases (length xs + 1 == n)) [
  | inl e ↦ rw e (omega arith)
  | inr e ↦ rw e (omega (arith, tally-append f xs (x ∷ [])))
]

module _ {B K V : Type 0} (serialize : FlowEvent → Option V) (flow_id : FlowKey → K) where
  -- Every event that the flow table pushed was refused by the full queue, is in the queue, or was taken by
  -- the sink; and what the sink took is in a message, lost, or waiting.
  pub record IsTraced (p : KafkaProducer (B × List (K × V))) (waiting : List FlowEvent)
      (t : FlowTable Recorded) : Type 0 where
    pub refused : List FlowEvent
    pub queued : List FlowEvent
    pub taken : List FlowEvent
    pub holds : Holds default_event_queue_capacity t.sink.0 queued
    pub logged : length refused ≡ refusals t.log
    pub pushed :
        (f : FlowEvent → Bool) → tally f t.sink.1 ≡ tally f refused + tally f queued + tally f taken
    pub shared : IsShared serialize flow_id (record p { metrics = t.metrics }) waiting taken

  module _ (p : KafkaProducer (B × List (K × V))) (waiting : List FlowEvent) where
    -- A change of the table that leaves the sink alone, and the messages' counter.
    pub calm-IsTraced :
        (t u : FlowTable Recorded)
        → u.sink ≡ t.sink
        → refusals u.log ≡ refusals t.log
        → u.metrics.kafka_messages_produced ≡ t.metrics.kafka_messages_produced
        → IsTraced p waiting t
        → IsTraced p waiting u
    calm-IsTraced t u s l m h = record {
      refused = h.refused;
      queued = h.queued;
      taken = h.taken;
      holds = subst (λ s. Holds default_event_queue_capacity s.0 h.queued) (sym s) h.holds;
      logged = h.logged ∙ sym l;
      pushed = λ f. ap (λ (s : Recorded). tally f s.1) s ∙ h.pushed f;
      shared =
          same-IsShared serialize flow_id _ _ waiting h.taken
            (record { messages = refl; produced = m }) h.shared;
    }

    after_emit-IsTraced :
        (evt : FlowEvent) (f : FlowEvent → Recorded → Bool × Recorded) (taken : Bool)
        (q : EventQueue FlowEvent) (ys : List FlowEvent) (t : FlowTable Recorded)
        (h : IsTraced p waiting t)
        → Holds default_event_queue_capacity q ys
        → ((g : FlowEvent → Bool)
            → tally g ys + tally g (also taken evt h.refused)
              ≡ one g evt + tally g h.queued + tally g h.refused)
        → IsTraced p waiting (after_emit f (taken, (q, evt ∷ t.sink.1)) t)
    unfolding after_emit refusals inc_dropped
    after_emit-IsTraced evt f true q ys t h holds sum = record {
      refused = h.refused;
      queued = ys;
      taken = h.taken;
      holds = holds;
      logged = h.logged;
      pushed = λ g. omega (arith, h.pushed g, sum g);
      shared = h.shared;
    }
    after_emit-IsTraced evt f false q ys t h holds sum = record {
      refused = evt ∷ h.refused;
      queued = ys;
      taken = h.taken;
      holds = holds;
      logged = omega (arith, h.logged);
      pushed = λ g. omega (arith, h.pushed g, sum g);
      shared =
          same-IsShared serialize flow_id _ _ waiting h.taken
            (record { messages = refl; produced = refl }) h.shared;
    }

    emit-IsTraced :
        (evt : FlowEvent) (t : FlowTable Recorded)
        → IsTraced p waiting t
        → IsTraced p waiting (emit recorded_buffer.push_event evt t)
    unfolding emit recorded_buffer queue_buffer
    emit-IsTraced evt t h =
        let n = default_event_queue_capacity in
        let (holds, same) =
          push-Holds n default_event_queue_capacity-IsCapacity evt t.sink.0 h.queued h.holds in
        after_emit-IsTraced evt recorded_buffer.push_event (push n evt t.sink.0).1
          (push n evt t.sink.0).0 (enqueue n evt h.queued).0 t h holds
          (λ g.
            ap (λ r. tally g (enqueue n evt h.queued).0 + tally g (also r evt h.refused)) same
            ∙ tally-enqueue g n evt h.queued h.refused)

    pub IsTraced-Kept : Kept recorded_buffer.push_event (IsTraced p waiting)
    IsTraced-Kept = record {
      emits = emit-IsTraced;
      quiet = λ t u q h. calm-IsTraced t u q.sink q.refused q.produced h;
    }
