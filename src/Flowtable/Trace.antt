-- ===== src/Flowtable/Trace.antt =====
-- What a flow table hands to its callback, kept beside the sink: the offered events, newest first,
-- those that the sink refused included.
pub mod Status
use packetpipe.Common.{◌≡◌, refl, Bool, true, false, ◌∙◌, List, [], ◌∷◌, ◌++◌, arith, ap}
use packetpipe.Events.{FlowEvent}
use packetpipe.Flowtable.{FlowTable, emit, after_emit}

module _ {S : Type 0} where
  -- The callback, with each event that it is offered put on the list.
  unfoldable pub recorded :
      (FlowEvent → S → Bool × S) → FlowEvent → S × List FlowEvent → Bool × (S × List FlowEvent)
  recorded on_event evt (s, events) =
      let (taken, s') = on_event evt s in (taken, (s', evt ∷ events))

  abbrev pub events_of : FlowTable (S × List FlowEvent) → List FlowEvent
  events_of t = t.sink.1

  events-after_emit :
      (f : FlowEvent → S × List FlowEvent → Bool × (S × List FlowEvent))
      (r : Bool × (S × List FlowEvent)) (t : FlowTable (S × List FlowEvent))
      → events_of (after_emit f r t) ≡ r.1.1
  unfolding after_emit
  events-after_emit f (true, s) t = refl
  events-after_emit f (false, s) t = refl

module _ {S : Type 0} (on_event : FlowEvent → S → Bool × S) where
  -- Every emitted event is offered once.
  pub events-emit :
      (evt : FlowEvent) (t : FlowTable (S × List FlowEvent))
      → events_of (emit (recorded on_event) evt t) ≡ evt ∷ events_of t
  unfolding emit recorded
  events-emit evt t = events-after_emit (recorded on_event) (recorded on_event evt t.sink) t
