-- ===== src/Main/Drained.antt =====
-- The sink thread of src/main.cpp when Kafka is up: it catches up with the flow table.
use packetpipe.Common.{
  ℕ, zero, suc, ◌+◌, ◌≤◌, ◌<◌, ◌≡◌, refl, sym, ap, subst, ◌∙◌, true, false, Bool, tally, map,
  Option, List, [], ◌∷◌, All, length, arith,
}
use packetpipe.Config.{AppConfig}
use packetpipe.Events.{FlowKey, FlowEvent}
use packetpipe.Events.EventQueue.{fresh, empty}
use packetpipe.Events.EventQueue.Fifo.{dequeue}
use packetpipe.Events.EventQueue.Held.{Holds}
use packetpipe.Events.EventQueue.Refine.{pop-Holds, empty_lem, size_lem}
use packetpipe.Flowtable.Drops.{refusals}
use packetpipe.Kafka.KafkaProducer.{Librdkafka}
use packetpipe.Kafka.AvroKafkaSink.{retry_first}
use packetpipe.Kafka.AvroKafkaSink.Accepting.{retry_buf-retry_first, retry_buf-take_event}
use packetpipe.Kafka.AvroKafkaSink.Tally.{dropped}
use packetpipe.Packets.Outcome.{ok, ◌>>=◌}
use packetpipe.Packets.Sources.Handled.{IsCaptured}
use packetpipe.Main.{
  default_event_queue_capacity, queue_buffer, Program, Step, retries, takes, table_of, sink_of,
  with_sink, begin, take_turn, perform, perform_all,
}
use packetpipe.Main.Sound.{Recorded, recorded_buffer, default_event_queue_capacity-IsCapacity}
use packetpipe.Main.Invariant.{frames_of, perform_all-Sound}
use packetpipe.Main.Accounted.{begin-Sound}
use packetpipe.Main.Messages.{IsPublished, published, begin-Traced}
use packetpipe.Main.Tracing.{perform_all-Traced}
use packetpipe.Kafka.KafkaProducer.Journal.{journaled, note}
use packetpipe.Kafka.AvroKafkaSink.Shares.{as_message, message_of}

-- Turns of the sink thread.
abbrev pub turns : ℕ → List Step
turns zero = []
turns (suc n) = retries ∷ takes ∷ turns n

-- The queue and the retry buffer hold nothing.
abbrev IsIdle : {B : Type 0} → Program Recorded B → Type 0
IsIdle p = Holds default_event_queue_capacity p.table.sink.0 [] × (p.sink.retry_buf ≡ [])

-- The same, and as the sink sees it.
abbrev Quiet : {B : Type 0} → Program Recorded B → Type 0
Quiet p =
    Holds default_event_queue_capacity p.table.sink.0 []
    × (empty default_event_queue_capacity p.table.sink.0 ≡ true)
    × (p.sink.retry_buf ≡ [])

length-dequeue : (n : ℕ) (xs : List FlowEvent) → length xs ≤ suc n → length (dequeue xs).0 ≤ n
length-dequeue n [] h = omega arith
length-dequeue n (x ∷ xs) h = omega (arith, h)

frames_of-turns : (n : ℕ) → frames_of (turns n) ≡ []
frames_of-turns zero = refl
frames_of-turns (suc n) = frames_of-turns n

journaled-accepts :
    {B K V : Type 0} (rd : Librdkafka B K V) (key : K) (payload : V) (b : B × List (K × V))
    → (rd.rd_produce key payload b.0).0 ≡ true
    → ((journaled rd).rd_produce key payload b).0 ≡ true
unfolding journaled
journaled-accepts {B} {K} {V} rd key payload (b, ms) h = accepted (rd.rd_produce key payload b) h
  where
    accepted : (r : Bool × B) → r.0 ≡ true → (note key payload ms r).0 ≡ true
    accepted (true, c) e = refl
    accepted (false, c) e = cc

no_events : (xs : List FlowEvent) → length xs ≡ 0 → xs ≡ []
no_events [] h = refl
no_events (x ∷ xs) h = absurd (omega (arith, h))

module _ {B K V : Type 0} (serialize : FlowEvent → Option V) (flow_id : FlowKey → K) where
  -- Nothing waits, and every event that the flow table pushed is, as often as it was pushed, refused by the
  -- full queue, published by a message of its key and payload, or lost.
  pub record IsDelivered (p : Program Recorded (B × List (K × V))) : Type 0 where
    pub queue : empty default_event_queue_capacity p.table.sink.0 ≡ true
    pub retry_buf : p.sink.retry_buf ≡ []
    pub refused : List FlowEvent
    pub sent : List FlowEvent
    pub lost : List FlowEvent
    pub messages : map as_message p.sink.producer.broker.1 ≡ map (message_of serialize flow_id) sent
    pub pushed :
        (f : FlowEvent → Bool)
        → tally f p.table.sink.1 ≡ tally f refused + tally f sent + tally f lost
    pub logged : length refused ≡ refusals p.table.log
    pub produced : length sent ≡ p.metrics.kafka_messages_produced
    pub losses : length lost ≡ p.metrics.avro_serialization_errors + dropped p.sink.producer.log

  IsPublished-IsDelivered :
      (p : Program Recorded (B × List (K × V)))
      → Quiet p
      → IsPublished serialize flow_id p
      → IsDelivered p
  IsPublished-IsDelivered p (holds, none_left, buf) h =
      let n = default_event_queue_capacity in
      let c = default_event_queue_capacity-IsCapacity in
      let q = p.table.sink.0 in
      let gone =
        no_events h.queued (sym (size_lem n c q h.queued h.holds) ∙ size_lem n c q [] holds) in
      record {
        queue = none_left;
        retry_buf = buf;
        refused = h.refused;
        sent = h.sent;
        lost = h.lost;
        messages = h.messages;
        pushed = λ f. omega (arith, h.pushed f, ap (tally f) gone, ap (tally f) buf);
        logged = h.logged;
        produced = h.produced;
        losses = h.losses;
      }

module _ {B K V : Type 0} (rd : Librdkafka B K V) (serialize : FlowEvent → Option V)
    (flow_id : FlowKey → K)
    (accepts : (key : K) (payload : V) (b : B) → (rd.rd_produce key payload b).0 ≡ true) where
  -- The program behind one turn of the sink thread.
  abbrev turned : Program Recorded B → Program Recorded B
  turned p =
      take_turn recorded_buffer rd serialize flow_id
        (with_sink (retry_first rd serialize flow_id (sink_of p)) p)

  turned_lem :
      (p : Program Recorded B) (xs : List FlowEvent)
      → Holds default_event_queue_capacity p.table.sink.0 xs
      → Holds default_event_queue_capacity (turned p).table.sink.0 (dequeue xs).0
        × ((turned p).sink.retry_buf ≡ [])
  unfolding take_turn recorded_buffer queue_buffer with_sink sink_of
  turned_lem p xs h = (
    (pop-Holds default_event_queue_capacity default_event_queue_capacity-IsCapacity p.table.sink.0
        xs h).0,
    retry_buf-take_event rd serialize flow_id accepts _ _
        ∙ retry_buf-retry_first rd serialize flow_id accepts (sink_of p),
  )

  perform_all-IsIdle :
      (n : ℕ) (p : Program Recorded B) (xs : List FlowEvent)
      → length xs ≤ n
      → Holds default_event_queue_capacity p.table.sink.0 xs
      → p.sink.retry_buf ≡ []
      → (p' : Program Recorded B) × (perform_all recorded_buffer rd serialize flow_id (turns n) p
          ≡ ok p')
        × IsIdle p'
  unfolding perform_all perform
  perform_all-IsIdle zero p [] l h r = (p, refl, (h, r))
  perform_all-IsIdle zero p (x ∷ xs) l h r = absurd (omega (arith, l))
  perform_all-IsIdle (suc n) p xs l h r =
      let (h', r') = turned_lem p xs h in
      perform_all-IsIdle n (turned p) (dequeue xs).0 (length-dequeue n xs l) h' r'

  all_turns-IsIdle :
      (n : ℕ) (p : Program Recorded B) (xs : List FlowEvent)
      → 0 < n
      → length xs ≤ n
      → Holds default_event_queue_capacity p.table.sink.0 xs
      → (p' : Program Recorded B) × (perform_all recorded_buffer rd serialize flow_id (turns n) p
          ≡ ok p')
        × IsIdle p'
  unfolding perform_all perform
  all_turns-IsIdle zero p xs z l h = absurd (omega (arith, z))
  all_turns-IsIdle (suc n) p xs z l h =
      let (h', r') = turned_lem p xs h in
      perform_all-IsIdle n (turned p) (dequeue xs).0 (length-dequeue n xs l) h' r'

  -- Behind so many turns nothing waits.
  pub catches_up :
      (n : ℕ) (p : Program Recorded B) (xs : List FlowEvent)
      → 0 < n
      → length xs ≤ n
      → Holds default_event_queue_capacity p.table.sink.0 xs
      → (p' : Program Recorded B) × (perform_all recorded_buffer rd serialize flow_id (turns n) p
          ≡ ok p')
        × Quiet p'
  unfolding empty
  catches_up n p xs z l h =
      let (p', e, (holds, buf)) = all_turns-IsIdle n p xs z l h in
      (
        p',
        e,
        (
          holds,
          empty_lem default_event_queue_capacity default_event_queue_capacity-IsCapacity
              p'.table.sink.0 holds,
          buf,
        ),
      )

module _ {B K V : Type 0} (rd up : Librdkafka B K V) (serialize : FlowEvent → Option V)
    (flow_id : FlowKey → K)
    (accepts : (key : K) (payload : V) (b : B) → (up.rd_produce key payload b).0 ≡ true) where
  -- Whatever the steps of the threads have been from the start, and however librdkafka, `rd`, answered, if
  -- the captured frames are whole: once librdkafka, now `up`, takes every message, and the sink
  -- thread alone makes as many turns as the queue has places, the queue and the retry buffer are
  -- empty, and every event that the flow table pushed is, as often as it was pushed, published by a
  -- message of its key and payload, refused by the full queue with a log line, or lost, where the
  -- lost ones are as many as the serialization errors and the log lines about a full retry buffer.
  -- Published means taken by librdkafka: a delivery report that fails moves no event.
  pub perform_all-IsDelivered :
      (cfg : AppConfig) (default : FlowEvent) (c : B) (xs : List Step) (n : ℕ)
      → All IsCaptured (frames_of xs)
      → default_event_queue_capacity ≤ n
      → (p : Program Recorded (B × List (K × V))) × ((perform_all recorded_buffer
              (journaled rd)
              serialize
              flow_id
              xs
              (begin cfg (fresh default_event_queue_capacity default, []) (c, []))
            >>= λ p'. perform_all recorded_buffer (journaled up) serialize flow_id (turns n) p')
          ≡ ok p)
        × IsDelivered serialize flow_id p
  unfolding table_of
  perform_all-IsDelivered cfg default c xs n w l =
      let s0 : Program Recorded (B × List (K × V)) =
        begin cfg (fresh default_event_queue_capacity default, []) (c, []) in
      let (p, e, s) =
        perform_all-Sound (journaled rd) serialize flow_id xs s0 0 0 w
          (begin-Sound cfg default (c, [])) in
      let t =
        perform_all-Traced rd serialize flow_id xs s0 p e
          (begin-Traced serialize flow_id rd cfg default c) in
      let (p', e', idle) =
        catches_up (journaled up) serialize flow_id
          (λ key payload b. journaled-accepts up key payload b (accepts key payload b.0)) n p
          s.1.queued (omega (arith, l)) (omega (arith, s.1.holds.room, l)) s.1.holds in
      let w' = subst (λ fs. All IsCaptured fs) (sym (frames_of-turns n)) tt in
      let (p'', e'', s'') =
        perform_all-Sound (journaled up) serialize flow_id (turns n) p _ _ w' s in
      let same : p' ≡ p'' = cc (e', e'') in
      let t'' = perform_all-Traced up serialize flow_id (turns n) p p'' e'' t in
      (
        p'',
        ap
              (λ r.
                r >>= λ q. perform_all recorded_buffer (journaled up) serialize flow_id (turns n) q)
              e
            ∙ e'',
        IsPublished-IsDelivered serialize flow_id p'' (subst Quiet same idle)
            (published serialize flow_id p'' _ _ t'' s''),
      )
