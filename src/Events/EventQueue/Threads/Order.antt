-- ===== src/Events/EventQueue/Threads/Order.antt =====
-- What the two threads of src/events/event_queue.hpp keep true at every turn.
use packetpipe.Common.{
  ℕ, ◌+◌, ◌%◌, ◌≡◌, refl, ap, sym, subst, ◌∙◌, inl, inr, some, List, [], ◌∷◌, ◌++◌, map, arith,
  ◌==◌, length, length-set, length-append, Bool-cases,
}
use mathlib.Core.List.{append_assoc}
use packetpipe.Events.EventQueue.{IsCapacity, next}
use packetpipe.Events.EventQueue.Held.{Window, Window-set, Holds}
use packetpipe.Events.EventQueue.Index.{next_lem, turn_suc, mod_small}
use packetpipe.Events.EventQueue.Refine.{next_tail, full_lem, fresh-Holds}
use packetpipe.Events.EventQueue.Threads.{
  Producer, Consumer, Threads, Turn, produce, consume, produce_step, consume_step, turn, interleave,
  start,
}
use packetpipe.Events.EventQueue.Threads.Sound.{
  ProducerAt, ConsumerAt, Sound, Window-prefix, map_snoc, ConsumerAt-grow, ProducerAt-shrink,
  waiting_lem, read_lem,
}

module _ {ℓ} {A : Type ℓ} (n : ℕ) (c : IsCapacity n) (s : Threads A) (xs : List A)
    (h : Holds n s.queue xs) (o : map some s.accepted ≡ s.delivered ++ map some xs) where
  produce_step-Sound :
      (evt : A) (p : Producer A)
      → ProducerAt n s.queue xs p
      → ConsumerAt s.queue.head xs s.consumer
      → (xs' : List A) × Sound n (produce_step n evt s p) xs'
  unfolding produce_step
  produce_step-Sound evt Producer.idle pa ca =
      (xs, record { holds = h; order = o; producer = (refl, tt); consumer = ca })
  produce_step-Sound evt (Producer.loaded e t) pa ca =
      elim (Bool-cases (next n t == s.queue.head)) [
        | inl full ↦ rw full (xs, record { holds = h; order = o; producer = tt; consumer = ca })
        | inr free ↦ rw free (
          xs,
          record {
            holds = h;
            order = o;
            producer = (
              pa.0,
              ground (
                arith,
                ap (λ i. next n i == s.queue.head) pa.0 ∙ full_lem n c s.queue xs h,
                free,
                h.room,
              ),
              tt,
            );
            consumer = ca;
          },
        )
      ]
  produce_step-Sound evt (Producer.writing e t) pa ca =
      let w =
        Window-set s.queue.buffer n e xs s.queue.head t h.sized h.head h.room (pa.0 ∙ h.tail)
          h.window in
      (
        xs,
        record {
          holds = record {
            sized = length-set s.queue.buffer t e ∙ h.sized;
            head = h.head;
            tail = h.tail;
            room = h.room;
            window = Window-prefix _ n s.queue.head xs (e ∷ []) w;
          };
          order = o;
          producer = (pa.0, pa.1, w);
          consumer = ca;
        },
      )
  produce_step-Sound evt (Producer.storing e t) pa ca = (
    xs ++ (e ∷ []),
    record {
      holds = record {
        sized = h.sized;
        head = h.head;
        tail =
            ap (next n) pa.0
            ∙ next_tail n c s.queue xs h
            ∙ ap (λ (k : ℕ). (s.queue.head + k) % n) (omega (arith, length-append xs (e ∷ [])));
        room = omega (arith, pa.1, length-append xs (e ∷ []));
        window = pa.2;
      };
      order =
          map_snoc s.accepted e
          ∙ ap (λ r. r ++ (some e ∷ [])) o
          ∙ append_assoc s.delivered _ _
          ∙ ap (λ r. s.delivered ++ r) (sym (map_snoc xs e));
      producer = tt;
      consumer = ConsumerAt-grow s.queue.head xs e s.consumer ca;
    },
  )

  consume_step-Sound :
      (p : Consumer A)
      → ConsumerAt s.queue.head xs p
      → ProducerAt n s.queue xs s.producer
      → (xs' : List A) × Sound n (consume_step n s p) xs'
  unfolding consume_step
  consume_step-Sound Consumer.idle ca pa =
      (xs, record { holds = h; order = o; producer = pa; consumer = (refl, tt) })
  consume_step-Sound (Consumer.loaded i) ca pa = elim (Bool-cases (i == s.queue.tail)) [
    | inl e ↦ rw e (xs, record { holds = h; order = o; producer = pa; consumer = tt })
    | inr e ↦ rw e (
      xs,
      record {
        holds = h;
        order = o;
        producer = pa;
        consumer = (ca.0, waiting_lem n c s.queue xs i h ca.0 e, tt);
      },
    )
  ]
  consume_step-Sound (Consumer.reading i) ca pa =
      let got = read_lem n s.queue xs i h ca.0 ca.1 in
      (
        xs,
        record {
          holds = h;
          order = o;
          producer = pa;
          consumer = (ca.0, got.0, got.1, got.2, got.3);
        },
      )
  consume_step-Sound (Consumer.storing i r) ca pa =
      let (at, x, rest, e, got) = ca in
      let h' = subst (λ l. Holds n s.queue l) e h in
      let moved = ap (next n) at ∙ next_lem n s.queue.head c h.head in
      (
        rest,
        record {
          holds = record {
            sized = h'.sized;
            head = omega (arith, moved, mod_small n (s.queue.head + 1) c.positive);
            tail =
                h'.tail
                ∙ turn_suc n s.queue.head (length rest)
                ∙ ap (λ (j : ℕ). (j + length rest) % n) (sym moved);
            room = omega (arith, h'.room);
            window = subst (λ j. Window s.queue.buffer n j rest) (sym moved) h'.window.1;
          };
          order =
              o
              ∙ ap (λ l. s.delivered ++ map some l) e
              ∙ ap (λ y. s.delivered ++ (y ∷ map some rest)) (sym got)
              ∙ sym (append_assoc s.delivered (r ∷ []) (map some rest));
          producer =
              ProducerAt-shrink n s.queue.buffer s.queue.head (next n i) s.queue.tail x rest
                s.producer moved (subst (λ l. ProducerAt n s.queue l s.producer) e pa);
          consumer = tt;
        },
      )

module _ {ℓ} {A : Type ℓ} (n : ℕ) (c : IsCapacity n) where
  pub turn-Sound :
      (t : Turn A) (s : Threads A) (xs : List A)
      → Sound n s xs
      → (xs' : List A) × Sound n (turn n t s) xs'
  unfolding turn
  turn-Sound (produce evt) s xs h =
      produce_step-Sound n c s xs h.holds h.order evt s.producer h.producer h.consumer
  turn-Sound consume s xs h =
      consume_step-Sound n c s xs h.holds h.order s.consumer h.consumer h.producer

  pub interleave-Sound :
      (ts : List (Turn A)) (s : Threads A) (xs : List A)
      → Sound n s xs
      → (xs' : List A) × Sound n (interleave n ts s) xs'
  unfolding interleave
  interleave-Sound [] s xs h = (xs, h)
  interleave-Sound (t ∷ ts) s xs h =
      let (xs', h') = turn-Sound t s xs h in interleave-Sound ts (turn n t s) xs' h'

  pub start-Sound : (default : A) → Sound n (start n default) []
  unfolding start
  start-Sound default = record {
    holds = fresh-Holds n c default;
    order = refl;
    producer = tt;
    consumer = tt;
  }
