-- ===== src/Events/EventQueue/Threads/Sound.antt =====
-- Where the two threads of src/events/event_queue.hpp stand between two turns.
use packetpipe.Common.{
  ℕ, get_elem?, ◌+◌, ◌%◌, ◌<◌, ◌≡◌, refl, ap, sym, subst, ◌∙◌, false, some, List, [], ◌∷◌, ◌++◌,
  map, arith, ◌==◌, length, length-append,
}
use packetpipe.Events.EventQueue.{IsCapacity, EventQueue}
use packetpipe.Events.EventQueue.Held.{Window, Holds}
use packetpipe.Events.EventQueue.Refine.{empty_lem}
use packetpipe.Events.EventQueue.Threads.{Producer, Consumer, Threads}

module _ {ℓ} {A : Type ℓ} where
  -- What the producer knows of the ring at each place of `push`.
  abbrev pub ProducerAt : ℕ → EventQueue A → List A → Producer A → Type ℓ
  ProducerAt n q xs Producer.idle = Unit
  ProducerAt n q xs (Producer.loaded e t) = (t ≡ q.tail) × Unit {ℓ}
  ProducerAt n q xs (Producer.writing e t) = (t ≡ q.tail) × (length xs + 1 < n) × Unit {ℓ}
  ProducerAt n q xs (Producer.storing e t) =
      (t ≡ q.tail) × (length xs + 1 < n) × Window q.buffer n q.head (xs ++ (e ∷ []))

  -- What the consumer knows of it at each place of `pop`.
  abbrev pub ConsumerAt : ℕ → List A → Consumer A → Type ℓ
  ConsumerAt head xs Consumer.idle = Unit
  ConsumerAt head xs (Consumer.loaded h) = (h ≡ head) × Unit {ℓ}
  ConsumerAt head xs (Consumer.reading h) = (h ≡ head) × (0 < length xs) × Unit {ℓ}
  ConsumerAt head xs (Consumer.storing h r) =
      (h ≡ head) × (x : A) × (rest : List A) × (xs ≡ x ∷ rest) × (r ≡ some x)

  -- The ring holds `xs`, which is what was accepted and not yet delivered.
  pub record Sound (n : ℕ) (s : Threads A) (xs : List A) : Type ℓ where
    pub holds : Holds n s.queue xs
    pub order : map some s.accepted ≡ s.delivered ++ map some xs
    pub producer : ProducerAt n s.queue xs s.producer
    pub consumer : ConsumerAt s.queue.head xs s.consumer

  pub Window-prefix :
      (buf : List A) (n h : ℕ) (xs ys : List A) → Window buf n h (xs ++ ys) → Window buf n h xs
  Window-prefix buf n h [] ys w = tt
  Window-prefix buf n h (x ∷ xs) ys w = (w.0, Window-prefix buf n ((h + 1) % n) xs ys w.1)

  pub map_snoc : (xs : List A) (x : A) → map some (xs ++ (x ∷ [])) ≡ map some xs ++ (some x ∷ [])
  map_snoc [] x = refl
  map_snoc (y ∷ xs) x = ap (λ r. some y ∷ r) (map_snoc xs x)

  pub ConsumerAt-grow :
      (head : ℕ) (xs : List A) (e : A) (p : Consumer A)
      → ConsumerAt head xs p
      → ConsumerAt head (xs ++ (e ∷ [])) p
  ConsumerAt-grow head xs e Consumer.idle k = tt
  ConsumerAt-grow head xs e (Consumer.loaded h) k = k
  ConsumerAt-grow head xs e (Consumer.reading h) k =
      (k.0, omega (arith, k.1, length-append xs (e ∷ [])), tt)
  ConsumerAt-grow head xs e (Consumer.storing h r) k =
      (k.0, k.1, k.2 ++ (e ∷ []), ap (λ l. l ++ (e ∷ [])) k.3, k.4)

  -- Taking the oldest element leaves what the producer knows.
  pub ProducerAt-shrink :
      (n : ℕ) (buf : List A) (head head' tail : ℕ) (x : A) (xs : List A) (p : Producer A)
      → head' ≡ (head + 1) % n
      → ProducerAt n (record { buffer = buf; head = head; tail = tail }) (x ∷ xs) p
      → ProducerAt n (record { buffer = buf; head = head'; tail = tail }) xs p
  ProducerAt-shrink n buf head head' tail x xs Producer.idle e k = tt
  ProducerAt-shrink n buf head head' tail x xs (Producer.loaded v t) e k = k
  ProducerAt-shrink n buf head head' tail x xs (Producer.writing v t) e k =
      (k.0, omega (arith, k.1), tt)
  ProducerAt-shrink n buf head head' tail x xs (Producer.storing v t) e k =
      (k.0, omega (arith, k.1), subst (λ j. Window buf n j (xs ++ (v ∷ []))) (sym e) k.2.1)

  pub waiting_lem :
      (n : ℕ)
      → IsCapacity n
      → (q : EventQueue A) (xs : List A) (i : ℕ) → Holds n q xs
      → i ≡ q.head
      → (i == q.tail) ≡ false
      → 0 < length xs
  waiting_lem n c q [] i h at e = ground (arith, empty_lem n c q h)
  waiting_lem n c q (x ∷ xs) i h at e = omega arith

  pub read_lem :
      (n : ℕ) (q : EventQueue A) (xs : List A) (i : ℕ)
      → Holds n q xs
      → i ≡ q.head
      → 0 < length xs
      → (x : A) × (rest : List A) × (xs ≡ x ∷ rest) × (get_elem? q.buffer i ≡ some x)
  read_lem n q [] i h at k = absurd (omega arith)
  read_lem n q (x ∷ xs) i h at k = (x, xs, refl, ap (get_elem? q.buffer) at ∙ h.window.0)
