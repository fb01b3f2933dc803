-- ===== src/Events/EventQueue/Refine.antt =====
-- The ring of src/events/event_queue.hpp refines the bounded queue.
use packetpipe.Common.{
  ℕ, suc, ◌+◌, ◌%◌, ◌<◌, ◌≡◌, refl, ap, sym, subst, ap₂, ◌∙◌, inl, inr, true, false, none, some,
  List, [], ◌∷◌, arith, ◌==◌, length, length-set, length-append, length-replicate, Bool-cases,
}
use packetpipe.Events.EventQueue.Fifo.{
  Op, Answer, pushed, popped, is_empty, counted, enqueue, enqueue_all, dequeue, dequeue_wait,
  fifo_step, fifo_run,
}
use packetpipe.Events.EventQueue.Held.{Window, Window-set, Holds}
use packetpipe.Events.EventQueue.Index.{
  mask_lem, next_lem, turn_ne, turn_suc, mod_small, mod_same, turn_next, turn_all, size_mod,
}
use packetpipe.Events.EventQueue.{
  IsCapacity, EventQueue, next, fresh, push, pop, pop_wait, empty, size,
}

module _ {ℓ} {A : Type ℓ} where
  unfoldable pub push_all : ℕ → List A → EventQueue A → EventQueue A
  push_all n [] q = q
  push_all n (x ∷ xs) q = push_all n xs (push n x q).0

  pub run_op : ℕ → Op A → EventQueue A → EventQueue A × Answer A
  run_op n (Op.push x) q = let (q', b) = push n x q in (q', pushed b)
  run_op n Op.pop q = let (q', r) = pop n q in (q', popped r)
  run_op n (Op.pop_wait arriving) q =
      let (q', r) = pop_wait n (push_all n arriving) q in (q', popped r)
  run_op n Op.empty q = (q, is_empty (empty n q))
  run_op n Op.size q = (q, counted (size n q))

  pub run_ops : ℕ → List (Op A) → EventQueue A → List (Answer A)
  run_ops n [] q = []
  run_ops n (op ∷ ops) q = let (q', a) = run_op n op q in a ∷ run_ops n ops q'

module _ {ℓ} {A : Type ℓ} (n : ℕ) (c : IsCapacity n) where
  -- The fresh queue holds nothing.
  pub fresh-Holds : (default : A) → Holds n (fresh n default) []
  unfolding fresh
  fresh-Holds default = record {
    sized = length-replicate n default;
    head = c.positive;
    tail = omega (arith, c.positive);
    room = c.positive;
    window = tt;
  }

  tail_lt : (q : EventQueue A) (xs : List A) → Holds n q xs → q.tail < n
  tail_lt q xs h = omega (arith, h.tail, mod_small n (q.head + length xs) c.positive)

  pub next_tail :
      (q : EventQueue A) (xs : List A)
      → Holds n q xs
      → next n q.tail ≡ (q.head + suc (length xs)) % n
  next_tail q xs h =
      next_lem n q.tail c (tail_lt q xs h)
      ∙ ap (λ (x : ℕ). (x + 1) % n) h.tail
      ∙ turn_next n q.head (length xs)

  pub full_lem :
      (q : EventQueue A) (xs : List A)
      → Holds n q xs
      → (next n q.tail == q.head) ≡ (length xs + 1 == n)
  full_lem q xs h = ground (
    arith,
    next_tail q xs h,
    turn_ne n q.head (suc (length xs)) h.head (omega arith),
    turn_all n q.head (suc (length xs)) h.head,
    h.room,
  )

  pub nonempty_lem :
      (q : EventQueue A) (x : A) (xs : List A) → Holds n q (x ∷ xs) → (q.head == q.tail) ≡ false
  nonempty_lem q x xs h =
      ground (arith, h.tail, turn_ne n q.head (suc (length xs)) h.head (omega arith) h.room)

  pub empty_lem : (q : EventQueue A) → Holds n q [] → (q.head == q.tail) ≡ true
  empty_lem q h = ground (arith, h.tail, mod_same n q.head h.head)

  pub push-Holds :
      (x : A) (q : EventQueue A) (xs : List A)
      → Holds n q xs
      → Holds n (push n x q).0 (enqueue n x xs).0 × ((push n x q).1 ≡ (enqueue n x xs).1)
  unfolding push
  push-Holds x q xs h = rw (full_lem q xs h) (elim (Bool-cases (length xs + 1 == n)) [
    | inl full ↦ rw full (h, refl)
    | inr free ↦ rw free (
      record {
        sized = length-set q.buffer q.tail x ∙ h.sized;
        head = h.head;
        tail =
            next_tail q xs h
            ∙ ap (λ (k : ℕ). (q.head + k) % n) (omega (arith, length-append xs (x ∷ [])));
        room = ground (arith, h.room, length-append xs (x ∷ []));
        window = Window-set q.buffer n x xs q.head q.tail h.sized h.head h.room h.tail h.window;
      },
      refl,
    )
  ])

  pub pop-Holds :
      (q : EventQueue A) (xs : List A)
      → Holds n q xs
      → Holds n (pop n q).0 (dequeue xs).0 × ((pop n q).1 ≡ (dequeue xs).1)
  unfolding pop
  pop-Holds q [] h = rw (empty_lem q h) (h, refl)
  pop-Holds q (x ∷ xs) h = rw (nonempty_lem q x xs h) (
    record {
      sized = h.sized;
      head = omega (arith, next_lem n q.head c h.head, mod_small n (q.head + 1) c.positive);
      tail =
          h.tail
          ∙ turn_suc n q.head (length xs)
          ∙ ap (λ (j : ℕ). (j + length xs) % n) (sym (next_lem n q.head c h.head));
      room = omega (arith, h.room);
      window = subst (λ j. Window q.buffer n j xs) (sym (next_lem n q.head c h.head)) h.window.1;
    },
    h.window.0,
  )

  push_all-Holds :
      (ys : List A) (q : EventQueue A) (xs : List A)
      → Holds n q xs
      → Holds n (push_all n ys q) (enqueue_all n ys xs)
  unfolding push_all
  push_all-Holds [] q xs h = h
  push_all-Holds (y ∷ ys) q xs h = push_all-Holds ys _ _ (push-Holds y q xs h).0

  pop-none : (q : EventQueue A) → Holds n q [] → pop n q ≡ ((pop n q).0, none)
  pop-none q h = ap (λ r. ((pop n q).0, r)) (pop-Holds q [] h).1

  pop-some :
      (q : EventQueue A) (x : A) (xs : List A)
      → Holds n q (x ∷ xs)
      → pop n q ≡ ((pop n q).0, some x)
  pop-some q x xs h = ap (λ r. ((pop n q).0, r)) (pop-Holds q (x ∷ xs) h).1

  pop_wait-Holds :
      (ys : List A) (q : EventQueue A) (xs : List A)
      → Holds n q xs
      → Holds n (pop_wait n (push_all n ys) q).0 (dequeue_wait n ys xs).0
        × ((pop_wait n (push_all n ys) q).1 ≡ (dequeue_wait n ys xs).1)
  unfolding pop_wait
  pop_wait-Holds ys q [] h =
      rw (pop_wait, pop-none q h) (pop-Holds _ _ (push_all-Holds ys _ [] (pop-Holds q [] h).0))
  pop_wait-Holds ys q (x ∷ xs) h =
      rw (pop_wait, pop-some q x xs h) ((pop-Holds q (x ∷ xs) h).0, refl)

  pub size_lem : (q : EventQueue A) (xs : List A) → Holds n q xs → size n q ≡ length xs
  unfolding size
  size_lem q xs h =
      mask_lem n _ c ∙ size_mod n q.head q.tail (length xs) c.fits h.head h.room h.tail

  step-refines :
      (op : Op A) (q : EventQueue A) (xs : List A)
      → Holds n q xs
      → Holds n (run_op n op q).0 (fifo_step n op xs).0
        × ((run_op n op q).1 ≡ (fifo_step n op xs).1)
  unfolding run_op empty
  step-refines (Op.push x) q xs h = let r = push-Holds x q xs h in (r.0, ap pushed r.1)
  step-refines Op.pop q xs h = let r = pop-Holds q xs h in (r.0, ap popped r.1)
  step-refines (Op.pop_wait ys) q xs h = let r = pop_wait-Holds ys q xs h in (r.0, ap popped r.1)
  step-refines Op.empty q [] h = (h, ap is_empty (empty_lem q h))
  step-refines Op.empty q (x ∷ xs) h = (h, ap is_empty (nonempty_lem q x xs h ∙ ground arith))
  step-refines Op.size q xs h = (h, ap counted (size_lem q xs h))

  run_lem :
      (ops : List (Op A)) (q : EventQueue A) (xs : List A)
      → Holds n q xs
      → run_ops n ops q ≡ fifo_run n ops xs
  unfolding run_ops
  run_lem [] q xs h = refl
  run_lem (op ∷ ops) q xs h =
      let r = step-refines op q xs h in ap₂ (λ a rest. a ∷ rest) r.1 (run_lem ops _ _ r.0)

-- Where the capacity `n` is what the static assertion asks for and fits the address space, a fresh
-- ring answers any sequence of pushes, pops, waiting pops, emptiness tests and sizes as the bounded
-- queue of `n - 1` elements does that is empty at first.
pub run-refines {ℓ} :
    {A : Type ℓ} (n : ℕ) (default : A) (ops : List (Op A))
    → IsCapacity n
    → run_ops n ops (fresh n default) ≡ fifo_run n ops []
run-refines n default ops c = run_lem n c ops (fresh n default) [] (fresh-Holds n c default)
