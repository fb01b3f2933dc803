-- ===== src/Events/EventQueue/Fifo.antt =====
-- A bounded first-in first-out queue, oldest element first: what src/events/event_queue.hpp is meant
-- to be. A ring of `n` places holds `n - 1` elements.
use packetpipe.Common.{
  ℕ, ◌+◌, Bool, true, false, Option, none, some, List, [], ◌∷◌, ◌++◌, ◌==◌, if◌then◌else◌, length,
}

-- `pop_wait` carries what the producer pushes while the consumer waits.
pub data Op {ℓ} (A : Type ℓ) : Type ℓ where
  push : A → Op A
  pop : Op A
  pop_wait : List A → Op A
  empty : Op A
  size : Op A

pub data Answer {ℓ} (A : Type ℓ) : Type ℓ where
  pushed : Bool → Answer A
  popped : Option A → Answer A
  is_empty : Bool → Answer A
  counted : ℕ → Answer A

module _ {ℓ} {A : Type ℓ} where
  abbrev pub enqueue : ℕ → A → List A → List A × Bool
  enqueue n x xs = if length xs + 1 == n then (xs, false) else (xs ++ (x ∷ []), true)

  abbrev pub enqueue_all : ℕ → List A → List A → List A
  enqueue_all n [] xs = xs
  enqueue_all n (y ∷ ys) xs = enqueue_all n ys (enqueue n y xs).0

  abbrev pub dequeue : List A → List A × Option A
  dequeue [] = ([], none)
  dequeue (x ∷ xs) = (xs, some x)

  abbrev pub dequeue_wait : ℕ → List A → List A → List A × Option A
  dequeue_wait n arriving [] = dequeue (enqueue_all n arriving [])
  dequeue_wait n arriving (x ∷ xs) = (xs, some x)

  abbrev pub fifo_step : ℕ → Op A → List A → List A × Answer A
  fifo_step n (Op.push x) xs = let (xs', b) = enqueue n x xs in (xs', pushed b)
  fifo_step n Op.pop xs = let (xs', r) = dequeue xs in (xs', popped r)
  fifo_step n (Op.pop_wait arriving) xs =
      let (xs', r) = dequeue_wait n arriving xs in (xs', popped r)
  fifo_step n Op.empty xs = (xs, is_empty (length xs == 0))
  fifo_step n Op.size xs = (xs, counted (length xs))

  -- The answers to a sequence of calls.
  abbrev pub fifo_run : ℕ → List (Op A) → List A → List (Answer A)
  fifo_run n [] xs = []
  fifo_run n (op ∷ ops) xs = let (xs', a) = fifo_step n op xs in a ∷ fifo_run n ops xs'
