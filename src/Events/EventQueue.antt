-- ===== src/Events/EventQueue.antt =====
-- src/events/event_queue.hpp, the ring buffer between the flow table and the sink thread, called by
-- one thread at a time. `n` is the template parameter N, and elements are of any type `A`.
-- `size_t` sums wrap at 2^64.
mod Index
pub mod Fifo
pub mod Held
pub mod Refine
pub mod Threads
use packetpipe.Common.{
  ℕ, ◌+◌, ◌-◌, ◌%◌, ◌^◌, ◌≤◌, ◌<◌, ◌≡◌, Bool, true, false, Option, none, some, List, ◌==◌,
  if◌then◌else◌, get_elem?, set, replicate, length, bit_and,
}

-- The static assertion, and that an array of that size fits the address space.
pub record IsCapacity (n : ℕ) : Type 0 where
  pub positive : 0 < n
  pub single_bit : bit_and n (n - 1) ≡ 0
  pub fits : n ≤ 2 ^ 63

pub record EventQueue {ℓ} (A : Type ℓ) : Type ℓ where
  pub buffer : List A
  pub head : ℕ
  pub tail : ℕ

unfoldable pub add_size : ℕ → ℕ → ℕ
add_size a b = (a + b) % 2 ^ 64

unfoldable pub sub_size : ℕ → ℕ → ℕ
sub_size a b = (a + 2 ^ 64 - b) % 2 ^ 64

module _ (n : ℕ) where
  -- `(i + 1) & (N - 1)`
  unfoldable pub next : ℕ → ℕ
  next i = bit_and (add_size i 1) (n - 1)

  module _ {ℓ} {A : Type ℓ} where
    -- The array of default events, and both indices at 0.
    unfoldable pub fresh : A → EventQueue A
    fresh default = record { buffer = replicate n default; head = 0; tail = 0 }

    unfoldable pub push : A → EventQueue A → EventQueue A × Bool
    push evt q =
        let next_tail = next q.tail in
        if next_tail == q.head
        then (q, false)
        else (record q { buffer = set q.buffer q.tail evt; tail = next_tail }, true)

    -- A read outside the array would be `none`; the theorems rule it out.
    unfoldable pub pop : EventQueue A → EventQueue A × Option A
    pop q =
        if q.head == q.tail
        then (q, none)
        else (record q { head = next q.head }, get_elem? q.buffer q.head)

    -- `pop_wait`: while it waits the producer may act on the queue, which is what `meanwhile` does.
    unfoldable pub pop_wait : (EventQueue A → EventQueue A) → EventQueue A → EventQueue A × Option A
    unfolding pop
    pop_wait meanwhile q =
        let (q', found) = pop q in
        elim found [ some evt ↦ (q', some evt) | none ↦ pop (meanwhile q') ]

    unfoldable pub empty : EventQueue A → Bool
    empty q = q.head == q.tail

    unfoldable pub size : EventQueue A → ℕ
    size q = bit_and (add_size (sub_size q.tail q.head) n) (n - 1)
