-- ===== src/Events/EventQueue/Index.antt =====
-- The index arithmetic of src/events/event_queue.hpp: masks are remainders, and sums do not wrap.
use packetpipe.Common.{
  ℕ, suc, ◌+◌, ◌-◌, ◌%◌, ◌^◌, ◌≤◌, ◌<◌, ◌≡◌, ◌≢◌, ap, ◌∙◌, ◌⊎◌, inl, inr, arith, bit_and,
}
use packetpipe.Common.Bits.{bit_and_low, power_of_two}
use packetpipe.Events.EventQueue.{IsCapacity, add_size, sub_size, next}
use native.Mathlib.Decide.{dec_lt}
use native.Mathlib.Nat.{mod-eq_of_lt, mod-eq-sub-mod, mod-add-mod}

-- `x & (N - 1)` is `x % N`, as the static assertion is meant to give.
pub mask_lem : (n x : ℕ) → IsCapacity n → bit_and x (n - 1) ≡ x % n
mask_lem n x c =
    let (k, e) = power_of_two n n (omega arith) c.positive c.single_bit in rw e (bit_and_low k x)

pub next_lem : (n i : ℕ) → IsCapacity n → i < n → next n i ≡ (i + 1) % n
unfolding next add_size
next_lem n i c h =
    mask_lem n _ c ∙ ap (λ (x : ℕ). x % n) {x = (i + 1) % 2 ^ 64} (omega (arith, c.fits))

-- One step at most round the ring.
pub wrap_cases :
    (n h k : ℕ)
    → h < n
    → k ≤ n
    → ((h + k < n) × ((h + k) % n ≡ h + k)) ⊎ ((n ≤ h + k) × ((h + k) % n + n ≡ h + k))
wrap_cases n h k p q = elim (dec_lt (h + k) n) [
  | yes r ↦ inl (r, mod-eq_of_lt r)
  | no r ↦ inr (
    omega arith,
    omega (
      arith,
      mod-eq-sub-mod {n = h + k} {m = n} (omega arith),
      mod-eq_of_lt {n = h + k - n} {m = n} (omega arith),
    ),
  )
]

-- Fewer than `n` steps do not come back.
pub turn_ne : (n h k : ℕ) → h < n → 0 < k → k < n → (h + k) % n ≢ h
turn_ne n h k p q r e = elim (wrap_cases n h k p (omega arith)) [
  | inl w ↦ omega arith
  | inr w ↦ omega arith
]

pub turn_suc : (n h k : ℕ) → (h + suc k) % n ≡ ((h + 1) % n + k) % n
turn_suc n h k = rw mod-add-mod (ap (λ (x : ℕ). x % n) (omega arith))

pub mod_small : (n x : ℕ) → 0 < n → x % n < n
mod_small n x h = omega arith

pub mod_same : (n h : ℕ) → h < n → (h + 0) % n ≡ h
mod_same n h p = ap (λ (x : ℕ). x % n) {x = h + 0} {y = h} (omega arith) ∙ mod-eq_of_lt p

pub turn_next : (n h k : ℕ) → ((h + k) % n + 1) % n ≡ (h + suc k) % n
turn_next n h k = rw mod-add-mod (ap (λ (x : ℕ). x % n) (omega arith))

pub turn_all : (n h k : ℕ) → h < n → k ≡ n → (h + k) % n ≡ h
turn_all n h k p e = elim (wrap_cases n h k p (omega arith)) [
  | inl w ↦ omega arith
  | inr w ↦ omega arith
]

-- The distance from `head` to `tail`, counted the way round.
pub size_mod :
    (n h t k : ℕ) → n ≤ 2 ^ 63 → h < n → k < n → t ≡ (h + k) % n → add_size (sub_size t h) n % n ≡ k
unfolding add_size sub_size
size_mod n h t k b p q e = elim (wrap_cases n h k p (omega arith)) [
  | inl w ↦
      ap (λ (x : ℕ). x % n) {y = k + n} (omega arith)
      ∙ mod-eq-sub-mod {n = k + n} {m = n} (omega arith)
      ∙ ap (λ (x : ℕ). x % n) {y = k} (omega arith)
      ∙ mod-eq_of_lt q
  | inr w ↦ ap (λ (x : ℕ). x % n) {y = k} (omega arith) ∙ mod-eq_of_lt q
]
