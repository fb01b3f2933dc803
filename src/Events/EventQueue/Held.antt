-- ===== src/Events/EventQueue/Held.antt =====
-- Which elements the ring of src/events/event_queue.hpp holds: those that stand in its array from
-- `head` on, going round.
use packetpipe.Common.{
  ℕ, zero, suc, ◌+◌, ◌%◌, ◌<◌, ◌≡◌, ◌≢◌, refl, ap, sym, subst, ◌∙◌, some, List, [], ◌∷◌, ◌++◌,
  arith, get_elem?, set, length,
}
use packetpipe.Events.EventQueue.Index.{turn_ne, turn_suc, mod_small, mod_same}
use packetpipe.Events.EventQueue.{EventQueue}

module _ {ℓ} {A : Type ℓ} where
  -- The elements stand in the array from an index on, going round at `n`.
  abbrev pub Window : List A → ℕ → ℕ → List A → Type ℓ
  Window buf n h [] = Unit
  Window buf n h (x ∷ xs) = (get_elem? buf h ≡ some x) × Window buf n ((h + 1) % n) xs

  get_elem?-set_self :
      (xs : List A) (i : ℕ) (v : A) → i < length xs → get_elem? (set xs i v) i ≡ some v
  get_elem?-set_self [] i v h = elim h [ ]
  get_elem?-set_self (x ∷ xs) zero v h = refl
  get_elem?-set_self (x ∷ xs) (suc i) v h = get_elem?-set_self xs i v (omega arith)

  get_elem?-set_ne :
      (xs : List A) (i j : ℕ) (v : A) → i ≢ j → get_elem? (set xs i v) j ≡ get_elem? xs j
  get_elem?-set_ne [] i j v h = refl
  get_elem?-set_ne (x ∷ xs) zero zero v h = absurd (h refl)
  get_elem?-set_ne (x ∷ xs) zero (suc j) v h = refl
  get_elem?-set_ne (x ∷ xs) (suc i) zero v h = refl
  get_elem?-set_ne (x ∷ xs) (suc i) (suc j) v h = get_elem?-set_ne xs i j v (λ e. h (ap suc e))

  -- Writing behind a window makes it longer.
  pub Window-set :
      (buf : List A) (n : ℕ) (v : A) (xs : List A) (h i : ℕ)
      → length buf ≡ n
      → h < n
      → length xs < n
      → i ≡ (h + length xs) % n
      → Window buf n h xs
      → Window (set buf i v) n h (xs ++ (v ∷ []))
  Window-set buf n v [] h i l p q e w = (
    subst {A = ℕ} (λ j. get_elem? (set buf i v) j ≡ some v) {x = i} {y = h} (e ∙ mod_same n h p)
        (get_elem?-set_self buf i v (omega arith)),
    tt,
  )
  Window-set buf n v (x ∷ xs) h i l p q e w = (
    get_elem?-set_ne buf i h v
          (λ same. turn_ne n h (suc (length xs)) p (omega arith) q (sym e ∙ same))
        ∙ w.0,
    Window-set buf n v xs ((h + 1) % n) i l (mod_small n (h + 1) (omega arith)) (omega arith)
        (e ∙ turn_suc n h (length xs)) w.1,
  )

  -- A ring that holds a list of elements.
  pub record Holds (n : ℕ) (q : EventQueue A) (xs : List A) : Type ℓ where
    pub sized : length q.buffer ≡ n
    pub head : q.head < n
    pub tail : q.tail ≡ (q.head + length xs) % n
    pub room : length xs < n
    pub window : Window q.buffer n q.head xs
