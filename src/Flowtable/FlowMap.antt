-- ===== src/Flowtable/FlowMap.antt =====
-- The `std::unordered_map<FlowKey, FlowState>` of src/flowtable/flow_table.hpp as an association
-- list. Its order stands for the unspecified order of iteration.
use packetpipe.Common.{
  suc, ◌≡◌, refl, true, false, Option, none, some, List, [], ◌∷◌, arith, length, if◌then◌else◌,
  Bool-cases, inl, inr,
}
use packetpipe.Events.{FlowKey, FlowState, key_eq, key_eq_iff}
use mathlib.Core.Option

abbrev pub Entries : Type 0
Entries = List (FlowKey × FlowState)

-- `flows_.find(key)`: `none` is `end()`.
unfoldable pub find : FlowKey → Entries → Option FlowState
find k [] = none
find k ((j, s) ∷ es) = if key_eq j k then some s else find k es

-- `flows_.erase(it)` at the entry of a key.
unfoldable pub erase : FlowKey → Entries → Entries
erase k [] = []
erase k ((j, s) ∷ es) = if key_eq j k then es else (j, s) ∷ erase k es

-- Assignments through `it->second`.
unfoldable pub modify : FlowKey → (FlowState → FlowState) → Entries → Entries
modify k f [] = []
modify k f ((j, s) ∷ es) = if key_eq j k then (j, f s) ∷ es else (j, s) ∷ modify k f es

-- Keys are distinct, and a state carries the key that it is stored under.
abbrev pub IsKeyed : Entries → Type 0
IsKeyed [] = Unit {0}
IsKeyed ((k, s) ∷ es) = (s.key ≡ k) × (find k es ≡ none) × IsKeyed es

pub key_eq_refl : (k : FlowKey) → key_eq k k ≡ true
key_eq_refl k = (key_eq_iff k k).1 refl

pub find-erase_ne :
    (k j : FlowKey) (es : Entries) → key_eq k j ≡ false → find j (erase k es) ≡ find j es
unfolding find erase
find-erase_ne k j [] h = refl
find-erase_ne k j ((i, s) ∷ es) h =
    ground (arith, find-erase_ne k j es h, key_eq_iff i k, key_eq_iff i j, key_eq_iff k j)

pub find-erase_self : (k : FlowKey) (es : Entries) → IsKeyed es → find k (erase k es) ≡ none
unfolding find erase
find-erase_self k [] v = refl
find-erase_self k ((i, s) ∷ es) v =
    ground (arith, find-erase_self k es v.2, key_eq_iff i k, key_eq_refl k)

pub find-erase :
    (k j : FlowKey) (es : Entries)
    → IsKeyed es
    → find j (erase k es) ≡ (if key_eq k j then none else find j es)
find-erase k j es v = ground (arith, find-erase_ne k j es, find-erase_self k es v, key_eq_iff k j)

pub find-modify :
    (k j : FlowKey) (f : FlowState → FlowState) (es : Entries)
    → find j (modify k f es) ≡ (if key_eq k j then Option.map f (find j es) else find j es)
unfolding find modify
find-modify k j f [] = ground arith
find-modify k j f ((i, s) ∷ es) =
    ground (arith, find-modify k j f es, key_eq_iff i k, key_eq_iff i j, key_eq_iff k j)

pub length-erase :
    (k : FlowKey) (s : FlowState) (es : Entries)
    → find k es ≡ some s
    → suc (length (erase k es)) ≡ length es
unfolding find erase
length-erase k s [] h = ground arith
length-erase k s ((i, r) ∷ es) h = ground (arith, length-erase k s es)

pub length-modify :
    (k : FlowKey) (f : FlowState → FlowState) (es : Entries) → length (modify k f es) ≡ length es
unfolding modify
length-modify k f [] = refl
length-modify k f ((i, r) ∷ es) = ground (arith, length-modify k f es)

pub find-key :
    (k : FlowKey) (s : FlowState) (es : Entries) → IsKeyed es → find k es ≡ some s → s.key ≡ k
unfolding find
find-key k s [] v h = ground arith
find-key k s ((i, r) ∷ es) v h = ground (arith, find-key k s es v.2, key_eq_iff i k)

pub erase-IsKeyed : (k : FlowKey) (es : Entries) → IsKeyed es → IsKeyed (erase k es)
unfolding erase
erase-IsKeyed k [] v = tt
erase-IsKeyed k ((i, r) ∷ es) v = elim (Bool-cases (key_eq i k)) [
  | inl e ↦ rw e v.2
  | inr e ↦ rw e (v.0, ground (arith, find-erase k i es v.2), erase-IsKeyed k es v.2)
]

pub modify-IsKeyed :
    (k : FlowKey) (f : FlowState → FlowState) (es : Entries)
    → ((s : FlowState) → (f s).key ≡ s.key)
    → IsKeyed es
    → IsKeyed (modify k f es)
unfolding modify
modify-IsKeyed k f [] keep v = tt
modify-IsKeyed k f ((i, r) ∷ es) keep v = elim (Bool-cases (key_eq i k)) [
  | inl e ↦ rw e (ground (arith, keep r), v.1, v.2)
  | inr e ↦ rw e (
    v.0,
    ground (arith, find-modify k i f es, key_eq_iff i k, key_eq_iff k i),
    modify-IsKeyed k f es keep v.2,
  )
]
