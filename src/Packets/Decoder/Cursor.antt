-- ===== src/Packets/Decoder/Cursor.antt =====
-- Reads of src/packets/packet_decoder.cpp at a place whose content is known.
use packetpipe.Common.{
  ℕ, zero, suc, ◌+◌, ◌*◌, ◌≤◌, ◌≡◌, refl, ◌∙◌, ap, some, List, [], ◌∷◌, ◌++◌, arith, ltb, ge→ltb,
  get_elem?, length, drop,
}
use packetpipe.Packets.Outcome.{Outcome, ok, ◌>>◌, reject_if}
use packetpipe.Packets.Decoder.{read, read16, read_bytes}

get_elem?-drop :
    (buf : List ℕ) (i : ℕ) (x : ℕ) (xs : List ℕ) → drop i buf ≡ x ∷ xs → get_elem? buf i ≡ some x
get_elem?-drop [] zero x xs h = ground arith
get_elem?-drop [] (suc i) x xs h = ground arith
get_elem?-drop (b ∷ buf) zero x xs h = ground arith
get_elem?-drop (b ∷ buf) (suc i) x xs h = get_elem?-drop buf i x xs h

drop-nil : (n : ℕ) → drop {A = ℕ} n [] ≡ []
drop-nil zero = refl
drop-nil (suc n) = refl

drop-add : (buf : List ℕ) (i n : ℕ) → drop (i + n) buf ≡ drop n (drop i buf)
drop-add buf zero n = ap (λ k. drop k buf) (omega arith)
drop-add [] (suc i) n = rw (drop-nil (suc i + n), drop-nil n)
drop-add (b ∷ buf) (suc i) n =
    ap (λ k. drop k (b ∷ buf)) {y = suc (i + n)} (omega arith) ∙ drop-add buf i n

drop-length : (xs ys : List ℕ) → drop (length xs) (xs ++ ys) ≡ ys
drop-length [] ys = refl
drop-length (x ∷ xs) ys = drop-length xs ys

module _ (buf : List ℕ) where
  -- The place behind some known bytes.
  pub skip :
      (i j : ℕ) (xs ys : List ℕ) → drop i buf ≡ xs ++ ys → i + length xs ≡ j → drop j buf ≡ ys
  skip i j xs ys h e = rw (← e, drop-add buf i (length xs), h) (drop-length xs ys)

  pub read_here : (i x : ℕ) (xs : List ℕ) → drop i buf ≡ x ∷ xs → read buf i ≡ ok x
  unfolding read
  read_here i x xs h = ground (arith, get_elem?-drop buf i x xs h)

  pub read16_here :
      (i hi lo : ℕ) (xs : List ℕ) → drop i buf ≡ hi ∷ lo ∷ xs → read16 buf i ≡ ok (hi * 256 + lo)
  unfolding read16
  read16_here i hi lo xs h = rw (
    read_here i hi (lo ∷ xs) h,
    read_here (i + 1) lo xs (skip i (i + 1) (hi ∷ []) (lo ∷ xs) h refl),
  )

  pub read_bytes_here :
      (xs : List ℕ) (i n : ℕ) (ys : List ℕ)
      → drop i buf ≡ xs ++ ys
      → length xs ≡ n
      → read_bytes buf i n ≡ ok xs
  unfolding read_bytes
  read_bytes_here [] i zero ys h e = refl
  read_bytes_here [] i (suc n) ys h e = absurd (omega arith)
  read_bytes_here (x ∷ xs) i zero ys h e = absurd (omega arith)
  read_bytes_here (x ∷ xs) i (suc n) ys h e = rw (
    read_here i x (xs ++ ys) h,
    read_bytes_here xs (i + 1) n ys (skip i (i + 1) (x ∷ []) (xs ++ ys) h refl) (omega arith),
  )

pub pass : {A : Type 0} (len n : ℕ) (k : Outcome A) → n ≤ len → (reject_if (ltb len n) >> k) ≡ k
unfolding reject_if
pass len n k h = rw (ge→ltb len n h, reject_if)
