-- ===== src/Packets/Decoder/Steps.antt =====
-- One step of a layer of src/packets/packet_decoder.cpp: a guard or a read, with what it learns.
use packetpipe.Packets.Decoder.Shape.{IsByte, IsWord}
use packetpipe.Common.{
  ℕ, zero, suc, ◌+◌, ◌≤◌, ◌<◌, ◌≡◌, ◌≢◌, refl, ap, subst, Bool, true, false, List, [], ◌∷◌, arith,
  ltb, if◌then◌else◌, length, All, ltb→ge,
}
use packetpipe.Packets.Outcome.{
  Outcome, ok, ok-injective, reject, fault, ◌>>=◌, ◌>>◌, reject_if, Ensures, Ensures-bind,
  Ensures-guard,
}
use packetpipe.Packets.Decoder.{read, read16, read_bytes}

module _ (buf : List ℕ) (bytes : All IsByte buf) where
  read-IsByte : (xs : List ℕ) (i : ℕ) → All IsByte xs → i < length xs → Ensures IsByte (read xs i)
  unfolding read
  read-IsByte [] i a h = elim h [ ]
  read-IsByte (x ∷ xs) zero a h = a.0
  read-IsByte (x ∷ xs) (suc i) a h = read-IsByte xs i a.1 (omega arith)

  Ensures-read : (i : ℕ) → i < length buf → Ensures IsByte (read buf i)
  Ensures-read i h = read-IsByte buf i bytes h

  Ensures-read16 : (i : ℕ) → i + 1 < length buf → Ensures IsWord (read16 buf i)
  unfolding read16
  Ensures-read16 i h =
      Ensures-bind IsByte IsWord (read buf i) _ (Ensures-read i (omega arith)) λ hi p.
        Ensures-bind IsByte IsWord (read buf (i + 1)) _ (Ensures-read (i + 1) h) λ lo q. omega arith

  abbrev Bytes : ℕ → List ℕ → Type 0
  Bytes n bs = (length bs ≡ n) × All IsByte bs

  Ensures-read_bytes : (i n : ℕ) → i + n ≤ length buf → Ensures (Bytes n) (read_bytes buf i n)
  unfolding read_bytes
  Ensures-read_bytes i zero h = (refl, tt)
  Ensures-read_bytes i (suc n) h =
      Ensures-bind IsByte (Bytes (suc n)) (read buf i) _ (Ensures-read i (omega arith)) λ b p.
        Ensures-bind (Bytes n) (Bytes (suc n)) (read_bytes buf (i + 1) n) _
          (Ensures-read_bytes (i + 1) n (omega arith)) λ bs q. (ap suc q.0, (p, q.1))

pub Ensures-if :
    {A : Type 0} (Q : A → Type 0) (b : Bool) (m n : Outcome A)
    → Ensures Q m
    → Ensures Q n
    → Ensures Q (if b then m else n)
Ensures-if Q true m n p q = p
Ensures-if Q false m n p q = q

pub Ensures-elim :
    {A : Type 0} (P : A → Type 0) (m : Outcome A)
    → Ensures P m
    → (m ≢ fault) × ((a : A) → m ≡ ok a → P a)
Ensures-elim P (ok b) h = (λ e. cc, λ a e. subst P (ok-injective e) h)
Ensures-elim P reject h = (λ e. cc, λ a e. cc)
Ensures-elim P fault h = absurd h

module _ (buf : List ℕ) (bytes : All IsByte buf) (len : ℕ) (held : len ≤ length buf) where
  -- The steps of a layer, each with what it learns.
  pub guarded :
      {A : Type 0} (Q : A → Type 0) (n : ℕ) (k : Outcome A)
      → (n ≤ len → Ensures Q k)
      → Ensures Q (reject_if (ltb len n) >> k)
  guarded Q n k h = Ensures-guard Q (ltb len n) k λ g. h (ltb→ge len n g)

  pub with_read :
      {A : Type 0} (Q : A → Type 0) (i : ℕ) (f : ℕ → Outcome A)
      → i < len
      → ((b : ℕ) → IsByte b → Ensures Q (f b))
      → Ensures Q (read buf i >>= f)
  with_read Q i f h k =
      Ensures-bind IsByte Q (read buf i) f (Ensures-read buf bytes i (omega arith)) k

  pub with_read16 :
      {A : Type 0} (Q : A → Type 0) (i : ℕ) (f : ℕ → Outcome A)
      → i + 1 < len
      → ((w : ℕ) → IsWord w → Ensures Q (f w))
      → Ensures Q (read16 buf i >>= f)
  with_read16 Q i f h k =
      Ensures-bind IsWord Q (read16 buf i) f (Ensures-read16 buf bytes i (omega arith)) k

  pub with_bytes :
      {A : Type 0} (Q : A → Type 0) (i n : ℕ) (f : List ℕ → Outcome A)
      → i + n ≤ len
      → ((bs : List ℕ) → (length bs ≡ n) × All IsByte bs → Ensures Q (f bs))
      → Ensures Q (read_bytes buf i n >>= f)
  with_bytes Q i n f h k =
      Ensures-bind (λ bs. (length bs ≡ n) × All IsByte bs) Q (read_bytes buf i n) f
        (Ensures-read_bytes buf bytes i n (omega arith)) k
