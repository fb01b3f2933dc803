-- ===== src/Packets/Outcome.antt =====
-- The outcomes of reading a captured frame: a value, `std::nullopt`, or a fault, which stands for
-- a read outside the buffer and is undefined behaviour in the program.
use packetpipe.Common.{◌≡◌, refl, Bool, true, false, arith}

pub data Outcome {ℓ} (A : Type ℓ) : Type ℓ where
  ok : A → Outcome A
  reject : Outcome A
  fault : Outcome A

pub ok-injective {ℓ} : {A : Type ℓ} {a b : A} → ◌≡◌ {A = Outcome A} (ok a) (ok b) → a ≡ b
ok-injective e = cc

infixl 5 ◌>>=◌ ◌>>◌
abbrev pub ◌>>=◌ {ℓ κ} : {A : Type ℓ} {B : Type κ} → Outcome A → (A → Outcome B) → Outcome B
ok a >>= f = f a
reject >>= f = reject
fault >>= f = fault

pub >>=-ok_inv {ℓ κ} :
    {A : Type ℓ} {C : Type κ} {c : C} (m : Outcome A) (next : A → Outcome C)
    → (m >>= next) ≡ ok c
    → (a : A) × (m ≡ ok a) × (next a ≡ ok c)
>>=-ok_inv (ok a) next e = (a, refl, e)
>>=-ok_inv reject next e = cc
>>=-ok_inv fault next e = cc

abbrev pub ◌>>◌ {ℓ} : {B : Type ℓ} → Outcome (Unit {0}) → Outcome B → Outcome B
m >> k = m >>= λ _. k

-- `if (b) return std::nullopt;`
unfoldable pub reject_if : Bool → Outcome (Unit {0})
reject_if true = reject
reject_if false = ok tt

-- A postcondition that also rules the fault out.
abbrev pub Ensures {ℓ} : {A : Type ℓ} → (A → Type 0) → Outcome A → Type 0
Ensures P (ok a) = P a
Ensures P reject = Unit
Ensures P fault = ⊥

pub Ensures-bind {ℓ} :
    {A B : Type ℓ} (P : A → Type 0) (Q : B → Type 0) (m : Outcome A) (f : A → Outcome B)
    → Ensures P m
    → ((a : A) → P a → Ensures Q (f a))
    → Ensures Q (m >>= f)
Ensures-bind P Q (ok a) f h k = k a h
Ensures-bind P Q reject f h k = h
Ensures-bind P Q fault f h k = h

pub Ensures-guard {ℓ} :
    {B : Type ℓ} (Q : B → Type 0) (b : Bool) (k : Outcome B)
    → (b ≡ false → Ensures Q k)
    → Ensures Q (reject_if b >> k)
unfolding reject_if
Ensures-guard Q true k h = tt
Ensures-guard Q false k h = h refl

-- Whatever the first returns, the second returns too.
abbrev pub Extends {ℓ} : {A : Type ℓ} → Outcome A → Outcome A → Type ℓ
Extends {A} m n = (a : A) → m ≡ ok a → n ≡ ok a

pub Extends-bind {ℓ} :
    {A B : Type ℓ} (m n : Outcome A) (f g : A → Outcome B)
    → Extends m n
    → ((a : A) → Extends (f a) (g a))
    → Extends (m >>= f) (n >>= g)
Extends-bind (ok a) n f g h k b e = rw (h a refl) (k a b e)
Extends-bind reject n f g h k b e = ground arith
Extends-bind fault n f g h k b e = ground arith
