-- ===== src/Common/Result.antt =====
-- A value, or the error that was thrown in its place.
use mathlib.Core.Path.{◌≡◌, refl, subst}

pub data Result {ℓ κ} (E : Type ℓ) (A : Type κ) : Type (ℓ ⊔ κ) where
  err : E → Result E A
  ok : A → Result E A

-- `try { m } catch (…) { handler }`
abbrev pub catch {ℓ κ} : {E : Type ℓ} {A : Type κ} → Result E A → (E → Result E A) → Result E A
catch (ok a) handler = ok a
catch (err e) handler = handler e

module _ {ℓ κ μ} {E : Type ℓ} {A : Type κ} {B : Type μ} where
  infixl 5 ◌>>=◌ ◌>>◌
  abbrev pub ◌>>=◌ : Result E A → (A → Result E B) → Result E B
  err thrown >>= next = err thrown
  ok value >>= next = next value

  abbrev pub ◌>>◌ : Result E A → Result E B → Result E B
  err thrown >> next = err thrown
  ok value >> next = next

  pub >>-ok_inv :
      {b : B} (m : Result E A) (next : Result E B)
      → (m >> next) ≡ ok b
      → (value : A) × (m ≡ ok value) × (next ≡ ok b)
  >>-ok_inv (err thrown) next e = cc
  >>-ok_inv (ok value) next e = (value, refl, e)

  pub >>=-cong :
      {f g : A → Result E B} (m : Result E A)
      → ((value : A) → f value ≡ g value)
      → (m >>= f) ≡ (m >>= g)
  >>=-cong (err thrown) same = refl
  >>=-cong (ok value) same = same value

  -- Nothing was thrown on the way to a value.
  pub >>=-ok_inv :
      {b : B} (m : Result E A) (next : A → Result E B)
      → (m >>= next) ≡ ok b
      → (value : A) × (m ≡ ok value) × (next value ≡ ok b)
  >>=-ok_inv (err thrown) next e = cc
  >>=-ok_inv (ok value) next e = (value, refl, e)

pub >>=-assoc {ℓ κ μ ν} :
    {E : Type ℓ} {A : Type κ} {B : Type μ} {C : Type ν} (m : Result E A) (f : A → Result E B)
    (g : B → Result E C)
    → (m >>= f >>= g) ≡ (m >>= λ a. f a >>= g)
>>=-assoc (err thrown) f g = refl
>>=-assoc (ok value) f g = refl

pub ok-injective {ℓ κ} :
    {E : Type ℓ} {A : Type κ} {a b : A} → ◌≡◌ {A = Result E A} (ok a) (ok b) → a ≡ b
ok-injective e = cc

-- The predicate holds of the value, if there is one.
pub record Ensures {ℓ κ μ} {E : Type ℓ} {A : Type κ} (P : A → Type μ) (m : Result E A)
    : Type (ℓ ⊔ κ ⊔ μ) where
  pub holds : (value : A) → m ≡ ok value → P value

pub >>=-Ensures {ℓ κ ι μ ν} :
    {E : Type ℓ} {A : Type κ} {B : Type ι} (P : A → Type μ) (Q : B → Type ν) (m : Result E A)
    (next : A → Result E B)
    → Ensures P m
    → ((value : A) → P value → Ensures Q (next value))
    → Ensures Q (m >>= next)
>>=-Ensures P Q m next h k = record {
  holds = λ b e.
      let (value, made, rest) = >>=-ok_inv m next e in (k value (h.holds value made)).holds b rest;
}

pub ok-Ensures {ℓ κ μ} :
    {E : Type ℓ} {A : Type κ} (P : A → Type μ) (a : A) → P a → Ensures {E = E} P (ok a)
ok-Ensures P a h = record { holds = λ value e. subst P (ok-injective e) h }
