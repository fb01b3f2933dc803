-- ===== src/Common/Xor.antt =====
-- The digits of an exclusive or.
use Prim.Native.Nat.{
  ℕ, zero, suc, ◌+◌, ◌*◌, ◌/◌, ◌%◌, ◌^◌, ◌≤◌, ◌<◌, bit_xor, bit_xor-bitwise, differ,
}
use mathlib.Core.Path.{◌≡◌, refl, ◌∙◌}
use native.Mathlib.Omega.{arith}
use packetpipe.Common.Bits.{lowest}

xor_none : (y : ℕ) → bit_xor 0 y ≡ y
xor_none y = bit_xor-bitwise 0 y

differ_lem : (a b : ℕ) → a < 2 → b < 2 → differ a b ≡ (a + b) % 2
differ_lem zero zero p q = refl
differ_lem zero (suc zero) p q = refl
differ_lem zero (suc (suc b)) p q = absurd (omega (arith, q))
differ_lem (suc zero) zero p q = refl
differ_lem (suc zero) (suc zero) p q = refl
differ_lem (suc zero) (suc (suc b)) p q = absurd (omega (arith, q))
differ_lem (suc (suc a)) b p q = absurd (omega (arith, p))

xor_lowest : (x y : ℕ) → bit_xor x y ≡ bit_xor (x / 2) (y / 2) * 2 + (x + y) % 2
xor_lowest zero y = omega (arith, xor_none y, xor_none (y / 2))
xor_lowest (suc x) y =
    bit_xor-bitwise (suc x) y
    ∙ lowest (λ b. b) differ x y
    ∙ omega (
      arith,
      bit_xor-bitwise (suc x / 2) (y / 2),
      differ_lem (suc x % 2) (y % 2) (omega arith) (omega arith),
    )

pub bit_xor-lt : (k x y : ℕ) → x < 2 ^ k → y < 2 ^ k → bit_xor x y < 2 ^ k
bit_xor-lt zero zero y p q = omega (arith, q, xor_none y)
bit_xor-lt zero (suc x) y p q = absurd (omega (arith, p))
bit_xor-lt (suc k) x y p q =
    omega
      (arith, xor_lowest x y, bit_xor-lt k (x / 2) (y / 2) (omega (arith, p)) (omega (arith, q)))

same_first : (k x y b : ℕ) → x + y ≤ k → bit_xor x b ≡ bit_xor y b → x ≡ y
same_first zero x y b l e = omega (arith, l)
same_first (suc k) x y b l e = omega (
  arith,
  e,
  xor_lowest x b,
  xor_lowest y b,
  same_first k (x / 2) (y / 2) (b / 2) (omega (arith, l))
      (omega (arith, e, xor_lowest x b, xor_lowest y b)),
)

same_second : (k x b c : ℕ) → b + c ≤ k → bit_xor x b ≡ bit_xor x c → b ≡ c
same_second zero x b c l e = omega (arith, l)
same_second (suc k) x b c l e = omega (
  arith,
  e,
  xor_lowest x b,
  xor_lowest x c,
  same_second k (x / 2) (b / 2) (c / 2) (omega (arith, l))
      (omega (arith, e, xor_lowest x b, xor_lowest x c)),
)

pub bit_xor-injective : (x y b : ℕ) → bit_xor x b ≡ bit_xor y b → x ≡ y
bit_xor-injective x y b e = same_first (x + y) x y b (omega arith) e

pub bit_xor-injective_second : (x b c : ℕ) → bit_xor x b ≡ bit_xor x c → b ≡ c
bit_xor-injective_second x b c e = same_second (b + c) x b c (omega arith) e
