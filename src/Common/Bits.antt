-- ===== src/Common/Bits.antt =====
-- `&` and `|` at variables: their binary digits, low masks as remainders, and shifted fields as
-- sums. The native operations compute at numerals only.
use Prim.Native.Nat.{
  ℕ, zero, suc, ◌+◌, ◌-◌, ◌*◌, ◌/◌, ◌%◌, ◌^◌, ◌≤◌, ◌<◌, min, max, bit_and, bit_or, digits,
  bit_and-bitwise, bit_or-bitwise,
}
use mathlib.Core.Path.{◌≡◌, refl, ap, sym, ◌∙◌}
use native.Mathlib.Decide.{dec_le}
use native.Mathlib.Nat.{pow-suc}
use native.Mathlib.Omega.{arith}

-- What an operation does with the digits of the right operand once the left one has none, and with
-- two digits.
module _ (alone : ℕ → ℕ) (pair : ℕ → ℕ → ℕ) where
  -- Any fuel that is no less than the left operand gives the same digits.
  same_digits : (x y k : ℕ) → x ≤ k → digits alone pair k x y ≡ digits alone pair (suc k) x y
  same_digits zero y zero fits = refl
  same_digits zero y (suc k) fits = refl
  same_digits (suc x) y zero fits = absurd (omega arith)
  same_digits (suc x) y (suc k) fits =
      ap (λ (high : ℕ). high * 2 + pair (suc x % 2) (y % 2))
        (same_digits (suc x / 2) (y / 2) k (omega arith))

  -- So the operand itself is enough fuel.
  settled : (x y k : ℕ) → x ≤ k → digits alone pair k x y ≡ digits alone pair x x y
  settled x y zero fits = ap (λ (n : ℕ). digits alone pair n x y) {x = 0} (omega arith)
  settled x y (suc k) fits = elim (dec_le x k) [
    | yes le ↦ sym (same_digits x y k le) ∙ settled x y k le
    | no gt ↦ ap (λ (n : ℕ). digits alone pair n x y) {x = suc k} (omega arith)
  ]

  -- The lowest digits apart from the higher ones.
  pub lowest :
      (x y : ℕ)
      → digits alone pair (suc x) (suc x) y
        ≡ digits alone pair (suc x / 2) (suc x / 2) (y / 2) * 2 + pair (suc x % 2) (y % 2)
  lowest x y =
      ap (λ (high : ℕ). high * 2 + pair (suc x % 2) (y % 2))
        (settled (suc x / 2) (y / 2) x (omega arith))

and_none : (y : ℕ) → bit_and 0 y ≡ 0
and_none y = bit_and-bitwise 0 y

or_none : (y : ℕ) → bit_or 0 y ≡ y
or_none y = bit_or-bitwise 0 y

and_lowest : (x y : ℕ) → bit_and x y ≡ bit_and (x / 2) (y / 2) * 2 + min (x % 2) (y % 2)
and_lowest zero y = omega (arith, and_none y, and_none (y / 2))
and_lowest (suc x) y =
    bit_and-bitwise (suc x) y
    ∙ lowest (λ b. 0) min x y
    ∙ omega (arith, bit_and-bitwise (suc x / 2) (y / 2))

or_lowest : (x y : ℕ) → bit_or x y ≡ bit_or (x / 2) (y / 2) * 2 + max (x % 2) (y % 2)
or_lowest zero y = omega (arith, or_none y, or_none (y / 2))
or_lowest (suc x) y =
    bit_or-bitwise (suc x) y
    ∙ lowest (λ b. b) max x y
    ∙ omega (arith, bit_or-bitwise (suc x / 2) (y / 2))

-- No digits on the right.
and_zero : (k x : ℕ) → x ≤ k → bit_and x 0 ≡ 0
and_zero zero x small =
    omega (arith, and_none 0, ap (λ (n : ℕ). bit_and n 0) {x = x} {y = 0} (omega arith))
and_zero (suc k) zero small = refl
and_zero (suc k) (suc x) small =
    omega (arith, and_lowest (suc x) 0, and_zero k (suc x / 2) (omega arith))

or_zero : (k x : ℕ) → x ≤ k → bit_or x 0 ≡ x
or_zero zero x small =
    omega (arith, or_none 0, ap (λ (n : ℕ). bit_or n 0) {x = x} {y = 0} (omega arith))
or_zero (suc k) zero small = refl
or_zero (suc k) (suc x) small =
    omega (arith, or_lowest (suc x) 0, or_zero k (suc x / 2) (omega arith))

pub pow_pos : (k : ℕ) → 0 < 2 ^ k
pow_pos zero = omega arith
pow_pos (suc k) = omega (arith, pow_pos k, pow-suc 2 k)

mod_double : (m a : ℕ) → 0 < m → a % (2 * m) ≡ a / 2 % m * 2 + a % 2
mod_double m a h = grind arith

-- `x & (2^k - 1)` is `x % 2^k`.
pub bit_and_low : (k x : ℕ) → bit_and x (2 ^ k - 1) ≡ x % 2 ^ k
bit_and_low zero x = omega (arith, and_zero x x)
bit_and_low (suc k) x = ground (
  arith,
  pow_pos k,
  pow-suc 2 k,
  and_lowest x (2 ^ suc k - 1),
  bit_and_low k (x / 2),
  mod_double (2 ^ k) x,
)

-- `(hi << k) | lo` is a sum where `lo` has no more than `k` digits.
pub bit_or_shifted : (k hi lo : ℕ) → lo < 2 ^ k → bit_or (hi * 2 ^ k) lo ≡ hi * 2 ^ k + lo
bit_or_shifted zero hi lo small = ground (arith, or_zero (hi * 1) (hi * 1))
bit_or_shifted (suc k) hi lo small = ground (
  arith,
  ap (λ (p : ℕ). hi * p) (pow-suc 2 k),
  pow-suc 2 k,
  or_lowest (hi * 2 ^ suc k) lo,
  bit_or_shifted k hi (lo / 2),
)

pub bit_and_one : (x : ℕ) → bit_and x 1 ≡ x % 2
bit_and_one x = bit_and_low 1 x

pub bit_and_four : (x : ℕ) → bit_and x 4 ≡ x / 4 % 2 * 4
bit_and_four x = omega (arith, and_lowest x 4, and_lowest (x / 2) 2, bit_and_one (x / 2 / 2))

-- An odd number shares its highest digit with the number below it: `n & (n - 1)` is 0 for powers
-- of two only.
pub and_self : (k x : ℕ) → x ≤ k → bit_and x x ≡ x
and_self k zero small = refl
and_self zero (suc x) small = absurd (omega arith)
and_self (suc k) (suc x) small =
    omega (arith, and_lowest (suc x) (suc x), and_self k (suc x / 2) (omega arith))

pub power_of_two : (k n : ℕ) → n ≤ k → 0 < n → bit_and n (n - 1) ≡ 0 → (j : ℕ) × (n ≡ 2 ^ j)
power_of_two zero n small positive e = absurd (omega arith)
power_of_two (suc k) n small positive e = elim (dec_le n 1) [
  | yes one ↦ (0, omega arith)
  | no more ↦ elim (dec_le (n % 2) 0) [
    | yes even ↦
        let half = and_lowest n (n - 1) in
        let below : (n - 1) / 2 ≡ n / 2 - 1 = omega arith in
        let (j, h) =
          power_of_two k (n / 2) (omega arith) (omega arith)
            (omega (arith, half, ap (bit_and (n / 2)) below)) in
        (suc j, omega (arith, pow-suc 2 j, h))
    | no odd ↦
        let below : (n - 1) / 2 ≡ n / 2 = omega arith in
        absurd (
          omega (
            arith,
            and_lowest n (n - 1),
            ap (bit_and (n / 2)) below,
            and_self (n / 2) (n / 2) (omega arith),
          ))
  ]
]
