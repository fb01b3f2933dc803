-- ===== src/Common/Decimal.antt =====
-- `std::to_string` of an unsigned number.
use Prim.Native.Nat.{ℕ, zero, suc, ◌+◌, ◌/◌, ◌%◌, ◌<◌, ◌≤◌}
use Prim.Native.Char.{Char, code}
use Prim.Native.String.{String, char_at}
use mathlib.Core.Path.{◌≡◌, refl, sym, subst, ap, ◌∙◌}
use mathlib.Core.Logic.{◌⊎◌, inl, inr, ◌≢◌}
use mathlib.Core.Bool.{true}
use native.Mathlib.Omega.{arith}
use packetpipe.Common.Tests.{ltb, ◌==◌, ==_iff, Bool-cases, if◌then◌else◌}
use packetpipe.Common.Lists.{All}
use packetpipe.Common.Text.{chars_of, is_digit, read_digits}
use packetpipe.Common.Chars.{Lacks}

unfoldable pub digit : ℕ → Char
digit d = char_at "0123456789" d

-- The digits of `n` in front of a text, where the fuel is above `n`.
unfoldable pub digits : ℕ → ℕ → String → String
unfolding digit
digits zero n text = text
digits (suc fuel) n text =
    let rest = digits fuel (n / 10) (String.◌∷◌ (digit (n % 10)) text) in
    if ltb n 10 then String.◌∷◌ (digit n) text else rest

unfoldable pub to_string : ℕ → String
unfolding digits
to_string n = digits (suc n) n ""

to_string_test : (to_string 0 ≡ "0") × (to_string 9 ≡ "9") × (to_string 65_530 ≡ "65530")
unfolding to_string
to_string_test = (refl, refl, refl)

abbrev AllBelow : (ℕ → Type 0) → ℕ → Type 0
AllBelow P zero = Unit
AllBelow P (suc n) = P n × AllBelow P n

AllBelow-at : (P : ℕ → Type 0) (n d : ℕ) → AllBelow P n → d < n → P d
AllBelow-at P zero d h l = absurd (omega arith)
AllBelow-at P (suc n) d h l = elim (Bool-cases (d == n)) [
  | inl e ↦ subst P (sym ((==_iff d n).0 e)) h.0
  | inr e ↦ AllBelow-at P n d h.1 (ground arith)
]

code-digit : (d : ℕ) → d < 10 → code (digit d) ≡ b'0' + d
unfolding digit
code-digit d h =
    AllBelow-at (λ d. code (digit d) ≡ b'0' + d) 10 d
      (refl, (refl, (refl, (refl, (refl, (refl, (refl, (refl, (refl, (refl, tt)))))))))) h

IsDigit-digit : (d : ℕ) → d < 10 → is_digit (code (digit d)) ≡ true
unfolding is_digit
IsDigit-digit d h = rw (code-digit d h) (ground arith)

digits-All :
    (P : ℕ → Type 0)
    → ((c : ℕ) → b'0' ≤ c → c ≤ b'9' → P c)
    → (fuel n : ℕ) (text : String) → All P (chars_of text)
    → All P (chars_of (digits fuel n text))
unfolding digits
digits-All P f zero n text h = h
digits-All P f (suc fuel) n text h =
    let step : (d : ℕ) → d < 10 → P (code (digit d)) =
      λ d l. subst P (sym (code-digit d l)) (f (b'0' + d) (omega arith) (omega arith)) in
    elim (Bool-cases (ltb n 10)) [
      | inl e ↦ rw e (step n (ground arith), h)
      | inr e ↦ rw e (digits-All P f fuel (n / 10) _ (step (n % 10) (omega arith), h))
    ]

pub to_string-Lacks : (c n : ℕ) → (c < b'0') ⊎ (b'9' < c) → Lacks c (chars_of (to_string n))
unfolding to_string
to_string-Lacks c n h = digits-All (λ x. x ≢ c) (λ x lo hi e. ground arith) (suc n) n "" tt

-- The digits are read back in front of what the text reads as behind them.
read_digits-digits :
    (fuel n : ℕ) (text : String)
    → n < fuel
    → read_digits (chars_of (digits fuel n text)) 0 ≡ read_digits (chars_of text) n
unfolding digits read_digits
read_digits-digits zero n text h = absurd (omega arith)
read_digits-digits (suc fuel) n text h = elim (Bool-cases (ltb n 10)) [
  | inl e ↦
      let l : n < 10 = ground arith in
      rw (e, IsDigit-digit n l, code-digit n l) (ap (read_digits (chars_of text)) (omega arith))
  | inr e ↦
      let l : n % 10 < 10 = omega arith in
      let q : 10 ≤ n = ground arith in
      rw
        (
          e,
          read_digits-digits fuel (n / 10) (String.◌∷◌ (digit (n % 10)) text) (omega arith),
          IsDigit-digit (n % 10) l,
          code-digit (n % 10) l,
        )
        (ap (read_digits (chars_of text)) (omega arith))
]

pub read_digits-to_string : (n : ℕ) → read_digits (chars_of (to_string n)) 0 ≡ n
unfolding to_string read_digits
read_digits-to_string n = read_digits-digits (suc n) n "" (omega arith)

pub to_string-injective : (m n : ℕ) → chars_of (to_string m) ≡ chars_of (to_string n) → m ≡ n
to_string-injective m n e =
    sym (read_digits-to_string m) ∙ ap (λ cs. read_digits cs 0) e ∙ read_digits-to_string n
