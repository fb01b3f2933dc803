-- ===== src/Common/Text.antt =====
-- What std::stoi makes of a text, and the numbers of its characters.
use Prim.Native.Nat.{ℕ, ◌+◌, ◌-◌, ◌*◌, ◌^◌}
use Prim.Native.Char.{code}
use Prim.Native.String.{String, ◌++◌ as glue}
use text.Mathlib.TextEquality.{Char-path}
use text.Mathlib.TextLemmas.{nil-append, cons-append}
use mathlib.Core.Path.{◌≡◌, refl, ap, ap₂, ◌∙◌}
use mathlib.Core.Bool.{Bool, true, false, ◌&&◌, ◌||◌}
use mathlib.Core.List.{List, [], ◌∷◌, ◌++◌}
use native.Mathlib.Omega.{arith}
use mathlib.Core.Option.{Option, none, some}
use packetpipe.Common.Tests.{ltb, leb, ◌==◌, if◌then◌else◌}
use packetpipe.Common.Int.{ℤ, pos, negsuc}

-- What a `char` pointer into the text meets, one number for each character.
abbrev pub chars_of : String → List ℕ
chars_of (String.◌∷◌ letter rest) = code letter ∷ chars_of rest
chars_of String.[] = []

unfoldable pub is_digit : ℕ → Bool
is_digit c = leb b'0' c && leb c b'9'

-- `isspace` of the C locale.
unfoldable pub is_space : ℕ → Bool
is_space c = c == 32 || leb 9 c && leb c 13

-- The number that the digits in front spell behind `n`; the rest is not looked at.
unfoldable pub read_digits : List ℕ → ℕ → ℕ
unfolding is_digit
read_digits [] n = n
read_digits (c ∷ cs) n =
    let rest = read_digits cs (n * 10 + (c - b'0')) in if is_digit c then rest else n

-- The range of `int`: std::out_of_range is thrown outside it.
unfoldable pub int_of : Bool → ℕ → Option ℤ
int_of true n =
    if n == 0 then some (pos 0) else if leb n (2 ^ 31) then some (negsuc (n - 1)) else none
int_of false n = if ltb n (2 ^ 31) then some (pos n) else none

-- std::invalid_argument is thrown where there is no digit.
unfoldable pub signed : Bool → List ℕ → Option ℤ
unfolding read_digits int_of
signed neg [] = none
signed neg (c ∷ cs) = if is_digit c then int_of neg (read_digits (c ∷ cs) 0) else none

unfoldable pub after_space : List ℕ → Option ℤ
unfolding signed
after_space [] = none
after_space (c ∷ cs) =
    if c == b'-'
    then signed true cs
    else if c == b'+'
    then signed false cs
    else signed false (c ∷ cs)

unfoldable pub skip_space : List ℕ → List ℕ
unfolding is_space
skip_space [] = []
skip_space (c ∷ cs) = let rest = skip_space cs in if is_space c then rest else c ∷ cs

-- `std::stoi`, with `none` for either exception.
unfoldable pub stoi_codes : List ℕ → Option ℤ
unfolding after_space skip_space
stoi_codes cs = after_space (skip_space cs)

unfoldable pub stoi : String → Option ℤ
unfolding stoi_codes
stoi s = stoi_codes (chars_of s)

stoi_test :
    (stoi "42" ≡ some (pos 42))
    × (stoi " \t-7x" ≡ some (negsuc 6))
    × (stoi "+12ab" ≡ some (pos 12))
    × (stoi "" ≡ none)
    × (stoi "x1" ≡ none)
    × (stoi "- 1" ≡ none)
    × (stoi "2147483648" ≡ none)
    × (stoi "-2147483648" ≡ some (negsuc 2147483647))
unfolding stoi
stoi_test = (refl, refl, refl, refl, refl, refl, refl, refl)

pub chars_of-injective : (s t : String) → chars_of s ≡ chars_of t → s ≡ t
chars_of-injective String.[] String.[] e = refl
chars_of-injective String.[] (String.◌∷◌ d t) e = absurd (ground arith)
chars_of-injective (String.◌∷◌ c s) String.[] e = absurd (ground arith)
chars_of-injective (String.◌∷◌ c s) (String.◌∷◌ d t) e =
    ap₂ String.◌∷◌ (Char-path c d (ground arith)) (chars_of-injective s t (ground arith))

pub chars_of-append : (s t : String) → chars_of (glue s t) ≡ chars_of s ++ chars_of t
chars_of-append String.[] t = ap chars_of (nil-append t)
chars_of-append (String.◌∷◌ c s) t =
    ap chars_of (cons-append c s t) ∙ ap (λ r. code c ∷ r) (chars_of-append s t)
