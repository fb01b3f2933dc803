-- ===== src/Common/Chars.antt =====
-- `find`, `rfind` and `substr` of std::string, on lists of characters.
use Prim.Native.Nat.{ℕ}
use mathlib.Core.Path.{◌≡◌, Path, refl, sym, ap, ◌∙◌}
use mathlib.Core.Logic.{◌≢◌}
use mathlib.Core.Bool.{true, false}
use mathlib.Core.List.{List, [], ◌∷◌, ◌++◌}
use mathlib.Core.Option.{Option, none, some}
use native.Mathlib.Omega.{arith}
use packetpipe.Common.Tests.{◌==◌, if◌then◌else◌}
use packetpipe.Common.Lists.{All}

-- The character is not in the text.
abbrev pub Lacks : ℕ → List ℕ → Type 0
Lacks c s = All (λ x. x ≢ c) s

abbrev in_front : ℕ → Option (List ℕ × List ℕ) → Option (List ℕ × List ℕ)
in_front x none = none
in_front x (some (a, b)) = some (x ∷ a, b)

-- What stands before and behind the first `c`.
unfoldable pub split_first : ℕ → List ℕ → Option (List ℕ × List ℕ)
split_first c [] = none
split_first c (x ∷ xs) =
    let rest = split_first c xs in if x == c then some ([], xs) else in_front x rest

abbrev last_of : ℕ → ℕ → List ℕ → Option (List ℕ × List ℕ) → Option (List ℕ × List ℕ)
last_of c x xs none = if x == c then some ([], xs) else none
last_of c x xs (some (a, b)) = some (x ∷ a, b)

-- What stands before and behind the last `c`.
unfoldable pub split_last : ℕ → List ℕ → Option (List ℕ × List ℕ)
split_last c [] = none
split_last c (x ∷ xs) = last_of c x xs (split_last c xs)

==_same : (c : ℕ) → (c == c) ≡ true
==_same c = ground arith

==_differ : (x c : ℕ) → x ≢ c → (x == c) ≡ false
==_differ x c h = ground arith

pub split_first_absent : (c : ℕ) (s : List ℕ) → Lacks c s → split_first c s ≡ none
unfolding split_first
split_first_absent c [] h = refl
split_first_absent c (x ∷ xs) h = rw (==_differ x c h.0, split_first_absent c xs h.1) refl

pub split_first_lem : (c : ℕ) (a b : List ℕ) → Lacks c a → split_first c (a ++ c ∷ b) ≡ some (a, b)
unfolding split_first
split_first_lem c [] b h = rw (==_same c) refl
split_first_lem c (x ∷ a) b h = rw (==_differ x c h.0, split_first_lem c a b h.1) refl

pub split_last_absent : (c : ℕ) (s : List ℕ) → Lacks c s → split_last c s ≡ none
unfolding split_last
split_last_absent c [] h = refl
split_last_absent c (x ∷ xs) h = rw (split_last_absent c xs h.1, ==_differ x c h.0) refl

pub split_last_lem : (c : ℕ) (a b : List ℕ) → Lacks c b → split_last c (a ++ c ∷ b) ≡ some (a, b)
unfolding split_last
split_last_lem c [] b h = rw (split_last_absent c b h, ==_same c) refl
split_last_lem c (x ∷ a) b h = rw (split_last_lem c a b h) refl

abbrev found : List ℕ × List ℕ → Option (List ℕ × List ℕ) → List ℕ × List ℕ
found d none = d
found d (some r) = r

found_same :
    (r r' : List ℕ × List ℕ)
    → Path (Option (List ℕ × List ℕ)) (some r) (some r')
    → (r.0 ≡ r'.0) × (r.1 ≡ r'.1)
found_same r r' e = (ap (λ o. (found r o).0) e, ap (λ o. (found r o).1) e)

-- What stands around the last separator, or around the first, is found again.
pub around_last :
    (c : ℕ) (a a' b b' : List ℕ)
    → Lacks c b
    → Lacks c b'
    → a ++ c ∷ b ≡ a' ++ c ∷ b'
    → (a ≡ a') × (b ≡ b')
around_last c a a' b b' h h' e =
    let same : Path (Option (List ℕ × List ℕ)) (some (a, b)) (some (a', b')) =
      sym (split_last_lem c a b h) ∙ ap (split_last c) e ∙ split_last_lem c a' b' h' in
    found_same (a, b) (a', b') same

pub around_first :
    (c : ℕ) (a a' b b' : List ℕ)
    → Lacks c a
    → Lacks c a'
    → a ++ c ∷ b ≡ a' ++ c ∷ b'
    → (a ≡ a') × (b ≡ b')
around_first c a a' b b' h h' e =
    let same : Path (Option (List ℕ × List ℕ)) (some (a, b)) (some (a', b')) =
      sym (split_first_lem c a b h) ∙ ap (split_first c) e ∙ split_first_lem c a' b' h' in
    found_same (a, b) (a', b') same
