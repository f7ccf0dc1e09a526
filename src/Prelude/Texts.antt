-- ===== src/Prelude/Texts.antt =====
-- Texts as lists of code points, with the parts of Go's `strings` that the program uses.
-- `to_lower` folds the letters A to Z and no others.
use Prim.Native.Nat.{ℕ, ◌+◌}
use Prim.Native.Char.{code}
use Prim.Native.String.{String}
use mathlib.Core.Path.{◌≡◌, refl, ap}
use mathlib.Core.Logic.{ite}
use mathlib.Core.List.{List, [], ◌∷◌, map}
use mathlib.Core.Bool.{Bool, true, false, ◌&&◌, ◌||◌}
use native.Mathlib.Omega.{arith}
use native.Mathlib.Decide.{ℕ_discrete}
use devops_tools.Prelude.Tests.{if◌then◌else◌, leb, ltb, eqb}

abbrev pub Text : Type 0
Text = List ℕ

-- The code points of a literal.
abbrev pub text : String → Text
text String.[] = []
text (String.◌∷◌ c s) = code c ∷ text s

abbrev head_or : ℕ → Text → ℕ
head_or d [] = d
head_or d (c ∷ s) = c

abbrev tail_of : Text → Text
tail_of [] = []
tail_of (c ∷ s) = s

unfoldable pub text_dec : Discrete Text
text_dec [] [] = yes refl
text_dec [] (d ∷ t) = no (λ p. cc)
text_dec (c ∷ s) [] = no (λ p. cc)
text_dec (c ∷ s) (d ∷ t) = elim (ℕ_discrete c d) [
  | no n ↦ no (λ p. n (ap (head_or 0) p))
  | yes e ↦ elim (text_dec s t) [ no n ↦ no (λ p. n (ap tail_of p)) | yes f ↦ yes (λ i. e i ∷ f i) ]
]

infix 50 ◌==◌
abbrev pub ◌==◌ : Text → Text → Bool
s == t = ite (text_dec s t) true false

pub eq_of_== : (s t : Text) → (s == t) ≡ true → s ≡ t
eq_of_== s t h = ground arith

pub ==_refl : (s : Text) → (s == s) ≡ true
==_refl s = ground arith

pub ==_of_eq : {s t : Text} → s ≡ t → (s == t) ≡ true
==_of_eq {s} {t} e = ground arith

-- s == ""
abbrev pub is_empty : Text → Bool
is_empty [] = true
is_empty (c ∷ s) = false

-- unicode.IsSpace
unfoldable pub is_space : ℕ → Bool
is_space c =
    (leb 9 c && leb c 13)
    || eqb c 32
    || eqb c 0x85
    || eqb c 0xa0
    || eqb c 0x1680
    || (leb 0x2000 c && leb c 0x200a)
    || eqb c 0x2028
    || eqb c 0x2029
    || eqb c 0x202f
    || eqb c 0x205f
    || eqb c 0x3000

unfoldable pub lower : ℕ → ℕ
lower c = if leb b'A' c && leb c b'Z' then c + 32 else c

-- strings.ToLower
unfoldable pub to_lower : Text → Text
unfolding lower
to_lower s = map lower s

unfoldable pub trim_left : (ℕ → Bool) → Text → Text
trim_left p [] = []
trim_left p (c ∷ s) = let rest = trim_left p s in if p c then rest else c ∷ s

abbrev pub snoc_unless : Bool → ℕ → Text → Text
snoc_unless true c [] = []
snoc_unless false c [] = c ∷ []
snoc_unless b c (d ∷ s) = c ∷ d ∷ s

-- Drops the last characters that pass the test.
unfoldable pub trim_right : (ℕ → Bool) → Text → Text
trim_right p [] = []
trim_right p (c ∷ s) = snoc_unless (p c) c (trim_right p s)

-- strings.TrimSpace
unfoldable pub trim_space : Text → Text
unfolding trim_left trim_right is_space
trim_space s = trim_right is_space (trim_left is_space s)

-- strings.HasPrefix, with the text first
unfoldable pub has_prefix : Text → Text → Bool
has_prefix s [] = true
has_prefix [] (c ∷ p) = false
has_prefix (d ∷ s) (c ∷ p) = eqb d c && has_prefix s p

-- strings.EqualFold
unfoldable pub equal_fold : Text → Text → Bool
unfolding to_lower
equal_fold s t = to_lower s == to_lower t

unfoldable pub contains : List Text → Text → Bool
contains [] s = false
contains (x ∷ xs) s = x == s || contains xs s

-- The bytes that a code point takes in UTF-8, and a text.
unfoldable pub utf8_width : ℕ → ℕ
utf8_width c = if ltb c 0x80 then 1 else if ltb c 0x800 then 2 else if ltb c 0x1_0000 then 3 else 4

-- len of a string
unfoldable pub byte_length : Text → ℕ
byte_length [] = 0
byte_length (c ∷ s) = utf8_width c + byte_length s
