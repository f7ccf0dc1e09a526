-- ===== src/Prelude/Sort.antt =====
-- sort.Strings and sort.Slice by a text: an insertion sort by the order of the code points.
use Prim.Native.Nat.{suc, compare, Ordering}
use mathlib.Core.Path.{◌≡◌, refl, ap, ◌∙◌}
use mathlib.Core.List.{List, [], ◌∷◌}
use mathlib.Core.Bool.{Bool, true, false, ◌||◌}
use native.Mathlib.Omega.{arith}
use devops_tools.Prelude.Tests.{if◌then◌else◌}
use devops_tools.Prelude.Texts.{Text, ◌==◌, contains}
use devops_tools.Prelude.Lists.{length, any}

unfoldable pub text_leb : Text → Text → Bool
text_leb [] t = true
text_leb (c ∷ s) [] = false
text_leb (c ∷ s) (d ∷ t) =
    let rest = text_leb s t in
    elim (compare c d) [ Ordering.lt ↦ true | Ordering.eq ↦ rest | Ordering.gt ↦ false ]

module _ {ℓ} {A : Type ℓ} (name : A → Text) where
  unfoldable pub place : A → List A → List A
  place x [] = x ∷ []
  place x (y ∷ ys) =
      let rest = place x ys in if text_leb (name x) (name y) then x ∷ y ∷ ys else y ∷ rest

  unfoldable pub sort_by : List A → List A
  unfolding place
  sort_by [] = []
  sort_by (x ∷ xs) = place x (sort_by xs)

-- sort.Strings
abbrev pub sort : List Text → List Text
sort = sort_by (λ s. s)

module _ {ℓ} {A : Type ℓ} (name : A → Text) where
  length-place : (x : A) (ys : List A) → length (place name x ys) ≡ suc (length ys)
  unfolding place
  length-place x [] = refl
  length-place x (y ∷ ys) = ground (arith, length-place x ys)

  pub length-sort_by : (xs : List A) → length (sort_by name xs) ≡ length xs
  unfolding sort_by
  length-sort_by [] = refl
  length-sort_by (x ∷ xs) = length-place x (sort_by name xs) ∙ ap suc (length-sort_by xs)

module _ {ℓ} {A : Type ℓ} (name : A → Text) (p : A → Bool) where
  any-place : (x : A) (ys : List A) → any p (place name x ys) ≡ (p x || any p ys)
  unfolding place any
  any-place x [] = refl
  any-place x (y ∷ ys) = ground (arith, any-place x ys)

  -- Sorting changes no membership.
  pub any-sort_by : (xs : List A) → any p (sort_by name xs) ≡ any p xs
  unfolding sort_by any
  any-sort_by [] = refl
  any-sort_by (x ∷ xs) = rw (any-place x (sort_by name xs), any-sort_by xs)

contains-place :
    (z x : Text) (ys : List Text) → contains (place (λ s. s) x ys) z ≡ (x == z || contains ys z)
unfolding place contains
contains-place z x [] = refl
contains-place z x (y ∷ ys) = ground (arith, contains-place z x ys)

-- Sorting changes no membership.
pub contains-sort : (z : Text) (xs : List Text) → contains (sort xs) z ≡ contains xs z
unfolding sort_by contains
contains-sort z [] = refl
contains-sort z (x ∷ xs) = rw (contains-place z x (sort xs), contains-sort z xs)
