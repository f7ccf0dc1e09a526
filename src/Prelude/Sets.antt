-- ===== src/Prelude/Sets.antt =====
-- Maps from text to bool used as sets, and lists without duplicates.
use mathlib.Core.Path.{◌≡◌, refl, sym}
use mathlib.Core.Logic.{inl, inr}
use mathlib.Core.List.{List, [], ◌∷◌, ◌++◌}
use mathlib.Core.Bool.{Bool, true, false, ◌&&◌, ◌||◌, not}
use native.Mathlib.Omega.{arith}
use devops_tools.Prelude.Tests.{if◌then◌else◌, Bool-cases}
use devops_tools.Prelude.Texts.{Text, text_dec, ◌==◌, contains}
use devops_tools.Prelude.Lists.{filter, any, any_of_In, In, here, there, In-of_eq}

-- Keeps each text that is not in `seen`, once, in order.
unfoldable pub dedup : List Text → List Text → List Text
dedup seen [] = []
dedup seen (x ∷ xs) =
    let rest = dedup (x ∷ seen) xs in
    let same = dedup seen xs in if contains seen x then same else x ∷ rest

abbrev pub Distinct : List Text → Type 0
Distinct [] = Unit
Distinct (x ∷ xs) = (contains xs x ≡ false) × Distinct xs

pub contains-append :
    (x : Text) (xs ys : List Text) → contains (xs ++ ys) x ≡ (contains xs x || contains ys x)
unfolding contains
contains-append x [] ys = refl
contains-append x (y ∷ xs) ys = ground (arith, contains-append x xs ys)

pub contains-filter :
    (p : Text → Bool) (x : Text) (xs : List Text)
    → contains (filter p xs) x ≡ (contains xs x && p x)
unfolding contains filter
contains-filter p x [] = refl
contains-filter p x (y ∷ xs) = ground (arith, contains-filter p x xs)

contains-dedup_from :
    (x : Text) (seen xs : List Text)
    → contains (dedup seen xs) x ≡ (contains xs x && not (contains seen x))
unfolding contains dedup
contains-dedup_from x seen [] = refl
contains-dedup_from x seen (y ∷ xs) =
    ground (arith, contains-dedup_from x seen xs, contains-dedup_from x (y ∷ seen) xs)

pub contains-dedup : (x : Text) (xs : List Text) → contains (dedup [] xs) x ≡ contains xs x
unfolding contains
contains-dedup x xs = ground (arith, contains-dedup_from x [] xs)

pub dedup-Distinct : (seen xs : List Text) → Distinct (dedup seen xs)
unfolding contains dedup
dedup-Distinct seen [] = tt
dedup-Distinct seen (y ∷ xs) = ground (
  arith,
  dedup-Distinct seen xs,
  dedup-Distinct (y ∷ seen) xs,
  contains-dedup_from y (y ∷ seen) xs,
)

pub In-contains : (x : Text) (xs : List Text) → contains xs x ≡ true → In x xs
unfolding contains
In-contains x [] h = absurd (ground arith)
In-contains x (y ∷ xs) h = elim (text_dec y x) [
  | yes e ↦ In-of_eq xs (sym e)
  | no n ↦ there (In-contains x xs (ground arith))
]

pub contains_of_In : {x : Text} {xs : List Text} → In x xs → contains xs x ≡ true
unfolding contains
contains_of_In here = ground arith
contains_of_In (there m) = ground (arith, contains_of_In m)

unfoldable pub set_add : Text → List Text → List Text
set_add x set = if contains set x then set else x ∷ set

pub contains-set_add :
    (x y : Text) (set : List Text) → contains (set_add x set) y ≡ (x == y || contains set y)
unfolding contains set_add
contains-set_add x y set = ground arith

-- The texts that three lists name, without a repetition.
pub contains-dedup_three :
    (x : Text) (xs ys zs : List Text)
    → contains (dedup [] (xs ++ ys ++ zs)) x ≡ (contains xs x || contains ys x || contains zs x)
contains-dedup_three x xs ys zs = ground (
  arith,
  contains-dedup x (xs ++ ys ++ zs),
  contains-append x (xs ++ ys) zs,
  contains-append x xs ys,
)

pub any-set_add :
    (p : Text → Bool) (x : Text) (set : List Text) → any p (set_add x set) ≡ (p x || any p set)
unfolding any set_add
any-set_add p x set = elim (Bool-cases (contains set x)) [
  | inl e ↦ elim (Bool-cases (p x)) [
    | inl q ↦ ground (arith, any_of_In p (In-contains x set e) q)
    | inr q ↦ ground arith
  ]
  | inr e ↦ ground arith
]
