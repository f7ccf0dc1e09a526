-- ===== src/Prelude/Lists.antt =====
-- Lists measured by native numbers, and membership with the position kept.
use Prim.Native.Nat.{ℕ, zero, suc, ◌+◌, ◌≤◌}
use mathlib.Core.Path.{◌≡◌, refl, subst, ap, sym}
use mathlib.Core.Logic.{◌⊎◌, inl, inr}
use mathlib.Core.List.{List, [], ◌∷◌, ◌++◌, map}
use mathlib.Core.Option.{Option, none, some}
use mathlib.Core.Bool.{Bool, true, false, ◌&&◌, ◌||◌}
use native.Mathlib.Omega.{arith}
use devops_tools.Prelude.Tests.{leb, Bool-cases, if◌then◌else◌, and-eq-true, or-eq-true}

module _ {ℓ} {A : Type ℓ} where
  abbrev pub length : List A → ℕ
  length [] = 0
  length (x ∷ xs) = suc (length xs)

  abbrev pub get_elem? : List A → ℕ → Option A
  get_elem? [] i = none
  get_elem? (x ∷ xs) zero = some x
  get_elem? (x ∷ xs) (suc i) = get_elem? xs i

  unfoldable pub take : ℕ → List A → List A
  take zero xs = []
  take (suc n) [] = []
  take (suc n) (x ∷ xs) = x ∷ take n xs

  pub length-append : (xs ys : List A) → length (xs ++ ys) ≡ length xs + length ys
  length-append [] ys = omega arith
  length-append (x ∷ xs) ys = omega (arith, length-append xs ys)

  -- `x` stands in the list.
  pub data In (x : A) : List A → Type ℓ where
    here : {xs : List A} → In x (x ∷ xs)
    there : {y : A} {xs : List A} → In x xs → In x (y ∷ xs)

  -- The first list begins the second.
  pub data Begins : List A → List A → Type ℓ where
    start : {ys : List A} → Begins [] ys
    next : {x : A} {xs ys : List A} → Begins xs ys → Begins (x ∷ xs) (x ∷ ys)

  pub In-append_left : {x : A} {xs : List A} (ys : List A) → In x xs → In x (xs ++ ys)
  In-append_left ys here = here
  In-append_left ys (there m) = there (In-append_left ys m)

  pub In-append_right : {x : A} (xs : List A) {ys : List A} → In x ys → In x (xs ++ ys)
  In-append_right [] m = m
  In-append_right (y ∷ xs) m = there (In-append_right xs m)

  pub In-append-cases : {x : A} (xs ys : List A) → In x (xs ++ ys) → In x xs ⊎ In x ys
  In-append-cases [] ys m = inr m
  In-append-cases (y ∷ xs) ys here = inl here
  In-append-cases (y ∷ xs) ys (there m) = elim (In-append-cases xs ys m) [
    | inl l ↦ inl (there l)
    | inr r ↦ inr r
  ]

  pub In-singleton : {x y : A} → In x (y ∷ []) → x ≡ y
  In-singleton here = refl
  In-singleton (there m) = elim m [ ]

  pub In-of_eq : {x y : A} (xs : List A) → x ≡ y → In x (y ∷ xs)
  In-of_eq {x} xs e = subst (λ z. In x (z ∷ xs)) e here

  -- Some element passes a test, as a `for` loop with an early `return true` finds it.
  unfoldable pub any : (A → Bool) → List A → Bool
  any p [] = false
  any p (x ∷ xs) = p x || any p xs

  unfoldable pub all : (A → Bool) → List A → Bool
  all p [] = true
  all p (x ∷ xs) = p x && all p xs

  pub any-In : (p : A → Bool) (xs : List A) → any p xs ≡ true → (x : A) × In x xs × (p x ≡ true)
  unfolding any
  any-In p [] h = cc
  any-In p (x ∷ xs) h = elim (or-eq-true (p x) (any p xs) h) [
    | inl e ↦ (x, here, e)
    | inr r ↦ let (y, m, e) = any-In p xs r in (y, there m, e)
  ]

  pub any_of_In : (p : A → Bool) {x : A} {xs : List A} → In x xs → p x ≡ true → any p xs ≡ true
  unfolding any
  any_of_In p here e = ground arith
  any_of_In p (there m) e = ground (arith, any_of_In p m e)

  pub all-In : (p : A → Bool) {x : A} {xs : List A} → all p xs ≡ true → In x xs → p x ≡ true
  unfolding all
  all-In p h here = ground arith
  all-In p {xs = y ∷ ys} h (there m) = all-In p (and-eq-true (p y) (all p ys) h).1 m

  pub all_of_In : (p : A → Bool) (xs : List A) → ((x : A) → In x xs → p x ≡ true) → all p xs ≡ true
  unfolding all
  all_of_In p [] h = refl
  all_of_In p (x ∷ xs) h = ground (arith, h x here, all_of_In p xs (λ y m. h y (there m)))

  pub any-append : (p : A → Bool) (xs ys : List A) → any p (xs ++ ys) ≡ (any p xs || any p ys)
  unfolding any
  any-append p [] ys = refl
  any-append p (x ∷ xs) ys = ground (arith, any-append p xs ys)

  pub length-take : (n : ℕ) (xs : List A) → n ≤ length xs → length (take n xs) ≡ n
  unfolding take
  length-take zero xs h = refl
  length-take (suc n) [] h = omega arith
  length-take (suc n) (x ∷ xs) h = ap suc (length-take n xs (omega arith))

  pub take_all : (n : ℕ) (xs : List A) → length xs ≤ n → take n xs ≡ xs
  unfolding take
  take_all zero [] h = refl
  take_all zero (x ∷ xs) h = absurd (omega arith)
  take_all (suc n) [] h = refl
  take_all (suc n) (x ∷ xs) h = ap (λ ys. x ∷ ys) (take_all n xs (omega arith))

  -- What is cut off by a length leaves a list of that length.
  pub In-take :
      (n : ℕ) {x : A} {xs : List A} → In x xs → (n ≤ length (take n xs)) ⊎ In x (take n xs)
  In-take n {x} {xs} m = elim (Bool-cases (leb n (length xs))) [
    | inl e ↦ inl (omega (arith, length-take n xs (ground arith)))
    | inr e ↦ inr (subst (In x) (sym (take_all n xs (ground arith))) m)
  ]

  pub all-append : (p : A → Bool) (xs ys : List A) → all p (xs ++ ys) ≡ (all p xs && all p ys)
  unfolding all
  all-append p [] ys = refl
  all-append p (x ∷ xs) ys = ground (arith, all-append p xs ys)

  pub all-take : (p : A → Bool) (n : ℕ) (xs : List A) → all p xs ≡ true → all p (take n xs) ≡ true
  unfolding all take
  all-take p zero xs h = refl
  all-take p (suc n) [] h = refl
  all-take p (suc n) (x ∷ xs) h = ground (arith, all-take p n xs)

  -- A weaker test passes where a stronger one does.
  pub any_mono :
      (p q : A → Bool) (xs : List A)
      → ((x : A) → p x ≡ true → q x ≡ true)
      → any p xs ≡ true
      → any q xs ≡ true
  any_mono p q xs weaker h = let (x, m, e) = any-In p xs h in any_of_In q m (weaker x e)

  unfoldable pub filter : (A → Bool) → List A → List A
  filter p [] = []
  filter p (x ∷ xs) = let rest = filter p xs in if p x then x ∷ rest else rest

module _ {ℓ κ} {A : Type ℓ} {B : Type κ} where
  pub In-map : (f : A → B) {x : A} {xs : List A} → In x xs → In (f x) (map f xs)
  In-map f here = here
  In-map f (there m) = there (In-map f m)
