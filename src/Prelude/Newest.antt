-- ===== src/Prelude/Newest.antt =====
-- sort.Slice and sort.SliceStable by a time, the latest first: an insertion sort.
use Prim.Native.Nat.{ℕ, suc, ◌≤◌}
use mathlib.Core.Path.{◌≡◌, refl, ap, ◌∙◌}
use mathlib.Core.List.{List, [], ◌∷◌}
use mathlib.Core.Bool.{Bool, ◌||◌, ◌&&◌}
use mathlib.Core.Logic.{inl, inr}
use native.Mathlib.Omega.{arith}
use devops_tools.Prelude.Tests.{if◌then◌else◌, leb, Bool-cases}
use devops_tools.Prelude.Lists.{In, here, there, length, any, all, filter}

module _ {ℓ} {A : Type ℓ} (time : A → ℕ) where
  -- Stable: what is equally late keeps its order.
  unfoldable pub place_newest : A → List A → List A
  place_newest p [] = p ∷ []
  place_newest p (q ∷ qs) =
      let rest = place_newest p qs in if leb (time q) (time p) then p ∷ q ∷ qs else q ∷ rest

  unfoldable pub newest_first : List A → List A
  newest_first [] = []
  newest_first (p ∷ ps) = place_newest p (newest_first ps)

  -- Nothing in the list is later than `t`.
  abbrev pub NotAfter : ℕ → List A → Type 0
  NotAfter t [] = Unit
  NotAfter t (p ∷ ps) = (time p ≤ t) × NotAfter t ps

  abbrev pub NewestFirst : List A → Type 0
  NewestFirst [] = Unit
  NewestFirst (p ∷ ps) = NotAfter (time p) ps × NewestFirst ps

  NotAfter-mono : (t t' : ℕ) (ps : List A) → t ≤ t' → NotAfter t ps → NotAfter t' ps
  NotAfter-mono t t' [] h n = tt
  NotAfter-mono t t' (p ∷ ps) h (le, n) = (omega arith, NotAfter-mono t t' ps h n)

  place-NotAfter :
      (t : ℕ) (p : A) (ps : List A) → time p ≤ t → NotAfter t ps → NotAfter t (place_newest p ps)
  unfolding place_newest
  place-NotAfter t p [] h n = (h, tt)
  place-NotAfter t p (q ∷ qs) h (le, n) = elim (Bool-cases (leb (time q) (time p))) [
    | inl e ↦ rw e (h, (le, n))
    | inr e ↦ rw e (le, place-NotAfter t p qs h n)
  ]

  place-NewestFirst : (p : A) (ps : List A) → NewestFirst ps → NewestFirst (place_newest p ps)
  unfolding place_newest
  place-NewestFirst p [] h = (tt, tt)
  place-NewestFirst p (q ∷ qs) (n, h) = elim (Bool-cases (leb (time q) (time p))) [
    | inl e ↦ rw e ((ground arith, NotAfter-mono (time q) (time p) qs (ground arith) n), (n, h))
    | inr e ↦ rw e (place-NotAfter (time q) p qs (ground arith) n, place-NewestFirst p qs h)
  ]

  pub newest_first-NewestFirst : (ps : List A) → NewestFirst (newest_first ps)
  unfolding newest_first
  newest_first-NewestFirst [] = tt
  newest_first-NewestFirst (p ∷ ps) =
      place-NewestFirst p (newest_first ps) (newest_first-NewestFirst ps)

  any-place_newest :
      (test : A → Bool) (p : A) (ps : List A)
      → any test (place_newest p ps) ≡ (test p || any test ps)
  unfolding place_newest any
  any-place_newest test p [] = refl
  any-place_newest test p (q ∷ qs) = ground (arith, any-place_newest test p qs)

  pub any-newest_first : (test : A → Bool) (ps : List A) → any test (newest_first ps) ≡ any test ps
  unfolding newest_first any
  any-newest_first test [] = refl
  any-newest_first test (p ∷ ps) =
      any-place_newest test p (newest_first ps) ∙ ground (arith, any-newest_first test ps)

  In-place_newest : (p : A) (ps : List A) → In p (place_newest p ps)
  unfolding place_newest
  In-place_newest p [] = here
  In-place_newest p (q ∷ qs) = elim (Bool-cases (leb (time q) (time p))) [
    | inl e ↦ rw e here
    | inr e ↦ rw e (there (In-place_newest p qs))
  ]

  In-placed : {x : A} (p : A) {ps : List A} → In x ps → In x (place_newest p ps)
  unfolding place_newest
  In-placed p {ps = []} m = elim m [ ]
  In-placed p {ps = q ∷ qs} here = elim (Bool-cases (leb (time q) (time p))) [
    | inl e ↦ rw e (there here)
    | inr e ↦ rw e here
  ]
  In-placed p {ps = q ∷ qs} (there m) = elim (Bool-cases (leb (time q) (time p))) [
    | inl e ↦ rw e (there (there m))
    | inr e ↦ rw e (there (In-placed p m))
  ]

  pub In-newest_first : {x : A} {ps : List A} → In x ps → In x (newest_first ps)
  unfolding newest_first
  In-newest_first {ps = []} m = elim m [ ]
  In-newest_first {ps = q ∷ qs} here = In-place_newest q (newest_first qs)
  In-newest_first {ps = q ∷ qs} (there m) = In-placed q (In-newest_first m)

  length-place_newest : (p : A) (ps : List A) → length (place_newest p ps) ≡ suc (length ps)
  unfolding place_newest
  length-place_newest p [] = refl
  length-place_newest p (q ∷ qs) = ground (arith, length-place_newest p qs)

  pub length-newest_first : (ps : List A) → length (newest_first ps) ≡ length ps
  unfolding newest_first
  length-newest_first [] = refl
  length-newest_first (p ∷ ps) =
      length-place_newest p (newest_first ps) ∙ ap suc (length-newest_first ps)

  all-place_newest :
      (test : A → Bool) (p : A) (ps : List A)
      → all test (place_newest p ps) ≡ (test p && all test ps)
  unfolding place_newest all
  all-place_newest test p [] = refl
  all-place_newest test p (q ∷ qs) = ground (arith, all-place_newest test p qs)

  pub all-newest_first : (test : A → Bool) (ps : List A) → all test (newest_first ps) ≡ all test ps
  unfolding newest_first all
  all-newest_first test [] = refl
  all-newest_first test (p ∷ ps) =
      all-place_newest test p (newest_first ps) ∙ ground (arith, all-newest_first test ps)

module _ {ℓ} {A : Type ℓ} where
  pub any-filter :
      (keep test : A → Bool) (ps : List A)
      → any test (filter keep ps) ≡ any (λ p. keep p && test p) ps
  unfolding any filter
  any-filter keep test [] = refl
  any-filter keep test (p ∷ ps) = ground (arith, any-filter keep test ps)
