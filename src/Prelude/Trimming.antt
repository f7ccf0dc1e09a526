-- ===== src/Prelude/Trimming.antt =====
-- Trimming and folding are idempotent, so a key of a key is the key.
use Prim.Native.Nat.{ℕ}
use mathlib.Core.Path.{◌≡◌, refl, ap, ◌∙◌}
use mathlib.Core.Logic.{inl, inr}
use mathlib.Core.List.{[], ◌∷◌, map}
use mathlib.Core.Bool.{Bool, true, false}
use native.Mathlib.Omega.{arith}
use devops_tools.Prelude.Tests.{Bool-cases}
use devops_tools.Prelude.Texts.{
  Text, trim_left, trim_right, trim_space, is_space, lower, to_lower, snoc_unless,
}

module _ (p : ℕ → Bool) where
  trim_right-snoc :
      (c : ℕ) (s : Text)
      → trim_right p s ≡ s
      → trim_right p (snoc_unless (p c) c s) ≡ snoc_unless (p c) c s
  unfolding trim_right
  trim_right-snoc c [] e = elim (Bool-cases (p c)) [ inl t ↦ rw t | inr f ↦ rw f (rw f) ]
  trim_right-snoc c (d ∷ s) e = ground arith

  trim_right_idem : (s : Text) → trim_right p (trim_right p s) ≡ trim_right p s
  unfolding trim_right
  trim_right_idem [] = refl
  trim_right_idem (c ∷ s) = trim_right-snoc c (trim_right p s) (trim_right_idem s)

  trim_left_idem :
      (s : Text) → trim_left p (trim_right p (trim_left p s)) ≡ trim_right p (trim_left p s)
  unfolding trim_left trim_right
  trim_left_idem [] = refl
  trim_left_idem (c ∷ s) = elim (Bool-cases (p c)) [
    | inl t ↦ rw t (trim_left_idem s)
    | inr f ↦ ground (arith, go (trim_right p s) f)
  ]
    where
      go : (t : Text) → p c ≡ false → trim_left p (snoc_unless false c t) ≡ snoc_unless false c t
      go [] e = rw e
      go (d ∷ t) e = rw e

  pub trim_idem :
      (s : Text)
      → trim_right p (trim_left p (trim_right p (trim_left p s))) ≡ trim_right p (trim_left p s)
  trim_idem s = ap (trim_right p) (trim_left_idem s) ∙ trim_right_idem (trim_left p s)

  -- A map that keeps the test goes through both trimmings.
  trim_left-map :
      (f : ℕ → ℕ)
      → ((c : ℕ) → p (f c) ≡ p c)
      → (s : Text) → trim_left p (map f s) ≡ map f (trim_left p s)
  unfolding trim_left
  trim_left-map f h [] = refl
  trim_left-map f h (c ∷ s) = ground (arith, h c, trim_left-map f h s)

  trim_right-map :
      (f : ℕ → ℕ)
      → ((c : ℕ) → p (f c) ≡ p c)
      → (s : Text) → trim_right p (map f s) ≡ map f (trim_right p s)
  unfolding trim_right
  trim_right-map f h [] = refl
  trim_right-map f h (c ∷ s) = rw (h c, trim_right-map f h s) (go (p c) (trim_right p s))
    where
      go : (b : Bool) (t : Text) → snoc_unless b (f c) (map f t) ≡ map f (snoc_unless b c t)
      go true [] = refl
      go false [] = refl
      go b (d ∷ t) = ground arith

lower-is_space : (c : ℕ) → is_space (lower c) ≡ is_space c
unfolding is_space lower
lower-is_space c = ground arith

lower_idem : (c : ℕ) → lower (lower c) ≡ lower c
unfolding lower
lower_idem c = ground arith

to_lower_idem : (s : Text) → to_lower (to_lower s) ≡ to_lower s
unfolding to_lower
to_lower_idem [] = refl
to_lower_idem (c ∷ s) = ground (arith, lower_idem c, to_lower_idem s)

pub trim_space_idem : (s : Text) → trim_space (trim_space s) ≡ trim_space s
unfolding trim_space
trim_space_idem s = trim_idem is_space s

trim_space-to_lower : (s : Text) → trim_space (to_lower s) ≡ to_lower (trim_space s)
unfolding trim_space to_lower
trim_space-to_lower s =
    ap (trim_right is_space) (trim_left-map is_space lower lower-is_space s)
    ∙ trim_right-map is_space lower lower-is_space (trim_left is_space s)

-- Trimming and then folding, twice, is the same as once.
pub key_idem :
    (s : Text) → to_lower (trim_space (to_lower (trim_space s))) ≡ to_lower (trim_space s)
key_idem s =
    ap to_lower (trim_space-to_lower (trim_space s))
    ∙ ap (λ t. to_lower (to_lower t)) (trim_space_idem s)
    ∙ to_lower_idem (trim_space s)
