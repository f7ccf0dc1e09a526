-- ===== src/Prelude/Dicts.antt =====
-- Go's maps with text keys, as association lists; iteration goes in the order of the list.
use mathlib.Core.Path.{◌≡◌, refl}
use mathlib.Core.Logic.{inl, inr}
use mathlib.Core.List.{List, [], ◌∷◌, map}
use mathlib.Core.Option.{Option, none, some}
use mathlib.Core.Bool.{Bool, true, false, not, ◌&&◌, ◌||◌}
use native.Mathlib.Omega.{arith}
use devops_tools.Prelude.Tests.{if◌then◌else◌, Option-cases}
use devops_tools.Prelude.Texts.{Text, text_dec, ◌==◌}
use devops_tools.Prelude.Lists.{In, here, there, In-of_eq}

abbrev pub Dict {ℓ} : Type ℓ → Type ℓ
Dict V = List (Text × V)

module _ {ℓ} {V : Type ℓ} where
  -- v, ok := m[k]
  unfoldable pub lookup : Text → Dict V → Option V
  lookup x [] = none
  lookup x ((y, a) ∷ entries) = if y == x then some a else lookup x entries

  -- m[k] = v
  unfoldable pub insert : Text → V → Dict V → Dict V
  insert x a [] = (x, a) ∷ []
  insert x a ((y, b) ∷ entries) =
      let rest = insert x a entries in if y == x then (x, a) ∷ entries else (y, b) ∷ rest

  -- delete(m, k). Every entry of the key goes; a map has at most one.
  unfoldable pub erase : Text → Dict V → Dict V
  erase x [] = []
  erase x ((y, b) ∷ entries) = let rest = erase x entries in if y == x then rest else (y, b) ∷ rest

  unfoldable pub has_key : Text → Dict V → Bool
  unfolding lookup
  has_key x entries = elim (lookup x entries) [ none ↦ false | some _ ↦ true ]

  abbrev pub keys : Dict V → List Text
  keys entries = map (λ (x, _). x) entries

  -- No key stands twice.
  abbrev pub NodupKeys : Dict V → Type ℓ
  NodupKeys [] = Unit
  NodupKeys ((x, _) ∷ entries) = (lookup x entries ≡ none) × NodupKeys entries

  pub lookup-insert :
      (x y : Text) (a : V) (entries : Dict V)
      → lookup y (insert x a entries) ≡ (if x == y then some a else lookup y entries)
  unfolding lookup insert
  lookup-insert x y a [] = ground arith
  lookup-insert x y a ((i, b) ∷ entries) = ground (arith, lookup-insert x y a entries)

  pub lookup-erase :
      (x y : Text) (entries : Dict V)
      → lookup y (erase x entries) ≡ (if x == y then none else lookup y entries)
  unfolding lookup erase
  lookup-erase x y [] = ground arith
  lookup-erase x y ((i, b) ∷ entries) = ground (arith, lookup-erase x y entries)

  pub insert-NodupKeys :
      (x : Text) (a : V) (entries : Dict V) → NodupKeys entries → NodupKeys (insert x a entries)
  unfolding insert lookup
  insert-NodupKeys x a [] _ = (refl, tt)
  insert-NodupKeys x a ((y, b) ∷ entries) (fresh, u) =
      ground (arith, insert-NodupKeys x a entries u, lookup-insert x y a entries)

  pub erase-NodupKeys :
      (x : Text) (entries : Dict V) → NodupKeys entries → NodupKeys (erase x entries)
  unfolding erase
  erase-NodupKeys x [] _ = tt
  erase-NodupKeys x ((y, b) ∷ entries) (fresh, u) =
      ground (arith, erase-NodupKeys x entries u, lookup-erase x y entries)

  pub In-lookup :
      (x : Text) (a : V) (entries : Dict V) → lookup x entries ≡ some a → In (x, a) entries
  unfolding lookup
  In-lookup x a [] h = cc
  In-lookup x a ((y, b) ∷ entries) h = elim (text_dec y x) [
    | yes e ↦ In-of_eq entries (ground arith)
    | no n ↦ there (In-lookup x a entries (ground arith))
  ]

  pub lookup-In :
      (x : Text) (a : V) (entries : Dict V)
      → NodupKeys entries
      → In (x, a) entries
      → lookup x entries ≡ some a
  unfolding lookup
  lookup-In x a [] d i = elim i [ ]
  lookup-In x a (_ ∷ entries) d here = ground arith
  lookup-In x a ((y, b) ∷ entries) (fresh, d) (there i) =
      let rest = lookup-In x a entries d i in ground arith

  pub has_key-insert :
      (x y : Text) (a : V) (entries : Dict V)
      → has_key y (insert x a entries) ≡ (x == y || has_key y entries)
  unfolding has_key
  has_key-insert x y a entries = ground (arith, lookup-insert x y a entries)

  pub has_key-erase :
      (x y : Text) (entries : Dict V)
      → has_key y (erase x entries) ≡ (not (x == y) && has_key y entries)
  unfolding has_key
  has_key-erase x y entries = ground (arith, lookup-erase x y entries)

  pub has_key_of_some :
      (x : Text) {a : V} (entries : Dict V) → lookup x entries ≡ some a → has_key x entries ≡ true
  unfolding has_key
  has_key_of_some x entries h = ground arith

  pub lookup_of_has_key :
      (x : Text) (entries : Dict V)
      → has_key x entries ≡ true
      → (a : V) × (lookup x entries ≡ some a)
  unfolding has_key
  lookup_of_has_key x entries h = elim (Option-cases (lookup x entries)) [
    | inl e ↦ absurd (ground arith)
    | inr found ↦ found
  ]
