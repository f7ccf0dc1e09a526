-- ===== src/Rbac/Paths.antt =====
-- The reach of a configuration grant, by path segments (internal/rbac/rbac.go).
use devops_tools.Prelude.{ℕ, Text, ◌≡◌, inl, inr, refl, Bool, true, false, ◌||◌}
use devops_tools.Prelude.{List, [], ◌∷◌, ◌++◌, has_prefix, arith, ◌==◌}
use devops_tools.Prelude.{Bool-cases, ◌&&◌, if◌then◌else◌}
use devops_tools.Config.Roles.{star}
use devops_tools.Rbac.{config_path_covers, trim_slashes, is_slash}

abbrev pub onto_first : ℕ → List Text → List Text
onto_first c [] = (c ∷ []) ∷ []
onto_first c (s ∷ ss) = (c ∷ s) ∷ ss

-- strings.Split(s, "/"): the description of a path that the grant is held against.
unfoldable pub segments : Text → List Text
segments [] = [] ∷ []
segments (c ∷ s) = let rest = segments s in if is_slash c then [] ∷ rest else onto_first c rest

-- The first list of segments begins the second.
unfoldable pub begins : List Text → List Text → Bool
begins [] ys = true
begins (x ∷ xs) [] = false
begins (x ∷ xs) (y ∷ ys) = x == y && begins xs ys

segments-cons : (s : Text) → (x : Text) × (xs : List Text) × (segments s ≡ x ∷ xs)
unfolding segments
segments-cons [] = ([], [], refl)
segments-cons (c ∷ s) = elim (Bool-cases (is_slash c)) [
  | inl e ↦ ([], segments s, rw e)
  | inr e ↦ let (x, xs, f) = segments-cons s in (c ∷ x, xs, rw (e, f))
]

-- The code's test by a prefix and a slash is a test by segments.
begins-segments :
    (g p : Text) → begins (segments g) (segments p) ≡ (g == p || has_prefix p (g ++ b'/' ∷ []))
unfolding segments begins has_prefix
begins-segments [] [] = ground arith
begins-segments [] (c ∷ p) = let (y, ys, f) = segments-cons p in ground arith
begins-segments (c ∷ g) [] = let (x, xs, e) = segments-cons g in ground arith
begins-segments (c ∷ g) (d ∷ p) =
    let (x, xs, e) = segments-cons g in
    let (y, ys, f) = segments-cons p in let ih = begins-segments g p in ground arith

-- A grant covers a path exactly when it is the star, or its segments begin the path's segments,
-- slashes at either end of both put aside. So no folder reaches into one whose name it begins.
pub config_path_covers-segments :
    (grant path : Text)
    → config_path_covers grant path
      ≡ (grant == star || begins (segments (trim_slashes grant)) (segments (trim_slashes path)))
unfolding config_path_covers
config_path_covers-segments grant path =
    ground (arith, begins-segments (trim_slashes grant) (trim_slashes path))
