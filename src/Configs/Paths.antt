-- ===== src/Configs/Paths.antt =====
-- The paths of the configuration page stay below the root (internal/api/configs.go).
use devops_tools.Prelude.{
  Text, false, List, [], ◌∷◌, ◌++◌, ◌≡◌, refl, ap, ◌∙◌, subst, is_empty, any, eqb, Bool-cases, inl,
  inr, trim_idem,
}
use devops_tools.Rbac.{Authorizer, allowed_config, config_path_covers, trim_slashes, is_slash}
use devops_tools.Api.Suggestions.{split_path, split_path-cons, add_to_first}
use devops_tools.Configs.{
  Cleaned, cleaned, unclean, is_bad_segment, check_segments, clean_config_path,
}

trim_slashes_idem : (p : Text) → trim_slashes (trim_slashes p) ≡ trim_slashes p
unfolding trim_slashes
trim_slashes_idem p = trim_idem is_slash p

-- A path below a root is split where each of the two is.
split_path-append :
    (root p : Text) → split_path (root ++ b'/' ∷ p) ≡ split_path root ++ split_path p
unfolding split_path add_to_first
split_path-append [] p = refl
split_path-append (c ∷ root) p = elim (Bool-cases (eqb c b'/')) [
  | inl e ↦ rw (split_path, e, split_path-append root p) refl
  | inr e ↦ let (x, xs, f) = split_path-cons root in rw (e, split_path-append root p, f) refl
]

-- What is known of a cleaned path.
pub record Inside (asked p : Text) : Type 0 where
  pub is_trimmed : p ≡ trim_slashes asked
  pub is_clean : any is_bad_segment (split_path p) ≡ false

InsideOf : Text → Cleaned → Type 0
InsideOf asked (cleaned p) = Inside asked p
InsideOf asked (unclean e) = Unit

check-InsideOf : (asked : Text) → InsideOf asked (clean_config_path asked)
unfolding clean_config_path check_segments InsideOf
check-InsideOf asked = elim (Bool-cases (is_empty (trim_slashes asked))) [
  | inl e ↦ rw e tt
  | inr e ↦ elim (Bool-cases (any is_bad_segment (split_path (trim_slashes asked)))) [
    | inl bad ↦ rw (e, bad) tt
    | inr good ↦ rw (e, good) (record { is_trimmed = refl; is_clean = good })
  ]
]

-- A right holds on a path as on the path without the slashes at its ends.
allowed_config-trim_slashes :
    (a : Authorizer) (roles : List Text) (path op : Text)
    → allowed_config a roles (trim_slashes path) op ≡ allowed_config a roles path op
unfolding allowed_config config_path_covers
allowed_config-trim_slashes a roles path op = rw (trim_slashes_idem path) refl

-- The path that a request names, once it is cleaned, is cleaned again to itself, is one that the
-- roles permit exactly where they permit the path that was asked for, and below any root adds only
-- segments of which none is empty, "." or "..".
pub clean_config_path-cleaned :
    (a : Authorizer) (roles : List Text) (op root asked p : Text)
    → clean_config_path asked ≡ cleaned p
    → (clean_config_path p ≡ cleaned p)
      × (allowed_config a roles p op ≡ allowed_config a roles asked op)
      × (split_path (root ++ b'/' ∷ p) ≡ split_path root ++ split_path p)
      × (any is_bad_segment (split_path p) ≡ false)
unfolding clean_config_path InsideOf
clean_config_path-cleaned a roles op root asked p e =
    let i = subst (InsideOf asked) e (check-InsideOf asked) in
    (
      ap check_segments (ap trim_slashes i.is_trimmed ∙ trim_slashes_idem asked) ∙ e,
      ap (λ q. allowed_config a roles q op) i.is_trimmed
          ∙ allowed_config-trim_slashes a roles asked op,
      split_path-append root p,
      i.is_clean,
    )
