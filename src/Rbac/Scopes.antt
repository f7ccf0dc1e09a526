-- ===== src/Rbac/Scopes.antt =====
-- The listings of namespaces and paths against the decisions (internal/rbac/rbac.go).
use devops_tools.Prelude.{Text, ◌≡◌, Bool, true, false, ◌&&◌, ◌||◌, Option, some, none}
use devops_tools.Prelude.{
  List, [], ◌∷◌, any, any_mono, any-sort_by, any-set_add, lookup, arith, Option-cases, ◌==◌,
}
use devops_tools.Prelude.{ap, fun_ext, ◌∙◌, set_add, inl, inr}
use devops_tools.Config.Roles.{RoleSpec, RbacConfig, NamespaceGrant, star}
use devops_tools.Rbac.{
  Authorizer, has_op, any_role, allowed, allowed_config, namespace_grant_allows,
}
use devops_tools.Rbac.{
  config_path_covers, collect_grants, collect_roles, listing, namespaces_for_op,
}
use devops_tools.Rbac.{visible_config_paths, visible_namespaces}

-- What a collected set reaches: everything after a wildcard.
abbrev reaches : (Text → Bool) → Option (List Text) → Bool
reaches cover none = true
reaches cover (some set) = any cover set

module _ (cover : Text → Bool) (all_covered : cover star ≡ true) where
  any-listing : (r : Option (List Text)) → any cover (listing r) ≡ reaches cover r
  unfolding listing any
  any-listing none = ground arith
  any-listing (some set) = any-sort_by (λ s. s) cover set

  module _ {G : Type 0} (wanted : G → Bool) (name : G → Text) where
    collect_grants-reaches :
        (gs : List G) (set : List Text)
        → reaches cover (collect_grants wanted name gs set)
          ≡ (any cover set || any (λ g. wanted g && cover (name g)) gs)
    unfolding collect_grants any
    collect_grants-reaches [] set = ground arith
    collect_grants-reaches (g ∷ gs) set = ground (
      arith,
      collect_grants-reaches gs set,
      collect_grants-reaches gs (set_add (name g) set),
      any-set_add cover (name g) set,
    )

    collect_roles-reaches :
        (cfg : RbacConfig) (grants : RoleSpec → List G) (roles : List Text) (set : List Text)
        → reaches cover (collect_roles wanted name cfg grants roles set) ≡ (
            any cover set
            || any_role cfg (λ spec. any (λ g. wanted g && cover (name g)) (grants spec)) roles)
    unfolding collect_roles any_role any
    collect_roles-reaches cfg grants [] set = ground arith
    collect_roles-reaches cfg grants (role ∷ roles) set =
        elim (Option-cases (lookup role cfg.roles)) [
          | inl missing ↦ ground (arith, collect_roles-reaches cfg grants roles set)
          | inr (spec, found) ↦ elim (Option-cases (collect_grants wanted name (grants spec) set)) [
            | inl wild ↦ ground (arith, collect_grants-reaches (grants spec) set)
            | inr (set', some_set) ↦ ground (
              arith,
              collect_grants-reaches (grants spec) set,
              collect_roles-reaches cfg grants roles set',
            )
          ]
        ]

    any-listing-collect :
        (cfg : RbacConfig) (grants : RoleSpec → List G) (roles : List Text)
        → any cover (listing (collect_roles wanted name cfg grants roles []))
          ≡ any_role cfg (λ spec. any (λ g. wanted g && cover (name g)) (grants spec)) roles
    unfolding any
    any-listing-collect cfg grants roles =
        any-listing (collect_roles wanted name cfg grants roles [])
        ∙ collect_roles-reaches cfg grants roles []

any_role_mono :
    (cfg : RbacConfig) (p q : RoleSpec → Bool) (roles : List Text)
    → ((spec : RoleSpec) → p spec ≡ true → q spec ≡ true)
    → any_role cfg p roles ≡ true
    → any_role cfg q roles ≡ true
unfolding any_role
any_role_mono cfg p q roles weaker = any_mono _ _ roles (λ role h. ground (arith, weaker_at role h))
  where
    weaker_at :
        (role : Text)
        → (elim (lookup role cfg.roles) as (λ _. Bool) [ none ↦ false | some spec ↦ p spec ]) ≡ true
        → (elim (lookup role cfg.roles) as (λ _. Bool) [ none ↦ false | some spec ↦ q spec ]) ≡ true
    weaker_at role h = elim (Option-cases (lookup role cfg.roles)) [
      | inl missing ↦ absurd (ground arith)
      | inr (spec, found) ↦ ground (arith, weaker spec)
    ]

covers-star : (path : Text) → config_path_covers star path ≡ true
unfolding config_path_covers
covers-star path = ground arith

namespace_test :
    (namespace op : Text) (g : NamespaceGrant)
    → (has_op g.operations op && (g.namespace == star || g.namespace == namespace))
      ≡ namespace_grant_allows namespace op g
unfolding namespace_grant_allows
namespace_test namespace op g = ground arith

-- The namespaces listed for an operation, read with the star as all of them, are exactly those
-- where the operation is allowed.
pub any-namespaces_for_op :
    (a : Authorizer) (roles : List Text) (namespace op : Text)
    → any (λ n. n == star || n == namespace) (namespaces_for_op a roles op)
      ≡ allowed a roles namespace op
unfolding namespaces_for_op allowed
any-namespaces_for_op a roles namespace op =
    any-listing-collect (λ n. n == star || n == namespace) (ground arith)
      (λ grant. has_op grant.operations op) (λ grant. grant.namespace) a.cfg
      (λ spec. spec.namespaces) roles
    ∙ ap (λ test. any_role a.cfg (λ spec. any test spec.namespaces) roles)
        (fun_ext (namespace_test namespace op))

-- Where an operation is allowed, the namespace is among the visible ones, or the star is.
pub allowed-visible_namespaces :
    (a : Authorizer) (roles : List Text) (namespace op : Text)
    → allowed a roles namespace op ≡ true
    → any (λ n. n == star || n == namespace) (visible_namespaces a roles) ≡ true
unfolding visible_namespaces allowed
allowed-visible_namespaces a roles namespace op h =
    any-listing-collect (λ n. n == star || n == namespace) (ground arith) (λ _. true)
      (λ grant. grant.namespace) a.cfg (λ spec. spec.namespaces) roles
    ∙ any_role_mono a.cfg _ _ roles
        (λ spec.
          any_mono _ _ spec.namespaces (λ g e. ground (arith, namespace_test namespace op g)))
        h

-- Where an operation is allowed on a configuration path, a visible path covers it.
pub allowed_config-visible_config_paths :
    (a : Authorizer) (roles : List Text) (path op : Text)
    → allowed_config a roles path op ≡ true
    → any (λ g. config_path_covers g path) (visible_config_paths a roles) ≡ true
unfolding visible_config_paths allowed_config
allowed_config-visible_config_paths a roles path op h =
    any-listing-collect (λ g. config_path_covers g path) (covers-star path) (λ _. true)
      (λ g. g.path) a.cfg (λ spec. spec.configs) roles
    ∙ any_role_mono a.cfg _ _ roles (λ spec. any_mono _ _ spec.configs (λ g e. ground arith)) h
