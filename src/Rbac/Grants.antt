-- ===== src/Rbac/Grants.antt =====
-- What it takes for a role to permit an operation (internal/rbac/rbac.go).
use devops_tools.Prelude.{Text, ◌≡◌, ◌↔◌, ◌⊎◌, inl, inr, Bool, true, false, ◌||◌, some}
use devops_tools.Prelude.{
  List, ◌++◌, [], In, any, any-In, any_of_In, lookup, Option-cases, arith, eq_of_==,
}
use devops_tools.Prelude.{subst, Bool-cases, text_dec, any-append}
use devops_tools.Config.Roles.{RoleSpec, RbacConfig, NamespaceGrant, star}
use devops_tools.Rbac.{Authorizer, has_op, any_role, allowed, allowed_global, allowed_config}
use devops_tools.Rbac.{namespace_grant_allows}

-- Some list of operations names the operation, or the star.
pub data Lists (op : Text) (ops : List Text) : Type 0 where
  by_name : In op ops → Lists op ops
  by_star : In star ops → Lists op ops

-- One of the held roles is in the model, and has a grant in this namespace or in all.
pub data Permits (cfg : RbacConfig) (roles : List Text) (namespace op : Text) : Type 0 where
  permit :
      {role : Text} {spec : RoleSpec} {grant : NamespaceGrant}
      → In role roles
      → lookup role cfg.roles ≡ some spec
      → In grant spec.namespaces
      → (grant.namespace ≡ star) ⊎ (grant.namespace ≡ namespace)
      → Lists op grant.operations
      → Permits cfg roles namespace op

has_op-Lists : (op : Text) (ops : List Text) → has_op ops op ≡ true → Lists op ops
unfolding has_op
has_op-Lists op ops h =
    let (o, m, e) = any-In _ ops h in
    elim (text_dec o star) [
      | yes p ↦ by_star (subst (λ x. In x ops) p m)
      | no n ↦ by_name (subst (λ x. In x ops) (eq_of_== o op (ground arith)) m)
    ]

has_op_of_Lists : (op : Text) (ops : List Text) → Lists op ops → has_op ops op ≡ true
unfolding has_op
has_op_of_Lists op ops (by_name m) = any_of_In _ m (ground arith)
has_op_of_Lists op ops (by_star m) = any_of_In _ m (ground arith)

module _ (cfg : RbacConfig) (test : RoleSpec → Bool) where
  any_role-In :
      (roles : List Text)
      → any_role cfg test roles ≡ true
      → (role : Text) × (spec : RoleSpec) × In role roles
        × (lookup role cfg.roles ≡ some spec)
        × (test spec ≡ true)
  unfolding any_role
  any_role-In roles h =
      let (role, m, e) = any-In _ roles h in
      elim (Option-cases (lookup role cfg.roles)) [
        | inl missing ↦ absurd (ground arith)
        | inr (spec, found) ↦ (role, spec, m, found, ground arith)
      ]

  -- A test that fails at every role that the model has.
  any_role-false :
      (roles : List Text)
      → ((role : Text) (spec : RoleSpec) → lookup role cfg.roles ≡ some spec → test spec ≡ false)
      → any_role cfg test roles ≡ false
  any_role-false roles h = elim (Bool-cases (any_role cfg test roles)) [
    | inr e ↦ e
    | inl e ↦
        let (role, spec, _, found, t) = any_role-In roles e in
        absurd (ground (arith, h role spec found))
  ]

  any_role_of_In :
      {role : Text} {roles : List Text} (spec : RoleSpec)
      → In role roles
      → lookup role cfg.roles ≡ some spec
      → test spec ≡ true
      → any_role cfg test roles ≡ true
  unfolding any_role
  any_role_of_In spec m found e = any_of_In _ m (ground arith)

grant_allows :
    (namespace op : Text) (g : NamespaceGrant)
    → namespace_grant_allows namespace op g ≡ true
    → ((g.namespace ≡ star) ⊎ (g.namespace ≡ namespace)) × Lists op g.operations
unfolding namespace_grant_allows
grant_allows namespace op g h = elim (text_dec g.namespace star) [
  | yes p ↦ (inl p, has_op-Lists op g.operations (ground arith))
  | no n ↦ elim (text_dec g.namespace namespace) [
    | yes p ↦ (inr p, has_op-Lists op g.operations (ground arith))
    | no m ↦ absurd (ground arith)
  ]
]

allows_grant :
    (namespace op : Text) (g : NamespaceGrant)
    → (g.namespace ≡ star) ⊎ (g.namespace ≡ namespace)
    → Lists op g.operations
    → namespace_grant_allows namespace op g ≡ true
unfolding namespace_grant_allows
allows_grant namespace op g h l = ground (arith, has_op_of_Lists op g.operations l)

allowed-Permits :
    (a : Authorizer) (roles : List Text) (namespace op : Text)
    → allowed a roles namespace op ≡ true
    → Permits a.cfg roles namespace op
unfolding allowed
allowed-Permits a roles namespace op h =
    let (role, spec, m, found, e) = any_role-In a.cfg _ roles h in
    let (grant, mg, eg) = any-In _ spec.namespaces e in
    let (at, named) = grant_allows namespace op grant eg in permit m found mg at named

allowed_of_Permits :
    (a : Authorizer) (roles : List Text) (namespace op : Text)
    → Permits a.cfg roles namespace op
    → allowed a roles namespace op ≡ true
unfolding allowed
allowed_of_Permits a roles namespace op (permit {spec = spec} {grant = grant} m found mg at named) =
    any_role_of_In a.cfg _ spec m found (any_of_In _ mg (allows_grant namespace op grant at named))

-- A request is allowed exactly when one of the user's roles is in the model and has a grant, in
-- that namespace or in all of them, that lists the operation or the star.
pub allowed_iff :
    (a : Authorizer) (roles : List Text) (namespace op : Text)
    → (allowed a roles namespace op ≡ true) ↔ Permits a.cfg roles namespace op
allowed_iff a roles namespace op =
    (allowed-Permits a roles namespace op, allowed_of_Permits a roles namespace op)

-- Holding two lists of roles permits what the one or the other permits, in a namespace, globally
-- and on a configuration path, and no more.
pub allowed-append :
    (a : Authorizer) (xs ys : List Text) (where_ op : Text)
    → (allowed a (xs ++ ys) where_ op ≡ (allowed a xs where_ op || allowed a ys where_ op))
      × (allowed_global a (xs ++ ys) op ≡ (allowed_global a xs op || allowed_global a ys op))
      × (allowed_config a (xs ++ ys) where_ op
          ≡ (allowed_config a xs where_ op || allowed_config a ys where_ op))
unfolding allowed allowed_global allowed_config any_role
allowed-append a xs ys where_ op = (any-append _ xs ys, any-append _ xs ys, any-append _ xs ys)

-- A namespace grant, however wide, carries no global operation and no configuration path: a
-- model whose roles grant only in namespaces allows neither.
pub namespaces_grant_no_more :
    (a : Authorizer) (roles : List Text) (path op : Text)
    → ((role : Text) (spec : RoleSpec)
        → lookup role a.cfg.roles ≡ some spec
        → (spec.global ≡ []) × (spec.configs ≡ []))
    → (allowed_global a roles op ≡ false) × (allowed_config a roles path op ≡ false)
unfolding allowed_global allowed_config has_op any
namespaces_grant_no_more a roles path op bare = (
  any_role-false a.cfg _ roles (λ role spec found. rw (bare role spec found).0),
  any_role-false a.cfg _ roles (λ role spec found. rw (bare role spec found).1),
)
